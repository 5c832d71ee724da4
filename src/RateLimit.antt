-- ===== src/RateLimit.antt =====
-- core/ratelimit.py: the sliding-window limiter on POST /api/charge. Times are readings of the
-- monotonic clock in microseconds, and `t <= now - window` is read as `t + window <= now`.
pub mod Window
pub mod Inv
pub mod Budget
mod Tests
use selfhost_tip_overlay.Prelude.{
  ℕ, ◌+◌, String, Bool, true, false, Option, none, some, List, [], ◌∷◌, ◌++◌, ltb, leb, length,
  or_default, if◌then◌else◌,
}
use selfhost_tip_overlay.Prelude.Text.{strip, split, is_empty}
use selfhost_tip_overlay.Prelude.Dict.{Dict, get, put}

-- A request as far as the key reads it: its headers by lower-case name, and the peer's host.
pub record Request : Type 0 where
  pub headers : String → Option String
  pub client : Option String

abbrev pub first : List String → String
first [] = ""
first (p ∷ ps) = p

-- `x or y` on two texts.
abbrev pub or_text : String → String → String
or_text s t = if is_empty s then t else s

unfoldable pub cf_key : Request → String
cf_key r =
    let cf = or_default (r.headers "cf-connecting-ip") "" in
    let forwarded = strip (first (split b',' (or_default (r.headers "x-forwarded-for") ""))) in
    or_text (or_text (or_text cf forwarded) (or_default r.client "")) "unknown"

pub record RateLimiter : Type 0 where
  pub max_requests : ℕ
  pub window : ℕ
  pub max_keys : ℕ
  pub hits : Dict (List ℕ)

-- A hit at `t` has left the window at `now`.
abbrev pub is_out : ℕ → ℕ → ℕ → Bool
is_out window now t = leb (t + window) now

-- `not d or d[-1] <= cutoff`
unfoldable pub is_stale : ℕ → ℕ → List ℕ → Bool
is_stale window now [] = true
is_stale window now (t ∷ []) = is_out window now t
is_stale window now (t ∷ u ∷ d) = is_stale window now (u ∷ d)

unfoldable pub evict_stale : ℕ → ℕ → Dict (List ℕ) → Dict (List ℕ)
evict_stale window now [] = []
evict_stale window now ((k, d) ∷ hits) =
    let rest = evict_stale window now hits in if is_stale window now d then rest else (k, d) ∷ rest

-- `while dq and dq[0] <= cutoff: dq.popleft()`
unfoldable pub prune : ℕ → ℕ → List ℕ → List ℕ
prune window now [] = []
prune window now (t ∷ d) =
    let rest = prune window now d in if is_out window now t then rest else t ∷ d

-- The deque of a key; the dict makes an empty one for a new key.
abbrev pub deque : String → Dict (List ℕ) → List ℕ
deque key hits = or_default (get key hits) []

-- The table after the eviction, which runs only past `max_keys`.
unfoldable pub swept : ℕ → RateLimiter → Dict (List ℕ)
unfolding evict_stale is_stale
swept now l = if ltb l.max_keys (length l.hits) then evict_stale l.window now l.hits else l.hits

-- The test of the budget, once the key's deque is pruned: 429, or one more hit.
unfoldable pub admit : String → ℕ → Dict (List ℕ) → List ℕ → RateLimiter → Bool × RateLimiter
admit key now hits dq l =
    if leb l.max_requests (length dq)
    then (false, record l { hits = put key dq hits })
    else (true, record l { hits = put key (dq ++ now ∷ []) hits })

-- `true` where the hit is recorded, `false` where HTTP 429 is raised.
unfoldable pub check : String → ℕ → RateLimiter → Bool × RateLimiter
unfolding swept prune admit
check key now l =
    let hits = swept now l in admit key now hits (prune l.window now (deque key hits)) l

abbrev pub charge_limiter : RateLimiter
charge_limiter = record { max_requests = 30; window = 60_000_000; max_keys = 10000; hits = [] }
