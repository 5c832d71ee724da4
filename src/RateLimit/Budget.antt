-- ===== src/RateLimit/Budget.antt =====
-- core/ratelimit.py: `RateLimiter.check` over a sequence of requests.
use selfhost_tip_overlay.Prelude.{ℕ, ◌≤◌, String, ◌≡◌, refl, ◌∙◌, List, [], ◌∷◌, arith, ltb, count}
use selfhost_tip_overlay.Prelude.Dict.{get}
use selfhost_tip_overlay.RateLimit.{RateLimiter, admit, check}
use selfhost_tip_overlay.RateLimit.Window.{live}
use mathlib.Core.Path.{ap₂}
use selfhost_tip_overlay.RateLimit.Inv.{KeyInv, in_window, noted, check-KeyInv, check-KeyInv_exact}

-- Calls of `check`, in order.
unfoldable pub run : List (String × ℕ) → RateLimiter → RateLimiter
run [] l = l
run ((j, now) ∷ calls) l = run calls (check j now l).1

-- The times at which the calls for the key `k` were let through, newest first, onto those before.
unfoldable pub accepted : String → List (String × ℕ) → RateLimiter → List ℕ → List ℕ
accepted k [] l before = before
accepted k ((j, now) ∷ calls) l before =
    let (ok, l') = check j now l in accepted k calls l' (noted k j now ok before)

-- The clock never goes back, from `now` to the time of the last call.
abbrev pub Timed : ℕ → List (String × ℕ) → Type 0
Timed now [] = Unit
Timed now ((j, t) ∷ calls) = (now ≤ t) × Timed t calls

abbrev pub last_time : ℕ → List (String × ℕ) → ℕ
last_time now [] = now
last_time now ((j, t) ∷ calls) = last_time t calls

run-KeyInv :
    (k : String) (calls : List (String × ℕ)) (now : ℕ) (l : RateLimiter) (before : List ℕ)
    → Timed now calls
    → KeyInv k now l before
    → KeyInv k (last_time now calls) (run calls l) (accepted k calls l before)
unfolding run accepted
run-KeyInv k [] now l before h key = key
run-KeyInv k ((j, t) ∷ calls) now l before h key =
    run-KeyInv k calls t (check j t l).1 (noted k j t (check j t l).0 before) h.1
      (check-KeyInv k j now t l before h.0 key)

max_requests-run :
    (calls : List (String × ℕ)) (l : RateLimiter)
    → ((run calls l).max_requests ≡ l.max_requests) × ((run calls l).window ≡ l.window)
unfolding run check admit
max_requests-run [] l = (refl, refl)
max_requests-run ((j, t) ∷ calls) l = ground (arith, max_requests-run calls (check j t l).1)

-- A limiter that has seen no call yet.
abbrev pub new : ℕ → ℕ → ℕ → RateLimiter
new max_requests window max_keys = record {
  max_requests = max_requests;
  window = window;
  max_keys = max_keys;
  hits = [];
}

new-KeyInv : (k : String) (m w keys now : ℕ) → KeyInv k now (new m w keys) []
new-KeyInv k m w keys now =
    unfold get in
    record {
      distinct = tt;
      inv = record { same = λ t l. refl; rises = tt; past = tt; within = λ t. omega arith };
    }

module _ (k : String) (m w keys : ℕ) (calls : List (String × ℕ)) (start : ℕ)
    (timed : Timed start calls) where
  abbrev final : RateLimiter
  final = run calls (new m w keys)

  final-KeyInv : KeyInv k (last_time start calls) final (accepted k calls (new m w keys) [])
  final-KeyInv = run-KeyInv k calls start (new m w keys) [] timed (new-KeyInv k m w keys start)

  -- For calls with times that never fall on a limiter that starts empty: however the calls of all
  -- keys mix, and whenever keys are evicted, no window of the given length, wherever it ends, holds
  -- more than `m` calls of one key that were let through.
  pub budget : (t : ℕ) → count (in_window w t) (accepted k calls (new m w keys) []) ≤ m
  budget t = ground (arith, final-KeyInv.inv.within t, max_requests-run calls (new m w keys))

  -- After calls with times that never fall on a limiter that started empty, a call that is not
  -- earlier than the last is let through exactly if fewer than `m` calls of its key that were let
  -- through are in the window at that time.
  pub check_exact :
      (now : ℕ)
      → last_time start calls ≤ now
      → (check k now final).0 ≡ ltb (live w now (accepted k calls (new m w keys) [])) m
  check_exact now h =
      let same = max_requests-run calls (new m w keys) in
      check-KeyInv_exact k (last_time start calls) now final (accepted k calls (new m w keys) []) h
        final-KeyInv
      ∙ ap₂ (λ w' m'. ltb (live w' now (accepted k calls (new m w keys) [])) m') same.1 same.0
