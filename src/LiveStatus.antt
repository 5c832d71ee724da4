-- ===== src/LiveStatus.antt =====
-- app/obs_client.py: whether the streamer is live, asked of OBS over a WebSocket and kept for three
-- seconds. Times are readings of the monotonic clock in microseconds.
mod Challenge
mod Closed
mod Tests
use selfhost_tip_overlay.Prelude.{
  ℕ, zero, ◌+◌, String, Bool, true, false, not, ◌&&◌, Option, none, some, ltb, ◌==◌, if◌then◌else◌,
}
use selfhost_tip_overlay.Prelude.Int.{ℤ, pos}
use selfhost_tip_overlay.Prelude.Text.{is_empty}
use selfhost_tip_overlay.Payment.Base.{
  Result, ok, raise, attribute_error, type_error, key_error, ◌>>=◌,
}
use selfhost_tip_overlay.Payment.Json.{
  Json, null, bool, num, str, arr, obj, empty_dict, find_field, get, get_or, item, is_truthy,
}

-- `v == n` on what `json.loads` returns: True and False are the numbers 1 and 0.
unfoldable pub is_num : ℕ → Json → Bool
is_num n (num (pos m)) = m == n
is_num n (bool b) = (if b then 1 else 0) == n
is_num n v = false

abbrev or_null : Option Json → Json
or_null none = null
or_null (some v) = v

-- `password + x`: TypeError unless `x` is a text.
unfoldable pub appended : Json → Result (Unit {0})
appended (str s) = ok tt
appended x = raise type_error

-- The answer to the challenge in Hello, as far as it can fail: it is built where Hello asks for one
-- and a password is set.
unfoldable pub authenticate : String → Json → Result (Unit {0})
unfolding get get_or is_truthy item appended
authenticate password hello = get_or "d" empty_dict hello >>= get "authentication" >>= λ auth.
    if is_truthy (or_null auth) && not (is_empty password)
    then (item "salt" (or_null auth) >>= appended >>= λ _.
        item "challenge" (or_null auth) >>= appended)
    else ok tt

unfoldable pub output_active : Json → Result Bool
unfolding get_or is_truthy
output_active resp =
    get_or "d" empty_dict resp
    >>= get_or "responseData" empty_dict
    >>= get_or "outputActive" (bool false)
    >>= λ v. ok (is_truthy v)

-- The protocol, on the three messages that OBS sends; a message is an exception where the
-- connection fails or times out.
unfoldable pub protocol : String → Result Json → Result Json → Result Json → Result Bool
unfolding get is_num
protocol password hello identified resp = hello >>= λ h. get "op" h >>= λ op.
    if not (is_num 0 (or_null op))
    then ok false
    else (authenticate password h >>= λ _. identified >>= λ i. get "op" i >>= λ op2.
        if not (is_num 2 (or_null op2)) then ok false else resp >>= output_active)

-- Every exception answers False.
unfoldable pub fetch_live_status : String → Result Json → Result Json → Result Json → Bool
unfolding protocol
fetch_live_status password hello identified resp = elim (protocol password hello identified resp) [
  | ok b ↦ b
  | raise e ↦ false
]

pub record LiveCache : Type 0 where
  pub value : Option Bool
  pub ts : ℕ

abbrev pub cache_ttl : ℕ
cache_ttl = 3_000_000

-- `fetched` is what `_fetch_live_status` answers, if it is asked; `now` and `later` are the clock
-- before and after.
unfoldable pub get_live_status : Bool → ℕ → ℕ → LiveCache → Bool × LiveCache
get_live_status fetched now later c =
    let fresh : LiveCache = record { value = some fetched; ts = later } in
    elim c.value [
      | none ↦ (fetched, fresh)
      | some v ↦ if ltb now (c.ts + cache_ttl) then (v, c) else (fetched, fresh)
    ]
