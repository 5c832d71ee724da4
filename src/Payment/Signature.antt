-- ===== src/Payment/Signature.antt =====
-- What the two adapters share in the verification of a webhook: the replay window, the signed
-- bytes and the comparison with the provided signatures.
use selfhost_tip_overlay.Prelude.{
  ℕ, suc, ◌+◌, ◌-◌, ◌*◌, ◌/◌, ◌%◌, ◌^◌, String, Bool, true, false, ◌&&◌, Option, List, [], ◌∷◌,
  ◌++◌, leb, ltb, str_eq, if◌then◌else◌,
}
use selfhost_tip_overlay.Prelude.Int.{ℤ, pos, negsuc, pos_part, neg_part}
use selfhost_tip_overlay.Prelude.Text.{is_ascii}
use Prim.Native.Char.{code}
use selfhost_tip_overlay.Payment.Base.{
  Result, ok, raise, signature_error, replay_error, overflow_error, type_error, ◌>>=◌,
}
use selfhost_tip_overlay.Payment.Json.{Json}

abbrev pub Bytes : Type 0
Bytes = List ℕ

-- `request.headers`, by lower-case name.
abbrev pub Headers : Type 0
Headers = String → Option String

-- The functions of Python's library that the adapters call: HMAC-SHA256 in hex of a key and a
-- message, `json.loads`, `datetime.fromisoformat` (`from_iso` to UTC, and `wall` the date
-- and time as written, without the offset), and `str` of numbers and containers.
pub record Env : Type 0 where
  pub hmac_hex : Bytes → Bytes → String
  pub loads : Bytes → Result Json
  pub from_iso : String → Option ℕ
  pub wall : String → ℕ
  pub repr : Json → String

-- UTF-8 of one character.
utf8 : ℕ → Bytes
utf8 c =
    if ltb c 0x80
    then c ∷ []
    else if ltb c 0x800
    then (0xc0 + c / 64) ∷ (0x80 + c % 64) ∷ []
    else if ltb c 0x10000
    then (0xe0 + c / 4096) ∷ (0x80 + c / 64 % 64) ∷ (0x80 + c % 64) ∷ []
    else (0xf0 + c / 262144) ∷ (0x80 + c / 4096 % 64) ∷ (0x80 + c / 64 % 64) ∷ (0x80 + c % 64) ∷ []

-- `s.encode()`
unfoldable pub encode : String → Bytes
unfolding utf8
encode String.[] = []
encode (String.◌∷◌ c s) = utf8 (code c) ++ encode s

-- `ts_str.encode() + b"." + raw_body`
abbrev pub signed : String → Bytes → Bytes
signed ts_str raw_body = encode ts_str ++ (b'.' ∷ raw_body)

-- REPLAY_WINDOW, in microseconds.
abbrev pub replay_window : ℕ
replay_window = 300_000_000

-- |now - ts|, for a clock in microseconds and a timestamp in seconds.
unfoldable pub age : ℕ → ℤ → ℕ
age now (pos n) = (now - n * 1_000_000) + (n * 1_000_000 - now)
age now (negsuc n) = now + suc n * 1_000_000

-- An integer from here on does not convert to a float: OverflowError.
abbrev pub float_limit : ℕ
float_limit = 2 ^ 1024 - 2 ^ 970

-- `if abs(time.time() - ts_int) > REPLAY_WINDOW: raise ReplayError`
unfoldable pub check_window : ℕ → ℤ → Result (Unit {0})
unfolding age
check_window now ts =
    if leb float_limit (pos_part ts + neg_part ts)
    then raise overflow_error
    else if ltb replay_window (age now ts)
    then raise replay_error
    else ok tt

-- `hmac.compare_digest` on two strings: TypeError unless both are ASCII.
unfoldable pub compare_digest : String → String → Result Bool
unfolding is_ascii
compare_digest a b = if is_ascii a && is_ascii b then ok (str_eq a b) else raise type_error

-- `any(hmac.compare_digest(expected, sig) for sig in sigs)`
unfoldable pub any_match : String → List String → Result Bool
unfolding compare_digest
any_match expected [] = ok false
any_match expected (s ∷ sigs) =
    compare_digest expected s >>= λ b. elim b [ true ↦ ok true | false ↦ any_match expected sigs ]

-- The comparison and what follows it, the same text in both adapters.
unfoldable pub finish : Env → Bytes → String → List String → Bytes → Result Json
unfolding any_match
finish env key ts_str sigs raw_body =
    any_match (env.hmac_hex key (signed ts_str raw_body)) sigs >>= λ b. elim b [
      | true ↦ env.loads raw_body
      | false ↦ raise signature_error
    ]
