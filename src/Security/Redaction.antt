-- ===== src/Security/Redaction.antt =====
-- core/security/log.py: `redact_env_in_str` and `safe_event`.
use selfhost_tip_overlay.Prelude.{
  ℕ, zero, suc, ◌-◌, String, Bool, true, false, not, ◌&&◌, ◌||◌, Option, none, some, List, [], ◌∷◌,
  ◌==◌, if◌then◌else◌, or_default,
}
use selfhost_tip_overlay.Prelude.Text.{is_empty, len}
use selfhost_tip_overlay.Prelude.Dict.{Dict, get, put}
use selfhost_tip_overlay.Payment.Json.{Json, str}
use Prim.Native.Char.{code}

abbrev pub secret_keys : List String
secret_keys =
    "OMISE_SECRET_KEY" ∷ "OMISE_WEBHOOK_SECRET" ∷ "CLOUDFLARE_TUNNEL_TOKEN" ∷ "OBS_WS_PASSWORD"
    ∷ "OVERLAY_TOKEN" ∷ []

-- `s.startswith(p)`
unfoldable pub starts_with : String → String → Bool
starts_with String.[] s = true
starts_with (String.◌∷◌ c p) String.[] = false
starts_with (String.◌∷◌ c p) (String.◌∷◌ d s) = code c == code d && starts_with p s

-- `p in s`
unfoldable pub contains : String → String → Bool
unfolding starts_with
contains p String.[] = starts_with p String.[]
contains p (String.◌∷◌ c s) = starts_with p (String.◌∷◌ c s) || contains p s

-- `s + t`
abbrev pub join : String → String → String
join String.[] t = t
join (String.◌∷◌ c s) t = String.◌∷◌ c (join s t)

-- `s.replace(old, new)` for an `old` that is not empty: from the left, each occurrence that starts
-- where the one before has ended. The number counts the characters of an occurrence that are left to
-- skip.
unfoldable pub replace_from : String → String → ℕ → String → String
unfolding starts_with
replace_from old new skip String.[] = String.[]
replace_from old new (suc skip) (String.◌∷◌ c s) = replace_from old new skip s
replace_from old new zero (String.◌∷◌ c s) = elim (starts_with old (String.◌∷◌ c s)) [
  | true ↦ join new (replace_from old new (len old - 1) s)
  | false ↦ String.◌∷◌ c (replace_from old new zero s)
]

abbrev pub redacted : String
redacted = "[REDACTED]"

-- One turn of the loop over the keys.
unfoldable pub redact : String → String → String
unfolding contains replace_from
redact val s = if not (is_empty val) && contains val s then replace_from val redacted zero s else s

-- `os.environ`
abbrev pub Environ : Type 0
Environ = String → Option String

-- The loop; a set is iterated in an order that is not fixed, so the keys come as a list.
unfoldable pub redact_env_in_str : Environ → List String → String → String
unfolding redact
redact_env_in_str environ [] s = s
redact_env_in_str environ (key ∷ keys) s =
    redact_env_in_str environ keys (redact (or_default (environ key) "") s)

-- The loop of `safe_event` over the keys that may be logged.
unfoldable pub add_fields : List String → Dict Json → Dict Json → Dict Json
add_fields [] kwargs entry = entry
add_fields (key ∷ keys) kwargs entry =
    add_fields keys kwargs (elim (get key kwargs) [ none ↦ entry | some v ↦ put key v entry ])

unfoldable pub safe_event : String → String → Dict Json → Dict Json
unfolding add_fields
safe_event event_type charge_id kwargs =
    add_fields ("status" ∷ "amount" ∷ "error_code" ∷ "count" ∷ []) kwargs
      (("event", str event_type) ∷ ("charge_id", str charge_id) ∷ [])
