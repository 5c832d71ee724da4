-- ===== src/Security/Secrets.antt =====
-- core/security/secrets.py: `validate` and `get`.
use selfhost_tip_overlay.Prelude.{
  String, Bool, false, not, ◌&&◌, ◌||◌, Option, none, some, List, [], ◌∷◌, ◌++◌, select, str_eq,
  if◌then◌else◌, or_default,
}
use selfhost_tip_overlay.Prelude.Text.{is_empty, strip}
use selfhost_tip_overlay.Security.Redaction.{Environ, starts_with}

abbrev pub placeholders : List String
placeholders =
    "CHANGEME" ∷ "changeme" ∷ "xxx" ∷ "XXX" ∷ "your_secret_here" ∷ "..." ∷ "replace_me"
    ∷ "REPLACE_ME" ∷ "TODO" ∷ "todo" ∷ "skey_test_CHANGEME" ∷ "skey_live_CHANGEME"
    ∷ "sk_test_CHANGEME" ∷ "sk_live_CHANGEME" ∷ "whsec_CHANGEME" ∷ []

abbrev pub common_required : List String
common_required = "CORS_ORIGIN" ∷ "OVERLAY_TOKEN" ∷ "OBS_WS_PASSWORD" ∷ []

-- `_GATEWAY_REQUIRED.get(gateway)`
unfoldable pub gateway_required : String → Option (List String)
gateway_required gateway =
    if str_eq gateway "omise"
    then some ("OMISE_SECRET_KEY" ∷ "OMISE_WEBHOOK_SECRET" ∷ [])
    else if str_eq gateway "stripe"
    then some ("STRIPE_SECRET_KEY" ∷ "STRIPE_WEBHOOK_SECRET" ∷ [])
    else none

-- `os.environ.get(key, "").strip()`
unfoldable pub setting : Environ → String → String
unfolding strip
setting environ key = strip (or_default (environ key) "")

abbrev pub is_in : String → List String → Bool
is_in s [] = false
is_in s (t ∷ ts) = str_eq s t || is_in s ts

unfoldable pub is_placeholder : String → Bool
unfolding starts_with
is_placeholder val = is_in val placeholders || starts_with "CHANGEME" val

unfoldable pub is_missing : Environ → String → Bool
is_missing environ key = is_empty (setting environ key)

unfoldable pub has_placeholder : Environ → String → Bool
unfolding is_placeholder
has_placeholder environ key =
    not (is_empty (setting environ key)) && is_placeholder (setting environ key)

-- Where the program stops with status 1, what it prints; else whether it warns of DEBUG.
pub data Startup : Type 0 where
  unknown_gateway : Startup
  refused : List String → List String → Startup
  wildcard : Startup
  passed : Bool → Startup

-- The functions of the environment that the checks read, with `str.lower`.
module _ (lower : String → String) (environ : Environ) where
  abbrev pub gateway_name : String
  gateway_name = lower (strip (or_default (environ "PAYMENT_GATEWAY") "omise"))

  unfoldable pub is_debug : Bool
  is_debug = is_in (lower (or_default (environ "DEBUG") "false")) ("1" ∷ "true" ∷ "yes" ∷ [])

  unfoldable pub is_wildcard : Bool
  unfolding setting
  is_wildcard = str_eq (setting environ "CORS_ORIGIN") "*"

  -- After the lists of the missing keys and of those with placeholders.
  unfoldable pub report : List String → List String → Startup
  unfolding is_wildcard is_debug
  report [] [] = if is_wildcard then wildcard else passed is_debug
  report (key ∷ missing) placeholder = refused (key ∷ missing) placeholder
  report [] (key ∷ placeholder) = refused [] (key ∷ placeholder)

  unfoldable pub check_required : List String → Startup
  unfolding report is_missing has_placeholder
  check_required required =
      report (select (is_missing environ) required) (select (has_placeholder environ) required)

  unfoldable pub validate : Startup
  unfolding check_required gateway_required
  validate = elim (gateway_required gateway_name) [
    | none ↦ unknown_gateway
    | some required ↦ check_required (common_required ++ required)
  ]

-- `get(key)`: `none` is SecretError.
unfoldable pub get : Environ → String → Option String
unfolding setting
get environ key = if is_empty (setting environ key) then none else some (setting environ key)
