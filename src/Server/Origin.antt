-- ===== src/Server/Origin.antt =====
-- main.py: what the startup has made sure of the settings that are read while the program serves.
use selfhost_tip_overlay.Prelude.{
  ℕ, String, ◌≡◌, refl, sym, ap, ◌∙◌, ◌≢◌, Bool, true, false, Option, none, some, [], ◌∷◌, str_eq,
  or_default, if◌then◌else◌,
}
use selfhost_tip_overlay.Prelude.Text.{is_empty, strip}
use selfhost_tip_overlay.Payment.Signature.{Bytes, Env}
use selfhost_tip_overlay.Payment.Base.{Result}
use selfhost_tip_overlay.Payment.Json.{Fields}
use selfhost_tip_overlay.Migrations.{Build, Store}
use selfhost_tip_overlay.Security.Redaction.{Environ}
use selfhost_tip_overlay.Security.Secrets.{setting, is_wildcard, get}
use selfhost_tip_overlay.Security.Ready.{IsReady, IsProvided}
use selfhost_tip_overlay.Security.Boot.{Adapter, serving, boot}
use selfhost_tip_overlay.Security.Serves.{boot-IsStarted}
use selfhost_tip_overlay.Overlay.{is_authorised}
use selfhost_tip_overlay.Server.{allow_origins, overlay_token}

-- One origin is allowed, the value of CORS_ORIGIN, which is not "*", and the overlay's token is the only one that is let in.
pub record IsLocked (environ : Environ) : Type 0 where
  pub origin : String
  pub configured : environ "CORS_ORIGIN" ≡ some origin
  pub allowed : allow_origins environ ≡ origin ∷ []
  pub narrow : origin ≢ "*"
  pub token :
      (given : String)
      → is_authorised (overlay_token environ) given ≡ str_eq given (overlay_token environ)

filled_text :
    (raw val : String)
    → (if is_empty (strip raw) then none else some (strip raw)) ≡ some val
    → is_empty raw ≡ false
unfolding strip
filled_text String.[] val g = cc
filled_text (String.◌∷◌ c s) val g = refl

filled_value : (o : Option String) → is_empty (or_default o "") ≡ false → o ≡ some (or_default o "")
filled_value none h = cc
filled_value (some s) h = refl

star : str_eq (strip "*") "*" ≡ true
unfolding strip
star = refl

module _ (environ : Environ) where
  filled : (key : String) → IsProvided environ key → is_empty (or_default (environ key) "") ≡ false
  unfolding get setting
  filled key (val, g, p) = filled_text (or_default (environ key) "") val g

  IsReady-IsLocked : (lower : String → String) → IsReady lower environ → IsLocked environ
  unfolding allow_origins is_authorised is_wildcard setting
  IsReady-IsLocked lower r = record {
    origin = or_default (environ "CORS_ORIGIN") "";
    configured = filled_value (environ "CORS_ORIGIN") (filled "CORS_ORIGIN" r.set.0);
    allowed = rw (filled "CORS_ORIGIN" r.set.0) refl;
    narrow = λ e. cc (star, sym (ap (λ t. str_eq (strip t) "*") e) ∙ r.origin);
    token = λ given. rw (filled "OVERLAY_TOKEN" r.set.1.0) refl;
  }

-- Once the program serves requests, the CORS middleware allows one origin, the value of
-- CORS_ORIGIN, and that is not "*"; and the routes behind OVERLAY_TOKEN let in the requests that
-- have just that token, and no others, the empty token not being one.
pub boot-IsLocked :
    (lower : String → String) (environ : Environ) (decode : String → Option Bytes) {S : Type 0}
    (build : Build S) (env : Env) (clock : ℕ → ℕ) (shipped user : Result (Option Fields))
    (had_tips had_version_table : Bool) (copied : Option Bool) (s : Store S) (a : Adapter)
    → (boot lower environ decode build env clock shipped user had_tips had_version_table copied s).0
      ≡ serving a
    → IsLocked environ
boot-IsLocked lower environ decode build env clock shipped user had_tips had_version_table copied s
      a h =
    IsReady-IsLocked environ lower
      (boot-IsStarted lower environ decode build env clock shipped user had_tips had_version_table
        copied s a h).ready
