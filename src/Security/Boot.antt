-- ===== src/Security/Boot.antt =====
-- main.py: the order of the startup and what ends it. `base64.b64decode` is a parameter.
use selfhost_tip_overlay.Prelude.{
  ℕ, String, Bool, true, false, Option, none, some, List, [], ◌∷◌, str_eq, if◌then◌else◌,
}
use selfhost_tip_overlay.Payment.Signature.{Bytes, Env, encode}
use selfhost_tip_overlay.Prelude.Int.{ℤ}
use selfhost_tip_overlay.Payment.Base.{Result, ok, raise}
use selfhost_tip_overlay.Payment.Json.{Json, Fields}
use selfhost_tip_overlay.Wiring.{configure, read_settings}
use selfhost_tip_overlay.Migrations.{Build, Store, init_db}
use selfhost_tip_overlay.Security.Redaction.{Environ}
use selfhost_tip_overlay.Security.Secrets.{
  Startup, unknown_gateway, refused, wildcard, passed, gateway_name, validate, get,
}
use selfhost_tip_overlay.Security.SelfTest.{Failure, run}

-- The adapter with its API key and its webhook key.
pub data Adapter : Type 0 where
  omise stripe : String → Bytes → Adapter

pub data Boot : Type 0 where
  invalid : Startup → Boot
  failed : List Failure → Boot
  no_database : Boot
  no_gateway : Boot
  no_settings : Boot
  serving : Adapter → Boot

abbrev both {ℓ κ} : {A : Type ℓ} {B : Type κ} → Option A → Option A → (A → A → Option B) → Option B
both none y f = none
both (some a) none f = none
both (some a) (some b) f = f a b

-- `OmiseAdapter.__init__`, after `base64.b64decode`: `none` is its ValueError.
abbrev omise_adapter : String → Option Bytes → Option Adapter
omise_adapter skey none = none
omise_adapter skey (some key) = some (omise skey key)

-- `StripeAdapter.__init__`: the secret is the key as it is.
abbrev stripe_adapter : String → String → Adapter
stripe_adapter skey secret = stripe skey (encode secret)

-- The adapter, then the conversions of the settings.
abbrev pub served : Option Adapter → Result ℤ → Boot
served none days = no_gateway
served (some a) (raise e) = no_settings
served (some a) (ok days) = serving a

module _ (lower : String → String) (environ : Environ) (decode : String → Option Bytes) where
  -- The adapter of the selected gateway: `none` for SecretError, and for ValueError where the webhook
  -- secret is not base64.
  unfoldable pub wire : Option Adapter
  unfolding get
  wire =
      if str_eq (gateway_name lower environ) "stripe"
      then both (get environ "STRIPE_SECRET_KEY") (get environ "STRIPE_WEBHOOK_SECRET")
          (λ skey secret. some (stripe_adapter skey secret))
      else both (get environ "OMISE_SECRET_KEY") (get environ "OMISE_WEBHOOK_SECRET")
          (λ skey secret. omise_adapter skey (decode secret))

  module _ {S : Type 0} (build : Build S) where
    -- From the result of `init_db` on.
    abbrev pub after_init : Json → Bool × Store S → Boot × Store S
    after_init settings (true, s) = (served wire (configure settings), s)
    after_init settings (false, s) = (no_database, s)

    abbrev pub after_settings : Result Json → Bool × Store S → Store S → Boot × Store S
    after_settings (raise e) initialised s = (no_settings, s)
    after_settings (ok settings) initialised s = after_init settings initialised

    abbrev pub after_tests : List Failure → Result Json → Bool × Store S → Store S → Boot × Store S
    after_tests [] files initialised s = after_settings files initialised s
    after_tests (f ∷ fs) files initialised s = (failed (f ∷ fs), s)

    abbrev pub after_validate :
        Startup → List Failure → Result Json → Bool × Store S → Store S → Boot × Store S
    after_validate unknown_gateway failures files initialised s = (invalid unknown_gateway, s)
    after_validate (refused m p) failures files initialised s = (invalid (refused m p), s)
    after_validate wildcard failures files initialised s = (invalid wildcard, s)
    after_validate (passed debug) failures files initialised s =
        after_tests failures files initialised s

    -- The startup up to the first request, with the store of the database file. `shipped` and
    -- `user` are what reading the two settings files gives.
    unfoldable pub boot :
        Env
        → (ℕ → ℕ)
        → Result (Option Fields)
        → Result (Option Fields)
        → Bool
        → Bool
        → Option Bool
        → Store S
        → Boot × Store S
    unfolding wire validate run init_db read_settings
    boot env clock shipped user had_tips had_version_table copied s =
        after_validate (validate lower environ) (run env lower environ clock)
          (read_settings shipped user) (init_db build had_tips had_version_table copied s) s
