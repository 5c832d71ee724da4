-- ===== src/Security/Example.antt =====
-- An environment that is complete, with the Omise adapter, and what the startup makes of it.
use selfhost_tip_overlay.Prelude.{
  ℕ, ◌+◌, String, true, false, ◌≡◌, refl, ap, ◌∙◌, arith, Option, none, some, [], str_eq,
  if◌then◌else◌,
}
use selfhost_tip_overlay.Prelude.Text.{strip}
use selfhost_tip_overlay.Payment.Base.{Result, ok}
use selfhost_tip_overlay.Payment.Json.{null, num, get_or, int_of, Fields, field, end}
use selfhost_tip_overlay.Prelude.Int.{pos}
use selfhost_tip_overlay.Stages.{load_settings}
use selfhost_tip_overlay.Wiring.{configure, read_settings}
use selfhost_tip_overlay.Payment.Signature.{Bytes, Env, encode}
use selfhost_tip_overlay.Migrations.{
  Build, Store, init_db, run_migrations, stamp_initial_version, pending_from, backup_then,
  from_version,
}
use selfhost_tip_overlay.Security.Redaction.{Environ, starts_with}
use selfhost_tip_overlay.Security.Secrets.{
  setting, is_placeholder, is_missing, has_placeholder, gateway_required, passed, is_debug,
  is_wildcard, report, check_required, validate, get,
}
use selfhost_tip_overlay.Security.Ready.{IsReady, validate-IsReady}
use selfhost_tip_overlay.Security.SelfTest.{run}
use selfhost_tip_overlay.Security.Vectors.{IsTimely}
use selfhost_tip_overlay.Security.Passes.{IsHmac, run_failures}
use selfhost_tip_overlay.Security.Boot.{Adapter, Boot, serving, wire, boot}
use selfhost_tip_overlay.Security.Serves.{started}

abbrev pub environ : Environ
environ key =
    if str_eq key "PAYMENT_GATEWAY"
    then none
    else if str_eq key "DEBUG"
    then none
    else some "s3cret"

abbrev pub lower : String → String
lower s = s

pub is_valid : validate lower environ ≡ passed (is_debug lower environ)
unfolding validate gateway_required check_required is_missing has_placeholder setting strip
    is_placeholder starts_with report is_wildcard is_debug
is_valid = refl

abbrev pub env : Env
env = record {
  hmac_hex = λ key message. "af";
  loads = λ body. ok null;
  from_iso = λ s. none;
  wall = λ s. 0;
  repr = λ v. "";
}

abbrev pub clock : ℕ → ℕ
clock n = 1_700_000_000_000_000 + n

pub af-IsHmac : (now : ℕ) → IsHmac env now
af-IsHmac now = record {
  hex = λ key message. ground arith;
  filled = λ key message. refl;
  omise = refl;
  stripe = refl;
}

pub first-IsTimely : IsTimely (clock 0) (clock 1)
first-IsTimely = record {
  late = omega arith;
  bounded = omega arith;
  after = omega arith;
  soon = omega arith;
}

pub second-IsTimely : IsTimely (clock 2) (clock 3)
second-IsTimely = record {
  late = omega arith;
  bounded = omega arith;
  after = omega arith;
  soon = omega arith;
}

abbrev pub build : Build ℕ
build = record { baseline = 1; schema = 1; migrations = [] }

abbrev pub store : Store ℕ
store = record { tables = 0; version = some 1; backups = [] }

abbrev pub decode : String → Option Bytes
decode secret = some (encode secret)

pub initialised : (init_db build true true (some true) store).0 ≡ true
unfolding init_db stamp_initial_version run_migrations from_version pending_from backup_then
initialised = refl

pub environ-IsReady : IsReady lower environ
environ-IsReady = (validate-IsReady lower environ).0 is_valid

pub one_origin : is_wildcard lower environ ≡ false
unfolding is_wildcard setting strip
one_origin = refl

pub is_tested : run env lower environ clock ≡ []
is_tested =
    run_failures env lower environ clock (af-IsHmac (clock 0)) first-IsTimely second-IsTimely
    ∙ rw one_origin refl

abbrev pub adapter : Adapter
adapter = Adapter.omise "s3cret" (encode "s3cret")

pub is_wired : wire lower environ decode ≡ some adapter
unfolding wire get setting strip
is_wired = refl

-- A shipped file of settings, and no file of the user.
abbrev pub shipped : Fields
shipped = field "privacy_purge_days" (num (pos 30)) end

abbrev pub files : Result (Option Fields)
files = ok (some shipped)

pub is_loaded : read_settings files (ok none) ≡ ok (load_settings (some shipped) none)
unfolding read_settings
is_loaded = refl

pub is_configured : configure (load_settings (some shipped) none) ≡ ok (pos 30)
unfolding configure load_settings get_or int_of
is_configured = refl

pub is_serving :
    (boot lower environ decode build env clock files (ok none) true true (some true) store).0
    ≡ serving adapter
is_serving =
    ap (λ (x : Boot × Store ℕ). x.0)
      (started lower environ decode build env clock files (ok none) true true (some true) store
        adapter (load_settings (some shipped) none) (pos 30) is_valid is_tested initialised is_wired
        is_loaded is_configured)
