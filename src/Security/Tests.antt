-- ===== src/Security/Tests.antt =====
-- The witnesses, in the environment of Security/Example.
use selfhost_tip_overlay.Prelude.{
  true, false, ◌≡◌, ◌↔◌, refl, arith, none, some, [], ◌∷◌, if◌then◌else◌,
}
use selfhost_tip_overlay.Payment.Base.{ok}
use selfhost_tip_overlay.Prelude.Int.{pos}
use selfhost_tip_overlay.Payment.Signature.{encode}
use selfhost_tip_overlay.Migrations.{init_db}
use selfhost_tip_overlay.Security.Redaction.{starts_with, contains, redact_env_in_str, secret_keys}
use selfhost_tip_overlay.Security.Hidden.{IsHideable, redact_env_in_str_hides}
use selfhost_tip_overlay.Security.Secrets.{passed, is_debug, is_wildcard, validate}
use selfhost_tip_overlay.Security.Ready.{IsReady, validate-IsReady}
use selfhost_tip_overlay.Security.SelfTest.{origin_wildcard, run}
use selfhost_tip_overlay.Security.Passes.{run_failures}
use selfhost_tip_overlay.Security.Boot.{Adapter, serving, boot}
use selfhost_tip_overlay.Security.Serves.{IsStarted, boot-IsStarted, boot_serves}
use selfhost_tip_overlay.Stages.{load_settings}
use selfhost_tip_overlay.Security.Example.{
  files, shipped, is_loaded, is_configured, environ, lower, env, clock, af-IsHmac, first-IsTimely,
  second-IsTimely, build, store, decode, initialised, environ-IsReady, adapter, is_serving,
}

validate-IsReady_example :
    (validate lower environ ≡ passed (is_debug lower environ)) ↔ IsReady lower environ
validate-IsReady_example = validate-IsReady lower environ

s3cret-IsHideable : IsHideable "s3cret"
unfolding contains starts_with
s3cret-IsHideable = record { filled = refl; plain = ground arith; other = refl }

redact_env_in_str_hides_example :
    contains "s3cret" (redact_env_in_str environ secret_keys "key s3cret, s3cret") ≡ false
redact_env_in_str_hides_example =
    redact_env_in_str_hides environ ("OMISE_SECRET_KEY" ∷ [])
      ("CLOUDFLARE_TUNNEL_TOKEN" ∷ "OBS_WS_PASSWORD" ∷ "OVERLAY_TOKEN" ∷ []) "OMISE_WEBHOOK_SECRET"
      "key s3cret, s3cret" s3cret-IsHideable

run_failures_example :
    run env lower environ clock ≡ (if is_wildcard lower environ then origin_wildcard ∷ [] else [])
run_failures_example =
    run_failures env lower environ clock (af-IsHmac (clock 0)) first-IsTimely second-IsTimely

boot_serves_example :
    (a : Adapter) × (boot lower environ decode build env clock files
        (ok none)
        true
        true
        (some true)
        store
      ≡ (serving a, (init_db build true true (some true) store).1))
boot_serves_example =
    boot_serves lower environ decode build env clock files (ok none) true true (some true) store
      (load_settings (some shipped) none) (pos 30) environ-IsReady is_loaded is_configured
      (af-IsHmac (clock 0)) first-IsTimely second-IsTimely initialised
      (λ secret h. (encode secret, refl))

boot-IsStarted_example :
    IsStarted lower environ decode build env clock files
      (ok none)
      true
      true
      (some true)
      store
      adapter
boot-IsStarted_example =
    boot-IsStarted lower environ decode build env clock files (ok none) true true (some true) store
      adapter is_serving
