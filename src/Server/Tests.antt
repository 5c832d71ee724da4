-- ===== src/Server/Tests.antt =====
-- Requests without a token, and the settings of the example.
use selfhost_tip_overlay.Prelude.{◌≡◌, refl, true, false, none, some, [], ◌∷◌, List}
use selfhost_tip_overlay.Prelude.Int.{pos}
use selfhost_tip_overlay.Payment.Base.{ok}
use selfhost_tip_overlay.Payment.Charges.{Gateway}
use selfhost_tip_overlay.RateLimit.{Request}
use selfhost_tip_overlay.Security.Example.{
  files, lower, environ, decode, build, env, clock, store, adapter, is_serving,
}
use selfhost_tip_overlay.Payment.Omise.{provided_sigs}
use selfhost_tip_overlay.Overlay.{is_authorised}
use selfhost_tip_overlay.Charge.{Site}
use selfhost_tip_overlay.Server.{
  Service, Call, webhook, charge, overlay, replay, dev_test_tip, serve_all, is_dev,
}
use selfhost_tip_overlay.Server.Trusted.{IsQuiet, any_trusted, serve_all-IsQuiet}
use selfhost_tip_overlay.Server.Origin.{IsLocked, boot-IsLocked}

abbrev gateway : Gateway
gateway = record { create_charge = λ amount name message. none; proxy_qr = λ uri. none }

abbrev service : Service
service = record {
  environ = environ;
  env = env;
  adapter = adapter;
  gateway = gateway;
  pipeline = λ e. none;
}

abbrev site : Site
site = record {
  app = record {
    db = record { tips = []; recon_state = none };
    qr_cache = [];
    hub = record { subscribers = []; queue = λ q. []; next = 0 };
    sent = [];
  };
  limiter = record { max_requests = 30; window = 60; max_keys = 5; hits = [] };
  live = record { value = none; ts = 0 };
}

abbrev stranger : Request
stranger = record { headers = λ h. none; client = none }

-- A forged webhook, a request for a charge, an overlay with a wrong token, a replay without one, and
-- a simulated tip with the token, which is not mounted.
abbrev calls : List Call
calls =
    webhook 1 2 3 [] (λ h. some "ff")
    ∷ charge stranger
        (record { amount = pos 5000; currency = "thb"; supporter_name = "Ann"; message = "hi" })
        true 4 5 6 7
    ∷ overlay "guess" none
    ∷ replay "" "c1" 8 (λ a. a)
    ∷ dev_test_tip "s3cret" "Ann" (pos 5000) "hi" 9
    ∷ []

untrusted : any_trusted service calls ≡ false
unfolding is_dev is_authorised provided_sigs
untrusted = refl

serve_all-IsQuiet_example : IsQuiet site.app (serve_all service calls site).app
serve_all-IsQuiet_example = serve_all-IsQuiet service calls site untrusted

boot-IsLocked_example : IsLocked environ
boot-IsLocked_example =
    boot-IsLocked lower environ decode build env clock files (ok none) true true (some true) store
      adapter is_serving
