-- ===== src/Reconciliation/Tests.antt =====
-- The scan on a small list of charges, and the witnesses.
use selfhost_tip_overlay.Prelude.{ℕ, ◌+◌, String, some, List, [], ◌∷◌}
use selfhost_tip_overlay.Prelude.Int.{pos}
use selfhost_tip_overlay.Contracts.{hold}
use selfhost_tip_overlay.Db.Trace.{empty}
use selfhost_tip_overlay.Payment.Json.{Json, end}
use selfhost_tip_overlay.Webhook.{App, Pipeline}
use selfhost_tip_overlay.Payment.Charges.{ChargeData}
use selfhost_tip_overlay.Payment.Stripe.Tests as StripeTests
use selfhost_tip_overlay.Payment.Stripe.Listing as StripeListing
use selfhost_tip_overlay.Reconciliation.Gateway
use selfhost_tip_overlay.Reconciliation.{scan}

abbrev fresh_app : App
fresh_app = record {
  db = empty;
  qr_cache = [];
  hub = record { subscribers = []; queue = λ q. []; next = 0 };
  sent = [];
}

abbrev charge : String → String → ℕ → ChargeData
charge id status paid_at = record {
  charge_id = id;
  amount = pos 5000;
  currency = "thb";
  status = status;
  metadata = end;
  paid_at = some paid_at;
  paid_wall = some paid_at;
  source_type = "promptpay";
}

-- A late one, one that was never paid and an early one.
abbrev listed : List ChargeData
listed =
    charge "c2" "successful" 800_000_000
    ∷ charge "c3" "failed" 20
    ∷ charge "c1" "successful" 10
    ∷ []

abbrev holding : Pipeline
holding e = some hold

abbrev repr : Json → String
repr v = "{}"

abbrev scanned : App
scanned =
    scan holding repr 900_000_000 600 (λ n. n + 900_000_000) (some listed) 900_000_100 fresh_app
