-- ===== src/Reconciliation/Gateway.antt =====
-- app/reconciliation.py: `run` with the adapters' `list_recent`.
use selfhost_tip_overlay.Prelude.{ℕ, ◌≡◌, Option, none, some, List, All}
use selfhost_tip_overlay.Payment.Base.{Result, ok, raise}
use selfhost_tip_overlay.Payment.Json.{Json}
use selfhost_tip_overlay.Payment.Charges.{ChargeData}
use selfhost_tip_overlay.Payment.Signature.{Env}
use selfhost_tip_overlay.Payment.Omise.Listing
use selfhost_tip_overlay.Payment.Omise.Pages
use selfhost_tip_overlay.Payment.Stripe.Pages as StripePages
use selfhost_tip_overlay.Payment.Stripe.Listing as StripeListing
use selfhost_tip_overlay.Webhook.{App, Pipeline}
use selfhost_tip_overlay.Reconciliation.Complete.{IsDone}

-- What `run` goes on with: nothing where `list_recent` raised.
abbrev pub listed : Option (Result (List ChargeData)) → Option (List ChargeData)
listed none = none
listed (some (raise e)) = none
listed (some (ok cs)) = some cs

module _ (pipeline : Pipeline) (env : Env) (startup secs : ℕ) (clock : ℕ → ℕ) where
  -- What the scan leaves: every paid charge of the list done and the cursor moved; and the state as
  -- it was where reading the list fails.
  abbrev pub Reconciled : Result (List ChargeData) → ℕ → App → App → Type 0
  Reconciled (ok cs) later before after =
      All (IsDone pipeline env.repr startup secs clock after) cs
      × (after.db.recon_state ≡ some (some later))
  Reconciled (raise e) later before after = after ≡ before
