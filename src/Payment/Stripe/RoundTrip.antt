-- ===== src/Payment/Stripe/RoundTrip.antt =====
-- core/payment/stripe.py: what is sent when a charge is made, and what its webhook says.
use selfhost_tip_overlay.Prelude.{◌≤◌, String, ◌≡◌, refl, ◌∙◌, none, some}
use selfhost_tip_overlay.Prelude.Int.{ℤ, pos}
use selfhost_tip_overlay.Prelude.Text.{prefix, len}
use selfhost_tip_overlay.Payment.Base.{ok}
use selfhost_tip_overlay.Payment.Json.{
  Json, num, str, empty_dict, get, get_or, is_str, is_truthy, text, int_of, str_of,
}
use selfhost_tip_overlay.Payment.Signature.{Env}
use selfhost_tip_overlay.Payment.Omise.Creation.{charge_metadata}
use selfhost_tip_overlay.Payment.Omise.RoundTrip.{prefix_all, paid_event}
use selfhost_tip_overlay.Payment.Stripe.{succeeded_event, by_type, parse_event}

-- The webhook payload of a paid intent that was made with this metadata: Stripe keeps it, and the
-- amount.
pub record IsPaidFor (payload metadata : Json) (id : String) (amount : ℤ) : Type 0 where
  pub wrapper : Json
  pub intent : Json
  pub event_type : get_or "type" (str "") payload ≡ ok (str "payment_intent.succeeded")
  pub holds : get_or "data" empty_dict payload ≡ ok wrapper
  pub object : get_or "object" empty_dict wrapper ≡ ok intent
  pub charge_id : get_or "id" (str "") intent ≡ ok (str id)
  pub kept : get "metadata" intent ≡ ok (some metadata)
  pub satang : get_or "amount" (num (pos 0)) intent ≡ ok (num amount)
  pub currency : get_or "currency" (str "thb") intent ≡ ok (str "thb")

module _ (env : Env) (payload : Json) (id : String) (amount : ℤ) (name message : String)
    (paid : IsPaidFor payload (charge_metadata name message) id amount) where
  metadata_event :
      succeeded_event env paid.intent id
      ≡ ok (paid_event id amount (prefix 50 name) (prefix 200 message) "promptpay" none)
  unfolding succeeded_event text int_of str_of is_truthy get_or
  metadata_event = rw (succeeded_event, paid.kept, paid.satang, paid.currency) refl

  -- Where Stripe keeps the metadata that a charge is made with, the webhook of its payment is read as
  -- one event with the charge's id, its amount and the very name and message that the charge was made
  -- with, if these are within the limits of 50 and 200 characters.
  pub parse_event-paid :
      len name ≤ 50
      → len message ≤ 200
      → parse_event env payload ≡ ok (paid_event id amount name message "promptpay" none)
  unfolding parse_event by_type is_str text
  parse_event-paid short_name short_message =
      rw (parse_event, paid.event_type, paid.holds, paid.object, paid.charge_id)
        (metadata_event
          ∙ rw (prefix_all 50 name short_name, prefix_all 200 message short_message) refl)
