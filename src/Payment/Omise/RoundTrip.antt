-- ===== src/Payment/Omise/RoundTrip.antt =====
-- core/payment/omise.py: what is sent when a charge is made, and what its webhook says.
use selfhost_tip_overlay.Prelude.{
  ℕ, zero, suc, ◌≤◌, String, ◌≡◌, refl, ap, ◌∙◌, Option, some, arith,
}
use selfhost_tip_overlay.Prelude.Int.{ℤ, pos}
use selfhost_tip_overlay.Prelude.Text.{prefix, len}
use selfhost_tip_overlay.Payment.Base.{ok, WebhookEvent, successful}
use selfhost_tip_overlay.Payment.Json.{
  Json, null, num, str, empty_dict, get, get_or, is_str, is_truthy, text, int_of, str_of,
}
use selfhost_tip_overlay.Payment.Signature.{Env}
use selfhost_tip_overlay.Payment.Omise.{
  paid_time, successful_event, by_status, charge_event, by_object, data_event, parse_event,
}
use selfhost_tip_overlay.Payment.Omise.Creation.{charge_metadata}

-- The webhook payload of a paid charge that was made with this metadata: Omise keeps it, and the
-- amount, and tells the source and when it was paid.
pub record IsPaidFor (env : Env) (payload metadata : Json) (id : String) (amount : ℤ) : Type 0 where
  pub charge : Json
  pub key : get_or "key" null payload ≡ ok (str "charge.complete")
  pub holds : get_or "data" empty_dict payload ≡ ok charge
  pub object : get_or "object" null charge ≡ ok (str "charge")
  pub charge_id : get_or "id" (str "") charge ≡ ok (str id)
  pub status : get_or "status" (str "") charge ≡ ok (str "successful")
  pub kept : get "metadata" charge ≡ ok (some metadata)
  pub paid_at : Option Json
  pub when : Option ℕ
  pub told : get "paid_at" charge ≡ ok paid_at
  pub read : paid_time env paid_at ≡ ok when
  pub satang : get_or "amount" (num (pos 0)) charge ≡ ok (num amount)
  pub currency : get_or "currency" (str "thb") charge ≡ ok (str "thb")
  pub source : Json
  pub source_type : String
  pub from : get_or "source" empty_dict charge ≡ ok source
  pub kind : get_or "type" (str "promptpay") source ≡ ok (str source_type)

pub prefix_all : (n : ℕ) (s : String) → len s ≤ n → prefix n s ≡ s
unfolding prefix len
prefix_all zero String.[] h = refl
prefix_all zero (String.◌∷◌ c s) h = absurd (omega (arith, h))
prefix_all (suc n) String.[] h = refl
prefix_all (suc n) (String.◌∷◌ c s) h = ap (String.◌∷◌ c) (prefix_all n s (omega (arith, h)))

-- The event of a payment with these texts.
abbrev pub paid_event : String → ℤ → String → String → String → Option ℕ → WebhookEvent
paid_event id amount name message source_type when = record {
  kind = successful;
  charge_id = id;
  amount = amount;
  currency = "thb";
  supporter_name = name;
  message = message;
  source_type = source_type;
  paid_at = when;
}

module _ (env : Env) (payload : Json) (id : String) (amount : ℤ) (name message : String)
    (paid : IsPaidFor env payload (charge_metadata name message) id amount) where
  metadata_event :
      successful_event env paid.charge id
      ≡ ok (paid_event id amount (prefix 50 name) (prefix 200 message) paid.source_type paid.when)
  unfolding successful_event text int_of str_of is_truthy get_or
  metadata_event =
      rw
        (
          successful_event, paid.kept, paid.told, paid.read, paid.satang, paid.currency, paid.from,
          paid.kind,
        )
        refl

  -- Where Omise keeps the metadata that a charge is made with, the webhook of its payment is read as
  -- one event with the charge's id, its amount and the very name and message that the charge was made
  -- with, if these are within the limits of 50 and 200 characters.
  pub parse_event-paid :
      len name ≤ 50
      → len message ≤ 200
      → parse_event env payload ≡ ok (paid_event id amount name message paid.source_type paid.when)
  unfolding parse_event data_event by_object charge_event by_status is_str text
  parse_event-paid short_name short_message =
      rw (parse_event, paid.key, paid.holds, paid.object, paid.charge_id, paid.status)
        (metadata_event
          ∙ rw (prefix_all 50 name short_name, prefix_all 200 message short_message) refl)
