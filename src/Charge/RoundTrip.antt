-- ===== src/Charge/RoundTrip.antt =====
-- routes/charge.py, core/payment/omise.py: from the body of a request to the event of its payment.
use selfhost_tip_overlay.Prelude.{String, ◌≡◌, some}
use selfhost_tip_overlay.Payment.Base.{ok}
use selfhost_tip_overlay.Payment.Json.{Json}
use selfhost_tip_overlay.Payment.Signature.{Env}
use selfhost_tip_overlay.Payment.Omise.{parse_event}
use selfhost_tip_overlay.Payment.Omise.Creation.{charge_metadata}
use selfhost_tip_overlay.Payment.Omise.RoundTrip.{IsPaidFor, paid_event, parse_event-paid}
use selfhost_tip_overlay.Charge.{ChargeRequest, validate}
use selfhost_tip_overlay.Charge.Valid.{validate-IsValidRequest}

-- For a request that passes the validators: where Omise keeps the metadata that `create_charge` sends
-- for it, and the amount, the webhook of its payment is read as one event with the charge's id and
-- the amount, the name and the message that were validated.
pub paid_charge_round_trip :
    (env : Env) (body b : ChargeRequest) (payload : Json) (id : String)
    → validate body ≡ some b
    → (paid : IsPaidFor env payload (charge_metadata b.supporter_name b.message) id b.amount)
    → parse_event env payload
      ≡ ok (paid_event id b.amount b.supporter_name b.message paid.source_type paid.when)
paid_charge_round_trip env body b payload id h paid =
    let valid = validate-IsValidRequest body b h in
    parse_event-paid env payload id b.amount b.supporter_name b.message paid valid.name_fits
      valid.message_fits
