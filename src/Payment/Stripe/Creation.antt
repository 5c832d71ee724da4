-- ===== src/Payment/Stripe/Creation.antt =====
-- core/payment/stripe.py: `create_charge` and `proxy_qr`. The answers of the gateway to a POST, by path
-- and form, and to a GET are parameters, an exception where the request fails.
use selfhost_tip_overlay.Prelude.{String, List, [], ◌∷◌, if◌then◌else◌}
use selfhost_tip_overlay.Prelude.Int.{ℤ}
use selfhost_tip_overlay.Prelude.Text.{is_empty}
use selfhost_tip_overlay.Payment.Base.{Result, ok, raise, value_error, ◌>>=◌}
use selfhost_tip_overlay.Payment.Decimal.{show_int}
use selfhost_tip_overlay.Payment.Json.{Json, str, empty_dict, get_or, item, text, int_of}
use selfhost_tip_overlay.Payment.Charges.{ChargeResult, Gateway}
use selfhost_tip_overlay.Payment.Omise.Creation.{Answer, content_type, to_option}

abbrev pub Form : Type 0
Form = List (String × String)

abbrev pub form : String → ℤ → String → String → Form
form receipt_email amount_satang supporter_name message =
    ("amount", show_int amount_satang)
    ∷ ("currency", "thb")
    ∷ ("payment_method_types[]", "promptpay")
    ∷ ("confirm", "true")
    ∷ ("payment_method_data[type]", "promptpay")
    ∷ ("payment_method_data[billing_details][email]", receipt_email)
    ∷ ("metadata[supporter_name]", supporter_name)
    ∷ ("metadata[message]", message)
    ∷ []

-- From the address of the QR code on.
unfoldable pub charge_result : Json → String → Result ChargeResult
charge_result pi qr = do
  i ← item "id" pi
  charge_id ← text i
  s ← item "status" pi
  status ← text s
  a ← item "amount" pi
  amount ← int_of a
  c ← item "currency" pi
  currency ← text c
  ok (record {
    charge_id = charge_id;
    qr_download_uri = qr;
    status = status;
    amount = amount;
    currency = currency;
  })

-- `if not qr: raise ValueError`
unfoldable pub with_qr : Json → String → Result ChargeResult
unfolding charge_result
with_qr pi qr = if is_empty qr then raise value_error else charge_result pi qr

unfoldable pub create_charge :
    String → (String → Form → Result Json) → ℤ → String → String → Result ChargeResult
unfolding with_qr
create_charge receipt_email post amount_satang supporter_name message = do
  pi ← post "/v1/payment_intents" (form receipt_email amount_satang supporter_name message)
  action ← get_or "next_action" empty_dict pi
  code ← get_or "promptpay_display_qr_code" empty_dict action
  u ← get_or "image_url_png" (str "") code
  qr ← text u
  with_qr pi qr

unfoldable pub proxy_qr : (String → Result Answer) → String → Result (String × String)
proxy_qr fetch download_uri =
    fetch download_uri >>= λ answer. ok (answer.0, content_type "image/png" answer.1)

-- The adapter as the routes see it.
unfoldable pub gateway : String → (String → Form → Result Json) → (String → Result Answer) → Gateway
unfolding create_charge proxy_qr
gateway receipt_email post fetch = record {
  create_charge =
      λ amount name message. to_option (create_charge receipt_email post amount name message);
  proxy_qr = λ uri. to_option (proxy_qr fetch uri);
}
