-- ===== src/Payment/Omise/Creation.antt =====
-- core/payment/omise.py: `create_charge` and `proxy_qr`. The answers of the gateway to a POST, by path
-- and body, and to a GET are parameters, an exception where the request fails.
use selfhost_tip_overlay.Prelude.{String, Option, none, some, List, [], ◌∷◌, or_default}
use selfhost_tip_overlay.Prelude.Int.{ℤ}
use selfhost_tip_overlay.Prelude.Text.{split, strip}
use selfhost_tip_overlay.Payment.Base.{Result, ok, raise, ◌>>=◌}
use selfhost_tip_overlay.Payment.Json.{
  Json, str, num, obj, end, field, empty_dict, get_or, item, text, number,
}
use selfhost_tip_overlay.Payment.Charges.{ChargeResult, Gateway}

abbrev pub source_body : ℤ → Json
source_body amount_satang = obj (
    field "type" (str "promptpay")
      (field "amount" (num amount_satang) (field "currency" (str "thb") end)))

-- The supporter's texts, as Omise keeps them with the charge.
abbrev pub charge_metadata : String → String → Json
charge_metadata supporter_name message =
    obj (field "supporter_name" (str supporter_name) (field "message" (str message) end))

abbrev pub charge_body : ℤ → Json → String → String → Json
charge_body amount_satang source_id supporter_name message = obj (
    field "amount" (num amount_satang) (
      field "currency" (str "thb")
        (field "source" source_id (field "metadata" (charge_metadata supporter_name message) end))))

-- From the answer to the second request.
unfoldable pub charge_result : Json → Result ChargeResult
charge_result charge = do
  source ← get_or "source" empty_dict charge
  code ← get_or "scannable_code" empty_dict source
  image ← get_or "image" empty_dict code
  u ← get_or "download_uri" (str "") image
  qr_uri ← text u
  i ← item "id" charge
  charge_id ← text i
  s ← item "status" charge
  status ← text s
  a ← item "amount" charge
  amount ← number a
  c ← item "currency" charge
  currency ← text c
  ok (record {
    charge_id = charge_id;
    qr_download_uri = qr_uri;
    status = status;
    amount = amount;
    currency = currency;
  })

unfoldable pub create_charge :
    (String → Json → Result Json) → ℤ → String → String → Result ChargeResult
unfolding charge_result
create_charge post amount_satang supporter_name message = do
  source ← post "/sources" (source_body amount_satang)
  source_id ← item "id" source
  charge ← post "/charges" (charge_body amount_satang source_id supporter_name message)
  charge_result charge

-- The content of an answer, and its header "content-type".
abbrev pub Answer : Type 0
Answer = String × Option String

abbrev first : List String → String
first [] = ""
first (s ∷ ss) = s

-- `headers.get("content-type", default).split(";")[0].strip()`
abbrev pub content_type : String → Option String → String
content_type default header = strip (first (split b';' (or_default header default)))

unfoldable pub proxy_qr : (String → Result Answer) → String → Result (String × String)
proxy_qr fetch download_uri =
    fetch download_uri >>= λ answer. ok (answer.0, content_type "image/svg+xml" answer.1)

abbrev pub to_option {ℓ} : {A : Type ℓ} → Result A → Option A
to_option (ok a) = some a
to_option (raise e) = none

-- The adapter as the routes see it.
unfoldable pub gateway : (String → Json → Result Json) → (String → Result Answer) → Gateway
unfolding create_charge proxy_qr
gateway post fetch = record {
  create_charge = λ amount name message. to_option (create_charge post amount name message);
  proxy_qr = λ uri. to_option (proxy_qr fetch uri);
}
