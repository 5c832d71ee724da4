-- ===== src/Charge/Tests.antt =====
-- A charge that is made, asked for and paid.
use selfhost_tip_overlay.Prelude.{◌≡◌, refl, true, none, some, []}
use selfhost_tip_overlay.Prelude.Int.{ℤ, pos}
use selfhost_tip_overlay.Prelude.Dict.{get}
use selfhost_tip_overlay.Db.Trace.{empty}
use selfhost_tip_overlay.RateLimit.{Request, cf_key, check, charge_limiter}
use selfhost_tip_overlay.LiveStatus.{get_live_status}
use selfhost_tip_overlay.Payment.Json.{
  Json, num, str, obj, empty_dict, end, field, get_or, find_field,
}
use selfhost_tip_overlay.Payment.Json
use selfhost_tip_overlay.Payment.Omise.{paid_time}
use selfhost_tip_overlay.Payment.Omise.Creation.{charge_metadata}
use selfhost_tip_overlay.Payment.Omise.RoundTrip.{IsPaidFor}
use selfhost_tip_overlay.Payment.Omise.Tests.{env}
use selfhost_tip_overlay.Payment.Charges.{ChargeResult, Gateway}
use selfhost_tip_overlay.Charge.{
  ChargeRequest, Site, http_error, created, validate, gated, make_charge, create_charge,
}
use selfhost_tip_overlay.Charge.Created.{create_charge-IsCreated, IsCreated}

abbrev made : ChargeResult
made = record {
  charge_id = "c1";
  qr_download_uri = "https://qr";
  status = "pending";
  amount = pos 5000;
  currency = "THB";
}

abbrev gateway : Gateway
gateway = record {
  create_charge = λ a n m. some made;
  proxy_qr = λ uri. some ("<svg/>", "image/svg+xml");
}

abbrev site : Site
site = record {
  app = record {
    db = empty;
    qr_cache = [];
    hub = record { subscribers = []; queue = λ q. []; next = 0 };
    sent = [];
  };
  limiter = charge_limiter;
  live = record { value = none; ts = 0 };
}

abbrev request : Request
request = record { headers = λ h. none; client = some "10.0.0.1" }

abbrev body : ℤ → ChargeRequest
body amount = record { amount = amount; currency = "THB"; supporter_name = " Ann "; message = "hi" }

is_created :
    (create_charge gateway request (body (pos 5000)) true 10 11 12 13 site).0 ≡ created made
unfolding create_charge check cf_key validate gated make_charge get_live_status get
is_created = refl

is_refused :
    (create_charge gateway request (body (pos 100)) true 10 11 12 13 site).0 ≡ http_error 422
unfolding create_charge check cf_key validate get
is_refused = refl

create_charge-IsCreated_example :
    IsCreated gateway request (body (pos 5000)) true 10 11 12 13 site made
create_charge-IsCreated_example =
    create_charge-IsCreated gateway request (body (pos 5000)) true 10 11 12 13 site made is_created

abbrev valid : ChargeRequest
valid = record { amount = pos 5000; currency = "thb"; supporter_name = "Ann"; message = "hi" }

is_validated : validate (body (pos 5000)) ≡ some valid
unfolding validate
is_validated = refl

abbrev charge : Json
charge = obj (
    field "object" (str "charge") (
      field "id" (str "c1") (
        field "status" (str "successful")
          (field "amount" (num (pos 5000)) (field "metadata" (charge_metadata "Ann" "hi") end)))))

abbrev payload : Json
payload = obj (field "key" (str "charge.complete") (field "data" charge end))

payload-IsPaidFor : IsPaidFor env payload (charge_metadata "Ann" "hi") "c1" (pos 5000)
unfolding get_or find_field Json.get paid_time
payload-IsPaidFor = record {
  charge = charge;
  key = refl;
  holds = refl;
  object = refl;
  charge_id = refl;
  status = refl;
  kept = refl;
  paid_at = none;
  when = none;
  told = refl;
  read = refl;
  satang = refl;
  currency = refl;
  source = empty_dict;
  source_type = "promptpay";
  from = refl;
  kind = refl;
}
