-- ===== src/Webhook/Tests.antt =====
-- A delivery, its repetition and a mix of two deliveries, on the small table.
use selfhost_tip_overlay.Prelude.{
  ◌++◌, ◌+◌, ◌≤◌, ◌≡◌, refl, true, arith, str_eq, if◌then◌else◌, none, some, List, [], ◌∷◌, count,
}
use selfhost_tip_overlay.Prelude.Int.{pos}
use selfhost_tip_overlay.Prelude.Dict.{get}
use selfhost_tip_overlay.Contracts.{hold}
use selfhost_tip_overlay.Db.Schema.{find, max_seq}
use selfhost_tip_overlay.Db.Money.{is_paid}
use selfhost_tip_overlay.Db.Push.{is_pushed}
use selfhost_tip_overlay.Db.Sequence.{left}
use selfhost_tip_overlay.Db.Trace.{empty, Op}
use selfhost_tip_overlay.Payment.Base.{ok, WebhookEvent, successful}
use selfhost_tip_overlay.Prelude.Text.{is_ascii, len}
use selfhost_tip_overlay.Payment.Json.{
  Json, num, str, obj, empty_dict, end, field, get_or, find_field, parse_int,
}
use selfhost_tip_overlay.Payment.Json
use selfhost_tip_overlay.Payment.Signature.{Headers, Env, check_window}
use selfhost_tip_overlay.Payment.Omise.{paid_time}
use selfhost_tip_overlay.Payment.Omise
use selfhost_tip_overlay.Payment.Omise.Creation.{charge_metadata}
use selfhost_tip_overlay.Payment.Omise.RoundTrip.{IsPaidFor}
use selfhost_tip_overlay.Payment.Omise.RoundTrip
use selfhost_tip_overlay.Payment.Stripe
use selfhost_tip_overlay.Payment.Stripe.RoundTrip as StripeRoundTrip
use selfhost_tip_overlay.Webhook.GenuineStripe
use selfhost_tip_overlay.Webhook.GenuineStripe.{stripe_delivery-IsShown}
use selfhost_tip_overlay.Webhook.Genuine.{IsGenuine, IsShown, omise_delivery-IsShown}
use selfhost_tip_overlay.Webhook.{App, status, Pipeline, tip_event, receive_webhook}
use selfhost_tip_overlay.Webhook.Handler.{receive_webhook_paid, announced}
use selfhost_tip_overlay.Webhook.Again.{receive_webhook_again}
use selfhost_tip_overlay.Webhook.Actions.{Action, call, finish, act_all}
use selfhost_tip_overlay.Webhook.Once.{is_for, sent_once}

abbrev fresh_app : App
fresh_app = record {
  db = empty;
  qr_cache = ("c1", "https://qr") ∷ [];
  hub = record { subscribers = []; queue = λ q. []; next = 0 };
  sent = [];
}

abbrev paid_event : WebhookEvent
paid_event = record {
  kind = successful;
  charge_id = "c1";
  amount = pos 5000;
  currency = "thb";
  supporter_name = "Ann";
  message = "hi";
  source_type = "promptpay";
  paid_at = some 20;
}

-- A pipeline that fails.
abbrev broken : Pipeline
broken e = none

receive_webhook_paid_example :
    let a = (receive_webhook broken (ok paid_event) 30 31 fresh_app).1 in
    ((receive_webhook broken (ok paid_event) 30 31 fresh_app).0 ≡ status 200)
    × (a.sent
        ≡ announced (broken (tip_event paid_event 20)) (tip_event paid_event 20) (max_seq [] + 1)
          ++ [])
    × (is_paid "c1" a.db ≡ true)
    × (is_pushed "c1" a.db ≡ true)
    × (get "c1" a.qr_cache ≡ none)
unfolding find
receive_webhook_paid_example = receive_webhook_paid broken paid_event refl 30 31 fresh_app tt refl

receive_webhook_again_example :
    let once = (receive_webhook broken (ok paid_event) 30 31 fresh_app).1 in
    (receive_webhook (λ e. some hold) (ok paid_event) 40 41 once).1 ≡ once
receive_webhook_again_example =
    receive_webhook_again broken (λ e. some hold) paid_event paid_event 30 31 40 41 fresh_app tt
      refl refl refl

-- Two deliveries of one event whose pushes both run after both records.
abbrev mixed : List Action
mixed =
    call (Op.paid "c1" (pos 5000) "thb" "Ann" "hi" "promptpay" 20)
    ∷ call (Op.paid "c1" (pos 5000) "thb" "Ann" "hi" "promptpay" 20)
    ∷ finish (tip_event paid_event 20) (some hold) 31
    ∷ finish (tip_event paid_event 20) none 32
    ∷ []

sent_once_example : count (is_for "c1") (act_all mixed fresh_app).sent ≤ 0 + left "c1" empty
sent_once_example = sent_once "c1" mixed fresh_app tt

-- A signed delivery for "c1" that keeps the metadata of its charge.
abbrev charge : Json
charge = obj (
    field "object" (str "charge") (
      field "id" (str "c1") (
        field "status" (str "successful")
          (field "amount" (num (pos 5000)) (field "metadata" (charge_metadata "Ann" "hi") end)))))

abbrev payload : Json
payload = obj (field "key" (str "charge.complete") (field "data" charge end))

abbrev env : Env
env = record {
  hmac_hex = λ key message. "aa";
  loads = λ body. ok payload;
  from_iso = λ s. none;
  wall = λ s. 0;
  repr = λ v. "";
}

abbrev headers : Headers
headers name = if str_eq name "omise-signature" then some "00,aa" else some "1000"

payload-IsPaidFor : IsPaidFor env payload (charge_metadata "Ann" "hi") "c1" (pos 5000)
unfolding get_or find_field Json.get paid_time
payload-IsPaidFor = record {
  charge = charge;
  key = refl;
  holds = refl;
  object = refl;
  charge_id = refl;
  status = refl;
  kept = refl;
  paid_at = none;
  when = none;
  told = refl;
  read = refl;
  satang = refl;
  currency = refl;
  source = empty_dict;
  source_type = "promptpay";
  from = refl;
  kind = refl;
}

headers-IsGenuine : IsGenuine env [] 1_100_000_000 (65 ∷ []) headers payload
unfolding parse_int check_window is_ascii Omise.provided_sigs
headers-IsGenuine = record {
  ts_str = "1000";
  sig_header = "00,aa";
  has_timestamp = refl;
  has_signature = refl;
  stamped = refl;
  filled = refl;
  ts = pos 1000;
  timestamp = refl;
  recent = refl;
  digest = refl;
  ascii = (refl, (refl, tt));
  signature = refl;
  parsed = refl;
}

omise_delivery-IsShown_example :
    IsShown broken
      (RoundTrip.paid_event "c1"
        (pos 5000)
        "Ann"
        "hi"
        payload-IsPaidFor.source_type
        payload-IsPaidFor.when)
      30
      fresh_app
      (receive_webhook broken
        (Omise.verify_webhook env [] 1_100_000_000 (65 ∷ []) headers)
        30
        31
        fresh_app)
unfolding len find
omise_delivery-IsShown_example =
    omise_delivery-IsShown broken env [] 1_100_000_000 30 31 (65 ∷ []) headers payload "c1"
      (pos 5000) "Ann" "hi" fresh_app headers-IsGenuine payload-IsPaidFor (omega arith)
      (omega arith) tt refl

abbrev intent : Json
intent = obj (
    field "id" (str "c1")
      (field "amount" (num (pos 5000)) (field "metadata" (charge_metadata "Ann" "hi") end)))

abbrev intent_payload : Json
intent_payload = obj (
    field "type" (str "payment_intent.succeeded")
      (field "data" (obj (field "object" intent end)) end))

abbrev stripe_env : Env
stripe_env = record env { loads = λ body. ok intent_payload }

abbrev stripe_headers : Headers
stripe_headers name = some "t=1000,v1=00,v1=aa"

intent-IsPaidFor :
    StripeRoundTrip.IsPaidFor intent_payload (charge_metadata "Ann" "hi") "c1" (pos 5000)
unfolding get_or find_field Json.get
intent-IsPaidFor = record {
  wrapper = obj (field "object" intent end);
  intent = intent;
  event_type = refl;
  holds = refl;
  object = refl;
  charge_id = refl;
  kept = refl;
  satang = refl;
  currency = refl;
}

stripe_headers-IsGenuine :
    GenuineStripe.IsGenuine stripe_env [] 1_100_000_000 (65 ∷ []) stripe_headers intent_payload
unfolding parse_int check_window is_ascii Stripe.parts_of
stripe_headers-IsGenuine = record {
  sig_header = "t=1000,v1=00,v1=aa";
  has_signature = refl;
  filled = refl;
  ts_str = "1000";
  sigs = "00" ∷ "aa" ∷ [];
  parts = refl;
  stamped = refl;
  ts = pos 1000;
  timestamp = refl;
  recent = refl;
  digest = refl;
  ascii = (refl, (refl, tt));
  signature = refl;
  parsed = refl;
}

stripe_delivery-IsShown_example :
    IsShown broken (RoundTrip.paid_event "c1" (pos 5000) "Ann" "hi" "promptpay" none) 30 fresh_app (
      receive_webhook broken
        (Stripe.verify_webhook stripe_env [] 1_100_000_000 (65 ∷ []) stripe_headers)
        30
        31
        fresh_app)
unfolding len find
stripe_delivery-IsShown_example =
    stripe_delivery-IsShown broken stripe_env [] 1_100_000_000 30 31 (65 ∷ []) stripe_headers
      intent_payload "c1" (pos 5000) "Ann" "hi" fresh_app stripe_headers-IsGenuine intent-IsPaidFor
      (omega arith) (omega arith) tt refl
