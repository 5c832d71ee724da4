-- ===== src/Payment/Stripe.antt =====
-- core/payment/stripe.py: `verify_webhook`.
pub mod Listing
pub mod Pages
pub mod Creation
pub mod RoundTrip
pub mod Tests
use selfhost_tip_overlay.Prelude.{
  ℕ, String, none, some, List, [], ◌∷◌, ◌++◌, or_default, str_eq, if◌then◌else◌,
}
use selfhost_tip_overlay.Prelude.Int.{pos}
use selfhost_tip_overlay.Prelude.Text.{is_empty, strip, split, partition, prefix}
use selfhost_tip_overlay.Payment.Base.{
  Result, ok, raise, signature_error, ◌>>=◌, WebhookEvent, successful, failed, expired, ignored,
}
use selfhost_tip_overlay.Payment.Json.{
  Json, str, empty_dict, get, get_or, is_str, text, str_of, parse_int, int_of,
}
use selfhost_tip_overlay.Payment.Omise.{no_event, or_empty}
use selfhost_tip_overlay.Payment.Signature.{Bytes, Headers, Env, check_window, finish}

-- `ts_str` (an unset one is the empty text, which the test below does not tell apart) and `v1_sigs`.
pub record Parts : Type 0 where
  pub ts_str : String
  pub v1_sigs : List String

abbrev pub add_part : String → String → Parts → Parts
add_part key val p =
    if str_eq key "t"
    then record p { ts_str = val }
    else if str_eq key "v1"
    then record p { v1_sigs = p.v1_sigs ++ val ∷ [] }
    else p

-- One turn of the loop over the parts of the header.
unfoldable pub read_part : String → Parts → Parts
unfolding partition strip
read_part part p = elim (partition b'=' part) [
  | none ↦ p
  | some (key, val) ↦ add_part (strip key) (strip val) p
]

unfoldable pub read_parts : List String → Parts → Parts
unfolding read_part
read_parts [] p = p
read_parts (part ∷ parts) p = read_parts parts (read_part part p)

-- `if not ts_str or not v1_sigs`, and what follows.
unfoldable pub verify_parts : Env → Bytes → ℕ → String → List String → Bytes → Result Json
unfolding parse_int check_window finish
verify_parts env key now ts_str [] raw_body = raise signature_error
verify_parts env key now ts_str (s ∷ sigs) raw_body =
    if is_empty ts_str then raise signature_error else elim (parse_int ts_str) [
      | none ↦ raise signature_error
      | some ts ↦ check_window now ts >>= λ _. finish env key ts_str (s ∷ sigs) raw_body
    ]

-- The whole loop, from `ts_str = None` and `v1_sigs = []`.
unfoldable pub parts_of : String → Parts
unfolding read_parts split
parts_of sig_header = read_parts (split b',' sig_header) (record { ts_str = ""; v1_sigs = [] })

unfoldable pub verify_signature : Env → Bytes → ℕ → Bytes → Headers → Result Json
unfolding parts_of verify_parts
verify_signature env key now raw_body headers =
    let sig_header = or_default (headers "stripe-signature") "" in
    let p = parts_of sig_header in
    if is_empty sig_header
    then raise signature_error
    else verify_parts env key now p.ts_str p.v1_sigs raw_body

-- The branch for "payment_intent.succeeded".
unfoldable pub succeeded_event : Env → Json → String → Result WebhookEvent
succeeded_event env o charge_id = do
  m ← get "metadata" o
  let metadata = or_empty m
  a ← get_or "amount" (Json.num (pos 0)) o
  amount ← int_of a
  c ← get_or "currency" (str "thb") o
  currency ← text c
  n ← get_or "supporter_name" (str "") metadata
  t ← get_or "message" (str "") metadata
  ok (record {
    kind = successful;
    charge_id = charge_id;
    amount = amount;
    currency = currency;
    supporter_name = prefix 50 (str_of env.repr n);
    message = prefix 200 (str_of env.repr t);
    source_type = "promptpay";
    paid_at = none;
  })

-- The branches on the type of the event.
unfoldable pub by_type : Env → Json → String → Json → Result WebhookEvent
unfolding succeeded_event
by_type env o charge_id event_type =
    if is_str "payment_intent.succeeded" event_type
    then succeeded_event env o charge_id
    else if is_str "payment_intent.payment_failed" event_type
    then ok (no_event failed charge_id)
    else if is_str "payment_intent.canceled" event_type
    then ok (no_event expired charge_id)
    else ok (no_event ignored charge_id)

unfoldable pub parse_event : Env → Json → Result WebhookEvent
unfolding by_type
parse_event env payload = do
  event_type ← get_or "type" (str "") payload
  d ← get_or "data" empty_dict payload
  o ← get_or "object" empty_dict d
  i ← get_or "id" (str "") o
  charge_id ← text i
  by_type env o charge_id event_type

unfoldable pub verify_webhook : Env → Bytes → ℕ → Bytes → Headers → Result WebhookEvent
unfolding verify_signature parse_event
verify_webhook env key now raw_body headers =
    verify_signature env key now raw_body headers >>= λ payload. parse_event env payload
