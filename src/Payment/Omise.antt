-- ===== src/Payment/Omise.antt =====
-- core/payment/omise.py: `verify_webhook`.
pub mod Listing
pub mod Pages
pub mod Creation
pub mod RoundTrip
pub mod Tests
use selfhost_tip_overlay.Prelude.{
  ℕ, String, not, Option, none, some, List, [], ◌∷◌, map, select, or_default, if◌then◌else◌,
}
use selfhost_tip_overlay.Prelude.Int.{pos}
use selfhost_tip_overlay.Prelude.Text.{is_empty, strip, split, prefix}
use selfhost_tip_overlay.Payment.Base.{
  Result, ok, raise, signature_error, value_error, ◌>>=◌, WebhookEvent, Kind, successful, failed,
  expired, ignored,
}
use selfhost_tip_overlay.Payment.Json.{
  Json, null, str, empty_dict, get, get_or, is_str, is_truthy, text, str_of, parse_int, int_of,
}
use selfhost_tip_overlay.Payment.Signature.{Bytes, Headers, Env, check_window, finish}

-- `[s.strip() for s in sig_header.split(",") if s.strip()]`
unfoldable pub provided_sigs : String → List String
unfolding split strip
provided_sigs header = select (λ s. not (is_empty s)) (map strip (split b',' header))

-- `if not provided_sigs: raise SignatureError`, then the comparison.
unfoldable pub match_sigs : Env → Bytes → String → List String → Bytes → Result Json
unfolding finish
match_sigs env key ts_str [] raw_body = raise signature_error
match_sigs env key ts_str (s ∷ sigs) raw_body = finish env key ts_str (s ∷ sigs) raw_body

-- From the timestamp on.
unfoldable pub verify_with : Env → Bytes → ℕ → String → String → Bytes → Result Json
unfolding parse_int check_window provided_sigs match_sigs
verify_with env key now ts_str sig_header raw_body = elim (parse_int ts_str) [
  | none ↦ raise signature_error
  | some ts ↦
      check_window now ts >>= λ _. match_sigs env key ts_str (provided_sigs sig_header) raw_body
]

unfoldable pub verify_signature : Env → Bytes → ℕ → Bytes → Headers → Result Json
unfolding verify_with
verify_signature env key now raw_body headers =
    let ts_str = or_default (headers "omise-signature-timestamp") "" in
    let sig_header = or_default (headers "omise-signature") "" in
    if is_empty ts_str
    then raise signature_error
    else if is_empty sig_header
    then raise signature_error
    else verify_with env key now ts_str sig_header raw_body

abbrev pub no_event : Kind → String → WebhookEvent
no_event kind charge_id = record {
  kind = kind;
  charge_id = charge_id;
  amount = pos 0;
  currency = "thb";
  supporter_name = "";
  message = "";
  source_type = "promptpay";
  paid_at = none;
}

-- `x or {}`
abbrev pub or_empty : Option Json → Json
or_empty none = empty_dict
or_empty (some v) = if is_truthy v then v else empty_dict

-- `datetime.fromisoformat(…) if paid_at_str else None`; the `Z` that Omise ends it with is UTC.
unfoldable pub paid_time : Env → Option Json → Result (Option ℕ)
paid_time env none = ok none
paid_time env (some v) =
    if is_truthy v
    then (text v >>= λ s. elim (env.from_iso s) [ none ↦ raise value_error | some t ↦ ok (some t) ])
    else ok none

-- The branch for status "successful".
unfoldable pub successful_event : Env → Json → String → Result WebhookEvent
unfolding paid_time
successful_event env charge charge_id = do
  m ← get "metadata" charge
  let metadata = or_empty m
  p ← get "paid_at" charge
  paid_at ← paid_time env p
  a ← get_or "amount" (Json.num (pos 0)) charge
  amount ← int_of a
  c ← get_or "currency" (str "thb") charge
  currency ← text c
  n ← get_or "supporter_name" (str "") metadata
  t ← get_or "message" (str "") metadata
  source ← get_or "source" empty_dict charge
  s ← get_or "type" (str "promptpay") source
  source_type ← text s
  ok (record {
    kind = successful;
    charge_id = charge_id;
    amount = amount;
    currency = currency;
    supporter_name = prefix 50 (str_of env.repr n);
    message = prefix 200 (str_of env.repr t);
    source_type = source_type;
    paid_at = paid_at;
  })

-- The branches on the status of a charge.
unfoldable pub by_status : Env → Json → String → Json → Result WebhookEvent
by_status env charge charge_id status =
    if is_str "successful" status
    then successful_event env charge charge_id
    else if is_str "failed" status
    then ok (no_event failed charge_id)
    else if is_str "expired" status
    then ok (no_event expired charge_id)
    else ok (no_event ignored charge_id)

unfoldable pub charge_event : Env → Json → Result WebhookEvent
charge_event env charge = do
  i ← get_or "id" (str "") charge
  charge_id ← text i
  status ← get_or "status" (str "") charge
  by_status env charge charge_id status

unfoldable pub by_object : Env → Json → Json → Result WebhookEvent
by_object env charge object =
    if is_str "charge" object then charge_event env charge else ok (no_event ignored "")

unfoldable pub data_event : Env → Json → Result WebhookEvent
data_event env payload = do
  charge ← get_or "data" empty_dict payload
  object ← get_or "object" null charge
  by_object env charge object

unfoldable pub parse_event : Env → Json → Result WebhookEvent
parse_event env payload = get_or "key" null payload >>= λ key.
    if is_str "charge.complete" key then data_event env payload else ok (no_event ignored "")

unfoldable pub verify_webhook : Env → Bytes → ℕ → Bytes → Headers → Result WebhookEvent
unfolding verify_signature parse_event
verify_webhook env key now raw_body headers =
    verify_signature env key now raw_body headers >>= λ payload. parse_event env payload
