-- ===== src/Payment/Events.antt =====
-- core/payment/omise.py, core/payment/stripe.py: `_parse_event`, from the payload's fields.
use selfhost_tip_overlay.Prelude.{
  ◌≤◌, String, ◌≡◌, refl, true, arith, ap, sym, ◌∙◌, eq_iff, Bool-cases, inl, inr,
}
use selfhost_tip_overlay.Prelude.Text.{len, len-prefix-le}
use selfhost_tip_overlay.Payment.Base.{ok, WebhookEvent, Kind, successful}
use selfhost_tip_overlay.Payment.Json.{
  Json, null, bool, num, str, arr, obj, empty_dict, get_or, is_str, int_of, text,
}
use selfhost_tip_overlay.Prelude.Int.{pos}
use selfhost_tip_overlay.Payment.Signature.{Env}
use selfhost_tip_overlay.Payment.Omise
use selfhost_tip_overlay.Payment.Stripe

-- The lengths of the supporter's texts.
pub record IsShort (e : WebhookEvent) : Type 0 where
  pub name : len e.supporter_name ≤ 50
  pub message : len e.message ≤ 200

len_empty : len "" ≡ 0
unfolding len
len_empty = refl

no_event-IsShort : (k : Kind) (id : String) → IsShort (Omise.no_event k id)
unfolding len
no_event-IsShort k id = record { name = omega arith; message = omega arith }

module _ (env : Env) where
  omise_successful-IsShort :
      (charge : Json) (id : String) (e : WebhookEvent)
      → Omise.successful_event env charge id ≡ ok e
      → IsShort e
  unfolding Omise.successful_event
  omise_successful-IsShort charge id e h = grind (arith, len-prefix-le)

  stripe_succeeded-IsShort :
      (o : Json) (id : String) (e : WebhookEvent)
      → Stripe.succeeded_event env o id ≡ ok e
      → IsShort e
  unfolding Stripe.succeeded_event
  stripe_succeeded-IsShort o id e h = grind (arith, len-prefix-le)

-- What a payload says of a completed Omise charge.
pub record IsComplete (payload : Json) (e : WebhookEvent) : Type 0 where
  pub charge : Json
  pub key : get_or "key" null payload ≡ ok (str "charge.complete")
  pub holds : get_or "data" empty_dict payload ≡ ok charge
  pub object : get_or "object" null charge ≡ ok (str "charge")
  pub status : get_or "status" (str "") charge ≡ ok (str "successful")
  pub id : get_or "id" (str "") charge ≡ ok (str e.charge_id)
  pub amount :
      (v : Json) × (get_or "amount" (Json.num (pos 0)) charge ≡ ok v) × (int_of v ≡ ok e.amount)

is_str-eq : (s : String) (v : Json) → is_str s v ≡ true → v ≡ str s
unfolding is_str
is_str-eq s (str t) h = ap str ((eq_iff t s).0 h)
is_str-eq s null h = cc
is_str-eq s (bool b) h = cc
is_str-eq s (num n) h = cc
is_str-eq s (arr xs) h = cc
is_str-eq s (obj fs) h = cc

text-eq : (v : Json) (s : String) → text v ≡ ok s → v ≡ str s
unfolding text
text-eq (str t) s h = cc
text-eq null s h = cc
text-eq (bool b) s h = cc
text-eq (num n) s h = cc
text-eq (arr xs) s h = cc
text-eq (obj fs) s h = cc

module _ (env : Env) where
  omise_successful-fields :
      (charge : Json) (id : String) (e : WebhookEvent)
      → Omise.successful_event env charge id ≡ ok e
      → (e.charge_id ≡ id)
        × ((v : Json) × (get_or "amount" (Json.num (pos 0)) charge ≡ ok v)
            × (int_of v ≡ ok e.amount))
  unfolding Omise.successful_event
  omise_successful-fields charge id e h = ground arith

  by_status-kind :
      (charge : Json) (id : String) (v : Json) (e : WebhookEvent)
      → Omise.by_status env charge id v ≡ ok e
      → IsShort e
        × (e.kind ≡ successful
            → (v ≡ str "successful") × (Omise.successful_event env charge id ≡ ok e))
  unfolding Omise.by_status
  by_status-kind charge id v e h = elim (Bool-cases (is_str "successful" v)) [
    | inl y ↦
        let h' : Omise.successful_event env charge id ≡ ok e = rw y at h in
        (omise_successful-IsShort env charge id e h', λ k. (is_str-eq "successful" v y, h'))
    | inr x ↦ (ground (arith, x, h, len_empty), λ k. ground (arith, x, h, k))
  ]

  charge_event-parts :
      (charge : Json) (e : WebhookEvent)
      → Omise.charge_event env charge ≡ ok e
      → (i : Json) × (s : String) × (v : Json) × (get_or "id" (str "") charge ≡ ok i)
        × (text i ≡ ok s)
        × (get_or "status" (str "") charge ≡ ok v)
        × (Omise.by_status env charge s v ≡ ok e)
  unfolding Omise.charge_event
  charge_event-parts charge e h = ground arith

  paid_payload-parts :
      (payload : Json) (e : WebhookEvent)
      → Omise.parse_event env payload ≡ ok e
      → e.kind ≡ successful
      → (charge : Json) × (key : Json) × (object : Json) × (get_or "key" null payload ≡ ok key)
        × (is_str "charge.complete" key ≡ true)
        × (get_or "data" empty_dict payload ≡ ok charge)
        × (get_or "object" null charge ≡ ok object)
        × (is_str "charge" object ≡ true)
        × (Omise.charge_event env charge ≡ ok e)
  unfolding Omise.parse_event Omise.data_event Omise.by_object
  paid_payload-parts payload e h k = ground arith

  -- An Omise payload becomes a successful event only if it is a "charge.complete" whose data is a
  -- charge of status "successful"; the event then has that charge's id and amount, a name of at
  -- most 50 characters and a message of at most 200.
  pub omise_event-IsComplete :
      (payload : Json) (e : WebhookEvent)
      → Omise.parse_event env payload ≡ ok e
      → e.kind ≡ successful
      → IsComplete payload e × IsShort e
  omise_event-IsComplete payload e h k =
      let (charge, key, object, k1, k2, d, o1, o2, c) = paid_payload-parts payload e h k in
      let (i, s, v, i1, i2, s1, b) = charge_event-parts charge e c in
      let (short, rest) = by_status-kind charge s v e b in
      let fields = omise_successful-fields charge s e (rest k).1 in
      (
        record {
          charge = charge;
          key = k1 ∙ ap ok (is_str-eq "charge.complete" key k2);
          holds = d;
          object = o1 ∙ ap ok (is_str-eq "charge" object o2);
          status = s1 ∙ ap ok (rest k).0;
          id = i1 ∙ ap ok (text-eq i s i2 ∙ ap str (sym fields.0));
          amount = fields.1;
        },
        short,
      )
