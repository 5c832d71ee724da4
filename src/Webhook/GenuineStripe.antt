-- ===== src/Webhook/GenuineStripe.antt =====
-- routes/webhook.py, core/payment/stripe.py: from a genuine delivery of Stripe to the overlay.
use selfhost_tip_overlay.Prelude.{
  ℕ, ◌≤◌, String, ◌≡◌, refl, ap, sym, ◌∙◌, true, false, none, some, List, [], ◌∷◌, All,
}
use mathlib.Core.Path.{subst}
use selfhost_tip_overlay.Prelude.Int.{ℤ}
use selfhost_tip_overlay.Prelude.Text.{is_ascii, is_empty, len}
use selfhost_tip_overlay.Db.Valid.{IsValid}
use selfhost_tip_overlay.Db.Push.{is_pushed}
use selfhost_tip_overlay.Payment.Authentic.{contains}
use selfhost_tip_overlay.Payment.Base.{ok, ◌>>=◌}
use selfhost_tip_overlay.Payment.Json.{Json, parse_int}
use selfhost_tip_overlay.Payment.Signature.{Bytes, Headers, Env, signed, check_window, finish}
use selfhost_tip_overlay.Payment.Stripe
use selfhost_tip_overlay.Payment.Stripe.RoundTrip.{IsPaidFor, parse_event-paid}
use selfhost_tip_overlay.Payment.Omise.Creation.{charge_metadata}
use selfhost_tip_overlay.Payment.Omise.RoundTrip.{paid_event}
use selfhost_tip_overlay.Webhook.{App, Pipeline, receive_webhook}
use selfhost_tip_overlay.Webhook.Handler.{receive_webhook_paid}
use selfhost_tip_overlay.Webhook.Genuine.{IsShown, any_match_found}

-- A delivery that Stripe signs with the webhook secret, among other signatures while secrets are
-- rolled, and that arrives in time.
pub record IsGenuine (env : Env) (key : Bytes) (now : ℕ) (raw_body : Bytes) (headers : Headers)
    (payload : Json) : Type 0 where
  pub sig_header : String
  pub has_signature : headers "stripe-signature" ≡ some sig_header
  pub filled : is_empty sig_header ≡ false
  pub ts_str : String
  pub sigs : List String
  pub parts : Stripe.parts_of sig_header ≡ record { ts_str = ts_str; v1_sigs = sigs }
  pub stamped : is_empty ts_str ≡ false
  pub ts : ℤ
  pub timestamp : parse_int ts_str ≡ some ts
  pub recent : check_window now ts ≡ ok tt
  pub digest : is_ascii (env.hmac_hex key (signed ts_str raw_body)) ≡ true
  pub ascii : All (λ s. is_ascii s ≡ true) sigs
  pub signature : contains (env.hmac_hex key (signed ts_str raw_body)) sigs ≡ true
  pub parsed : env.loads raw_body ≡ ok payload

module _ (env : Env) (key : Bytes) (now : ℕ) (raw_body : Bytes) (headers : Headers) (payload : Json)
    (genuine : IsGenuine env key now raw_body headers payload) where
  verify_parts-genuine :
      (sigs : List String)
      → All (λ s. is_ascii s ≡ true) sigs
      → contains (env.hmac_hex key (signed genuine.ts_str raw_body)) sigs ≡ true
      → Stripe.verify_parts env key now genuine.ts_str sigs raw_body ≡ ok payload
  unfolding Stripe.verify_parts finish
  verify_parts-genuine [] a h = cc
  verify_parts-genuine (s ∷ sigs) a h =
      rw
        (
          Stripe.verify_parts,
          genuine.stamped,
          genuine.timestamp,
          genuine.recent,
          any_match_found _ (s ∷ sigs) genuine.digest a h,
        )
        genuine.parsed

  verify_signature-genuine : Stripe.verify_signature env key now raw_body headers ≡ ok payload
  unfolding Stripe.verify_signature
  verify_signature-genuine =
      rw (Stripe.verify_signature, genuine.has_signature, genuine.filled, genuine.parts)
        (verify_parts-genuine genuine.sigs genuine.ascii genuine.signature)

module _ (pipeline : Pipeline) (env : Env) (key : Bytes) (now t t' : ℕ) (raw_body : Bytes)
    (headers : Headers) (payload : Json) (id : String) (amount : ℤ) (name message : String)
    (a : App) where
  -- A genuine delivery of Stripe (one of its `v1` signatures, all in ASCII, is the HMAC, and it
  -- arrives in time) for a paid intent, whose payload keeps the metadata of at most 50 and 200
  -- characters that the charge was made with, to a well-formed database where the charge was not
  -- pushed: it passes the verification, is answered with 200, and leaves the charge recorded as paid
  -- and as pushed and its QR code gone; what the pipeline makes of the event with that name, message
  -- and amount is broadcast under the next number, or nothing where it answers "DROP".
  pub stripe_delivery-IsShown :
      IsGenuine env key now raw_body headers payload
      → IsPaidFor payload (charge_metadata name message) id amount
      → len name ≤ 50
      → len message ≤ 200
      → IsValid a.db
      → is_pushed id a.db ≡ false
      → IsShown pipeline
          (paid_event id amount name message "promptpay" none)
          t
          a
          (receive_webhook pipeline (Stripe.verify_webhook env key now raw_body headers) t t' a)
  unfolding Stripe.verify_webhook
  stripe_delivery-IsShown genuine paid short_name short_message valid fresh =
      let e = paid_event id amount name message "promptpay" none in
      let verified : Stripe.verify_webhook env key now raw_body headers ≡ ok e =
        ap (λ m. m >>= Stripe.parse_event env)
          (verify_signature-genuine env key now raw_body headers payload genuine)
        ∙ parse_event-paid env payload id amount name message paid short_name short_message in
      let (answer, sent, money, overlay, qr) =
        receive_webhook_paid pipeline e refl t t' a valid fresh in
      subst (λ d. IsShown pipeline e t a (receive_webhook pipeline d t t' a)) (sym verified)
        (record { answer = answer; sent = sent; money = money; overlay = overlay; qr = qr })
