-- ===== src/Webhook/Genuine.antt =====
-- routes/webhook.py, core/payment/omise.py: from a genuine delivery of Omise to the overlay.
use selfhost_tip_overlay.Prelude.{
  ◌++◌, ℕ, ◌+◌, ◌≤◌, String, ◌≡◌, refl, ap, sym, ◌∙◌, true, false, none, some, List, [], ◌∷◌, All,
  str_eq, or_default, Bool-cases, inl, inr,
}
use mathlib.Core.Path.{subst}
use selfhost_tip_overlay.Prelude.Int.{ℤ}
use selfhost_tip_overlay.Prelude.Dict.{get}
use selfhost_tip_overlay.Prelude.Text.{is_ascii, is_empty, len}
use selfhost_tip_overlay.Db.Schema.{max_seq}
use selfhost_tip_overlay.Db.Valid.{IsValid}
use selfhost_tip_overlay.Db.Money.{is_paid}
use selfhost_tip_overlay.Db.Push.{is_pushed}
use selfhost_tip_overlay.Payment.Authentic.{contains}
use selfhost_tip_overlay.Payment.Base.{ok, ◌>>=◌, WebhookEvent}
use selfhost_tip_overlay.Payment.Json.{Json, parse_int}
use selfhost_tip_overlay.Payment.Signature.{
  Bytes, Headers, Env, signed, check_window, compare_digest, any_match, finish,
}
use selfhost_tip_overlay.Payment.Omise
use selfhost_tip_overlay.Payment.Omise.Creation.{charge_metadata}
use selfhost_tip_overlay.Payment.Omise.RoundTrip.{IsPaidFor, paid_event, parse_event-paid}
use selfhost_tip_overlay.Webhook.{App, Pipeline, Response, status, tip_event, receive_webhook}
use selfhost_tip_overlay.Webhook.Handler.{announced, receive_webhook_paid}

-- A delivery that Omise signs with the webhook key, among other signatures while keys are exchanged,
-- and that arrives in time.
pub record IsGenuine (env : Env) (key : Bytes) (now : ℕ) (raw_body : Bytes) (headers : Headers)
    (payload : Json) : Type 0 where
  pub ts_str : String
  pub sig_header : String
  pub has_timestamp : headers "omise-signature-timestamp" ≡ some ts_str
  pub has_signature : headers "omise-signature" ≡ some sig_header
  pub stamped : is_empty ts_str ≡ false
  pub filled : is_empty sig_header ≡ false
  pub ts : ℤ
  pub timestamp : parse_int ts_str ≡ some ts
  pub recent : check_window now ts ≡ ok tt
  pub digest : is_ascii (env.hmac_hex key (signed ts_str raw_body)) ≡ true
  pub ascii : All (λ s. is_ascii s ≡ true) (Omise.provided_sigs sig_header)
  pub signature :
      contains (env.hmac_hex key (signed ts_str raw_body)) (Omise.provided_sigs sig_header) ≡ true
  pub parsed : env.loads raw_body ≡ ok payload

pub any_match_found :
    (e : String) (sigs : List String)
    → is_ascii e ≡ true
    → All (λ s. is_ascii s ≡ true) sigs
    → contains e sigs ≡ true
    → any_match e sigs ≡ ok true
unfolding any_match compare_digest
any_match_found e [] d a h = cc
any_match_found e (s ∷ sigs) d a h = elim (Bool-cases (str_eq e s)) [
  | inl y ↦ rw (d, a.0, y) refl
  | inr n ↦ rw (d, a.0, n) (any_match_found e sigs d a.1 (rw n at h))
]

module _ (env : Env) (key : Bytes) (now : ℕ) (raw_body : Bytes) (headers : Headers) (payload : Json)
    (genuine : IsGenuine env key now raw_body headers payload) where
  match_sigs_found :
      (sigs : List String)
      → All (λ s. is_ascii s ≡ true) sigs
      → contains (env.hmac_hex key (signed genuine.ts_str raw_body)) sigs ≡ true
      → Omise.match_sigs env key genuine.ts_str sigs raw_body ≡ ok payload
  unfolding Omise.match_sigs finish
  match_sigs_found [] a h = cc
  match_sigs_found (s ∷ sigs) a h =
      rw (any_match_found _ (s ∷ sigs) genuine.digest a h) genuine.parsed

  verify_with-genuine :
      Omise.verify_with env key now genuine.ts_str genuine.sig_header raw_body ≡ ok payload
  unfolding Omise.verify_with
  verify_with-genuine =
      rw (Omise.verify_with, genuine.timestamp, genuine.recent)
        (match_sigs_found (Omise.provided_sigs genuine.sig_header) genuine.ascii genuine.signature)

  verify_signature-genuine : Omise.verify_signature env key now raw_body headers ≡ ok payload
  unfolding Omise.verify_signature
  verify_signature-genuine =
      rw (genuine.has_timestamp, genuine.has_signature, genuine.stamped, genuine.filled)
        verify_with-genuine

-- A charge has been recorded as paid and pushed, and answered with 200.
pub record IsShown (pipeline : Pipeline) (e : WebhookEvent) (now : ℕ) (a : App)
    (out : Response × App) : Type 0 where
  pub answer : out.0 ≡ status 200
  pub sent : out.1.sent ≡ (
      let event = tip_event e (or_default e.paid_at now) in
      announced (pipeline event) event (max_seq a.db.tips + 1) ++ a.sent)
  pub money : is_paid e.charge_id out.1.db ≡ true
  pub overlay : is_pushed e.charge_id out.1.db ≡ true
  pub qr : get e.charge_id out.1.qr_cache ≡ none

module _ (pipeline : Pipeline) (env : Env) (key : Bytes) (now t t' : ℕ) (raw_body : Bytes)
    (headers : Headers) (payload : Json) (id : String) (amount : ℤ) (name message : String)
    (a : App) where
  -- A genuine delivery of Omise (one of its signatures, all in ASCII, is the HMAC, and it arrives
  -- in time) for a paid charge, whose payload keeps the metadata of at most 50 and 200 characters
  -- that the charge was made with, to a well-formed database where the charge was not pushed: it
  -- passes the verification, is answered with 200, and leaves the charge recorded as paid and as
  -- pushed and its QR code gone; what the pipeline makes of the event with that name, message and
  -- amount is broadcast under the next number, or nothing where it answers "DROP".
  pub omise_delivery-IsShown :
      IsGenuine env key now raw_body headers payload
      → (paid : IsPaidFor env payload (charge_metadata name message) id amount) → len name ≤ 50
      → len message ≤ 200
      → IsValid a.db
      → is_pushed id a.db ≡ false
      → IsShown pipeline
          (paid_event id amount name message paid.source_type paid.when)
          t
          a
          (receive_webhook pipeline (Omise.verify_webhook env key now raw_body headers) t t' a)
  unfolding Omise.verify_webhook
  omise_delivery-IsShown genuine paid short_name short_message valid fresh =
      let e = paid_event id amount name message paid.source_type paid.when in
      let verified : Omise.verify_webhook env key now raw_body headers ≡ ok e =
        ap (λ m. m >>= Omise.parse_event env)
          (verify_signature-genuine env key now raw_body headers payload genuine)
        ∙ parse_event-paid env payload id amount name message paid short_name short_message in
      let (answer, sent, money, overlay, qr) =
        receive_webhook_paid pipeline e refl t t' a valid fresh in
      subst (λ d. IsShown pipeline e t a (receive_webhook pipeline d t t' a)) (sym verified)
        (record { answer = answer; sent = sent; money = money; overlay = overlay; qr = qr })
