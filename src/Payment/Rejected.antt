-- ===== src/Payment/Rejected.antt =====
-- core/payment/omise.py, core/payment/stripe.py: `_verify_signature` where it raises.
use selfhost_tip_overlay.Prelude.{
  ℕ, String, ◌≡◌, ◌≢◌, refl, false, some, List, ◌∷◌, arith, or_default,
}
use selfhost_tip_overlay.Prelude.Int.{ℤ}
use selfhost_tip_overlay.Prelude.Text.{is_ascii, is_empty}
use selfhost_tip_overlay.Payment.Authentic.{contains, omise-IsAuthentic, stripe-IsAuthentic}
use selfhost_tip_overlay.Payment.Base.{
  Exception, type_error, Result, ok, raise, ◌>>=◌, WebhookEvent,
}
use selfhost_tip_overlay.Payment.Json.{Json, parse_int}
use selfhost_tip_overlay.Payment.Signature.{
  Bytes, Headers, Env, signed, check_window, compare_digest, any_match, finish,
}
use selfhost_tip_overlay.Payment.Omise
use selfhost_tip_overlay.Payment.Stripe
use selfhost_tip_overlay.Webhook.{App, unhandled, Pipeline, receive_webhook}

-- A step that raises whatever follows raises.
raise-bind :
    (m : Result Json) (f : Json → Result WebhookEvent) (e : Exception)
    → m ≡ raise e
    → (m >>= f) ≡ raise e
raise-bind m f e h = rw h

abbrev Raises : {A : Type 0} → Result A → Type 0
Raises {A} m = (e : Exception) × (m ≡ raise e)

Raises-unless : (m : Result Json) → ((p : Json) → m ≢ ok p) → Raises m
Raises-unless (ok p) h = absurd (h p refl)
Raises-unless (raise e) h = (e, refl)

module _ (env : Env) (key : Bytes) (now : ℕ) (raw_body : Bytes) (headers : Headers)
    (pipeline : Pipeline) (t t' : ℕ) (a : App) where
  unchanged :
      (m : Result Json) (f : Json → Result WebhookEvent)
      → Raises m
      → (receive_webhook pipeline (m >>= f) t t' a).1 ≡ a
  unfolding receive_webhook
  unchanged m f (e, h) = rw (raise-bind m f e h)

  -- A delivery none of whose signatures is the HMAC, under the webhook key, of its timestamp, a dot
  -- and its raw body leaves the whole state of the program as it is: no money is recorded, no
  -- status is changed and nothing is broadcast.
  pub omise_forged :
      contains
          (env.hmac_hex key (signed (or_default (headers "omise-signature-timestamp") "") raw_body))
          (Omise.provided_sigs (or_default (headers "omise-signature") ""))
        ≡ false
      → (receive_webhook pipeline (Omise.verify_webhook env key now raw_body headers) t t' a).1 ≡ a
  unfolding Omise.verify_webhook
  omise_forged no_match =
      unchanged (Omise.verify_signature env key now raw_body headers) (Omise.parse_event env) (
        Raises-unless (Omise.verify_signature env key now raw_body headers)
          (λ p h. cc (no_match, (omise-IsAuthentic env key now raw_body headers p h).signature)))

  -- A delivery to the Stripe adapter none of whose `v1` parts is the HMAC, under the webhook key,
  -- of its `t` part, a dot and its raw body leaves the whole state of the program as it is: no
  -- money is recorded, no status is changed and nothing is broadcast.
  pub stripe_forged :
      (let parts = Stripe.parts_of (or_default (headers "stripe-signature") "") in
          contains (env.hmac_hex key (signed parts.ts_str raw_body)) parts.v1_sigs)
        ≡ false
      → (receive_webhook pipeline (Stripe.verify_webhook env key now raw_body headers) t t' a).1 ≡ a
  unfolding Stripe.verify_webhook
  stripe_forged no_match =
      unchanged (Stripe.verify_signature env key now raw_body headers) (Stripe.parse_event env) (
        Raises-unless (Stripe.verify_signature env key now raw_body headers)
          (λ p h. cc (no_match, (stripe-IsAuthentic env key now raw_body headers p h).signature)))

  compare_digest_non_ascii :
      (x s : String) → is_ascii s ≡ false → compare_digest x s ≡ raise type_error
  unfolding compare_digest
  compare_digest_non_ascii x s h = ground (arith, h)

  unreadable :
      (ts_str sig_header : String) (ts : ℤ) (s : String) (sigs : List String)
      → parse_int ts_str ≡ some ts
      → check_window now ts ≡ ok tt
      → Omise.provided_sigs sig_header ≡ s ∷ sigs
      → is_ascii s ≡ false
      → Omise.verify_with env key now ts_str sig_header raw_body ≡ raise type_error
  unfolding Omise.match_sigs finish any_match Omise.verify_with
  unreadable ts_str sig_header ts s sigs n w p na =
      rw (Omise.verify_with, n, w, p, compare_digest_non_ascii _ s na)

  -- A signature header whose first signature is not ASCII, with a well-formed and recent timestamp,
  -- is not answered with 401: the comparison raises TypeError, which the handler does not catch.
  pub omise_non_ascii :
      (ts_str sig_header : String) (ts : ℤ) (s : String) (sigs : List String)
      → headers "omise-signature-timestamp" ≡ some ts_str
      → headers "omise-signature" ≡ some sig_header
      → is_empty ts_str ≡ false
      → is_empty sig_header ≡ false
      → parse_int ts_str ≡ some ts
      → check_window now ts ≡ ok tt
      → Omise.provided_sigs sig_header ≡ s ∷ sigs
      → is_ascii s ≡ false
      → receive_webhook pipeline (Omise.verify_webhook env key now raw_body headers) t t' a
        ≡ (unhandled type_error, a)
  unfolding receive_webhook Omise.verify_webhook Omise.verify_signature
  omise_non_ascii ts_str sig_header ts s sigs h1 h2 e1 e2 n w p na =
      rw (h1, h2, e1, e2, unreadable ts_str sig_header ts s sigs n w p na)
