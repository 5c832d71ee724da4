-- ===== src/Security/SelfTest.antt =====
-- core/security/startup_test.py: the vectors that are fired at the selected adapter before the program
-- serves, and the test of the origin. A failure is a value here, not the text that is printed.
use selfhost_tip_overlay.Prelude.{
  ℕ, ◌-◌, ◌/◌, String, none, some, List, [], ◌∷◌, ◌++◌, ltb, str_eq, if◌then◌else◌,
}
use selfhost_tip_overlay.Prelude.Int.{ℤ, pos, negsuc}
use selfhost_tip_overlay.Payment.Base.{
  Exception, signature_error, replay_error, Result, ok, raise, WebhookEvent,
}
use selfhost_tip_overlay.Payment.Decimal.{show_int}
use selfhost_tip_overlay.Payment.Signature.{Bytes, Headers, Env, encode, signed}
use selfhost_tip_overlay.Payment.Omise
use selfhost_tip_overlay.Payment.Stripe
use selfhost_tip_overlay.Security.Redaction.{Environ, join}
use selfhost_tip_overlay.Security.Secrets.{gateway_name, is_wildcard}

pub data Vector : Type 0 where
  bad_signature old_timestamp missing_headers : Vector

pub data Failure : Type 0 where
  accepted : Vector → Failure
  wrong_exception : Vector → Exception → Failure
  signature_instead : Failure
  origin_wildcard : Failure

abbrev pub zeros : String
zeros = "0000000000000000000000000000000000000000000000000000000000000000"

-- `int(time.time())`, for a clock in microseconds.
abbrev pub seconds : ℕ → ℕ
seconds now = now / 1_000_000

-- `a - b`
abbrev pub minus : ℕ → ℕ → ℤ
minus a b = if ltb a b then negsuc (b - a - 1) else pos (a - b)

-- `except SignatureError: pass`, and what the other outcomes append.
unfoldable pub expect_signature : Vector → Result WebhookEvent → List Failure
expect_signature v (ok e) = accepted v ∷ []
expect_signature v (raise signature_error) = []
expect_signature v (raise e) = wrong_exception v e ∷ []

-- `except ReplayError: pass`, and what the other outcomes append.
unfoldable pub expect_replay : Result WebhookEvent → List Failure
expect_replay (ok e) = accepted old_timestamp ∷ []
expect_replay (raise replay_error) = []
expect_replay (raise signature_error) = signature_instead ∷ []
expect_replay (raise e) = wrong_exception old_timestamp e ∷ []

abbrev pub omise_headers : String → String → Headers
omise_headers ts sig name =
    if str_eq name "omise-signature-timestamp"
    then some ts
    else if str_eq name "omise-signature"
    then some sig
    else none

abbrev pub no_headers : Headers
no_headers name = none

abbrev pub omise_key : Bytes
omise_key = encode "test-secret-key-32-bytes-padding"

abbrev pub omise_body : Bytes
omise_body =
    encode "{\"key\":\"charge.complete\",\"data\":{\"object\":\"charge\",\"id\":\"chrg_test\"}}"

abbrev pub stripe_key : Bytes
stripe_key = encode "whsec_dummy"

abbrev pub stripe_body : Bytes
stripe_body =
    encode "{\"type\":\"payment_intent.succeeded\",\"data\":{\"object\":{\"id\":\"pi_x\"}}}"

-- `f"t={ts},v1={sig}"`
abbrev pub stripe_header : String → String → String
stripe_header ts sig = join "t=" (join ts (join ",v1=" sig))

abbrev pub stripe_headers : String → String → Headers
stripe_headers ts sig name =
    if str_eq name "stripe-signature" then some (stripe_header ts sig) else none

-- Each vector reads the clock when it is made, and the adapter reads it when it verifies.
module _ (env : Env) where
  unfoldable pub omise_bad_sig : ℕ → ℕ → List Failure
  unfolding Omise.verify_webhook expect_signature show_int
  omise_bad_sig made verified =
      let ts = show_int (pos (seconds made)) in
      expect_signature bad_signature
        (Omise.verify_webhook env omise_key verified omise_body (omise_headers ts zeros))

  unfoldable pub omise_replay : ℕ → ℕ → List Failure
  unfolding Omise.verify_webhook expect_replay show_int
  omise_replay made verified =
      let ts = show_int (minus (seconds made) 400) in
      let body = encode "{\"key\":\"charge.complete\",\"data\":{}}" in
      expect_replay (
        Omise.verify_webhook env omise_key verified body
          (omise_headers ts (env.hmac_hex omise_key (signed ts body))))

  unfoldable pub omise_missing_headers : ℕ → List Failure
  unfolding Omise.verify_webhook expect_signature
  omise_missing_headers verified = expect_signature missing_headers (
      Omise.verify_webhook env omise_key verified (encode "{\"key\":\"charge.complete\"}")
        no_headers)

  unfoldable pub stripe_bad_sig : ℕ → ℕ → List Failure
  unfolding Stripe.verify_webhook expect_signature show_int
  stripe_bad_sig made verified =
      let ts = show_int (pos (seconds made)) in
      expect_signature bad_signature
        (Stripe.verify_webhook env stripe_key verified stripe_body (stripe_headers ts zeros))

  unfoldable pub stripe_replay : ℕ → ℕ → List Failure
  unfolding Stripe.verify_webhook expect_replay show_int
  stripe_replay made verified =
      let ts = show_int (minus (seconds made) 400) in
      let body = encode "{\"type\":\"payment_intent.succeeded\",\"data\":{\"object\":{}}}" in
      expect_replay (
        Stripe.verify_webhook env stripe_key verified body
          (stripe_headers ts (env.hmac_hex stripe_key (signed ts body))))

  unfoldable pub stripe_missing_headers : ℕ → List Failure
  unfolding Stripe.verify_webhook expect_signature
  stripe_missing_headers verified = expect_signature missing_headers (
      Stripe.verify_webhook env stripe_key verified
        (encode "{\"type\":\"payment_intent.succeeded\"}") no_headers)

  module _ (lower : String → String) (environ : Environ) where
    unfoldable pub cors_not_wildcard : List Failure
    unfolding is_wildcard
    cors_not_wildcard = if is_wildcard lower environ then origin_wildcard ∷ [] else []

    -- All tests, at the readings of the clock in their order; the program stops unless there is no
    -- failure.
    unfoldable pub run : (ℕ → ℕ) → List Failure
    unfolding cors_not_wildcard omise_bad_sig omise_replay omise_missing_headers stripe_bad_sig
        stripe_replay stripe_missing_headers
    run clock =
        (if str_eq (gateway_name lower environ) "stripe"
          then stripe_bad_sig (clock 0) (clock 1)
            ++ stripe_replay (clock 2) (clock 3)
            ++ stripe_missing_headers (clock 4)
          else omise_bad_sig (clock 0) (clock 1)
            ++ omise_replay (clock 2) (clock 3)
            ++ omise_missing_headers (clock 4))
        ++ cors_not_wildcard
