-- ===== src/Security/Passes.antt =====
-- core/security/startup_test.py: the outcome of the tests with the modelled adapters.
use selfhost_tip_overlay.Prelude.{
  ℕ, String, false, ◌≡◌, refl, [], ◌∷◌, str_eq, Bool-cases, inl, inr, if◌then◌else◌,
}
use selfhost_tip_overlay.Prelude.Text.{is_empty}
use selfhost_tip_overlay.Payment.Decimal.{show}
use selfhost_tip_overlay.Payment.Signature.{Bytes, Env, signed}
use selfhost_tip_overlay.Security.Redaction.{Environ}
use selfhost_tip_overlay.Security.Secrets.{gateway_name, is_wildcard}
use selfhost_tip_overlay.Security.SelfTest.{
  origin_wildcard, zeros, seconds, omise_key, omise_body, stripe_key, stripe_body,
  cors_not_wildcard, run,
}
use selfhost_tip_overlay.Security.Vectors.{
  IsTimely, omise_bad_sig_none, omise_replay_none, omise_missing_headers_none,
}
use selfhost_tip_overlay.Security.StripeVectors.{
  AllHex, is_ascii_hex, stripe_bad_sig_none, stripe_replay_none, stripe_missing_headers_none,
}

-- HMAC-SHA256 in hex: a text of hexadecimal digits, which is not all zeros for the two messages that
-- the tests sign with zeros.
pub record IsHmac (env : Env) (now : ℕ) : Type 0 where
  pub hex : (key message : Bytes) → AllHex (env.hmac_hex key message)
  pub filled : (key message : Bytes) → is_empty (env.hmac_hex key message) ≡ false
  pub omise : str_eq (env.hmac_hex omise_key (signed (show (seconds now)) omise_body)) zeros ≡ false
  pub stripe :
      str_eq (env.hmac_hex stripe_key (signed (show (seconds now)) stripe_body)) zeros ≡ false

module _ (env : Env) (lower : String → String) (environ : Environ) (clock : ℕ → ℕ) where
  -- With an HMAC that writes hexadecimal digits, at least one, and not the zeros of the forged
  -- vectors; with a clock at least 400 seconds after 1970 and below 10^18 microseconds; and where
  -- the forged and the old vector are verified within 299 seconds from when they are made: the
  -- tests fail just where CORS_ORIGIN is "*", with that one failure. Whichever the gateway, its
  -- adapter refuses the forged signature, the old timestamp and the missing headers, each with the
  -- exception that is expected.
  pub run_failures :
      IsHmac env (clock 0)
      → IsTimely (clock 0) (clock 1)
      → IsTimely (clock 2) (clock 3)
      → run env lower environ clock
        ≡ (if is_wildcard lower environ then origin_wildcard ∷ [] else [])
  unfolding run cors_not_wildcard
  run_failures hmac forged old = elim (Bool-cases (str_eq (gateway_name lower environ) "stripe")) [
    | inl y ↦
        rw
          (
            run,
            y,
            stripe_bad_sig_none env (clock 0) (clock 1) forged
                (record { ascii = is_ascii_hex _ (hmac.hex _ _); other = hmac.stripe }),
            stripe_replay_none env (clock 2) (clock 3) old hmac.hex,
            stripe_missing_headers_none env (clock 4),
          )
          refl
    | inr x ↦
        rw
          (
            run,
            x,
            omise_bad_sig_none env (clock 0) (clock 1) forged
                (record { ascii = is_ascii_hex _ (hmac.hex _ _); other = hmac.omise }),
            omise_replay_none env (clock 2) (clock 3) old hmac.filled,
            omise_missing_headers_none env (clock 4),
          )
          refl
  ]
