-- ===== src/Security/Vectors.antt =====
-- core/security/startup_test.py: the vectors against the modelled adapters.
use selfhost_tip_overlay.Prelude.{
  ℕ, ◌+◌, ◌-◌, ◌*◌, ◌≤◌, ◌<◌, String, true, false, ◌≡◌, refl, ap, ◌∙◌, arith, [], ◌∷◌, str_eq,
}
use selfhost_tip_overlay.Prelude.Int.{pos}
use selfhost_tip_overlay.Prelude.Text.{is_empty, is_ascii}
use selfhost_tip_overlay.Payment.Base.{
  Result, WebhookEvent, ok, raise, signature_error, replay_error, ◌>>=◌,
}
use selfhost_tip_overlay.Payment.Decimal.{
  show, show_int, IsPrintable, show-is_empty, parse_int-show,
}
use selfhost_tip_overlay.Payment.Json.{Json}
use selfhost_tip_overlay.Payment.Signature.{
  Bytes, Env, signed, age, check_window, compare_digest, any_match, finish,
}
use selfhost_tip_overlay.Payment.Omise
use selfhost_tip_overlay.Security.SelfTest.{
  Vector, zeros, seconds, minus, expect_signature, expect_replay, omise_headers, omise_key,
  omise_body, omise_bad_sig, omise_replay, omise_missing_headers,
}

-- A vector that is made after 1970 and verified within the minutes that follow.
pub record IsTimely (made verified : ℕ) : Type 0 where
  pub late : 400_000_000 ≤ made
  pub bounded : made < 1_000_000_000_000_000_000
  pub after : made ≤ verified
  pub soon : verified ≤ made + 299_000_000

pub printable : (n : ℕ) → n < 1_000_000_000_000 → IsPrintable n
unfolding IsPrintable
printable n h = omega (arith, h)

pub check_window_recent :
    (now n : ℕ)
    → n < 1_000_000_000_000
    → n * 1_000_000 ≤ now
    → now ≤ n * 1_000_000 + 300_000_000
    → check_window now (pos n) ≡ ok tt
unfolding check_window age
check_window_recent now n b l u = ground (arith, b, l, u)

pub check_window_old :
    (now n : ℕ)
    → n < 1_000_000_000_000
    → n * 1_000_000 + 300_000_000 < now
    → check_window now (pos n) ≡ raise replay_error
unfolding check_window age
check_window_old now n b l = ground (arith, b, l)

-- Against one signature that is not the expected one.
module _ (env : Env) (key : Bytes) (ts : String) (body : Bytes) where
  -- The digest is ASCII, and not the one of the vector.
  pub record IsDigest : Type 0 where
    pub ascii : is_ascii (env.hmac_hex key (signed ts body)) ≡ true
    pub other : str_eq (env.hmac_hex key (signed ts body)) zeros ≡ false

  pub finish-zeros : IsDigest → finish env key ts (zeros ∷ []) body ≡ raise signature_error
  unfolding finish any_match compare_digest is_ascii
  finish-zeros h = rw (finish, any_match, compare_digest, h.ascii, h.other) refl

pub seconds-lt : (made : ℕ) → made < 1_000_000_000_000_000_000 → seconds made < 1_000_000_000_000
seconds-lt made h = omega (arith, h)

pub minus_pos : (a b : ℕ) → b ≤ a → minus a b ≡ pos (a - b)
minus_pos a b h = ground (arith, h)

pub show_int_pos : (n : ℕ) → show_int (pos n) ≡ show n
unfolding show_int
show_int_pos n = refl

pub expected_replay :
    (m : Result Json) (parse : Json → Result WebhookEvent)
    → m ≡ raise replay_error
    → expect_replay (m >>= parse) ≡ []
unfolding expect_replay
expected_replay m parse h = rw h refl

pub expected_signature :
    (v : Vector) (m : Result Json) (parse : Json → Result WebhookEvent)
    → m ≡ raise signature_error
    → expect_signature v (m >>= parse) ≡ []
unfolding expect_signature
expected_signature v m parse h = rw h refl

module _ (env : Env) where
  omise_expected :
      (key : Bytes) (now n : ℕ) (body : Bytes)
      → n < 1_000_000_000_000
      → check_window now (pos n) ≡ ok tt
      → IsDigest env key (show n) body
      → Omise.verify_signature env key now body (omise_headers (show n) zeros)
        ≡ raise signature_error
  unfolding Omise.verify_signature Omise.verify_with Omise.match_sigs
  omise_expected key now n body b w d =
      rw
        (
          show-is_empty n (printable n b),
          Omise.verify_with,
          parse_int-show n (printable n b),
          w,
          finish-zeros env key (show n) body d,
        )
        refl

  omise_expired :
      (key : Bytes) (now n : ℕ) (sig : String) (body : Bytes)
      → n < 1_000_000_000_000
      → is_empty sig ≡ false
      → check_window now (pos n) ≡ raise replay_error
      → Omise.verify_signature env key now body (omise_headers (show n) sig) ≡ raise replay_error
  unfolding Omise.verify_signature Omise.verify_with
  omise_expired key now n sig body b e w =
      rw
        (show-is_empty n (printable n b), e, Omise.verify_with, parse_int-show n (printable n b), w)
        refl

  pub omise_bad_sig_none :
      (made verified : ℕ)
      → IsTimely made verified
      → IsDigest env omise_key (show (seconds made)) omise_body
      → omise_bad_sig env made verified ≡ []
  unfolding omise_bad_sig Omise.verify_webhook expect_signature
  omise_bad_sig_none made verified t d =
      let n = seconds made in
      let b = seconds-lt made t.bounded in
      let w : check_window verified (pos n) ≡ ok tt =
        check_window_recent verified n b (omega (arith, t.after)) (omega (arith, t.soon)) in
      rw (show_int_pos n, omise_expected omise_key verified n omise_body b w d) refl

  pub omise_missing_headers_none : (verified : ℕ) → omise_missing_headers env verified ≡ []
  unfolding omise_missing_headers Omise.verify_webhook Omise.verify_signature expect_signature
  omise_missing_headers_none verified = refl

  omise_signed_expired :
      (key body : Bytes) (now : ℕ) (ts ts' : String)
      → ts ≡ ts'
      → Omise.verify_signature env key now body
          (omise_headers ts' (env.hmac_hex key (signed ts' body)))
        ≡ raise replay_error
      → expect_replay (
          Omise.verify_webhook env key now body
            (omise_headers ts (env.hmac_hex key (signed ts body))))
        ≡ []
  unfolding Omise.verify_webhook
  omise_signed_expired key body now ts ts' e h =
      ap
        (λ t. expect_replay (
          Omise.verify_webhook env key now body
            (omise_headers t (env.hmac_hex key (signed t body)))))
        e
      ∙ expected_replay
          (Omise.verify_signature env key now body
            (omise_headers ts' (env.hmac_hex key (signed ts' body))))
          (Omise.parse_event env) h

  pub omise_replay_none :
      (made verified : ℕ)
      → IsTimely made verified
      → ((key message : Bytes) → is_empty (env.hmac_hex key message) ≡ false)
      → omise_replay env made verified ≡ []
  unfolding omise_replay
  omise_replay_none made verified t filled =
      let n = seconds made - 400 in
      let b : n < 1_000_000_000_000 = omega (arith, seconds-lt made t.bounded) in
      let w : check_window verified (pos n) ≡ raise replay_error =
        check_window_old verified n b (omega (arith, t.after, t.late)) in
      omise_signed_expired omise_key _ verified _ (show n)
        (ap show_int (minus_pos (seconds made) 400 (omega (arith, t.late))) ∙ show_int_pos n)
        (omise_expired omise_key verified n _ _ b (filled _ _) w)
