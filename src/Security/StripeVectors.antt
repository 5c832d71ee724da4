-- ===== src/Security/StripeVectors.antt =====
-- core/security/startup_test.py: the Stripe vectors against the modelled adapter.
use selfhost_tip_overlay.Prelude.{
  ℕ, ◌-◌, ◌<◌, String, Bool, true, false, ◌&&◌, ◌||◌, leb, ◌==◌, ◌≡◌, refl, ap, ◌∙◌, arith, [], ◌∷◌,
}
use Prim.Native.Char.{Char, code}
use selfhost_tip_overlay.Prelude.Int.{pos}
use selfhost_tip_overlay.Prelude.Text.{is_space, is_ascii, split, strip, lstrip, rstrip, partition}
use selfhost_tip_overlay.Payment.Base.{ok, raise, signature_error, replay_error}
use selfhost_tip_overlay.Payment.Decimal.{
  AllDigits, show, show_int, show-is_empty, show-AllDigits, parse_int-show,
}
use selfhost_tip_overlay.Payment.Json.{is_digit}
use selfhost_tip_overlay.Payment.Signature.{Bytes, Env, signed, check_window}
use selfhost_tip_overlay.Payment.Stripe
use selfhost_tip_overlay.Security.Redaction.{join}
use selfhost_tip_overlay.Security.SelfTest.{
  zeros, seconds, expect_signature, expect_replay, stripe_header, stripe_headers, stripe_key,
  stripe_body, stripe_bad_sig, stripe_replay, stripe_missing_headers,
}
use selfhost_tip_overlay.Security.Vectors.{
  IsTimely, IsDigest, printable, check_window_recent, check_window_old, seconds-lt, minus_pos,
  show_int_pos, expected_replay, finish-zeros,
}

-- A hexadecimal digit, as `hexdigest` writes it.
abbrev pub is_hex : ℕ → Bool
is_hex c = is_digit c || (leb b'a' c && leb c b'f')

abbrev pub AllHex : String → Type 0
AllHex String.[] = Unit
AllHex (String.◌∷◌ c s) = (is_hex (code c) ≡ true) × AllHex s

AllDigits-AllHex : (s : String) → AllDigits s → AllHex s
AllDigits-AllHex String.[] a = tt
AllDigits-AllHex (String.◌∷◌ c s) a = (ground (arith, a.0), AllDigits-AllHex s a.1)

not_comma : (c : ℕ) → is_hex c ≡ true → c == b',' ≡ false
not_comma c h = ground (arith, h)

split_hex : (s : String) → AllHex s → split b',' s ≡ s ∷ []
unfolding split
split_hex String.[] a = refl
split_hex (String.◌∷◌ c s) a = rw (split_hex s a.1, not_comma (code c) a.0) refl

split-join : (s r : String) → AllHex s → split b',' (join s (String.◌∷◌ "," r)) ≡ s ∷ split b',' r
unfolding split
split-join String.[] r a = refl
split-join (String.◌∷◌ c s) r a = rw (split-join s r a.1, not_comma (code c) a.0) refl

is_space_hex : (c : Char) → is_hex (code c) ≡ true → is_space c ≡ false
unfolding is_space
is_space_hex c h = ground (arith, h)

lstrip_hex : (s : String) → AllHex s → lstrip s ≡ s
unfolding lstrip
lstrip_hex String.[] a = refl
lstrip_hex (String.◌∷◌ c s) a = rw (lstrip, is_space_hex c a.0) refl

rstrip_hex : (s : String) → AllHex s → rstrip s ≡ s
unfolding rstrip
rstrip_hex String.[] a = refl
rstrip_hex (String.◌∷◌ c s) a = rw (is_space_hex c a.0, rstrip_hex s a.1) refl

strip_hex : (s : String) → AllHex s → strip s ≡ s
unfolding strip
strip_hex s a = rw (lstrip_hex s a, rstrip_hex s a)

-- The parts of the header that a vector has.
parts_of_header :
    (ts sig : String)
    → AllHex ts
    → AllHex sig
    → Stripe.parts_of (stripe_header ts sig) ≡ record { ts_str = ts; v1_sigs = sig ∷ [] }
unfolding Stripe.parts_of split Stripe.read_parts Stripe.read_part partition
parts_of_header ts sig t s =
    rw (split-join ts (join "v1=" sig) t, split_hex sig s)
      (rw (strip_hex ts t, strip_hex sig s) refl)

zeros-AllHex : AllHex zeros
zeros-AllHex = ground arith

pub is_ascii_hex : (s : String) → AllHex s → is_ascii s ≡ true
unfolding is_ascii
is_ascii_hex String.[] a = refl
is_ascii_hex (String.◌∷◌ c s) a = ground (arith, a.0, is_ascii_hex s a.1)

module _ (env : Env) where
  show-AllHex : (n : ℕ) → n < 1_000_000_000_000 → AllHex (show n)
  show-AllHex n b = AllDigits-AllHex (show n) (show-AllDigits n (printable n b))

  verify_header :
      (key : Bytes) (now : ℕ) (ts sig : String) (body : Bytes)
      → AllHex ts
      → AllHex sig
      → Stripe.verify_signature env key now body (stripe_headers ts sig)
        ≡ Stripe.verify_parts env key now ts (sig ∷ []) body
  unfolding Stripe.verify_signature
  verify_header key now ts sig body t s =
      ap (λ p. Stripe.verify_parts env key now p.ts_str p.v1_sigs body) (parts_of_header ts sig t s)

  stripe_expected :
      (key : Bytes) (now n : ℕ) (body : Bytes)
      → n < 1_000_000_000_000
      → check_window now (pos n) ≡ ok tt
      → IsDigest env key (show n) body
      → Stripe.verify_signature env key now body (stripe_headers (show n) zeros)
        ≡ raise signature_error
  unfolding Stripe.verify_parts
  stripe_expected key now n body b w d =
      verify_header key now (show n) zeros body (show-AllHex n b) zeros-AllHex
      ∙ rw
          (
            Stripe.verify_parts,
            show-is_empty n (printable n b),
            parse_int-show n (printable n b),
            w,
            finish-zeros env key (show n) body d,
          )
          refl

  stripe_expired :
      (key : Bytes) (now n : ℕ) (sig : String) (body : Bytes)
      → n < 1_000_000_000_000
      → AllHex sig
      → check_window now (pos n) ≡ raise replay_error
      → Stripe.verify_signature env key now body (stripe_headers (show n) sig) ≡ raise replay_error
  unfolding Stripe.verify_parts
  stripe_expired key now n sig body b a w =
      verify_header key now (show n) sig body (show-AllHex n b) a
      ∙ rw
          (
            Stripe.verify_parts,
            show-is_empty n (printable n b),
            parse_int-show n (printable n b),
            w,
          )
          refl

  pub stripe_bad_sig_none :
      (made verified : ℕ)
      → IsTimely made verified
      → IsDigest env stripe_key (show (seconds made)) stripe_body
      → stripe_bad_sig env made verified ≡ []
  unfolding stripe_bad_sig Stripe.verify_webhook expect_signature
  stripe_bad_sig_none made verified t d =
      let n = seconds made in
      let b = seconds-lt made t.bounded in
      let w : check_window verified (pos n) ≡ ok tt =
        check_window_recent verified n b (omega (arith, t.after)) (omega (arith, t.soon)) in
      rw (show_int_pos n, stripe_expected stripe_key verified n stripe_body b w d) refl

  pub stripe_missing_headers_none : (verified : ℕ) → stripe_missing_headers env verified ≡ []
  unfolding stripe_missing_headers Stripe.verify_webhook Stripe.verify_signature expect_signature
  stripe_missing_headers_none verified = refl

  stripe_signed_expired :
      (key body : Bytes) (now : ℕ) (ts ts' : String)
      → ts ≡ ts'
      → Stripe.verify_signature env key now body
          (stripe_headers ts' (env.hmac_hex key (signed ts' body)))
        ≡ raise replay_error
      → expect_replay (
          Stripe.verify_webhook env key now body
            (stripe_headers ts (env.hmac_hex key (signed ts body))))
        ≡ []
  unfolding Stripe.verify_webhook
  stripe_signed_expired key body now ts ts' e h =
      ap
        (λ t. expect_replay (
          Stripe.verify_webhook env key now body
            (stripe_headers t (env.hmac_hex key (signed t body)))))
        e
      ∙ expected_replay
          (Stripe.verify_signature env key now body
            (stripe_headers ts' (env.hmac_hex key (signed ts' body))))
          (Stripe.parse_event env) h

  pub stripe_replay_none :
      (made verified : ℕ)
      → IsTimely made verified
      → ((key message : Bytes) → AllHex (env.hmac_hex key message))
      → stripe_replay env made verified ≡ []
  unfolding stripe_replay
  stripe_replay_none made verified t hex =
      let n = seconds made - 400 in
      let b : n < 1_000_000_000_000 = omega (arith, seconds-lt made t.bounded) in
      let w : check_window verified (pos n) ≡ raise replay_error =
        check_window_old verified n b (omega (arith, t.after, t.late)) in
      stripe_signed_expired stripe_key _ verified _ (show n)
        (ap show_int (minus_pos (seconds made) 400 (omega (arith, t.late))) ∙ show_int_pos n)
        (stripe_expired stripe_key verified n _ _ b (hex _ _) w)
