-- ===== src/Payment/Authentic.antt =====
-- core/payment/omise.py, core/payment/stripe.py: `_verify_signature` where it returns.
use selfhost_tip_overlay.Prelude.{
  ℕ, ◌+◌, ◌≤◌, String, ◌≡◌, refl, inl, inr, Bool, true, false, some, List, [], ◌∷◌, arith, str_eq,
  or_default, Option-cases, leb, ltb, if◌then◌else◌,
}
use selfhost_tip_overlay.Prelude.Int.{ℤ, pos_part, neg_part}
use selfhost_tip_overlay.Prelude.Text.{is_empty}
use selfhost_tip_overlay.Payment.Base.{
  signature_error, replay_error, overflow_error, Result, ok, raise, ◌>>=◌,
}
use selfhost_tip_overlay.Payment.Json.{Json, parse_int}
use selfhost_tip_overlay.Payment.Signature.{
  Bytes, Headers, Env, signed, replay_window, age, check_window, compare_digest, any_match, finish,
  float_limit,
}
use selfhost_tip_overlay.Payment.Omise
use selfhost_tip_overlay.Payment.Stripe

-- A text is one of the provided signatures.
abbrev pub contains : String → List String → Bool
contains e [] = false
contains e (s ∷ sigs) = if str_eq e s then true else contains e sigs

any_match-contains :
    (e : String) (sigs : List String) → any_match e sigs ≡ ok true → contains e sigs ≡ true
unfolding any_match compare_digest
any_match-contains e [] h = cc
any_match-contains e (s ∷ sigs) h = ground (arith, any_match-contains e sigs)

-- Why a verified body is genuine and recent: the text of its timestamp is an integer within the
-- replay window of the clock, and one of the provided signatures is the HMAC, under the webhook's
-- key, of that text, a dot and the raw body; the payload is what the raw body parses to.
pub record IsAuthentic (env : Env) (key : Bytes) (now : ℕ) (raw_body : Bytes) (ts_str : String)
    (sigs : List String) (payload : Json) : Type 0 where
  pub ts : ℤ
  pub timestamp : parse_int ts_str ≡ some ts
  pub recent : age now ts ≤ replay_window
  pub signature : contains (env.hmac_hex key (signed ts_str raw_body)) sigs ≡ true
  pub parsed : env.loads raw_body ≡ ok payload

-- The tests of `check_window`, from their two answers.
window_lem :
    (overflow old : Bool) (u : Unit {0})
    → (if overflow then raise overflow_error else if old then raise replay_error else ok tt) ≡ ok u
    → (overflow ≡ false) × (old ≡ false)
window_lem overflow old u h = ground (arith, h)

not-ltb : (a b : ℕ) → ltb a b ≡ false → b ≤ a
not-ltb a b h = ground arith

check_window-recent :
    (now : ℕ) (ts : ℤ) (u : Unit {0}) → check_window now ts ≡ ok u → age now ts ≤ replay_window
unfolding check_window
check_window-recent now ts u h =
    not-ltb replay_window (age now ts)
      (window_lem (leb float_limit (pos_part ts + neg_part ts)) (ltb replay_window (age now ts)) u
        h).1

finish-authentic :
    (env : Env) (key : Bytes) (ts_str : String) (sigs : List String) (raw_body : Bytes) (p : Json)
    → finish env key ts_str sigs raw_body ≡ ok p
    → (contains (env.hmac_hex key (signed ts_str raw_body)) sigs ≡ true)
      × (env.loads raw_body ≡ ok p)
unfolding finish
finish-authentic env key ts_str sigs raw_body p h =
    ground (arith, any_match-contains (env.hmac_hex key (signed ts_str raw_body)) sigs, h)

-- The check of the window, then the comparison.
checked-IsAuthentic :
    (env : Env) (key : Bytes) (now : ℕ) (ts_str : String) (ts : ℤ) (sigs : List String)
    (raw_body : Bytes) (p : Json) (w : Result (Unit {0}))
    → parse_int ts_str ≡ some ts
    → check_window now ts ≡ w
    → (w >>= λ _. finish env key ts_str sigs raw_body) ≡ ok p
    → IsAuthentic env key now raw_body ts_str sigs p
checked-IsAuthentic env key now ts_str ts sigs raw_body p (raise e) t w h = cc
checked-IsAuthentic env key now ts_str ts sigs raw_body p (ok u) t w h =
    let f = finish-authentic env key ts_str sigs raw_body p h in
    record {
      ts = ts;
      timestamp = t;
      recent = check_window-recent now ts u w;
      signature = f.0;
      parsed = f.1;
    }

unguard :
    (b : Bool) (x : Result Json) (p : Json)
    → (if b then raise signature_error else x) ≡ ok p
    → x ≡ ok p
unguard true x p h = cc
unguard false x p h = h

module _ (env : Env) (key : Bytes) (now : ℕ) (raw_body : Bytes) where
  with_sigs-IsAuthentic :
      (ts_str : String) (sigs : List String) (ts : ℤ) (w : Result (Unit {0})) (p : Json)
      → parse_int ts_str ≡ some ts
      → check_window now ts ≡ w
      → (w >>= λ _. Omise.match_sigs env key ts_str sigs raw_body) ≡ ok p
      → IsAuthentic env key now raw_body ts_str sigs p
  unfolding Omise.match_sigs
  with_sigs-IsAuthentic ts_str [] ts (ok u) p t w h = cc
  with_sigs-IsAuthentic ts_str [] ts (raise e) p t w h = cc
  with_sigs-IsAuthentic ts_str (s ∷ sigs) ts r p t w h =
      checked-IsAuthentic env key now ts_str ts (s ∷ sigs) raw_body p r t w h

  with-IsAuthentic :
      (ts_str sig_header : String) (p : Json)
      → Omise.verify_with env key now ts_str sig_header raw_body ≡ ok p
      → IsAuthentic env key now raw_body ts_str (Omise.provided_sigs sig_header) p
  unfolding Omise.verify_with
  with-IsAuthentic ts_str sig_header p h = elim (Option-cases (parse_int ts_str)) [
    | inl e ↦ cc (rw (e, Omise.verify_with) at h)
    | inr (ts, e) ↦
        with_sigs-IsAuthentic ts_str (Omise.provided_sigs sig_header) ts (check_window now ts) p e
          refl (rw (e, Omise.verify_with) at h)
  ]

  parts-IsAuthentic :
      (ts_str : String) (sigs : List String) (p : Json)
      → Stripe.verify_parts env key now ts_str sigs raw_body ≡ ok p
      → IsAuthentic env key now raw_body ts_str sigs p
  unfolding Stripe.verify_parts
  parts-IsAuthentic ts_str [] p h = cc
  parts-IsAuthentic ts_str (s ∷ sigs) p h = elim (Option-cases (parse_int ts_str)) [
    | inl e ↦ cc (rw e at (unguard (is_empty ts_str) _ p h))
    | inr (ts, e) ↦
        checked-IsAuthentic env key now ts_str ts (s ∷ sigs) raw_body p (check_window now ts) e refl
          (rw e at (unguard (is_empty ts_str) _ p h))
  ]

  -- A body that the Omise adapter accepts comes with a timestamp header that is an integer within
  -- 300 seconds of the clock, and one of the comma-separated signatures is the HMAC, under the
  -- webhook key, of the timestamp's text, a dot and the raw body; the payload is what the raw body
  -- parses to.
  pub omise-IsAuthentic :
      (headers : Headers) (p : Json)
      → Omise.verify_signature env key now raw_body headers ≡ ok p
      → IsAuthentic env key now raw_body
          (or_default (headers "omise-signature-timestamp") "")
          (Omise.provided_sigs (or_default (headers "omise-signature") ""))
          p
  unfolding Omise.verify_signature
  omise-IsAuthentic headers p h =
      let ts_str = or_default (headers "omise-signature-timestamp") "" in
      let sig_header = or_default (headers "omise-signature") "" in
      with-IsAuthentic ts_str sig_header p (
        unguard (is_empty sig_header) (Omise.verify_with env key now ts_str sig_header raw_body) p
          (unguard (is_empty ts_str) _ p h))

  -- A body that the Stripe adapter accepts comes with a header whose `t` part is an integer within
  -- 300 seconds of the clock, and one of its `v1` parts is the HMAC, under the webhook key, of the
  -- text of `t`, a dot and the raw body; the payload is what the raw body parses to.
  pub stripe-IsAuthentic :
      (headers : Headers) (p : Json)
      → Stripe.verify_signature env key now raw_body headers ≡ ok p
      → let parts = Stripe.parts_of (or_default (headers "stripe-signature") "") in
        IsAuthentic env key now raw_body parts.ts_str parts.v1_sigs p
  unfolding Stripe.verify_signature
  stripe-IsAuthentic headers p h =
      let header = or_default (headers "stripe-signature") "" in
      let parts = Stripe.parts_of header in
      parts-IsAuthentic parts.ts_str parts.v1_sigs p (
        unguard (is_empty header)
          (Stripe.verify_parts env key now parts.ts_str parts.v1_sigs raw_body) p h)
