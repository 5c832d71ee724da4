-- ===== src/Security/Hidden.antt =====
-- core/security/log.py: what `redact_env_in_str` leaves of a secret.
use selfhost_tip_overlay.Prelude.{
  ℕ, zero, suc, ◌-◌, String, Bool, true, false, not, ◌&&◌, ◌||◌, List, [], ◌∷◌, ◌++◌, ◌==◌, ◌≡◌,
  refl, sym, ◌∙◌, arith, Bool-cases, inl, inr, or_default,
}
use Prim.Native.Char.{Char, code}
use selfhost_tip_overlay.Prelude.Text.{is_empty, len}
use selfhost_tip_overlay.Security.Redaction.{
  starts_with, contains, join, replace_from, redacted, redact, Environ, redact_env_in_str,
}

-- A text without brackets.
abbrev pub IsPlain : String → Type 0
IsPlain String.[] = Unit
IsPlain (String.◌∷◌ c s) = (code c == b'[' ≡ false) × (code c == b']' ≡ false) × IsPlain s

-- What a secret has to be to be hidden: it is not empty, it has no brackets and it is no part of the word that is put in
-- its place.
pub record IsHideable (q : String) : Type 0 where
  pub filled : is_empty q ≡ false
  pub plain : IsPlain q
  pub other : contains q "REDACTED" ≡ false

module _ (q old : String) where
  -- Where `old` does not start, `q` does not.
  abbrev Loose : String → Type 0
  Loose String.[] = Unit
  Loose (String.◌∷◌ c s) =
      (starts_with old (String.◌∷◌ c s) ≡ false → starts_with q (String.◌∷◌ c s) ≡ false) × Loose s

starts_with-join :
    (q w u : String) → IsPlain q → starts_with q (join w (String.◌∷◌ "]" u)) ≡ starts_with q w
unfolding starts_with
starts_with-join String.[] w u p = refl
starts_with-join (String.◌∷◌ c q) String.[] u p = rw p.1 refl
starts_with-join (String.◌∷◌ c q) (String.◌∷◌ d w) u p = rw (starts_with-join q w u p.2) refl

starts_with_nil : (q : String) → is_empty q ≡ false → starts_with q String.[] ≡ false
unfolding starts_with
starts_with_nil String.[] h = cc
starts_with_nil (String.◌∷◌ c q) h = refl

or_assoc : (a b c : Bool) → (a || (b || c)) ≡ ((a || b) || c)
or_assoc true b c = refl
or_assoc false b c = refl

pub or_false : (a b : Bool) → (a || b) ≡ false → (a ≡ false) × (b ≡ false)
or_false true b h = cc
or_false false b h = (refl, h)

contains-join :
    (q w u : String)
    → is_empty q ≡ false
    → IsPlain q
    → contains q (join w (String.◌∷◌ "]" u)) ≡ (contains q w || contains q u)
unfolding contains
contains-join q String.[] u f p = rw (starts_with-join q String.[] u p, starts_with_nil q f) refl
contains-join q (String.◌∷◌ d w) u f p =
    rw (starts_with-join q (String.◌∷◌ d w) u p, contains-join q w u f p)
      (or_assoc (starts_with q (String.◌∷◌ d w)) (contains q w) (contains q u))

module _ (old : String) where
  replace_from_hit :
      (c : Char) (s : String)
      → starts_with old (String.◌∷◌ c s) ≡ true
      → replace_from old redacted 0 (String.◌∷◌ c s)
        ≡ join redacted (replace_from old redacted (len old - 1) s)
  unfolding replace_from
  replace_from_hit c s h = rw (replace_from, h) refl

  replace_from_miss :
      (c : Char) (s : String)
      → starts_with old (String.◌∷◌ c s) ≡ false
      → replace_from old redacted 0 (String.◌∷◌ c s) ≡ String.◌∷◌ c (replace_from old redacted 0 s)
  unfolding replace_from
  replace_from_miss c s h = rw (replace_from, h) refl

  -- An occurrence of a text without brackets at the start of what replacing leaves was there before.
  starts_with-replace_from :
      (q s : String)
      → IsPlain q
      → starts_with q (replace_from old redacted 0 s) ≡ true
      → starts_with q s ≡ true
  unfolding starts_with replace_from
  starts_with-replace_from String.[] s p h = refl
  starts_with-replace_from (String.◌∷◌ c q) String.[] p h = h
  starts_with-replace_from (String.◌∷◌ c q) (String.◌∷◌ d s) p h =
      elim (Bool-cases (starts_with old (String.◌∷◌ d s))) [
        | inl y ↦
            let h' : starts_with (String.◌∷◌ c q)
                  (join redacted (replace_from old redacted (len old - 1) s))
                ≡ true =
              rw (replace_from_hit d s y) at h in
            ground (arith, h', p.0)
        | inr x ↦
            let h' : starts_with (String.◌∷◌ c q) (String.◌∷◌ d (replace_from old redacted 0 s))
                ≡ true =
              rw (replace_from_miss d s x) at h in
            ground (arith, h', starts_with-replace_from q s p.2)
      ]

starts_with_bracket :
    (q w : String) → is_empty q ≡ false → IsPlain q → starts_with q (String.◌∷◌ "[" w) ≡ false
unfolding starts_with
starts_with_bracket String.[] w f p = cc
starts_with_bracket (String.◌∷◌ c q) w f p = rw p.0 refl

not_true : (b : Bool) → (b ≡ true → false ≡ true) → b ≡ false
not_true true h = sym (h refl)
not_true false h = refl

-- Replacing `old` brings no text without brackets in, and leaves none that starts only where `old`
-- does.
module _ (q : String) (hideable : IsHideable q) (old : String) where
  contains_word : contains q "[REDACTED" ≡ false
  unfolding contains
  contains_word =
      rw (starts_with_bracket q "REDACTED" hideable.filled hideable.plain) hideable.other

  contains-redacted : (u : String) → contains q u ≡ false → contains q (join redacted u) ≡ false
  contains-redacted u h =
      contains-join q "[REDACTED" u hideable.filled hideable.plain ∙ rw (contains_word, h) refl

  starts_with_miss :
      (c : Char) (s : String)
      → Loose q old (String.◌∷◌ c s)
      → starts_with old (String.◌∷◌ c s) ≡ false
      → starts_with q (String.◌∷◌ c (replace_from old redacted 0 s)) ≡ false
  starts_with_miss c s l x = not_true _ λ e.
      let there : starts_with q (String.◌∷◌ c s) ≡ true =
        starts_with-replace_from old q (String.◌∷◌ c s) hideable.plain
          (rw (replace_from_miss old c s x) e) in
      sym (l.0 x) ∙ there

  contains-replace_from :
      (k : ℕ) (s : String) → Loose q old s → contains q (replace_from old redacted k s) ≡ false
  unfolding replace_from contains
  contains-replace_from k String.[] l = starts_with_nil q hideable.filled
  contains-replace_from (suc k) (String.◌∷◌ c s) l = contains-replace_from k s l.1
  contains-replace_from zero (String.◌∷◌ c s) l =
      elim (Bool-cases (starts_with old (String.◌∷◌ c s))) [
        | inl y ↦ rw (replace_from_hit old c s y) (
            contains-redacted (replace_from old redacted (len old - 1) s)
              (contains-replace_from (len old - 1) s l.1))
        | inr x ↦
            rw (replace_from_miss old c s x, starts_with_miss c s l x)
              (contains-replace_from zero s l.1)
      ]

Loose-refl : (q s : String) → Loose q q s
Loose-refl q String.[] = tt
Loose-refl q (String.◌∷◌ c s) = (λ h. h, Loose-refl q s)

contains-Loose : (q old s : String) → contains q s ≡ false → Loose q old s
unfolding contains
contains-Loose q old String.[] h = tt
contains-Loose q old (String.◌∷◌ c s) h = (
  λ m. (or_false (starts_with q (String.◌∷◌ c s)) (contains q s) h).0,
  contains-Loose q old s (or_false (starts_with q (String.◌∷◌ c s)) (contains q s) h).1,
)

contains-redact :
    (q val s : String) → IsHideable q → contains q s ≡ false → contains q (redact val s) ≡ false
unfolding redact
contains-redact q val s hideable h = elim (Bool-cases (not (is_empty val) && contains val s)) [
  | inl y ↦ rw y (contains-replace_from q hideable val 0 s (contains-Loose q val s h))
  | inr x ↦ rw x h
]

contains-redact_self : (q s : String) → IsHideable q → contains q (redact q s) ≡ false
unfolding redact
contains-redact_self q s hideable = elim (Bool-cases (contains q s)) [
  | inl y ↦ rw (hideable.filled, y) (contains-replace_from q hideable q 0 s (Loose-refl q s))
  | inr x ↦ rw (hideable.filled, x) x
]

abbrev value : Environ → String → String
value environ key = or_default (environ key) ""

contains-redact_env_in_str :
    (environ : Environ) (q : String) (keys : List String) (s : String)
    → IsHideable q
    → contains q s ≡ false
    → contains q (redact_env_in_str environ keys s) ≡ false
unfolding redact_env_in_str
contains-redact_env_in_str environ q [] s hideable h = h
contains-redact_env_in_str environ q (key ∷ keys) s hideable h =
    contains-redact_env_in_str environ q keys (redact (value environ key) s) hideable
      (contains-redact q (value environ key) s hideable h)

-- The value of any key that `redact_env_in_str` takes, whatever the order of the keys and whatever
-- the other secrets are, does not occur in what it returns, if the value is not empty, has no
-- brackets and is no part of the word REDACTED.
pub redact_env_in_str_hides :
    (environ : Environ) (before after : List String) (key s : String)
    → IsHideable (or_default (environ key) "")
    → contains (or_default (environ key) "") (redact_env_in_str environ (before ++ key ∷ after) s)
      ≡ false
unfolding redact_env_in_str
redact_env_in_str_hides environ [] after key s hideable =
    contains-redact_env_in_str environ (value environ key) after (redact (value environ key) s)
      hideable (contains-redact_self (value environ key) s hideable)
redact_env_in_str_hides environ (k ∷ before) after key s hideable =
    redact_env_in_str_hides environ before after key (redact (value environ k) s) hideable
