-- ===== src/Stages/Spaces.antt =====
-- app/stages/word_filter.py: `_normalize`, by the words of a text with one space between two of them.
use selfhost_tip_overlay.Prelude.{
  String, Bool, true, false, ◌≡◌, refl, ap, sym, if◌then◌else◌, Bool-cases, inl, inr,
}
use selfhost_tip_overlay.Prelude.Text.{is_space, is_empty, lstrip, rstrip, strip}
use selfhost_tip_overlay.Stages.{spaced, collapse, Texts, normalize}

-- What follows a word has begun, with the spaces since then in `gap`: a space is written only in front
-- of another word.
unfoldable words_after : Bool → String → String
words_after gap String.[] = String.[]
words_after gap (String.◌∷◌ c s) =
    let near = words_after false s in
    let far = words_after true s in
    if is_space c then far else (if gap then spaced (String.◌∷◌ c near) else String.◌∷◌ c near)

-- The words of a text with one space between two of them.
unfoldable pub single_spaced : String → String
unfolding words_after
single_spaced String.[] = String.[]
single_spaced (String.◌∷◌ c s) =
    let rest = single_spaced s in if is_space c then rest else String.◌∷◌ c (words_after false s)

abbrev before_word : Bool → String → String
before_word gap t = if gap then (if is_empty t then String.[] else spaced t) else t

words_after_lem :
    (gap : Bool) (s : String) → words_after gap s ≡ before_word gap (rstrip (collapse gap s))
unfolding words_after rstrip collapse is_space
words_after_lem true String.[] = refl
words_after_lem false String.[] = refl
words_after_lem true (String.◌∷◌ c s) = elim (Bool-cases (is_space c)) [
  | inl y ↦ rw y (words_after_lem true s)
  | inr n ↦ rw n (rw n (ap (λ t. spaced (String.◌∷◌ c t)) (words_after_lem false s)))
]
words_after_lem false (String.◌∷◌ c s) = elim (Bool-cases (is_space c)) [
  | inl y ↦ rw y (words_after_lem true s)
  | inr n ↦ rw n (rw n (ap (λ t. String.◌∷◌ c t) (words_after_lem false s)))
]

strip-collapse : (prev : Bool) (s : String) → strip (collapse prev s) ≡ single_spaced s
unfolding strip collapse single_spaced lstrip rstrip is_space
strip-collapse prev String.[] = refl
strip-collapse true (String.◌∷◌ c s) = elim (Bool-cases (is_space c)) [
  | inl y ↦ rw y (strip-collapse true s)
  | inr n ↦ rw n (rw n (rw n (ap (λ t. String.◌∷◌ c t) (sym (words_after_lem false s)))))
]
strip-collapse false (String.◌∷◌ c s) = elim (Bool-cases (is_space c)) [
  | inl y ↦ rw y (strip-collapse true s)
  | inr n ↦ rw n (rw n (rw n (ap (λ t. String.◌∷◌ c t) (sym (words_after_lem false s)))))
]

pub normalize-eq : (lib : Texts) (s : String) → normalize lib s ≡ single_spaced (lib.nfc_lower s)
unfolding normalize
normalize-eq lib s = strip-collapse false (lib.nfc_lower s)
