-- ===== src/Stages/Message.antt =====
-- app/process_tip.py: the message that comes out of both stages.
use selfhost_tip_overlay.Prelude.{
  String, ◌≡◌, ◌≢◌, refl, sym, ap, ◌∙◌, List, [], ◌∷◌, Bool, true, false, not, ◌&&◌, ◌||◌, All, inl,
  inr, Bool-cases,
}
use mathlib.Core.List.{Mem, mem-cons_self, mem-cons_of_mem}
use selfhost_tip_overlay.Prelude.Int.{ℤ, ltb_ℤ}
use selfhost_tip_overlay.Prelude.Text.{is_empty, strip}
use selfhost_tip_overlay.Contracts.{TipEvent, tip}
use selfhost_tip_overlay.Payment.Base.{ok}
use selfhost_tip_overlay.Payment.Json.{Json}
use selfhost_tip_overlay.Stages.{
  show_message_min, amount_tiers, banned_words, Texts, normalize, build_patterns, any_found,
  word_filter, run_stages, process_tip,
}
use selfhost_tip_overlay.Stages.Spaces.{single_spaced, normalize-eq}

module _ (lib : Texts) where
  -- A banned word hits a message: it is not blank, and the search finds it, both in NFC and lower
  -- case with one space between two words.
  abbrev pub hits : String → String → Bool
  hits message w =
      not (is_empty (strip w))
      && lib.search (single_spaced (lib.nfc_lower w)) (single_spaced (lib.nfc_lower message))

  -- The message that a tip should be shown with.
  pub data IsShownAs (least : ℤ) (words : List String) (e : TipEvent) : String → Type 0 where
    too_little : ltb_ℤ e.amount least ≡ true → IsShownAs least words e ""
    no_message : e.message ≡ "" → IsShownAs least words e ""
    masked :
        (w : String)
        → ltb_ℤ e.amount least ≡ false
        → e.message ≢ ""
        → Mem w words
        → hits e.message w ≡ true
        → IsShownAs least words e "[กรอง]"
    clean :
        ltb_ℤ e.amount least ≡ false
        → All (λ w. hits e.message w ≡ false) words
        → IsShownAs least words e e.message

  -- The test of one word, and of the others after it.
  any_found-cons :
      (w : String) (words : List String) (m : String)
      → any_found lib (build_patterns lib (w ∷ words)) (normalize lib m)
        ≡ (hits m w || any_found lib (build_patterns lib words) (normalize lib m))
  unfolding any_found build_patterns
  any_found-cons w words m =
      rw (sym (normalize-eq lib w), sym (normalize-eq lib m))
        (elim (Bool-cases (is_empty (strip w))) [ inl y ↦ rw y refl | inr n ↦ rw n refl ])

  found :
      (words : List String) (m : String)
      → any_found lib (build_patterns lib words) (normalize lib m) ≡ true
      → (w : String) × Mem w words × (hits m w ≡ true)
  found [] m h = unfold any_found build_patterns in cc
  found (w ∷ words) m h =
      let h' = sym (any_found-cons w words m) ∙ h in
      elim (Bool-cases (hits m w)) [
        | inl y ↦ (w, mem-cons_self, y)
        | inr n ↦ let (v, i, k) = found words m (rw n at h') in (v, mem-cons_of_mem w i, k)
      ]

  not_found :
      (words : List String) (m : String)
      → any_found lib (build_patterns lib words) (normalize lib m) ≡ false
      → All (λ w. hits m w ≡ false) words
  not_found [] m h = tt
  not_found (w ∷ words) m h =
      let h' = sym (any_found-cons w words m) ∙ h in
      elim (Bool-cases (hits m w)) [
        | inl y ↦ let no : true ≡ false = rw y at h' in cc
        | inr n ↦ (n, not_found words m (rw n at h'))
      ]

  no_text : (s : String) → is_empty s ≡ true → s ≡ ""
  no_text String.[] h = refl
  no_text (String.◌∷◌ c s) h = cc

  module _ (settings : Json) where
    -- With settings that have a number for the least amount and a list of banned words, the pipeline
    -- never fails and never drops or holds a tip, and changes nothing in it but the message: it is
    -- blank below the least amount, "[กรอง]" where one of the words that are not blank is found in it,
    -- and as it was where none is; words and message are compared in NFC and lower case, with one
    -- space between two words.
    pub process_tip-IsShownAs :
        (least : ℤ) (words : List String) (e : TipEvent)
        → show_message_min settings ≡ ok least
        → banned_words settings ≡ ok words
        → (message : String) × IsShownAs least words e message
          × (process_tip lib settings e ≡ ok (tip (record e { message = message })))
    unfolding process_tip run_stages amount_tiers word_filter
    process_tip-IsShownAs least words e hl hw = elim (Bool-cases (ltb_ℤ e.amount least)) [
      | inl x ↦ ("", too_little x, rw (hl, x) refl)
      | inr x ↦ elim (Bool-cases (is_empty e.message)) [
        | inl y ↦
            let blank = no_text e.message y in
            (
              "",
              no_message blank,
              rw (hl, x, y) (ap (λ m. ok (tip (record e { message = m }))) blank),
            )
        | inr y ↦
            elim (Bool-cases (any_found lib (build_patterns lib words) (normalize lib e.message))) [
              | inl z ↦
                  let (w, i, k) = found words e.message z in
                  ("[กรอง]", masked w x (λ q. cc (y, ap is_empty q)) i k, rw (hl, x, y, hw, z) refl)
              | inr z ↦
                  (e.message, clean x (not_found words e.message z), rw (hl, x, y, hw, z) refl)
            ]
      ]
    ]
