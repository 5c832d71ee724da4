-- ===== src/Stages/Cached.antt =====
-- app/stages/amount_tiers.py, app/stages/word_filter.py: the settings and the patterns that each stage
-- keeps from its first use. `files` is what `load_settings` would read at a call.
use selfhost_tip_overlay.Prelude.{
  String, ◌≡◌, refl, sym, ap, ◌∙◌, Option, none, some, List, [], ◌∷◌, map, or_default,
  if◌then◌else◌, Bool-cases, inl, inr,
}
use mathlib.Core.Path.{subst}
use selfhost_tip_overlay.Prelude.Text.{is_empty}
use selfhost_tip_overlay.Contracts.{TipEvent, StageResult, tip, drop, hold}
use selfhost_tip_overlay.Payment.Base.{Result, ok, raise, ◌>>=◌}
use selfhost_tip_overlay.Payment.Json.{Json}
use selfhost_tip_overlay.Stages.{
  Texts, amount_tiers, banned_words, build_patterns, any_found, normalize, filtered, word_filter,
  run_stages,
}

-- `_settings` of either stage, and `_compiled_patterns`.
pub record Caches : Type 0 where
  pub tiers : Option Json
  pub words : Option Json
  pub patterns : Option (List String)

-- `_get_settings`
unfoldable pub get_settings : Json → Caches → Json × Caches
get_settings files c =
    let settings = or_default c.tiers files in (settings, record c { tiers = some settings })

-- `_get_banned_words`, up to the settings.
unfoldable pub get_word_settings : Json → Caches → Json × Caches
get_word_settings files c =
    let settings = or_default c.words files in (settings, record c { words = some settings })

module _ (lib : Texts) where
  abbrev pub built : Result (List String) → Caches → Result (List String) × Caches
  built (raise e) c = (raise e, c)
  built (ok words) c =
      let patterns = build_patterns lib words in
      (ok patterns, record c { patterns = some patterns })

  -- Where nothing is kept yet.
  unfoldable pub get_patterns : Json → Caches → Result (List String) × Caches
  unfolding get_word_settings
  get_patterns files c = elim c.patterns [
    | some patterns ↦ (ok patterns, c)
    | none ↦ let (settings, c') = get_word_settings files c in built (banned_words settings) c'
  ]

  abbrev pub masked : TipEvent → List String → StageResult
  masked e patterns = tip (
      if any_found lib patterns (normalize lib e.message)
      then record e { message = filtered }
      else e)

  unfoldable pub filter_message : Json → TipEvent → Caches → Result StageResult × Caches
  unfolding get_patterns
  filter_message files e c =
      let (patterns, c') = get_patterns files c in
      if is_empty e.message then (ok (tip e), c) else (patterns >>= λ ps. ok (masked e ps), c')

  abbrev pub after_tiers : Json → Result StageResult → Caches → Result StageResult × Caches
  after_tiers files (raise e) c = (raise e, c)
  after_tiers files (ok drop) c = (ok drop, c)
  after_tiers files (ok hold) c = (ok hold, c)
  after_tiers files (ok (tip e)) c = filter_message files e c

  -- `process_tip` with what the stages keep.
  unfoldable pub process_kept : Json → TipEvent → Caches → Result StageResult × Caches
  unfolding get_settings filter_message
  process_kept files e c =
      let (settings, c') = get_settings files c in after_tiers files (amount_tiers settings e) c'

  -- The answers to one event after the other, each with the files at its time.
  unfoldable pub process_all : List (Json × TipEvent) → Caches → List (Result StageResult)
  unfolding process_kept
  process_all [] c = []
  process_all ((files, e) ∷ events) c =
      let (answer, c') = process_kept files e c in answer ∷ process_all events c'

  build-masked :
      (e : TipEvent) (r : Result (List String))
      → ((r >>= λ ws. ok (build_patterns lib ws)) >>= λ ps. ok (masked e ps))
        ≡ (r >>= λ ws. ok (masked e (build_patterns lib ws)))
  build-masked e (raise x) = refl
  build-masked e (ok ws) = refl

  run_last : (r : Result StageResult) → r ≡ (r >>= run_stages lib [])
  unfolding run_stages
  run_last (raise x) = refl
  run_last (ok x) = refl

  -- The settings that both stages have read, and the patterns, if they were built, of those.
  pub record IsKept (tiers words : Json) (c : Caches) : Type 0 where
    pub tiers_kept : c.tiers ≡ some tiers
    pub words_kept : c.words ≡ some words
    pub patterns_kept :
        (ps : List String)
        → c.patterns ≡ some ps
        → (banned_words words >>= λ ws. ok (build_patterns lib ws)) ≡ ok ps

  module _ (tiers words : Json) where
    abbrev Answers : Result StageResult → Result StageResult × Caches → Type 0
    Answers r out = (out.0 ≡ r) × IsKept tiers words out.1

    built-IsKept :
        (r : Result (List String)) (c : Caches)
        → banned_words words ≡ r
        → IsKept tiers words c
        → let out = built r c in
          (out.0 ≡ (banned_words words >>= λ ws. ok (build_patterns lib ws)))
          × IsKept tiers words out.1
    built-IsKept (raise e) c h k = (rw h refl, k)
    built-IsKept (ok ws) c h k = (
      rw h refl,
      record {
        tiers_kept = k.tiers_kept;
        words_kept = k.words_kept;
        patterns_kept = λ ps g. rw h cc;
      },
    )

    read_words :
        (files : Json) (c : Caches) → IsKept tiers words c → or_default c.words files ≡ words
    read_words files c k = rw k.words_kept refl

    patterns_at :
        (files : Json) (c : Caches) (o : Option (List String))
        → c.patterns ≡ o
        → IsKept tiers words c
        → let out = elim o as (λ o. Result (List String) × Caches) [
          | some patterns ↦ (ok patterns, c)
          | none ↦
              built
                (banned_words (or_default c.words files))
                (record c { words = some (or_default c.words files) })
        ] in
          (out.0 ≡ (banned_words words >>= λ ws. ok (build_patterns lib ws)))
          × IsKept tiers words out.1
    patterns_at files c (some ps) h k = (sym (k.patterns_kept ps h), k)
    patterns_at files c none h k =
        built-IsKept (banned_words (or_default c.words files))
          (record c { words = some (or_default c.words files) })
          (ap banned_words (sym (read_words files c k)))
          (record {
            tiers_kept = k.tiers_kept;
            words_kept = ap some (read_words files c k);
            patterns_kept = k.patterns_kept;
          })

    patterns-IsKept :
        (files : Json) (c : Caches)
        → IsKept tiers words c
        → let out = get_patterns files c in
          (out.0 ≡ (banned_words words >>= λ ws. ok (build_patterns lib ws)))
          × IsKept tiers words out.1
    unfolding get_patterns get_word_settings
    patterns-IsKept files c k = patterns_at files c c.patterns refl k

    filter-IsKept :
        (files : Json) (e : TipEvent) (c : Caches)
        → IsKept tiers words c
        → Answers (word_filter lib words e) (filter_message files e c)
    unfolding filter_message word_filter
    filter-IsKept files e c k =
        let (read, kept) = patterns-IsKept files c k in
        elim (Bool-cases (is_empty e.message)) [
          | inl y ↦ rw y (refl, k)
          | inr n ↦ rw n (rw read (build-masked e (banned_words words)), kept)
        ]

    tiers-IsKept :
        (files : Json) (r : Result StageResult) (c : Caches)
        → IsKept tiers words c
        → Answers (r >>= run_stages lib (word_filter lib words ∷ [])) (after_tiers files r c)
    unfolding run_stages
    tiers-IsKept files (raise e) c k = (refl, k)
    tiers-IsKept files (ok drop) c k = (refl, k)
    tiers-IsKept files (ok hold) c k = (refl, k)
    tiers-IsKept files (ok (tip e)) c k =
        let (answer, kept) = filter-IsKept files e c k in
        (answer ∙ run_last (word_filter lib words e), kept)

    process-IsKept :
        (files : Json) (e : TipEvent) (c : Caches)
        → IsKept tiers words c
        → Answers
            (run_stages lib (amount_tiers tiers ∷ word_filter lib words ∷ []) (tip e))
            (process_kept files e c)
    unfolding process_kept get_settings run_stages
    process-IsKept files e c k =
        let same : or_default c.tiers files ≡ tiers = rw k.tiers_kept refl in
        subst
          (λ (t : Json).
            Answers (amount_tiers tiers e >>= run_stages lib (word_filter lib words ∷ []))
              (after_tiers files (amount_tiers t e) (record c { tiers = some t })))
          (sym same)
          (tiers-IsKept files (amount_tiers tiers e) (record c { tiers = some tiers })
            (record {
              tiers_kept = refl;
              words_kept = k.words_kept;
              patterns_kept = k.patterns_kept;
            }))

    -- Once both stages have read their settings, every event is answered by these settings, whatever
    -- the files say later.
    pub process_all-kept :
        (events : List (Json × TipEvent)) (c : Caches)
        → IsKept tiers words c
        → process_all events c
          ≡ map
              (λ (x : Json × TipEvent).
                run_stages lib (amount_tiers tiers ∷ word_filter lib words ∷ []) (tip x.1))
              events
    unfolding process_all
    process_all-kept [] c k = refl
    process_all-kept ((files, e) ∷ events) c k =
        let (answer, kept) = process-IsKept files e c k in
        ap (λ r. r ∷ process_all events (process_kept files e c).1) answer
        ∙ ap (λ l. run_stages lib (amount_tiers tiers ∷ word_filter lib words ∷ []) (tip e) ∷ l)
            (process_all-kept events (process_kept files e c).1 kept)
