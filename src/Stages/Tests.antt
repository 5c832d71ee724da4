-- ===== src/Stages/Tests.antt =====
-- A banned word, with a library that compares whole texts.
use selfhost_tip_overlay.Prelude.{String, ◌≡◌, refl, false, none, some, [], ◌∷◌, str_eq}
use selfhost_tip_overlay.Prelude.Int.{pos}
use selfhost_tip_overlay.Contracts.{TipEvent, tip}
use selfhost_tip_overlay.Payment.Base.{ok}
use selfhost_tip_overlay.Payment.Json.{Json, num, str, arr, obj, nil, cons, end, field}
use selfhost_tip_overlay.Stages.{
  Texts, show_message_min, banned_words, process_tip, load_settings, build_patterns, normalize,
  any_found, amount_tiers,
}
use selfhost_tip_overlay.Stages.Cached.{process_all}
use selfhost_tip_overlay.Stages.Message.{IsShownAs, process_tip-IsShownAs}

abbrev exact : Texts
exact = record { nfc_lower = λ s. s; search = str_eq }

abbrev settings : Json
settings =
    load_settings
      (some (
        field "banned_words" (arr nil)
          (field "amount_tiers" (obj (field "show_message_min" (num (pos 3000)) end)) end)))
      (some (field "banned_words" (arr (cons (str "bad word") nil)) end))

abbrev paid : TipEvent
paid = record {
  charge_id = "c1";
  amount = pos 5000;
  currency = "thb";
  supporter_name = "Ann";
  message = " bad  word";
  paid_at = 20;
  source_type = "promptpay";
  tts_audio_url = none;
  flagged = false;
}

least : show_message_min settings ≡ ok (pos 3000)
unfolding show_message_min load_settings
least = refl

words : banned_words settings ≡ ok ("bad word" ∷ [])
unfolding banned_words load_settings
words = refl

process_tip-IsShownAs_example :
    (message : String) × IsShownAs exact (pos 3000) ("bad word" ∷ []) paid message
    × (process_tip exact settings paid ≡ ok (tip (record paid { message = message })))
process_tip-IsShownAs_example =
    process_tip-IsShownAs exact settings (pos 3000) ("bad word" ∷ []) paid least words

abbrev changed : Json
changed = obj (field "banned_words" (arr nil) end)

-- The second event meets the settings of the first.
kept_settings :
    process_all exact
      ((settings, paid) ∷ (changed, paid) ∷ [])
      (record { tiers = none; words = none; patterns = none })
    ≡ ok (tip (record paid { message = "[กรอง]" }))
      ∷ ok (tip (record paid { message = "[กรอง]" }))
      ∷ []
unfolding process_all load_settings banned_words build_patterns normalize any_found amount_tiers
    show_message_min
kept_settings = refl
