-- ===== src/Stages.antt =====
-- app/process_tip.py, app/stages: the pipeline between a verified payment and the overlay. The
-- settings are read as `json.loads` returns them; an exception of a stage is one of the pipeline.
pub mod Spaces
pub mod Message
pub mod Cached
mod Tests
use selfhost_tip_overlay.Prelude.{
  String, Bool, true, false, not, ◌||◌, Option, none, some, List, [], ◌∷◌, str_eq, if◌then◌else◌,
}
use selfhost_tip_overlay.Prelude.Int.{ℤ, pos, ltb_ℤ}
use selfhost_tip_overlay.Prelude.Text.{is_empty, is_space, strip}
use Prim.Native.Char.{Char}
use selfhost_tip_overlay.Contracts.{TipEvent, StageResult, tip, drop, hold}
use selfhost_tip_overlay.Payment.Base.{Result, ok, raise, type_error, attribute_error, ◌>>=◌}
use selfhost_tip_overlay.Payment.Json.{
  Json, null, bool, num, str, arr, obj, Items, nil, cons, Fields, end, field, empty_dict,
  find_field, get_or, text,
}

-- `{**defaults, **overrides}`, as a lookup of a key meets it.
unfoldable pub merge : Fields → Fields → Fields
merge defaults end = defaults
merge defaults (field k v fs) = field k v (merge defaults fs)

-- A file that is missing is an empty dict.
abbrev pub read : Option Fields → Fields
read none = end
read (some fs) = fs

unfoldable pub load_settings : Option Fields → Option Fields → Json
unfolding merge
load_settings shipped user = obj (merge (read shipped) (read user))

-- A number to compare an amount with: TypeError where it is none.
unfoldable pub number : Json → Result ℤ
number (num n) = ok n
number (bool b) = ok (pos (if b then 1 else 0))
number v = raise type_error

-- app/stages/amount_tiers.py
unfoldable pub show_message_min : Json → Result ℤ
unfolding get_or number
show_message_min settings =
    get_or "amount_tiers" empty_dict settings
    >>= get_or "show_message_min" (num (pos 2000))
    >>= number

unfoldable pub amount_tiers : Json → TipEvent → Result StageResult
amount_tiers settings e = show_message_min settings >>= λ least.
    ok (tip (if ltb_ℤ e.amount least then record e { message = "" } else e))

-- The text that stands for a filtered message.
abbrev pub filtered : String
filtered = "[กรอง]"

abbrev pub spaced : String → String
spaced s = String.◌∷◌ " " s

-- `re.sub(r'\s+', ' ', s)`; `prev` tells that the character before was white space.
unfoldable pub collapse : Bool → String → String
unfolding is_space
collapse prev String.[] = String.[]
collapse prev (String.◌∷◌ c s) =
    let rest = collapse false s in
    let spaces = collapse true s in
    if is_space c then (if prev then spaces else spaced spaces) else String.◌∷◌ c rest

-- A word is stripped: AttributeError where it is no text.
unfoldable pub word : Json → Result String
word (str s) = ok s
word v = raise attribute_error

unfoldable pub words_of : Items → Result (List String)
unfolding word
words_of nil = ok []
words_of (cons w ws) = word w >>= λ s. words_of ws >>= λ rest. ok (s ∷ rest)

abbrev chars : String → List String
chars String.[] = []
chars (String.◌∷◌ c s) = String.◌∷◌ c String.[] ∷ chars s

abbrev keys : Fields → List String
keys end = []
keys (field k v fs) = k ∷ keys fs

-- `for word in banned_words`: a text gives its characters and a dict its keys.
unfoldable pub iterate : Json → Result (List String)
unfolding words_of
iterate (arr ws) = words_of ws
iterate (str s) = ok (chars s)
iterate (obj fs) = ok (keys fs)
iterate v = raise type_error

unfoldable pub banned_words : Json → Result (List String)
unfolding get_or iterate
banned_words settings = get_or "banned_words" (arr nil) settings >>= iterate

-- The functions of Python's library on texts: NFC with `lower`, and the search of a pattern that is
-- an escaped text, without regard to case.
pub record Texts : Type 0 where
  pub nfc_lower : String → String
  pub search : String → String → Bool

module _ (lib : Texts) where
  unfoldable pub normalize : String → String
  unfolding collapse strip
  normalize s = strip (collapse false (lib.nfc_lower s))

  -- `_build_patterns`: the words that are not blank, normalized.
  unfoldable pub build_patterns : List String → List String
  build_patterns [] = []
  build_patterns (w ∷ words) =
      let rest = build_patterns words in if is_empty (strip w) then rest else normalize w ∷ rest

  unfoldable pub any_found : List String → String → Bool
  any_found [] s = false
  any_found (p ∷ ps) s = let rest = any_found ps s in lib.search p s || rest

  -- app/stages/word_filter.py
  unfoldable pub word_filter : Json → TipEvent → Result StageResult
  word_filter settings e =
      let masked = banned_words settings >>= λ words. ok (
        tip (
          if any_found (build_patterns words) (normalize e.message)
          then record e { message = filtered }
          else e)) in
      if is_empty e.message then ok (tip e) else masked

  -- A stage runs on an event; "DROP" and "HOLD" end the pipeline.
  abbrev pub then_stage : (TipEvent → Result StageResult) → StageResult → Result StageResult
  then_stage stage (tip e) = stage e
  then_stage stage drop = ok drop
  then_stage stage hold = ok hold

  unfoldable pub run_stages :
      List (TipEvent → Result StageResult) → StageResult → Result StageResult
  run_stages [] r = ok r
  run_stages (stage ∷ stages) r = then_stage stage r >>= run_stages stages

  unfoldable pub process_tip : Json → TipEvent → Result StageResult
  unfolding run_stages
  process_tip settings e = run_stages (amount_tiers settings ∷ word_filter settings ∷ []) (tip e)
