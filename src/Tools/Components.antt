-- ===== src/Tools/Components.antt =====
-- tools/core_guard.py against the directories of a path.
use selfhost_tip_overlay.Prelude.{
  String, Bool, true, false, not, ◌&&◌, ◌||◌, ◌≡◌, refl, sym, ap, ◌∙◌, List, [], ◌∷◌, arith, ◌==◌,
  if◌then◌else◌, Bool-cases, inl, inr,
}
use Prim.Native.Char.{Char, code}
use selfhost_tip_overlay.Prelude.Text.{len}
use selfhost_tip_overlay.Security.Redaction.{starts_with, contains, replace_from, join}
use selfhost_tip_overlay.Tools.{normalized, is_core, core_guard}

-- Two texts with the same characters.
abbrev pub is_same : String → String → Bool
is_same String.[] String.[] = true
is_same String.[] (String.◌∷◌ d t) = false
is_same (String.◌∷◌ c s) String.[] = false
is_same (String.◌∷◌ c s) (String.◌∷◌ d t) = code c == code d && is_same s t

-- Whether a piece of the path that is not the last is the name.
abbrev pub has_directory : String → List String → Bool
has_directory name [] = false
has_directory name (p ∷ []) = false
has_directory name (p ∷ q ∷ ps) = is_same p name || has_directory name (q ∷ ps)

abbrev pub is_separator : Char → Bool
is_separator c = code c == b'/' || code c == 92

abbrev onto : Char → List String → List String
onto c [] = String.◌∷◌ c String.[] ∷ []
onto c (p ∷ ps) = String.◌∷◌ c p ∷ ps

-- The pieces of a path between slashes and backslashes.
abbrev pub pieces : String → List String
pieces String.[] = String.[] ∷ []
pieces (String.◌∷◌ c s) =
    let rest = pieces s in if is_separator c then String.[] ∷ rest else onto c rest

abbrev first : List String → String
first [] = ""
first (p ∷ ps) = p

abbrev more : List String → Bool
more [] = false
more (p ∷ []) = false
more (p ∷ q ∷ ps) = true

-- No slash in the text.
abbrev plain : String → Bool
plain String.[] = true
plain (String.◌∷◌ c s) = not (code c == b'/') && plain s

normalized-cons :
    (c : Char) (s : String)
    → normalized (String.◌∷◌ c s)
      ≡ (if code c == 92 then join "/" (normalized s) else String.◌∷◌ c (normalized s))
unfolding normalized replace_from starts_with len
normalized-cons c s = ground arith

abbrev IsSome : List String → Type 0
IsSome ps = (p : String) × (qs : List String) × (ps ≡ p ∷ qs)

onto-IsSome : (c : Char) (ps : List String) → IsSome (onto c ps)
onto-IsSome c [] = (String.◌∷◌ c String.[], [], refl)
onto-IsSome c (p ∷ ps) = (String.◌∷◌ c p, ps, refl)

pieces-IsSome : (s : String) → IsSome (pieces s)
pieces-IsSome String.[] = ("", [], refl)
pieces-IsSome (String.◌∷◌ c s) = elim (Bool-cases (is_separator c)) [
  | inl y ↦ (String.[], pieces s, rw y refl)
  | inr n ↦ rw n (onto-IsSome c (pieces s))
]

abbrev rest_of : List String → List String
rest_of [] = []
rest_of (p ∷ ps) = ps

-- What the two tests read of a character that is no separator, and of one that is.
module _ (c : Char) (s : String) (n : is_separator c ≡ false) where
  kept : normalized (String.◌∷◌ c s) ≡ String.◌∷◌ c (normalized s)
  kept = normalized-cons c s ∙ ground (arith, n)

  kept_pieces :
      (pieces (String.◌∷◌ c s) ≡ String.◌∷◌ c (first (pieces s)) ∷ rest_of (pieces s))
      × (more (pieces s) ≡ more (pieces (String.◌∷◌ c s)))
  kept_pieces = let (p, qs, e) = pieces-IsSome s in rw (n, e) (refl, refl)

abbrev slash : Char
slash = "/"

-- A separator leaves a slash.
cut :
    (c : Char) (s : String)
    → is_separator c ≡ true
    → (d : Char) × (normalized (String.◌∷◌ c s) ≡ String.◌∷◌ d (normalized s)) × (code d ≡ 47)
cut c s y = elim (Bool-cases (code c == 92)) [
  | inl b ↦ (slash, normalized-cons c s ∙ rw b refl, refl)
  | inr n ↦ (c, normalized-cons c s ∙ rw n refl, ground (arith, y, n))
]

-- The pieces after a separator, and after any other character.
more-cut : (s : String) → more (String.[] ∷ pieces s) ≡ true
more-cut s = let (p, qs, e) = pieces-IsSome s in rw e refl

starts_at :
    (d c : Char) (v t : String)
    → starts_with (String.◌∷◌ d v) (String.◌∷◌ c t) ≡ (code d == code c && starts_with v t)
unfolding starts_with
starts_at d c v t = refl

starts_any : (t : String) → starts_with String.[] t ≡ true
unfolding starts_with
starts_any t = refl

-- A path starts with a name and a slash just where its first piece is the name and not the last.
starts-piece :
    (w p : String)
    → plain w ≡ true
    → starts_with (join w "/") (normalized p) ≡ (is_same (first (pieces p)) w && more (pieces p))
unfolding normalized replace_from
starts-piece String.[] String.[] h = refl
starts-piece (String.◌∷◌ d w) String.[] h = refl
starts-piece String.[] (String.◌∷◌ c s) h = elim (Bool-cases (is_separator c)) [
  | inl y ↦
      let (x, e, slashed) = cut c s y in
      rw (e, starts_at slash x "" (normalized s), starts_any, slashed, y) (sym (more-cut s))
  | inr n ↦
      rw (kept c s n, starts_at slash c "" (normalized s), (kept_pieces c s n).0)
        (ground (arith, n))
]
starts-piece (String.◌∷◌ d w) (String.◌∷◌ c s) h = elim (Bool-cases (is_separator c)) [
  | inl y ↦
      let (x, e, slashed) = cut c s y in
      rw (e, starts_at d x (join w "/") (normalized s), slashed, y) (ground (arith, h))
  | inr n ↦
      rw
        (
          kept c s n,
          starts_at d c (join w "/") (normalized s),
          starts-piece w s (ground (arith, h)),
          (kept_pieces c s n).0,
        )
        (ground (arith, (kept_pieces c s n).1 ∙ ap more (kept_pieces c s n).0))
]

contains_at :
    (c : Char) (t : String)
    → contains "/core/" (String.◌∷◌ c t)
      ≡ ((code slash == code c && starts_with "core/" t) || contains "/core/" t)
unfolding contains starts_with
contains_at c t = refl

has_directory-first :
    (name : String) (ps : List String)
    → has_directory name ps
      ≡ ((is_same (first ps) name && more ps) || has_directory name (rest_of ps))
has_directory-first name [] = ground arith
has_directory-first name (p ∷ []) = ground arith
has_directory-first name (p ∷ q ∷ ps) = ground arith

-- `"/core/" in` the path is about the pieces after the first.
contains-pieces :
    (p : String) → contains "/core/" (normalized p) ≡ has_directory "core" (rest_of (pieces p))
unfolding contains normalized replace_from
contains-pieces String.[] = refl
contains-pieces (String.◌∷◌ c s) = elim (Bool-cases (is_separator c)) [
  | inl y ↦
      let (x, e, slashed) = cut c s y in
      rw
        (e, contains_at x (normalized s), slashed, y, starts-piece "core" s refl, contains-pieces s)
        (sym (has_directory-first "core" (pieces s)))
  | inr n ↦
      let apart : code slash == code c ≡ false = ground (arith, n) in
      rw (kept c s n, contains_at c (normalized s), apart, (kept_pieces c s n).0)
        (contains-pieces s)
]

is_core-directory : (p : String) → is_core (normalized p) ≡ has_directory "core" (pieces p)
unfolding is_core
is_core-directory p =
    rw (contains-pieces p, starts-piece "core" p refl, has_directory-first "core" (pieces p))
      (ground arith)

-- For an edited path, core_guard.py blocks the edit (exit code 1) just where a directory of the path
-- is named `core`: a piece between slashes or backslashes, the last piece apart. With no path it
-- lets the edit pass.
pub core_guard-directory :
    (script path : String) (args : List String)
    → (core_guard (script ∷ path ∷ args) ≡ (if has_directory "core" (pieces path) then 1 else 0))
      × (core_guard (script ∷ []) ≡ 0)
unfolding core_guard
core_guard-directory script path args = (rw (is_core-directory path) refl, refl)
