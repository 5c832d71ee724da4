-- ===== src/Tools/Boundary.antt =====
-- tools/check_imports.py against the imports of the files.
use selfhost_tip_overlay.Prelude.{
  ℕ, String, Bool, true, false, ◌||◌, ◌≡◌, refl, ◌∙◌, none, some, List, [], ◌∷◌, ◌++◌, All, arith,
  if◌then◌else◌,
}
use selfhost_tip_overlay.Tools.{
  Node, import_names, import_from, other, last_name, module_of, is_app, Source, Violation,
  node_errors, check_errors, check_imports,
}

abbrev any_app : List String → Bool
any_app [] = false
any_app (name ∷ names) = is_app name || any_app names

-- Whether a node imports app/, by any of its names.
abbrev pub imports_app : Node → Bool
imports_app (import_names names) = any_app names
imports_app (import_from none) = false
imports_app (import_from (some name)) = is_app name
imports_app other = false

-- An import that names one module at most, or none.
abbrev pub IsPlain : Node → Type 0
IsPlain (import_names []) = Unit
IsPlain (import_names (name ∷ [])) = Unit
IsPlain (import_names (name ∷ name' ∷ names)) = ⊥
IsPlain (import_from m) = Unit
IsPlain other = Unit

abbrev any_node : List (ℕ × Node) → Bool
any_node [] = false
any_node ((lineno, node) ∷ nodes) = imports_app node || any_node nodes

-- Whether a file imports app/.
abbrev pub any_file : List Source → Bool
any_file [] = false
any_file (f ∷ files) = any_node f.nodes || any_file files

abbrev ArePlain : List (ℕ × Node) → Type 0
ArePlain nodes = All (λ (n : ℕ × Node). IsPlain n.1) nodes

abbrev pub AllPlain : List Source → Type 0
AllPlain files = All (λ (f : Source). ArePlain f.nodes) files

abbrev is_filled : List Violation → Bool
is_filled [] = false
is_filled (e ∷ errors) = true

is_app_empty : is_app "" ≡ false
unfolding is_app
is_app_empty = refl

module_of-app : (node : Node) → IsPlain node → is_app (module_of node) ≡ imports_app node
unfolding module_of last_name
module_of-app (import_names []) p = is_app_empty
module_of-app (import_names (name ∷ [])) p = ground arith
module_of-app (import_names (name ∷ name' ∷ names)) p = absurd p
module_of-app (import_from none) p = is_app_empty
module_of-app (import_from (some name)) p = refl
module_of-app other p = is_app_empty

node_errors-any :
    (rel : String) (nodes : List (ℕ × Node))
    → ArePlain nodes
    → is_filled (node_errors rel nodes) ≡ any_node nodes
unfolding node_errors
node_errors-any rel [] p = refl
node_errors-any rel ((lineno, node) ∷ nodes) p =
    ground (arith, module_of-app node p.0, node_errors-any rel nodes p.1)

is_filled-append : (xs ys : List Violation) → is_filled (xs ++ ys) ≡ (is_filled xs || is_filled ys)
is_filled-append [] ys = refl
is_filled-append (x ∷ xs) ys = refl

check_errors-any :
    (files : List Source) → AllPlain files → is_filled (check_errors files) ≡ any_file files
unfolding check_errors
check_errors-any [] p = refl
check_errors-any (f ∷ files) p =
    is_filled-append (node_errors f.rel f.nodes) (check_errors files)
    ∙ rw (node_errors-any f.rel f.nodes p.0, check_errors-any files p.1) refl

exit_code :
    (es : List Violation)
    → elim es as (λ es. ℕ) [ [] ↦ 0 | e ∷ errors ↦ 1 ] ≡ (if is_filled es then 1 else 0)
exit_code [] = refl
exit_code (e ∷ es) = refl

-- On files whose `import` statements name one module each, check_imports.py fails (exit code 1) just
-- where some statement of some file, `import` or `from ... import`, names `app` or a module below it.
pub check_imports-any :
    (files : List Source) → AllPlain files → check_imports files ≡ (if any_file files then 1 else 0)
unfolding check_imports
check_imports-any files p = exit_code (check_errors files) ∙ rw (check_errors-any files p) refl
