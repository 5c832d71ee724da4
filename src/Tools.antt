-- ===== src/Tools.antt =====
-- tools/core_guard.py and tools/check_imports.py: the two scripts that guard the boundary of `core`.
-- What they print is not modelled but for the list of violations.
pub mod Components
pub mod Boundary
mod Tests
use selfhost_tip_overlay.Prelude.{
  ℕ, zero, suc, String, Bool, true, false, ◌||◌, Option, none, some, List, [], ◌∷◌, ◌++◌, str_eq,
  if◌then◌else◌,
}
use selfhost_tip_overlay.Prelude.Text.{is_empty}
use selfhost_tip_overlay.Security.Redaction.{starts_with, contains, replace_from}

-- `path.replace("\\", "/")`
unfoldable pub normalized : String → String
unfolding replace_from
normalized path = replace_from "\\" "/" zero path

-- `"/core/" in path_normalized or path_normalized.startswith("core/")`
unfoldable pub is_core : String → Bool
unfolding contains starts_with
is_core path = contains "/core/" path || starts_with "core/" path

-- The exit code of core_guard.py, from `sys.argv`.
unfoldable pub core_guard : List String → ℕ
unfolding normalized is_core
core_guard [] = 0
core_guard (script ∷ []) = 0
core_guard (script ∷ path ∷ args) = if is_core (normalized path) then 1 else 0

-- A node of a syntax tree as `ast.walk` gives it: `import a, b`, `from m import ...`, where a
-- relative import may have no module, or any other.
pub data Node : Type 0 where
  import_names : List String → Node
  import_from : Option String → Node
  other : Node

-- The loop over the names: each replaces the one before.
unfoldable pub last_name : String → List String → String
last_name last [] = last
last_name last (name ∷ names) = last_name name names

-- `module` after the branches on the node.
unfoldable pub module_of : Node → String
unfolding last_name
module_of (import_names names) = last_name "" names
module_of (import_from none) = ""
module_of (import_from (some name)) = name
module_of other = ""

-- `module.startswith("app.") or module == "app"`
unfoldable pub is_app : String → Bool
unfolding starts_with
is_app name = starts_with "app." name || str_eq name "app"

-- A file of core/ by its path from the root, with the nodes of its tree and their lines.
pub record Source : Type 0 where
  pub rel : String
  pub nodes : List (ℕ × Node)

pub record Violation : Type 0 where
  pub rel : String
  pub lineno : ℕ
  pub imported : String

unfoldable pub node_errors : String → List (ℕ × Node) → List Violation
unfolding module_of is_app
node_errors rel [] = []
node_errors rel ((lineno, node) ∷ nodes) =
    let rest = node_errors rel nodes in
    let name = module_of node in
    if is_app name then record { rel = rel; lineno = lineno; imported = name } ∷ rest else rest

unfoldable pub check_errors : List Source → List Violation
unfolding node_errors
check_errors [] = []
check_errors (f ∷ files) = node_errors f.rel f.nodes ++ check_errors files

-- The exit code of check_imports.py.
unfoldable pub check_imports : List Source → ℕ
unfolding check_errors
check_imports files = elim (check_errors files) [ [] ↦ 0 | e ∷ errors ↦ 1 ]
