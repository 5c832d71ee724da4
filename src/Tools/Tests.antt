-- ===== src/Tools/Tests.antt =====
-- A path below core/, a file that imports app/, and one whose import goes unseen.
use selfhost_tip_overlay.Prelude.{◌≡◌, refl, none, some, [], ◌∷◌}
use selfhost_tip_overlay.Security.Redaction.{starts_with}
use selfhost_tip_overlay.Tools.{
  import_names, import_from, other, Source, core_guard, check_imports, check_errors, node_errors,
  module_of, last_name, is_app,
}
use selfhost_tip_overlay.Tools.Components.{core_guard-directory}
use selfhost_tip_overlay.Tools.Boundary.{check_imports-any}

core_guard-directory_example :
    (core_guard ("core_guard.py" ∷ "src\\core\\db.py" ∷ []) ≡ 1)
    × (core_guard ("core_guard.py" ∷ []) ≡ 0)
core_guard-directory_example = core_guard-directory "core_guard.py" "src\\core\\db.py" []

abbrev file : Source
file = record {
  rel = "core/db.py";
  nodes =
      (1, import_names ("os" ∷ []))
      ∷ (2, other)
      ∷ (3, import_from (some "app.stages"))
      ∷ (4, import_from none)
      ∷ [];
}

check_imports-any_example : check_imports (file ∷ []) ≡ 1
unfolding is_app starts_with
check_imports-any_example = check_imports-any (file ∷ []) ((tt, (tt, (tt, (tt, tt)))), tt)

-- Of `import app.stages, os` only the last name is looked at.
unseen :
    check_imports (
      record { rel = "core/db.py"; nodes = (1, import_names ("app.stages" ∷ "os" ∷ [])) ∷ [] } ∷ [])
    ≡ 0
unfolding check_imports check_errors node_errors module_of last_name is_app starts_with
unseen = refl
