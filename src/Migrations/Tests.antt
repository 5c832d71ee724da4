-- ===== src/Migrations/Tests.antt =====
-- A build with two migrations on a number, from a database of the first version.
use selfhost_tip_overlay.Prelude.{ℕ, ◌+◌, ◌≡◌, refl, true, false, some, [], ◌∷◌}
use selfhost_tip_overlay.Migrations.{
  Build, Store, migrate, pending_from, backup_then, from_version, run_migrations,
}
use selfhost_tip_overlay.Security.Redaction.{starts_with}
use selfhost_tip_overlay.Migrations.Backup.{
  path_of, is_file, backup_sqlite_file, IsBackedUp, run_migrations-IsBackedUp,
}

abbrev build : Build ℕ
build = record {
  baseline = 1;
  schema = 3;
  migrations = (3, λ n. some (n + 20)) ∷ (2, λ n. some (n + 3)) ∷ [];
}

abbrev store : Store ℕ
store = record { tables = 100; version = some 1; backups = [] }

runs_through : (run_migrations build (some true) store).0 ≡ true
unfolding run_migrations from_version pending_from backup_then migrate
runs_through = refl

a_file : is_file "sqlite:////data/tips.db" ≡ true
unfolding is_file path_of starts_with
a_file = refl

run_migrations-IsBackedUp_example :
    IsBackedUp build store
      (run_migrations build (backup_sqlite_file "sqlite:////data/tips.db" false true) store).1
run_migrations-IsBackedUp_example =
    run_migrations-IsBackedUp build "sqlite:////data/tips.db" false true store a_file
