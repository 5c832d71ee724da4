-- ===== src/Migrations.antt =====
-- core/db/migrations.py and `init_db` of core/db/schema.py: the version row and the migrations. The
-- other tables are a parameter, as are the version of the build and its table of migrations, which
-- is empty in this version.
mod Again
pub mod Backup
mod Tests
use selfhost_tip_overlay.Prelude.{
  ℕ, Bool, true, false, Option, none, some, List, [], ◌∷◌, ltb, select, if◌then◌else◌,
}
use selfhost_tip_overlay.Prelude.Sort.{sort_by}

-- `baseline` is BASELINE_VERSION and `schema` SCHEMA_VERSION. A migration is `none` where it raises.
pub record Build (S : Type 0) : Type 0 where
  pub baseline : ℕ
  pub schema : ℕ
  pub migrations : List (ℕ × (S → Option S))

-- `version` is the row 1 of `schema_version`; `backups` are the copies that were written, the
-- newest first.
pub record Store (S : Type 0) : Type 0 where
  pub tables : S
  pub version : Option ℕ
  pub backups : List S

module _ {S : Type 0} (build : Build S) where
  -- The loop: each migration and its version are one transaction. `false` where it raised.
  unfoldable pub migrate : List (ℕ × (S → Option S)) → Store S → Bool × Store S
  migrate [] s = (true, s)
  migrate ((v, f) ∷ pending) s = elim (f s.tables) [
    | none ↦ (false, s)
    | some t ↦ migrate pending (record s { tables = t; version = some v })
  ]

  -- `sorted(v for v in MIGRATIONS if v > current)`, with their functions.
  unfoldable pub pending_from : ℕ → List (ℕ × (S → Option S))
  pending_from current = sort_by (λ m. m.0) (select (λ m. ltb current m.0) build.migrations)

  -- The copy of the file, where there is one to copy: `none` where the copy fails.
  unfoldable pub backup_then : Option Bool → List (ℕ × (S → Option S)) → Store S → Bool × Store S
  unfolding migrate
  backup_then copied [] s = (true, s)
  backup_then none (m ∷ pending) s = (false, s)
  backup_then (some true) (m ∷ pending) s =
      migrate (m ∷ pending) (record s { backups = s.tables ∷ s.backups })
  backup_then (some false) (m ∷ pending) s = migrate (m ∷ pending) s

  -- RuntimeError where the row is missing, and where the database is newer than the build.
  unfoldable pub from_version : Option Bool → Option ℕ → Store S → Bool × Store S
  from_version copied none s = (false, s)
  from_version copied (some current) s =
      let done = backup_then copied (pending_from current) s in
      if ltb build.schema current then (false, s) else done

  -- `copied` tells what the backup did: a copy, no file to copy, or a failure.
  unfoldable pub run_migrations : Option Bool → Store S → Bool × Store S
  run_migrations copied s = from_version copied s.version s

  unfoldable pub stamp_initial_version : Bool → Bool → Store S → Store S
  stamp_initial_version had_tips had_version_table s =
      let initial = if had_tips then build.baseline else build.schema in
      if had_version_table then s else record s { version = some initial }

  -- `init_db`, after `create_all`.
  unfoldable pub init_db : Bool → Bool → Option Bool → Store S → Bool × Store S
  unfolding run_migrations stamp_initial_version
  init_db had_tips had_version_table copied s =
      run_migrations copied (stamp_initial_version had_tips had_version_table s)
