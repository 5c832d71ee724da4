-- ===== src/Migrations/Backup.antt =====
-- core/db/migrations.py: `_backup_sqlite_file`, and what stands in the copies when a migration runs.
use selfhost_tip_overlay.Prelude.{
  ℕ, String, Bool, true, false, ◌||◌, ◌≡◌, ◌≢◌, ◌⊎◌, refl, inl, inr, Option, none, some, List, [],
  ◌∷◌, str_eq, ltb, Bool-cases, Option-cases, if◌then◌else◌,
}
use selfhost_tip_overlay.Prelude.Text.{is_empty}
use selfhost_tip_overlay.Security.Redaction.{starts_with}
use selfhost_tip_overlay.Migrations.{
  Build, Store, migrate, pending_from, backup_then, from_version, run_migrations,
}

-- `url.split("///", 1)[-1]`
unfoldable pub path_of : String → String → String
unfolding starts_with
path_of whole (String.◌∷◌ a (String.◌∷◌ b (String.◌∷◌ c s))) =
    let rest = path_of whole (String.◌∷◌ b (String.◌∷◌ c s)) in
    if starts_with "///" (String.◌∷◌ a (String.◌∷◌ b (String.◌∷◌ c s))) then s else rest
path_of whole s = whole

-- A database in a file.
unfoldable pub is_file : String → Bool
unfolding path_of starts_with
is_file url =
    let path = path_of url url in
    if starts_with "sqlite" url
    then (if is_empty path || str_eq path ":memory:" then false else true)
    else false

-- What the backup does, from whether the snapshot and the plain copy would succeed.
unfoldable pub backup_sqlite_file : String → Bool → Bool → Option Bool
unfolding is_file
backup_sqlite_file url snapshot copy =
    let done = if snapshot then some true else if copy then some true else none in
    if is_file url then done else some false

module _ {S : Type 0} (build : Build S) where
  backups-migrate :
      (pending : List (ℕ × (S → Option S))) (s : Store S)
      → (migrate build pending s).1.backups ≡ s.backups
  unfolding migrate
  backups-migrate [] s = refl
  backups-migrate ((v, f) ∷ pending) s = elim (Option-cases (f s.tables)) [
    | inl e ↦ rw (migrate, e) refl
    | inr (t, e) ↦
        rw (migrate, e)
          (backups-migrate pending (record { tables = t; version = some v; backups = s.backups }))
  ]

  -- Nothing is changed, or the tables as they were are the newest copy.
  abbrev pub IsBackedUp : Store S → Store S → Type 0
  IsBackedUp before after = (after ≡ before) ⊎ (after.backups ≡ before.tables ∷ before.backups)

  backup_then-IsBackedUp :
      (copied : Option Bool) (pending : List (ℕ × (S → Option S))) (s : Store S)
      → copied ≢ some false
      → IsBackedUp s (backup_then build copied pending s).1
  unfolding backup_then
  backup_then-IsBackedUp copied [] s h = inl refl
  backup_then-IsBackedUp none (m ∷ pending) s h = inl refl
  backup_then-IsBackedUp (some true) (m ∷ pending) s h =
      inr (backups-migrate (m ∷ pending) (record s { backups = s.tables ∷ s.backups }))
  backup_then-IsBackedUp (some false) (m ∷ pending) s h = absurd (h refl)

  file-copied :
      (url : String) (snapshot copy : Bool)
      → is_file url ≡ true
      → backup_sqlite_file url snapshot copy ≢ some false
  unfolding backup_sqlite_file
  file-copied url true copy h = λ e. (let copied : some true ≡ some false = rw h at e in cc)
  file-copied url false true h = λ e. (let copied : some true ≡ some false = rw h at e in cc)
  file-copied url false false h = λ e. (let copied : none ≡ some false = rw h at e in cc)

  from_version-IsBackedUp :
      (copied : Option Bool) (version : Option ℕ) (s : Store S)
      → copied ≢ some false
      → IsBackedUp s (from_version build copied version s).1
  unfolding from_version
  from_version-IsBackedUp copied none s h = inl refl
  from_version-IsBackedUp copied (some current) s h = elim (Bool-cases (ltb build.schema current)) [
    | inl y ↦ rw y (inl refl)
    | inr x ↦ rw x (backup_then-IsBackedUp copied (pending_from build current) s h)
  ]

  -- The migrations of a database in a file change nothing unless a copy of the tables, as they were
  -- before the first of them, has been written; a migration that fails later leaves the copy.
  pub run_migrations-IsBackedUp :
      (url : String) (snapshot copy : Bool) (s : Store S)
      → is_file url ≡ true
      → IsBackedUp s (run_migrations build (backup_sqlite_file url snapshot copy) s).1
  unfolding run_migrations
  run_migrations-IsBackedUp url snapshot copy s h =
      from_version-IsBackedUp (backup_sqlite_file url snapshot copy) s.version s
        (file-copied url snapshot copy h)
