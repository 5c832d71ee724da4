-- ===== src/Migrations/Again.antt =====
-- core/db/migrations.py: `run_migrations` on a database that is up to date.
use selfhost_tip_overlay.Prelude.{
  ℕ, ◌≤◌, ◌≡◌, refl, sym, ap, ◌∙◌, Bool, true, false, Option, none, some, List, [], ◌∷◌, arith, All,
  ltb, select, Bool-cases, Option-cases, inl, inr,
}
use selfhost_tip_overlay.Prelude.Sort.{
  sort_by, sort_by-All, All-sort_by, sort_by-IsSorted, IsSorted,
}
use selfhost_tip_overlay.Migrations.{
  Build, Store, migrate, pending_from, backup_then, from_version, run_migrations,
  stamp_initial_version, init_db,
}

module _ {S : Type 0} (build : Build S) where
  abbrev key : ℕ × (S → Option S) → ℕ
  key m = m.0

  abbrev last_version : ℕ → List (ℕ × (S → Option S)) → ℕ
  last_version current [] = current
  last_version current (m ∷ ms) = last_version m.0 ms

  migrate-version :
      (ms : List (ℕ × (S → Option S))) (current : ℕ) (s : Store S)
      → s.version ≡ some current
      → (migrate build ms s).0 ≡ true
      → (migrate build ms s).1.version ≡ some (last_version current ms)
  unfolding migrate
  migrate-version [] current s h e = h
  migrate-version ((v, f) ∷ ms) current s h e = elim (Option-cases (f s.tables)) [
    | inl x ↦ let absurd : false ≡ true = (rw (migrate, x) at e) in ground (arith, absurd)
    | inr (t, x) ↦
        rw (migrate, x)
          (migrate-version ms v (record s { tables = t; version = some v }) refl
            (rw (migrate, x) at e))
  ]

  -- The last version of a sorted list is at least all of it and the current one.
  last_version-le :
      (ms : List (ℕ × (S → Option S))) (current : ℕ)
      → All (λ m. current ≤ key m) ms
      → IsSorted key ms
      → (current ≤ last_version current ms) × All (λ m. key m ≤ last_version current ms) ms
  last_version-le [] current h k = ((omega arith), tt)
  last_version-le (m ∷ ms) current h k =
      let (le, all) = last_version-le ms m.0 k.0 k.1 in (omega (arith, le, h.0), (le, all))

  last_version-bound :
      (n : ℕ) (ms : List (ℕ × (S → Option S))) (current : ℕ)
      → current ≤ n
      → All (λ m. key m ≤ n) ms
      → last_version current ms ≤ n
  last_version-bound n [] current h k = h
  last_version-bound n (m ∷ ms) current h k = last_version-bound n ms m.0 k.0 k.1

  select_none :
      (n : ℕ) (ms : List (ℕ × (S → Option S)))
      → All (λ m. key m ≤ n) ms
      → select (λ m. ltb n (key m)) ms ≡ []
  select_none n [] h = refl
  select_none n (m ∷ ms) h =
      let no : ltb n (key m) ≡ false = ground (arith, h.0) in rw no (select_none n ms h.1)

  select_above :
      (n : ℕ) (ms : List (ℕ × (S → Option S)))
      → All (λ m. n ≤ key m) (select (λ m. ltb n (key m)) ms)
  select_above n [] = tt
  select_above n (m ∷ ms) = elim (Bool-cases (ltb n (key m))) [
    | inl x ↦ rw x (ground (arith, x), select_above n ms)
    | inr x ↦ rw x (select_above n ms)
  ]

  select-All :
      (n l : ℕ) (ms : List (ℕ × (S → Option S)))
      → n ≤ l
      → All (λ m. key m ≤ l) (select (λ m. ltb n (key m)) ms)
      → All (λ m. key m ≤ l) ms
  select-All n l [] le h = tt
  select-All n l (m ∷ ms) le h = elim (Bool-cases (ltb n (key m))) [
    | inl x ↦ let k = (rw x at h) in (k.0, select-All n l ms le k.1)
    | inr x ↦ let k = (rw x at h) in (ground (arith, x, le), select-All n l ms le k)
  ]

  backed_up :
      (copied : Option Bool) (m : ℕ × (S → Option S)) (ms : List (ℕ × (S → Option S))) (s : Store S)
      → (backup_then build copied (m ∷ ms) s).0 ≡ true
      → (b : List S) × (backup_then build copied (m ∷ ms) s
          ≡ migrate build (m ∷ ms) (record s { backups = b }))
  unfolding backup_then
  backed_up none m ms s e = ground (arith, e)
  backed_up (some true) m ms s e = (s.tables ∷ s.backups, refl)
  backed_up (some false) m ms s e = (s.backups, refl)

  backup_then-version :
      (copied : Option Bool) (ms : List (ℕ × (S → Option S))) (current : ℕ) (s : Store S)
      → s.version ≡ some current
      → (backup_then build copied ms s).0 ≡ true
      → (backup_then build copied ms s).1.version ≡ some (last_version current ms)
  unfolding backup_then
  backup_then-version copied [] current s h e = h
  backup_then-version copied (m ∷ ms) current s h e =
      let (b, same) = backed_up copied m ms s e in
      ap (λ (r : Bool × Store S). r.1.version) same
      ∙ migrate-version (m ∷ ms) current (record s { backups = b }) h
          (sym (ap (λ (r : Bool × Store S). r.0) same) ∙ e)

  -- The version that migrating ends with leaves nothing pending.
  pending_none :
      (current : ℕ) → pending_from build (last_version current (pending_from build current)) ≡ []
  unfolding pending_from
  pending_none current =
      let chosen = select (λ m. ltb current (key m)) build.migrations in
      let ms = sort_by key chosen in
      let (le, all) =
        last_version-le ms current
          (All-sort_by key (λ m. current ≤ key m) chosen (select_above current build.migrations))
          (sort_by-IsSorted key chosen) in
      ap (sort_by key) (
        select_none (last_version current ms) build.migrations (
          select-All current (last_version current ms) build.migrations le
            (sort_by-All key (λ m. key m ≤ last_version current ms) chosen all)))

  All-select :
      (n k : ℕ) (ms : List (ℕ × (S → Option S)))
      → All (λ m. key m ≤ n) ms
      → All (λ m. key m ≤ n) (select (λ m. ltb k (key m)) ms)
  All-select n k [] h = tt
  All-select n k (m ∷ ms) h = elim (Bool-cases (ltb k (key m))) [
    | inl x ↦ rw x (h.0, All-select n k ms h.1)
    | inr x ↦ rw x (All-select n k ms h.1)
  ]

  nothing_pending : (copied : Option Bool) (s : Store S) → backup_then build copied [] s ≡ (true, s)
  unfolding backup_then
  nothing_pending none s = refl
  nothing_pending (some true) s = refl
  nothing_pending (some false) s = refl

  current_done :
      (copied : Option Bool) (s : Store S) (v : ℕ)
      → s.version ≡ some v
      → v ≤ build.schema
      → pending_from build v ≡ []
      → run_migrations build copied s ≡ (true, s)
  unfolding run_migrations from_version
  current_done copied s v h le none_left =
      let older : ltb build.schema v ≡ false = ground (arith, le) in
      ap (λ o. from_version build copied o s) h ∙ rw (older, none_left) (nothing_pending copied s)

  from_stamped :
      (copied : Option Bool) (o : Option ℕ) (s : Store S)
      → (from_version build copied o s).0 ≡ true
      → (v : ℕ) × (o ≡ some v)
        × (ltb build.schema v ≡ false)
        × (from_version build copied o s ≡ backup_then build copied (pending_from build v) s)
  unfolding from_version
  from_stamped copied none s e = ground (arith, e)
  from_stamped copied (some v) s e = elim (Bool-cases (ltb build.schema v)) [
    | inl y ↦ let absurd : false ≡ true = (rw (from_version, y) at e) in ground (arith, absurd)
    | inr y ↦ (v, refl, y, rw (from_version, y) refl)
  ]

  migrated :
      (copied : Option Bool) (s : Store S)
      → (run_migrations build copied s).0 ≡ true
      → (v : ℕ) × (s.version ≡ some v)
        × (ltb build.schema v ≡ false)
        × (run_migrations build copied s ≡ backup_then build copied (pending_from build v) s)
  unfolding run_migrations
  migrated copied s e = from_stamped copied s.version s e

  -- With no migration past the version of the build: once the migrations have run through, another
  -- start migrates nothing, makes no copy and succeeds, whatever its backup would do.
  pub run_migrations_again :
      (copied copied' : Option Bool) (s : Store S)
      → All (λ m. key m ≤ build.schema) build.migrations
      → (run_migrations build copied s).0 ≡ true
      → let after = (run_migrations build copied s).1 in
        run_migrations build copied' after ≡ (true, after)
  unfolding pending_from
  run_migrations_again copied copied' s bound e =
      let (v, stamped, older, same) = migrated copied s e in
      let ms = pending_from build v in
      let after = (run_migrations build copied s).1 in
      let version : after.version ≡ some (last_version v ms) =
        ap (λ (r : Bool × Store S). r.1.version) same
        ∙ backup_then-version copied ms v s stamped
            (sym (ap (λ (r : Bool × Store S). r.0) same) ∙ e) in
      let chosen = select (λ m. ltb v (key m)) build.migrations in
      current_done copied' after (last_version v ms) version
        (last_version-bound build.schema ms v (ground (arith, older)) (
          All-sort_by key (λ m. key m ≤ build.schema) chosen
            (All-select build.schema v build.migrations bound)))
        (pending_none v)

  -- With no migration past the version of the build: a database that had neither table is stamped
  -- with the version of the build, and nothing is migrated or copied.
  pub init_db_fresh :
      (copied : Option Bool) (s : Store S)
      → All (λ m. key m ≤ build.schema) build.migrations
      → init_db build false false copied s ≡ (true, record s { version = some build.schema })
  unfolding init_db stamp_initial_version pending_from
  init_db_fresh copied s bound =
      current_done copied (record s { version = some build.schema }) build.schema refl (omega arith)
        (ap (sort_by key) (select_none build.schema build.migrations bound))
