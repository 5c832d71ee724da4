-- ===== src/Db/Money.antt =====
-- core/db/operations.py: `record_successful`, row by row.
use selfhost_tip_overlay.Prelude.{
  ℕ, String, ◌≡◌, refl, ap, ◌∙◌, inl, inr, Bool, true, false, Option, none, some, List, arith,
  eq_iff, str_eq, str_eq_refl, str-cases, or_default, if◌then◌else◌,
}
use selfhost_tip_overlay.Prelude.Int.{ℤ}
use selfhost_tip_overlay.Db.Schema.{is_successful, Tip, Db, insert_or_ignore, find}
use selfhost_tip_overlay.Db.Operations.{pending_row, record_successful, is_unpaid, set_paid}
use selfhost_tip_overlay.Db.Valid.{IsValid, RowsValid-insert}
use selfhost_tip_overlay.Db.Count.{count-eq-hits, update_none, insert_found}
use selfhost_tip_overlay.Db.Find.{
  find-insert_or_ignore, find-update_self, find-update_ne, find-cases,
}
use selfhost_tip_overlay.Db.Trace.{pending_row-RowOk, record_successful-IsValid}

-- The row of a charge once it is recorded: a row that was successful stays, any other becomes
-- successful with the time given, and a charge with no row gets one from the arguments.
abbrev pub settled : ℕ → Tip → Tip
settled t r = if is_successful r.status then r else set_paid t r

abbrev pub is_paid_row : Option Tip → Bool
is_paid_row none = false
is_paid_row (some r) = is_successful r.status

-- Whether the charge is recorded as paid.
abbrev pub is_paid : String → Db → Bool
is_paid id db = is_paid_row (find id db.tips)

module _ (id : String) (a : ℤ) (c n m s : String) (t : ℕ) where
  abbrev row : Tip
  row = pending_row id a c n m s t

  -- The row that the INSERT leaves for the charge has its id.
  inserted_id : (rows : List Tip) → (or_default (find id rows) row).charge_id ≡ id
  inserted_id rows = elim (find-cases id rows) [ inl e ↦ rw e | inr (r, e, i) ↦ rw e i ]

  pay_row :
      (r : Tip) → r.charge_id ≡ id → (if is_unpaid id r then set_paid t r else r) ≡ settled t r
  pay_row r e = ground (arith, eq_iff r.charge_id id)

  find-record_self :
      (db : Db)
      → find id (record_successful id a c n m s t db).1.tips
        ≡ some (settled t (or_default (find id db.tips) row))
  unfolding record_successful
  find-record_self db =
      find-update_self id (is_unpaid id) (set_paid t) (insert_or_ignore row db.tips)
        (or_default (find id db.tips) row) (λ r. refl) (rw (find-insert_or_ignore, str_eq_refl id))
      ∙ ap some (pay_row (or_default (find id db.tips) row) (inserted_id db.tips))

  -- After `record_successful` the charge's row is the one there was, made successful if it was
  -- not, or a new successful row of the arguments; every other charge's row is as it was.
  pub find-record_successful :
      (j : String) (db : Db)
      → find j (record_successful id a c n m s t db).1.tips ≡ (
          if str_eq id j
          then some (settled t (or_default (find id db.tips) row))
          else find j db.tips)
  unfolding record_successful
  find-record_successful j db = elim (str-cases id j) [
    | inl e ↦ rw (← e, str_eq_refl id) (find-record_self db)
    | inr e ↦ rw e (
        find-update_ne id j (is_unpaid id) (set_paid t) (insert_or_ignore row db.tips) (λ r. refl)
          (λ r h. ground arith) e
        ∙ rw find-insert_or_ignore (rw e))
  ]

  -- In a well-formed database the rowcount is 1 where the charge was not yet recorded as paid, and
  -- 0 where it was.
  pub rowcount-record_successful :
      (db : Db)
      → IsValid db
      → (record_successful id a c n m s t db).0 ≡ (if is_paid id db then 0 else 1)
  unfolding record_successful
  rowcount-record_successful db h =
      count-eq-hits id (is_unpaid id) (λ r e. ground arith) (insert_or_ignore row db.tips)
        (RowsValid-insert row refl db.tips (pending_row-RowOk id a c n m s t) h)
      ∙ rw (find-insert_or_ignore, str_eq_refl id)
          (elim (find-cases id db.tips) [
            | inl e ↦ rw (e, str_eq_refl id)
            | inr (r, e, i) ↦ rw e (ground (arith, eq_iff r.charge_id id))
          ])

  -- A charge that is recorded as paid is left as it is by another call, whatever its arguments.
  pub record_successful_paid :
      (db : Db) → IsValid db → is_paid id db ≡ true → record_successful id a c n m s t db ≡ (0, db)
  record_successful_paid db h e =
      let zero_rows : (record_successful id a c n m s t db).0 ≡ 0 =
        rowcount-record_successful db h ∙ rw e in
      elim (find-cases id db.tips) [
        | inl absent ↦ cc (ap is_paid_row absent, e)
        | inr (r, found, i) ↦
            unfold record_successful in
            (let kept : (record_successful id a c n m s t db).1.tips ≡ db.tips =
                update_none (is_unpaid id) (set_paid t) (insert_or_ignore row db.tips) zero_rows
                ∙ insert_found row db.tips r found in
              λ k. (zero_rows k, record db { tips = kept k }))
      ]

-- From a well-formed database: after one `record_successful` of a charge, any other for it returns
-- the rowcount 0 and leaves the whole database as it is.
pub record_successful_twice :
    (id : String) (a a' : ℤ) (c n m s c' n' m' s' : String) (t t' : ℕ) (db : Db)
    → IsValid db
    → let once = (record_successful id a c n m s t db).1 in
      record_successful id a' c' n' m' s' t' once ≡ (0, once)
record_successful_twice id a a' c n m s c' n' m' s' t t' db h =
    let once = (record_successful id a c n m s t db).1 in
    record_successful_paid id a' c' n' m' s' t' once (record_successful-IsValid id a c n m s t db h)
      (rw (find-record_successful id a c n m s t id db, str_eq_refl id) (ground arith))
