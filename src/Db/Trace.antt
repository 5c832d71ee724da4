-- ===== src/Db/Trace.antt =====
-- Any sequence of calls of the writing methods of `DBOps`, in whatever order the webhook, the
-- charge route, the reconciliation and the purge make them.
use selfhost_tip_overlay.Prelude.{ℕ, ◌+◌, String, ◌≡◌, refl, none, List, [], ◌∷◌, arith}
use selfhost_tip_overlay.Prelude.Int.{ℤ}
use selfhost_tip_overlay.Db.Schema.{
  Status, pending, failed, expired, is_successful, Db, max_seq, insert_or_ignore,
}
use selfhost_tip_overlay.Db.Operations.{
  pending_row, upsert_pending, record_successful, is_unpaid, set_paid, mark_pushed, update_status,
  is_pending_charge, purge_old, is_purged_by, set_purged, set_last_scan_at,
}
use selfhost_tip_overlay.Db.Valid.{
  RowOk, IsValid, RowsValid-insert, RowsValid-update, RowsValid-mark, Below-max_seq,
}

-- One call, with its arguments and the time on the clock.
pub data Op : Type 0 where
  upsert : String → ℤ → String → String → String → String → ℕ → Op
  paid : String → ℤ → String → String → String → String → ℕ → Op
  push : String → ℕ → Op
  fail expire : String → Op
  purge scan : ℕ → Op

unfoldable pub apply : Op → Db → Db
apply (upsert id a c n m s now) db = upsert_pending id a c n m s now db
apply (paid id a c n m s t) db = (record_successful id a c n m s t db).1
apply (push id now) db = (mark_pushed id now db).1
apply (fail id) db = update_status id failed db
apply (expire id) db = update_status id expired db
apply (purge t) db = (purge_old t db).1
apply (scan t) db = set_last_scan_at t db

unfoldable pub run : List Op → Db → Db
unfolding apply
run [] db = db
run (op ∷ ops) db = run ops (apply op db)

abbrev pub empty : Db
empty = record { tips = []; recon_state = none }

pub pending_row-RowOk :
    (id : String) (a : ℤ) (c n m s : String) (t : ℕ) → RowOk (pending_row id a c n m s t)
pending_row-RowOk id a c n m s t = record {
  pushed = refl;
  positive = λ e. cc;
  paid = refl;
  personal = refl;
}

module _ (id : String) where
  pub upsert_pending-IsValid :
      (a : ℤ) (c n m s : String) (t : ℕ) (db : Db)
      → IsValid db
      → IsValid (upsert_pending id a c n m s t db)
  unfolding upsert_pending
  upsert_pending-IsValid a c n m s t db h =
      RowsValid-insert (pending_row id a c n m s t) refl db.tips (pending_row-RowOk id a c n m s t)
        h

  pub record_successful-IsValid :
      (a : ℤ) (c n m s : String) (t : ℕ) (db : Db)
      → IsValid db
      → IsValid (record_successful id a c n m s t db).1
  unfolding record_successful
  record_successful-IsValid a c n m s t db h =
      let row = pending_row id a c n m s t in
      RowsValid-update (is_unpaid id) (set_paid t) (λ r. refl) (λ r. refl)
        (insert_or_ignore row db.tips)
        (λ r e ok. record {
          pushed = ok.pushed;
          positive = ok.positive;
          paid = refl;
          personal = ok.personal;
        })
        (RowsValid-insert row refl db.tips (pending_row-RowOk id a c n m s t) h)

  pub mark_pushed-IsValid : (now : ℕ) (db : Db) → IsValid db → IsValid (mark_pushed id now db).1
  unfolding mark_pushed
  mark_pushed-IsValid now db h =
      RowsValid-mark id now (max_seq db.tips + 1) db.tips (omega arith)
        (Below-max_seq (max_seq db.tips + 1) db.tips (omega arith)) h

  pub update_status-IsValid :
      (s : Status) (db : Db)
      → is_successful s ≡ is_successful pending
      → IsValid db
      → IsValid (update_status id s db)
  unfolding update_status
  update_status-IsValid s db e h =
      RowsValid-update (is_pending_charge id) (λ r. record r { status = s }) (λ r. refl) (λ r. refl)
        db.tips
        (λ r p ok. record {
          pushed = ok.pushed;
          positive = ok.positive;
          paid = ground (arith, e, p, ok.paid);
          personal = ok.personal;
        })
        h

pub purge_old-IsValid : (t : ℕ) (db : Db) → IsValid db → IsValid (purge_old t db).1
unfolding purge_old
purge_old-IsValid t db h =
    RowsValid-update (is_purged_by t) set_purged (λ r. refl) (λ r. refl) db.tips
      (λ r e ok. record {
        pushed = ok.pushed;
        positive = ok.positive;
        paid = ok.paid;
        personal = refl;
      })
      h

pub apply-IsValid : (op : Op) (db : Db) → IsValid db → IsValid (apply op db)
unfolding apply set_last_scan_at
apply-IsValid (upsert id a c n m s t) db h = upsert_pending-IsValid id a c n m s t db h
apply-IsValid (paid id a c n m s t) db h = record_successful-IsValid id a c n m s t db h
apply-IsValid (push id now) db h = mark_pushed-IsValid id now db h
apply-IsValid (fail id) db h = update_status-IsValid id failed db refl h
apply-IsValid (expire id) db h = update_status-IsValid id expired db refl h
apply-IsValid (purge t) db h = purge_old-IsValid t db h
apply-IsValid (scan t) db h = h

-- Every database that the methods reach from a well-formed one is well-formed: no two rows have
-- one charge id or one sequence number, sequence numbers are positive and stand on exactly the
-- pushed rows, a time of payment stands on exactly the successful rows, and a row has a name exactly
-- where it has a message.
pub run-IsValid : (ops : List Op) (db : Db) → IsValid db → IsValid (run ops db)
unfolding run
run-IsValid [] db h = h
run-IsValid (op ∷ ops) db h = run-IsValid ops (apply op db) (apply-IsValid op db h)
