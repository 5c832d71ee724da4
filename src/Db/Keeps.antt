-- ===== src/Db/Keeps.antt =====
-- core/db/operations.py: the columns of a row across later calls.
use selfhost_tip_overlay.Prelude.{
  ℕ, String, ◌≡◌, refl, ◌∙◌, inl, inr, Bool, true, Option, none, some, List, [], ◌∷◌, arith,
  is_some, Bool-cases, if◌then◌else◌, ◌+◌,
}
use selfhost_tip_overlay.Db.Schema.{
  Status, failed, expired, is_successful, Tip, Db, insert_or_ignore, update_where, find, max_seq,
}
use selfhost_tip_overlay.Db.Operations.{
  pending_row, record_successful, is_unpaid, set_paid, upsert_pending, mark_pushed, is_unpushed,
  set_pushed, update_status, is_pending_charge, purge_old, is_purged_by, set_purged,
  set_last_scan_at,
}
use selfhost_tip_overlay.Db.Find.{find-insert_or_ignore, find-update_self, find-cases}
use selfhost_tip_overlay.Db.Trace.{Op, upsert, paid, push, fail, expire, purge, scan, apply, run}

-- What later calls keep of a row: the amount, the currency, the source and the time of creation
-- always; the status and the time of payment once it is successful; the time of the push and the
-- sequence number once it is pushed; and that the name, or the message, is blank once it is.
pub record Keeps (r r' : Tip) : Type 0 where
  pub amount : r'.amount ≡ r.amount
  pub currency : r'.currency ≡ r.currency
  pub source_type : r'.source_type ≡ r.source_type
  pub created_at : r'.created_at ≡ r.created_at
  pub money : is_successful r.status ≡ true → (r'.status ≡ r.status) × (r'.paid_at ≡ r.paid_at)
  pub overlay :
      is_some r.pushed_at ≡ true → (r'.pushed_at ≡ r.pushed_at) × (r'.event_seq ≡ r.event_seq)
  pub name : r.supporter_name ≡ none → r'.supporter_name ≡ none
  pub message : r.message ≡ none → r'.message ≡ none

Keeps-refl : (r : Tip) → Keeps r r
Keeps-refl r = record {
  amount = refl;
  currency = refl;
  source_type = refl;
  created_at = refl;
  money = λ _. (refl, refl);
  overlay = λ _. (refl, refl);
  name = λ e. e;
  message = λ e. e;
}

Keeps-trans : (r s t : Tip) → Keeps r s → Keeps s t → Keeps r t
Keeps-trans r s t h k = record {
  amount = k.amount ∙ h.amount;
  currency = k.currency ∙ h.currency;
  source_type = k.source_type ∙ h.source_type;
  created_at = k.created_at ∙ h.created_at;
  money = λ e. ground (arith, e, h.money e, k.money);
  overlay = λ e. ground (arith, e, h.overlay e, k.overlay);
  name = λ e. k.name (h.name e);
  message = λ e. k.message (h.message e);
}

-- The row of a charge, if there is one, is there later, and keeps what it must.
abbrev pub KeepsRow : Option Tip → Option Tip → Type 0
KeepsRow none o = Unit
KeepsRow (some r) o = (r' : Tip) × (o ≡ some r') × Keeps r r'

KeepsRow-trans : (a b c : Option Tip) → KeepsRow a b → KeepsRow b c → KeepsRow a c
KeepsRow-trans none b c h k = tt
KeepsRow-trans (some r) b c (s, e, h) k =
    let (t, e', k') = (rw e at k) in (t, e', Keeps-trans r s t h k')

KeepsRow-refl : (o : Option Tip) → KeepsRow o o
KeepsRow-refl none = tt
KeepsRow-refl (some r) = (r, refl, Keeps-refl r)

module _ (id : String) where
  update-KeepsRow :
      (p : Tip → Bool) (f : Tip → Tip) (rows : List Tip)
      → ((r : Tip) → (f r).charge_id ≡ r.charge_id)
      → ((r : Tip) → p r ≡ true → Keeps r (f r))
      → KeepsRow (find id rows) (find id (update_where p f rows))
  update-KeepsRow p f rows ids keep = elim (find-cases id rows) [
    | inl e ↦ rw e tt
    | inr (r, e, i) ↦
        rw (find-update_self id p f rows r ids e, e)
          (
            (if p r then f r else r),
            refl,
            elim (Bool-cases (p r)) [ inl y ↦ rw y (keep r y) | inr x ↦ rw x (Keeps-refl r) ],
          )
  ]

  insert-KeepsRow :
      (new : Tip) (rows : List Tip) → KeepsRow (find id rows) (find id (insert_or_ignore new rows))
  insert-KeepsRow new rows = elim (find-cases id rows) [
    | inl e ↦ rw e tt
    | inr (r, e, i) ↦ rw (find-insert_or_ignore id new rows, e) (r, ground arith, Keeps-refl r)
  ]

  pay-Keeps : (j : String) (t : ℕ) (r : Tip) → is_unpaid j r ≡ true → Keeps r (set_paid t r)
  pay-Keeps j t r e = record {
    amount = refl;
    currency = refl;
    source_type = refl;
    created_at = refl;
    money = λ s. ground (arith, e, s);
    overlay = λ _. (refl, refl);
    name = λ x. x;
    message = λ x. x;
  }

  push-Keeps :
      (j : String) (now n : ℕ) (r : Tip) → is_unpushed j r ≡ true → Keeps r (set_pushed now n r)
  push-Keeps j now n r e = record {
    amount = refl;
    currency = refl;
    source_type = refl;
    created_at = refl;
    money = λ _. (refl, refl);
    overlay = λ s. ground (arith, e, s);
    name = λ x. x;
    message = λ x. x;
  }

  status-Keeps :
      (j : String) (s : Status) (r : Tip)
      → is_pending_charge j r ≡ true
      → Keeps r (record r { status = s })
  status-Keeps j s r e = record {
    amount = refl;
    currency = refl;
    source_type = refl;
    created_at = refl;
    money = λ x. ground (arith, e, x);
    overlay = λ _. (refl, refl);
    name = λ x. x;
    message = λ x. x;
  }

  update_status-KeepsRow :
      (j : String) (s : Status) (db : Db)
      → KeepsRow (find id db.tips) (find id (update_status j s db).tips)
  unfolding update_status
  update_status-KeepsRow j s db =
      update-KeepsRow (is_pending_charge j) (λ r. record r { status = s }) db.tips (λ r. refl)
        (status-Keeps j s)

  pub apply-KeepsRow : (op : Op) (db : Db) → KeepsRow (find id db.tips) (find id (apply op db).tips)
  unfolding apply upsert_pending record_successful mark_pushed purge_old set_last_scan_at
  apply-KeepsRow (upsert j a c n m s t) db = insert-KeepsRow (pending_row j a c n m s t) db.tips
  apply-KeepsRow (paid j a c n m s t) db =
      let rows = insert_or_ignore (pending_row j a c n m s t) db.tips in
      KeepsRow-trans (find id db.tips) (find id rows) _
        (insert-KeepsRow (pending_row j a c n m s t) db.tips)
        (update-KeepsRow (is_unpaid j) (set_paid t) rows (λ r. refl) (pay-Keeps j t))
  apply-KeepsRow (push j now) db =
      let n = max_seq db.tips + 1 in
      update-KeepsRow (is_unpushed j) (set_pushed now n) db.tips (λ r. refl) (push-Keeps j now n)
  apply-KeepsRow (fail j) db = update_status-KeepsRow j failed db
  apply-KeepsRow (expire j) db = update_status-KeepsRow j expired db
  apply-KeepsRow (purge t) db =
      update-KeepsRow (is_purged_by t) set_purged db.tips (λ r. refl)
        (λ r e. record {
          amount = refl;
          currency = refl;
          source_type = refl;
          created_at = refl;
          money = λ _. (refl, refl);
          overlay = λ _. (refl, refl);
          name = λ _. refl;
          message = λ _. refl;
        })
  apply-KeepsRow (scan t) db = KeepsRow-refl (find id db.tips)

-- Whatever calls follow, the row of a charge is still there, with its amount, currency, source and
-- time of creation; if it was successful its status and its time of payment are the same, if it was
-- pushed its time of push and its sequence number are the same, and if its name or its message was
-- blank it is still blank.
pub run-KeepsRow :
    (id : String) (ops : List Op) (db : Db) → KeepsRow (find id db.tips) (find id (run ops db).tips)
unfolding run
run-KeepsRow id [] db = KeepsRow-refl (find id db.tips)
run-KeepsRow id (op ∷ ops) db =
    KeepsRow-trans (find id db.tips) (find id (apply op db).tips)
      (find id (run ops (apply op db)).tips) (apply-KeepsRow id op db)
      (run-KeepsRow id ops (apply op db))
