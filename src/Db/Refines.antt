-- ===== src/Db/Refines.antt =====
-- core/db/operations.py: the calls as steps of the ledger.
use selfhost_tip_overlay.Prelude.{
  ℕ, suc, ◌+◌, ◌<◌, String, ◌≡◌, refl, ap, sym, ◌∙◌, Bool, Option, none, some, List, [], ◌∷◌, arith,
  eq_iff, str_eq, str_eq_refl, str-cases, zero, Bool-cases, inl, inr, count, if◌then◌else◌,
}
use selfhost_tip_overlay.Prelude.Int.{ℤ}
use mathlib.Core.Option
use selfhost_tip_overlay.Db.Schema.{Status, failed, expired, Tip, Db, update_where, find, max_seq}
use selfhost_tip_overlay.Db.Operations.{
  pending_row, upsert_pending, record_successful, mark_pushed, is_unpushed, set_pushed,
  update_status, is_pending_charge, purge_old, is_purged_by, set_purged, set_last_scan_at,
}
use selfhost_tip_overlay.Db.Valid.{IsValid, RowOk, find-RowOk}
use selfhost_tip_overlay.Db.Count.{count-eq-hits}
use selfhost_tip_overlay.Db.Find.{find-insert_or_ignore, find-update_where, find-cases}
use selfhost_tip_overlay.Db.Money.{settled, find-record_successful}
use selfhost_tip_overlay.Db.Trace.{
  Op, upsert, paid, push, fail, expire, purge, scan, apply, run, apply-IsValid,
}
use selfhost_tip_overlay.Db.Sequence.{max_seq-update, max_seq-insert, max_seq-record_successful}
use selfhost_tip_overlay.Db.Ledger.{
  Account, Ledger, open_account, settle, close, is_waiting, number_with, on_account, give_number,
  ledger_step, ledger_run,
}

abbrev pub account_of : Tip → Account
account_of r = record { status = r.status; amount = r.amount; number = r.event_seq }

-- The ledger that a database stands for.
abbrev pub ledger : Db → Ledger
ledger db = record {
  account = λ id. Option.map account_of (find id db.tips);
  top = max_seq db.tips;
}

-- Ledgers are equal where each account and the largest number are.
same_ledger :
    (l l' : Ledger) → ((j : String) → l.account j ≡ l'.account j) → l.top ≡ l'.top → l ≡ l'
same_ledger l l' a t = λ k. record { account = λ j. a j k; top = t k }

-- An UPDATE, account by account.
account-update :
    (j : String) (p : Tip → Bool) (f : Tip → Tip) (rows : List Tip)
    (g : Option Account → Option Account)
    → ((r : Tip) → (f r).charge_id ≡ r.charge_id)
    → g none ≡ none
    → ((r : Tip)
        → find j rows ≡ some r
        → r.charge_id ≡ j
        → some (account_of (if p r then f r else r)) ≡ g (some (account_of r)))
    → Option.map account_of (find j (update_where p f rows))
      ≡ g (Option.map account_of (find j rows))
account-update j p f rows g keep n s =
    rw (find-update_where j p f rows keep)
      (elim (find-cases j rows) [ inl e ↦ rw e (sym n) | inr (r, e, i) ↦ rw e (s r e i) ])

upsert-ledger :
    (id : String) (a : ℤ) (c n m s : String) (t : ℕ) (db : Db)
    → ledger (upsert_pending id a c n m s t db) ≡ on_account id (open_account a) (ledger db)
unfolding upsert_pending
upsert-ledger id a c n m s t db =
    let row = pending_row id a c n m s t in
    same_ledger (ledger (upsert_pending id a c n m s t db))
      (on_account id (open_account a) (ledger db))
      (λ j. rw (find-insert_or_ignore j row db.tips) (elim (str-cases id j) [
        | inl e ↦
            rw (← e, str_eq_refl id)
              (elim (find-cases id db.tips) [
                | inl absent ↦ rw absent refl
                | inr (r, found, i) ↦ rw found refl
              ])
        | inr e ↦ rw e refl
      ]))
      (max_seq-insert row db.tips refl)

settled-account :
    (t : ℕ) (a : ℤ) (r : Tip) → some (account_of (settled t r)) ≡ settle a (some (account_of r))
settled-account t a r = ground arith

paid-ledger :
    (id : String) (a : ℤ) (c n m s : String) (t : ℕ) (db : Db)
    → ledger (record_successful id a c n m s t db).1 ≡ on_account id (settle a) (ledger db)
paid-ledger id a c n m s t db =
    let row = pending_row id a c n m s t in
    same_ledger (ledger (record_successful id a c n m s t db).1)
      (on_account id (settle a) (ledger db))
      (λ j. rw (find-record_successful id a c n m s t j db) (elim (str-cases id j) [
        | inl e ↦
            rw (← e, str_eq_refl id)
              (elim (find-cases id db.tips) [
                | inl absent ↦ rw absent refl
                | inr (r, found, i) ↦ rw found (settled-account t a r)
              ])
        | inr e ↦ rw e refl
      ]))
      (max_seq-record_successful id a c n m s t db)

close_row :
    (id j : String) (status : Status) (r : Tip)
    → r.charge_id ≡ j
    → some (account_of (if is_pending_charge id r then record r { status = status } else r))
      ≡ (if str_eq id j then close status (some (account_of r)) else some (account_of r))
close_row id j status r i = ground (arith, i, eq_iff r.charge_id id, eq_iff id j)

update_status-ledger :
    (id : String) (status : Status) (db : Db)
    → ledger (update_status id status db) ≡ on_account id (close status) (ledger db)
unfolding update_status
update_status-ledger id status db =
    same_ledger (ledger (update_status id status db)) (on_account id (close status) (ledger db))
      (λ j.
        account-update j (is_pending_charge id) (λ r. record r { status = status }) db.tips
          (λ x. if str_eq id j then close status x else x) (λ r. refl) (ground arith)
          (λ r e i. close_row id j status r i))
      (max_seq-update (is_pending_charge id) (λ r. record r { status = status }) db.tips
        (λ r. refl))

purged_row :
    (t : ℕ) (r : Tip)
    → some (account_of (if is_purged_by t r then set_purged r else r)) ≡ some (account_of r)
purged_row t r = elim (Bool-cases (is_purged_by t r)) [ inl y ↦ rw y refl | inr x ↦ rw x refl ]

purge-ledger : (t : ℕ) (db : Db) → ledger (purge_old t db).1 ≡ ledger db
unfolding purge_old
purge-ledger t db =
    same_ledger (ledger (purge_old t db).1) (ledger db)
      (λ j.
        account-update j (is_purged_by t) set_purged db.tips (λ x. x) (λ r. refl) refl
          (λ r e i. purged_row t r))
      (max_seq-update (is_purged_by t) set_purged db.tips (λ r. refl))

max_seq-push :
    (id : String) (now n : ℕ) (rows : List Tip)
    → max_seq rows < n
    → max_seq (update_where (is_unpushed id) (set_pushed now n) rows)
      ≡ elim (count (is_unpushed id) rows) [ zero ↦ max_seq rows | suc _ ↦ n ]
unfolding max_seq update_where
max_seq-push id now n [] h = refl
max_seq-push id now n (r ∷ rows) h = ground (arith, max_seq-push id now n rows)

push_row :
    (id j : String) (now n : ℕ) (r : Tip)
    → RowOk r
    → r.charge_id ≡ j
    → some (account_of (if is_unpushed id r then set_pushed now n r else r))
      ≡ (if str_eq id j then number_with n (some (account_of r)) else some (account_of r))
push_row id j now n r ok i = ground (arith, ok.pushed, i, eq_iff r.charge_id id, eq_iff id j)

-- A row of the charge is counted just where its account waits for a number.
waiting_hits :
    (id : String) (rows : List Tip) (x y : ℕ)
    → IsValid (record { tips = rows; recon_state = none })
    → elim (count (is_unpushed id) rows) [ zero ↦ x | suc _ ↦ y ]
      ≡ (if is_waiting (Option.map account_of (find id rows)) then y else x)
waiting_hits id rows x y valid =
    rw (count-eq-hits id (is_unpushed id) (λ r e. ground arith) rows valid)
      (elim (find-cases id rows) [
        | inl e ↦ rw e refl
        | inr (r, e, i) ↦
            let ok = find-RowOk id rows r valid e in
            rw e (ground (arith, ok.pushed, i, eq_iff r.charge_id id))
      ])

push-ledger :
    (id : String) (now : ℕ) (db : Db)
    → IsValid db
    → ledger (mark_pushed id now db).1 ≡ give_number id (ledger db)
unfolding mark_pushed
push-ledger id now db valid =
    let n = max_seq db.tips + 1 in
    same_ledger (ledger (mark_pushed id now db).1) (give_number id (ledger db))
      (λ j.
        account-update j (is_unpushed id) (set_pushed now n) db.tips
          (λ x. if str_eq id j then number_with n x else x) (λ r. refl) (ground arith)
          (λ r e i. push_row id j now n r (find-RowOk j db.tips r valid e) i))
      (max_seq-push id now n db.tips (omega arith)
        ∙ waiting_hits id db.tips (max_seq db.tips) n valid)

apply-ledger : (op : Op) (db : Db) → IsValid db → ledger (apply op db) ≡ ledger_step op (ledger db)
unfolding apply ledger_step set_last_scan_at
apply-ledger (upsert id a c n m s t) db h = upsert-ledger id a c n m s t db
apply-ledger (paid id a c n m s t) db h = paid-ledger id a c n m s t db
apply-ledger (push id now) db h = push-ledger id now db h
apply-ledger (fail id) db h = update_status-ledger id failed db
apply-ledger (expire id) db h = update_status-ledger id expired db
apply-ledger (purge t) db h = purge-ledger t db
apply-ledger (scan t) db h = refl

-- From a well-formed database, any sequence of calls does to the accounts of the charges, their
-- status, amount and number, and to the largest number what the abstract ledger does with the same
-- calls: the order of the rows, the times, the personal data and the cursor of the scan have no
-- influence on it.
pub run-ledger :
    (ops : List Op) (db : Db) → IsValid db → ledger (run ops db) ≡ ledger_run ops (ledger db)
unfolding run ledger_run
run-ledger [] db h = refl
run-ledger (op ∷ ops) db h =
    run-ledger ops (apply op db) (apply-IsValid op db h)
    ∙ ap (ledger_run ops) (apply-ledger op db h)
