-- ===== src/Db/Sequence.antt =====
-- core/db/operations.py: the numbers that `mark_pushed` hands out over a sequence of calls.
use selfhost_tip_overlay.Prelude.{
  ℕ, ◌+◌, ◌≤◌, ◌<◌, String, ◌≡◌, refl, sym, ◌∙◌, inl, inr, Bool, true, false, Option, none, some,
  List, [], ◌∷◌, arith, str_eq, str_eq_refl, str-cases, count, Option-cases, if◌then◌else◌,
}
use native.Mathlib.Nat.{le_trans}
use selfhost_tip_overlay.Prelude.Int.{ℤ}
use selfhost_tip_overlay.Db.Schema.{
  failed, expired, Tip, Db, insert_or_ignore, update_where, find, max_seq,
}
use selfhost_tip_overlay.Db.Operations.{
  pending_row, record_successful, is_unpaid, set_paid, upsert_pending, mark_pushed, is_unpushed,
  set_pushed, update_status, is_pending_charge, purge_old, is_purged_by, set_purged,
  set_last_scan_at,
}
use selfhost_tip_overlay.Db.Valid.{IsValid}
use selfhost_tip_overlay.Db.Keeps.{KeepsRow, apply-KeepsRow}
use selfhost_tip_overlay.Db.Push.{
  is_pushed, is_pushed_row, allocated, mark_pushed-eq-allocated, mark_pushed-is_pushed,
}
use selfhost_tip_overlay.Db.Trace.{
  Op, upsert, paid, push, fail, expire, purge, scan, apply, run, apply-IsValid, mark_pushed-IsValid,
}

pub max_seq-update :
    (p : Tip → Bool) (f : Tip → Tip) (rows : List Tip)
    → ((r : Tip) → (f r).event_seq ≡ r.event_seq)
    → max_seq (update_where p f rows) ≡ max_seq rows
unfolding max_seq update_where
max_seq-update p f [] same = refl
max_seq-update p f (r ∷ rows) same = ground (arith, same r, max_seq-update p f rows same)

pub max_seq-insert :
    (new : Tip) (rows : List Tip)
    → new.event_seq ≡ none
    → max_seq (insert_or_ignore new rows) ≡ max_seq rows
unfolding max_seq insert_or_ignore
max_seq-insert new [] e = ground (arith, e)
max_seq-insert new (r ∷ rows) e = ground (arith, max_seq-insert new rows e)

max_seq-mark :
    (id : String) (now n : ℕ) (rows : List Tip)
    → max_seq rows ≤ n
    → max_seq rows ≤ max_seq (update_where (is_unpushed id) (set_pushed now n) rows)
unfolding max_seq update_where
max_seq-mark id now n [] h = omega arith
max_seq-mark id now n (r ∷ rows) h = ground (arith, max_seq-mark id now n rows)

max_seq-mark_new :
    (id : String) (now n : ℕ) (rows : List Tip)
    → 0 < count (is_unpushed id) rows
    → n ≤ max_seq (update_where (is_unpushed id) (set_pushed now n) rows)
unfolding max_seq update_where
max_seq-mark_new id now n [] h = absurd (omega arith)
max_seq-mark_new id now n (r ∷ rows) h = ground (arith, max_seq-mark_new id now n rows)

-- A number that was handed out is counted by the next subquery.
pub max_seq-mark_pushed :
    (id : String) (now n : ℕ) (db : Db)
    → (mark_pushed id now db).0 ≡ some n
    → (max_seq db.tips < n) × (n ≤ max_seq (mark_pushed id now db).1.tips)
unfolding mark_pushed
max_seq-mark_pushed id now n db e = ground (arith, e, max_seq-mark_new id now n db.tips)

-- Recording money allocates no number.
pub max_seq-record_successful :
    (id : String) (a : ℤ) (c n m s : String) (t : ℕ) (db : Db)
    → max_seq (record_successful id a c n m s t db).1.tips ≡ max_seq db.tips
unfolding record_successful
max_seq-record_successful id a c n m s t db =
    let row = pending_row id a c n m s t in
    max_seq-update (is_unpaid id) (set_paid t) (insert_or_ignore row db.tips) (λ r. refl)
    ∙ max_seq-insert row db.tips refl

pub max_seq-apply : (op : Op) (db : Db) → max_seq db.tips ≤ max_seq (apply op db).tips
unfolding apply upsert_pending record_successful mark_pushed update_status purge_old
    set_last_scan_at
max_seq-apply (upsert id a c n m s t) db =
    omega (arith, max_seq-insert (pending_row id a c n m s t) db.tips refl)
max_seq-apply (paid id a c n m s t) db =
    unfold record_successful in omega (arith, max_seq-record_successful id a c n m s t db)
max_seq-apply (push id now) db = max_seq-mark id now (max_seq db.tips + 1) db.tips (omega arith)
max_seq-apply (fail id) db = omega (
  arith,
  max_seq-update (is_pending_charge id) (λ r. record r { status = failed }) db.tips (λ r. refl),
)
max_seq-apply (expire id) db = omega (
  arith,
  max_seq-update (is_pending_charge id) (λ r. record r { status = expired }) db.tips (λ r. refl),
)
max_seq-apply (purge t) db =
    omega (arith, max_seq-update (is_purged_by t) set_purged db.tips (λ r. refl))
max_seq-apply (scan t) db = omega arith

-- What a call answers to its caller, where it is a `mark_pushed` that succeeds.
abbrev pub announce : String → Option ℕ → List (String × ℕ) → List (String × ℕ)
announce id none rest = rest
announce id (some n) rest = (id, n) ∷ rest

abbrev pub handed : Op → Db → List (String × ℕ) → List (String × ℕ)
handed (push id now) db rest = announce id (mark_pushed id now db).0 rest
handed (upsert _ _ _ _ _ _ _) db rest = rest
handed (paid _ _ _ _ _ _ _) db rest = rest
handed (fail _) db rest = rest
handed (expire _) db rest = rest
handed (purge _) db rest = rest
handed (scan _) db rest = rest

-- The charges and numbers for which a run of calls may broadcast, in order.
unfoldable pub pushes : List Op → Db → List (String × ℕ)
unfolding apply
pushes [] db = []
pushes (op ∷ ops) db = handed op db (pushes ops (apply op db))

abbrev pub Ascends : ℕ → List (String × ℕ) → Type 0
Ascends low [] = Unit
Ascends low ((id, n) ∷ rest) = (low < n) × Ascends n rest

Ascends-weaken : (a b : ℕ) (l : List (String × ℕ)) → a ≤ b → Ascends b l → Ascends a l
Ascends-weaken a b [] h k = tt
Ascends-weaken a b ((id, n) ∷ l) h k = (omega arith, k.1)

-- In any run of calls, in any order, the sequence numbers that `mark_pushed` hands out rise
-- strictly, from above the largest number of the table at the start.
pub pushes-Ascends : (ops : List Op) (db : Db) → Ascends (max_seq db.tips) (pushes ops db)
unfolding pushes
pushes-Ascends [] db = tt
pushes-Ascends (push id now ∷ ops) db =
    let db' = (mark_pushed id now db).1 in
    elim (Option-cases (mark_pushed id now db).0) [
      | inl e ↦ rw e (
          Ascends-weaken (max_seq db.tips) (max_seq db'.tips) (pushes ops db')
            (max_seq-apply (push id now) db) (pushes-Ascends ops db'))
      | inr (n, e) ↦ rw e (
        (max_seq-mark_pushed id now n db e).0,
        Ascends-weaken n (max_seq db'.tips) (pushes ops db') (max_seq-mark_pushed id now n db e).1
            (pushes-Ascends ops db'),
      )
    ]
pushes-Ascends (op ∷ ops) db =
    Ascends-weaken (max_seq db.tips) (max_seq (apply op db).tips) (pushes ops (apply op db))
      (max_seq-apply op db) (pushes-Ascends ops (apply op db))

abbrev pub is_of : String → String × ℕ → Bool
is_of id e = str_eq e.0 id

-- How often a charge may still be pushed.
abbrev pub left : String → Db → ℕ
left id db = if is_pushed id db then 0 else 1

left-keeps : (a b : Option Tip) → KeepsRow a b → is_pushed_row a ≡ true → is_pushed_row b ≡ true
left-keeps none b h e = cc
left-keeps (some r) b (r', q, k) e = rw q (ground (arith, k.overlay e, e))

left-le :
    (id : String) (db db' : Db)
    → (is_pushed id db ≡ true → is_pushed id db' ≡ true)
    → left id db' ≤ left id db
left-le id db db' h = ground (arith, h)

left-apply : (id : String) (op : Op) (db : Db) → left id (apply op db) ≤ left id db
left-apply id op db =
    left-le id db (apply op db)
      (left-keeps (find id db.tips) (find id (apply op db).tips) (apply-KeepsRow id op db))

unpushed_row : (top n : ℕ) (o : Option Tip) → allocated top o ≡ some n → is_pushed_row o ≡ false
unpushed_row top n none e = cc
unpushed_row top n (some r) e = ground arith

was_unpushed :
    (id : String) (now n : ℕ) (db : Db)
    → IsValid db
    → (mark_pushed id now db).0 ≡ some n
    → is_pushed id db ≡ false
was_unpushed id now n db h e =
    unpushed_row (max_seq db.tips) n (find id db.tips)
      (sym (mark_pushed-eq-allocated id now db h) ∙ e)

-- An answer of `mark_pushed` uses up the one push of its charge.
left-push :
    (id j : String) (now n : ℕ) (db : Db)
    → IsValid db
    → (mark_pushed j now db).0 ≡ some n
    → (if str_eq j id then 1 else 0) + left id (mark_pushed j now db).1 ≤ left id db
unfolding apply
left-push id j now n db h e = elim (str-cases j id) [
  | inl q ↦
      rw (← q, str_eq_refl j, mark_pushed-is_pushed j now db n h e, was_unpushed j now n db h e)
        (omega arith)
  | inr q ↦ rw q (omega (arith, left-apply id (push j now) db))
]

-- What a charge is handed, and what it may still be handed.
pub pushes_left :
    (id : String) (ops : List Op) (db : Db)
    → IsValid db
    → count (is_of id) (pushes ops db) + left id (run ops db) ≤ left id db
unfolding pushes run
pushes_left id [] db h = omega arith
pushes_left id (push j now ∷ ops) db h =
    let db' = (mark_pushed j now db).1 in
    let rest = pushes_left id ops db' (mark_pushed-IsValid j now db h) in
    elim (Option-cases (mark_pushed j now db).0) [
      | inl e ↦ rw e (le_trans rest (left-apply id (push j now) db))
      | inr (n, e) ↦ rw e (omega (arith, rest, left-push id j now n db h e))
    ]
pushes_left id (op ∷ ops) db h =
    le_trans (pushes_left id ops (apply op db) (apply-IsValid op db h)) (left-apply id op db)

-- In any run of calls from a well-formed database, in any order, a charge is handed a sequence
-- number at most once, and never if it had been pushed before.
pub pushes_once :
    (id : String) (ops : List Op) (db : Db)
    → IsValid db
    → count (is_of id) (pushes ops db) ≤ left id db
pushes_once id ops db h = omega (arith, pushes_left id ops db h)
