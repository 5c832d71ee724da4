-- ===== src/Db/Valid.antt =====
-- core/db/operations.py: the well-formedness of the tips table, statement by statement.
use selfhost_tip_overlay.Prelude.{
  ℕ, ◌<◌, String, ◌≡◌, ◌≢◌, Bool, true, false, none, some, List, [], ◌∷◌, arith, eq_iff, str_eq,
  is_some, All, Bool-cases, inl, inr, if◌then◌else◌,
}
use mathlib.Core.Path.{subst}
use mathlib.Core.Option.{some-injective}
use selfhost_tip_overlay.Db.Schema.{
  is_successful, Tip, Db, insert_or_ignore, update_where, max_seq, find,
}
use selfhost_tip_overlay.Db.Operations.{is_unpushed, set_pushed}

-- A row has a sequence number just when it has been pushed, that number is positive, it has a time
-- of payment just when it is successful, and a name just when it has a message.
pub record RowOk (r : Tip) : Type 0 where
  pub pushed : is_some r.event_seq ≡ is_some r.pushed_at
  pub positive : r.event_seq ≢ some 0
  pub paid : is_successful r.status ≡ is_some r.paid_at
  pub personal : is_some r.supporter_name ≡ is_some r.message

-- Two rows are of different charges, and have different sequence numbers if both have one.
pub record Apart (r s : Tip) : Type 0 where
  pub ids : str_eq s.charge_id r.charge_id ≡ false
  pub seqs : (n : ℕ) → r.event_seq ≡ some n → s.event_seq ≢ some n

abbrev pub RowsValid : List Tip → Type 0
RowsValid [] = Unit
RowsValid (r ∷ rows) = RowOk r × All (Apart r) rows × RowsValid rows

abbrev pub IsValid : Db → Type 0
IsValid db = RowsValid db.tips

-- An INSERT of a row that has no sequence number.
module _ (new : Tip) (unnumbered : new.event_seq ≡ none) where
  Apart-insert :
      (r : Tip) (rows : List Tip)
      → str_eq r.charge_id new.charge_id ≡ false
      → All (Apart r) rows
      → All (Apart r) (insert_or_ignore new rows)
  unfolding insert_or_ignore
  Apart-insert r [] ne h = (
    record {
      ids = ground (arith, eq_iff r.charge_id new.charge_id, eq_iff new.charge_id r.charge_id);
      seqs = λ n e. cc;
    },
    tt,
  )
  Apart-insert r (s ∷ rows) ne h = elim (Bool-cases (str_eq s.charge_id new.charge_id)) [
    | inl e ↦ rw e h
    | inr e ↦ rw e (h.0, Apart-insert r rows ne h.1)
  ]

  pub RowsValid-insert :
      (rows : List Tip) → RowOk new → RowsValid rows → RowsValid (insert_or_ignore new rows)
  unfolding insert_or_ignore
  RowsValid-insert [] row h = (row, tt, tt)
  RowsValid-insert (r ∷ rows) row h = elim (Bool-cases (str_eq r.charge_id new.charge_id)) [
    | inl e ↦ rw e h
    | inr e ↦ rw e (h.0, Apart-insert r rows e h.1, RowsValid-insert rows row h.2)
  ]

-- An UPDATE that leaves the keys and the sequence numbers alone.
module _ (p : Tip → Bool) (f : Tip → Tip) (ids : (r : Tip) → (f r).charge_id ≡ r.charge_id)
    (seqs : (r : Tip) → (f r).event_seq ≡ r.event_seq) where
  abbrev change : Tip → Tip
  change r = if p r then f r else r

  change-Apart : (r s : Tip) → Apart r s → Apart (change r) (change s)
  change-Apart r s h = record {
    ids = ground (arith, h.ids, ids r, ids s);
    seqs = λ n e. ground (arith, h.seqs n, seqs r, seqs s);
  }

  Apart-update :
      (r : Tip) (rows : List Tip)
      → All (Apart r) rows
      → All (Apart (change r)) (update_where p f rows)
  unfolding update_where
  Apart-update r [] h = tt
  Apart-update r (s ∷ rows) h = (change-Apart r s h.0, Apart-update r rows h.1)

  pub RowsValid-update :
      (rows : List Tip)
      → ((r : Tip) → p r ≡ true → RowOk r → RowOk (f r))
      → RowsValid rows
      → RowsValid (update_where p f rows)
  unfolding update_where
  RowsValid-update [] keep h = tt
  RowsValid-update (r ∷ rows) keep h = (
    elim (Bool-cases (p r)) [ inl e ↦ rw e (keep r e h.0) | inr e ↦ rw e h.0 ],
    Apart-update r rows h.1,
    RowsValid-update rows keep h.2,
  )

-- The subquery's number is larger than every number in the table.
abbrev Below : ℕ → Tip → Type 0
Below n r = (m : ℕ) → r.event_seq ≡ some m → m < n

pub Below-max_seq : (n : ℕ) (rows : List Tip) → max_seq rows < n → All (Below n) rows
unfolding max_seq
Below-max_seq n [] h = tt
Below-max_seq n (r ∷ rows) h = (λ m e. ground (arith, e), Below-max_seq n rows (omega arith))

-- The UPDATE that allocates a new number to the unpushed row of one charge.
module _ (id : String) (now n : ℕ) where
  abbrev mark : Tip → Tip
  mark r = if is_unpushed id r then set_pushed now n r else r

  mark-Apart : (r s : Tip) → Below n r → Below n s → Apart r s → Apart (mark r) (mark s)
  mark-Apart r s br bs h = record {
    ids = ground (arith, h.ids);
    seqs = λ m e e'. ground (
      arith,
      e,
      e',
      h.seqs m,
      br m,
      bs m,
      h.ids,
      eq_iff r.charge_id id,
      eq_iff s.charge_id id,
      eq_iff s.charge_id r.charge_id,
    );
  }

  mark-All :
      (r : Tip) (rows : List Tip)
      → Below n r
      → All (Below n) rows
      → All (Apart r) rows
      → All (Apart (mark r)) (update_where (is_unpushed id) (set_pushed now n) rows)
  unfolding update_where
  mark-All r [] br b h = tt
  mark-All r (s ∷ rows) br b h = (mark-Apart r s br b.0 h.0, mark-All r rows br b.1 h.1)

  mark-RowOk : (r : Tip) → 0 < n → RowOk r → RowOk (mark r)
  mark-RowOk r h ok = record {
    pushed = ground (arith, ok.pushed);
    positive = λ e. ground (arith, e, ok.positive);
    paid = ground (arith, ok.paid);
    personal = ground (arith, ok.personal);
  }

  pub RowsValid-mark :
      (rows : List Tip)
      → 0 < n
      → All (Below n) rows
      → RowsValid rows
      → RowsValid (update_where (is_unpushed id) (set_pushed now n) rows)
  unfolding update_where
  RowsValid-mark [] pos b h = tt
  RowsValid-mark (r ∷ rows) pos b h =
      (mark-RowOk r pos h.0, mark-All r rows b.0 b.1 h.1, RowsValid-mark rows pos b.1 h.2)

pub find-RowOk :
    (id : String) (rows : List Tip) (r : Tip) → RowsValid rows → find id rows ≡ some r → RowOk r
unfolding find
find-RowOk id [] r h e = cc
find-RowOk id (x ∷ rows) r h e = elim (Bool-cases (str_eq x.charge_id id)) [
  | inl y ↦ subst RowOk (some-injective x r (ground (arith, y, e))) h.0
  | inr y ↦ find-RowOk id rows r h.2 (ground (arith, y, e))
]
