-- ===== src/Db/Count.antt =====
-- core/db/operations.py: the row counts of statements that name one charge.
use selfhost_tip_overlay.Prelude.{
  ℕ, String, ◌≡◌, refl, Bool, true, false, Option, none, some, List, [], ◌∷◌, arith, eq_iff, str_eq,
  count, All, All-mono, Bool-cases, inl, inr, if◌then◌else◌,
}
use selfhost_tip_overlay.Db.Schema.{Tip, insert_or_ignore, update_where, find}
use selfhost_tip_overlay.Db.Valid.{Apart, RowsValid}

-- How many rows a statement with condition `p` changes, from the row of its charge.
abbrev pub hits : (Tip → Bool) → Option Tip → ℕ
hits p none = 0
hits p (some r) = if p r then 1 else 0

-- A condition that can hold only of rows of the charge `id`.
module _ (id : String) (p : Tip → Bool)
    (only : (r : Tip) → p r ≡ true → str_eq r.charge_id id ≡ true) where
  count_others :
      (rows : List Tip) → All (λ (s : Tip). str_eq s.charge_id id ≡ false) rows → count p rows ≡ 0
  count_others [] h = refl
  count_others (r ∷ rows) h = ground (arith, only r, h.0, count_others rows h.1)

  pub count-eq-hits : (rows : List Tip) → RowsValid rows → count p rows ≡ hits p (find id rows)
  unfolding find
  count-eq-hits [] h = refl
  count-eq-hits (r ∷ rows) h = elim (Bool-cases (str_eq r.charge_id id)) [
    | inl e ↦ rw e (
        ground (
          arith,
          count_others rows (
              All-mono (Apart r) (λ s. str_eq s.charge_id id ≡ false) rows
                (λ s a. ground (arith, a.ids, e, eq_iff r.charge_id id)) h.1),
        ))
    | inr e ↦ rw e (ground (arith, only r, e, count-eq-hits rows h.2))
  ]

-- A statement that counts no row changes no row.
pub update_none :
    (p : Tip → Bool) (f : Tip → Tip) (rows : List Tip)
    → count p rows ≡ 0
    → update_where p f rows ≡ rows
unfolding update_where
update_none p f [] h = refl
update_none p f (r ∷ rows) h = ground (arith, update_none p f rows)

-- An INSERT of a charge that has a row changes nothing.
pub insert_found :
    (new : Tip) (rows : List Tip) (r : Tip)
    → find new.charge_id rows ≡ some r
    → insert_or_ignore new rows ≡ rows
unfolding find insert_or_ignore
insert_found new [] r h = cc
insert_found new (x ∷ rows) r h = ground (arith, insert_found new rows r)
