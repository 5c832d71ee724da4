-- ===== src/Db/Find.antt =====
-- core/db/operations.py: each statement as a change of the map from charge ids to rows.
use selfhost_tip_overlay.Prelude.{
  String, ◌≡◌, refl, Bool, true, false, none, some, List, [], ◌∷◌, arith, eq_iff, str_eq,
  or_default, ◌⊎◌, inl, inr, Option-cases, if◌then◌else◌,
}
use mathlib.Core.Option
use selfhost_tip_overlay.Db.Schema.{Tip, insert_or_ignore, update_where, find}

pub find-insert_or_ignore :
    (j : String) (new : Tip) (rows : List Tip)
    → find j (insert_or_ignore new rows)
      ≡ (if str_eq new.charge_id j then some (or_default (find j rows) new) else find j rows)
unfolding find insert_or_ignore
find-insert_or_ignore j new [] = ground arith
find-insert_or_ignore j new (r ∷ rows) = ground (
  arith,
  eq_iff r.charge_id new.charge_id,
  eq_iff r.charge_id j,
  eq_iff new.charge_id j,
  find-insert_or_ignore j new rows,
)

pub find-update_where :
    (j : String) (p : Tip → Bool) (f : Tip → Tip) (rows : List Tip)
    → ((r : Tip) → (f r).charge_id ≡ r.charge_id)
    → find j (update_where p f rows) ≡ Option.map (λ r. if p r then f r else r) (find j rows)
unfolding find update_where
find-update_where j p f [] keep = refl
find-update_where j p f (r ∷ rows) keep = ground (arith, keep r, find-update_where j p f rows keep)

-- What `find` returns has the id that was asked for.
pub charge_id-find :
    (j : String) (rows : List Tip) (r : Tip) → find j rows ≡ some r → r.charge_id ≡ j
unfolding find
charge_id-find j [] r h = cc
charge_id-find j (x ∷ rows) r h = ground (arith, eq_iff x.charge_id j, charge_id-find j rows r)

-- `find` fails, or it returns a row with the id that was asked for.
pub find-cases :
    (j : String) (rows : List Tip)
    → (find j rows ≡ none) ⊎ ((r : Tip) × (find j rows ≡ some r) × (r.charge_id ≡ j))
find-cases j rows = elim (Option-cases (find j rows)) [
  | inl e ↦ inl e
  | inr (r, e) ↦ inr (r, e, charge_id-find j rows r e)
]

-- An UPDATE of one charge's row does not touch the row of another.
pub find-update_ne :
    (id j : String) (p : Tip → Bool) (f : Tip → Tip) (rows : List Tip)
    → ((r : Tip) → (f r).charge_id ≡ r.charge_id)
    → ((r : Tip) → p r ≡ true → str_eq r.charge_id id ≡ true)
    → str_eq id j ≡ false
    → find j (update_where p f rows) ≡ find j rows
find-update_ne id j p f rows keep only ne =
    rw (find-update_where j p f rows keep) (elim (find-cases j rows) [
      | inl e ↦ rw e
      | inr (r, e, i) ↦ rw e (ground (arith, only r, i, eq_iff r.charge_id id, eq_iff id j))
    ])

-- The row with that id, updated or not.
pub find-update_self :
    (id : String) (p : Tip → Bool) (f : Tip → Tip) (rows : List Tip) (r : Tip)
    → ((r : Tip) → (f r).charge_id ≡ r.charge_id)
    → find id rows ≡ some r
    → find id (update_where p f rows) ≡ some (if p r then f r else r)
find-update_self id p f rows r keep e = rw (find-update_where id p f rows keep, e)
