-- ===== src/Db/Push.antt =====
-- core/db/operations.py: `mark_pushed`, from the charge's row.
use selfhost_tip_overlay.Prelude.{
  ℕ, ◌+◌, String, ◌≡◌, refl, ap, inl, inr, Bool, true, false, Option, none, some, arith, eq_iff,
  is_some, count, if◌then◌else◌,
}
use selfhost_tip_overlay.Db.Schema.{Tip, Db, find, max_seq}
use selfhost_tip_overlay.Db.Operations.{mark_pushed, is_unpushed, set_pushed}
use selfhost_tip_overlay.Db.Count.{count-eq-hits, update_none}
use selfhost_tip_overlay.Db.Find.{find-update_self, find-cases}
use selfhost_tip_overlay.Db.Valid.{IsValid}

abbrev pub is_pushed_row : Option Tip → Bool
is_pushed_row none = false
is_pushed_row (some r) = is_some r.pushed_at

-- Whether the charge has been pushed.
abbrev pub is_pushed : String → Db → Bool
is_pushed id db = is_pushed_row (find id db.tips)

-- What `mark_pushed` should answer, from the charge's row and the largest number so far.
abbrev pub allocated : ℕ → Option Tip → Option ℕ
allocated top none = none
allocated top (some r) = if is_some r.pushed_at then none else some (top + 1)

module _ (id : String) (now : ℕ) where
  -- In a well-formed database the answer is one more than the largest number in the table where the
  -- charge has a row that is not pushed, and None where it has none.
  pub mark_pushed-eq-allocated :
      (db : Db)
      → IsValid db
      → (mark_pushed id now db).0 ≡ allocated (max_seq db.tips) (find id db.tips)
  unfolding mark_pushed
  mark_pushed-eq-allocated db h =
      rw (count-eq-hits id (is_unpushed id) (λ r e. ground arith) db.tips h)
        (elim (find-cases id db.tips) [
          | inl e ↦ rw e
          | inr (r, e, i) ↦ rw e (ground (arith, i, eq_iff r.charge_id id))
        ])

  -- The answer is None exactly where nothing is written.
  pub mark_pushed-none :
      (db : Db) → (mark_pushed id now db).0 ≡ none → mark_pushed id now db ≡ (none, db)
  unfolding mark_pushed
  mark_pushed-none db e =
      let zero_rows : count (is_unpushed id) db.tips ≡ 0 = ground (arith, e) in
      λ k. (
        e k,
        record db {
          tips =
              update_none (is_unpushed id) (set_pushed now (max_seq db.tips + 1)) db.tips zero_rows
                k;
        },
      )

  pub mark_pushed-is_pushed :
      (db : Db) (n : ℕ)
      → IsValid db
      → (mark_pushed id now db).0 ≡ some n
      → is_pushed id (mark_pushed id now db).1 ≡ true
  mark_pushed-is_pushed db n h e = elim (find-cases id db.tips) [
    | inl x ↦ cc (mark_pushed-eq-allocated db h, e, ap (allocated (max_seq db.tips)) x)
    | inr (r, x, i) ↦
        unfold mark_pushed in
        rw
          (find-update_self id (is_unpushed id) (set_pushed now (max_seq db.tips + 1)) db.tips r
            (λ r. refl) x)
          (ground (arith, i, eq_iff r.charge_id id))
  ]
