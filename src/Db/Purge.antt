-- ===== src/Db/Purge.antt =====
-- core/db/operations.py: `purge_old`, row by row.
use selfhost_tip_overlay.Prelude.{
  ℕ, String, ◌≡◌, refl, ap, ◌∙◌, Bool, true, false, ◌||◌, ◌&&◌, some, arith, if◌then◌else◌,
}
use selfhost_tip_overlay.Db.Schema.{
  Status, pending, successful, failed, expired, is_pending, Tip, Db, find, before,
}
use selfhost_tip_overlay.Db.Operations.{purge_old, is_purged_by, set_purged}
use selfhost_tip_overlay.Db.Find.{find-update_self}
use selfhost_tip_overlay.Db.Valid.{IsValid, RowOk, find-RowOk}

-- Paid before `t`, or created before `t` and never completed.
abbrev pub is_old : ℕ → Tip → Bool
is_old t r = before r.paid_at t || (is_pending r.status && before (some r.created_at) t)

abbrev pub purged : ℕ → Tip → Tip
purged t r = if is_old t r then set_purged r else r

purged_row :
    (t : ℕ) (r : Tip) → RowOk r → (if is_purged_by t r then set_purged r else r) ≡ purged t r
purged_row t r ok = ground (arith, ok.personal)

-- In a well-formed database the purge blanks the name and the message of a row exactly where the
-- row was paid before `t`, or was created before `t` and is still pending; nothing else of any row
-- changes.
pub find-purge_old :
    (id : String) (t : ℕ) (db : Db) (r : Tip)
    → IsValid db
    → find id db.tips ≡ some r
    → find id (purge_old t db).1.tips ≡ some (purged t r)
unfolding purge_old
find-purge_old id t db r h e =
    find-update_self id (is_purged_by t) set_purged db.tips r (λ r. refl) e
    ∙ ap some (purged_row t r (find-RowOk id db.tips r h e))

-- The terminal states that no payment leads to.
abbrev pub is_closed : Status → Bool
is_closed pending = false
is_closed successful = false
is_closed failed = true
is_closed expired = true

closed_row : (t : ℕ) (r : Tip) → is_closed r.status ≡ true → RowOk r → purged t r ≡ r
closed_row t r c ok = ground (arith, c, ok.paid)

-- In a well-formed database the row of a failed or expired charge keeps the supporter's name and
-- message through a purge with any threshold, however old it is.
pub purge_old_closed :
    (id : String) (t : ℕ) (db : Db) (r : Tip)
    → IsValid db
    → find id db.tips ≡ some r
    → is_closed r.status ≡ true
    → find id (purge_old t db).1.tips ≡ some r
purge_old_closed id t db r h e c =
    find-purge_old id t db r h e ∙ ap some (closed_row t r c (find-RowOk id db.tips r h e))
