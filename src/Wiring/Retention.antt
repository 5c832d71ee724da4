-- ===== src/Wiring/Retention.antt =====
-- main.py, core/db/operations.py: what a turn of the purge leaves of personal data.
use selfhost_tip_overlay.Prelude.{
  ℕ, ◌-◌, ◌*◌, ◌≤◌, String, ◌≡◌, refl, ◌∙◌, Bool, true, Option, none, some, List, arith,
  if◌then◌else◌,
}
use selfhost_tip_overlay.Db.Schema.{Tip, Db, find}
use selfhost_tip_overlay.Db.Operations.{set_purged}
use selfhost_tip_overlay.Db.Valid.{IsValid}
use mathlib.Core.Path.{subst}
use selfhost_tip_overlay.Db.Trace.{Op, run}
use selfhost_tip_overlay.Db.Keeps.{KeepsRow, run-KeepsRow}
use selfhost_tip_overlay.Db.Purge.{is_old, find-purge_old}
use selfhost_tip_overlay.Reconciliation.{minus_time}
use selfhost_tip_overlay.Wiring.{day, purge_turn}

-- A row whose time is over: paid, or made and left pending, more than so many days ago.
abbrev pub expires : ℕ → ℕ → Tip → Bool
expires days now r = is_old (now - days * day) r

abbrev pub retained : ℕ → ℕ → Tip → Tip
retained days now r = if expires days now r then set_purged r else r

threshold :
    (days now : ℕ) → days * day ≤ now → minus_time now (days * day) ≡ some (now - days * day)
threshold days now h = ground (arith, h)

find-purge_turn :
    (days now : ℕ) (id : String) (db : Db) (r : Tip)
    → IsValid db
    → days * day ≤ now
    → find id db.tips ≡ some r
    → find id (purge_turn days now db).tips ≡ some (retained days now r)
unfolding purge_turn
find-purge_turn days now id db r valid long e =
    rw (purge_turn, threshold days now long) (find-purge_old id (now - days * day) db r valid e)

-- A row of the charge without personal data.
abbrev pub IsBlank : Option Tip → Type 0
IsBlank o = (r : Tip) × (o ≡ some r) × (r.supporter_name ≡ none) × (r.message ≡ none)

KeepsRow-IsBlank :
    (r : Tip) (o : Option Tip)
    → r.supporter_name ≡ none
    → r.message ≡ none
    → KeepsRow (some r) o
    → IsBlank o
KeepsRow-IsBlank r o n m (r', e, keeps) = (r', e, keeps.name n, keeps.message m)

-- Once a turn of the purge has run, in a well-formed database and when so many days have passed since
-- the first date, a charge that was paid, or made and left pending, more than that number of days
-- before has neither a name nor a message, and has none after any calls of the database that
-- follow, a second delivery of its payment among them.
pub purge_turn-IsBlank :
    (days now : ℕ) (id : String) (db : Db) (r : Tip) (ops : List Op)
    → IsValid db
    → days * day ≤ now
    → find id db.tips ≡ some r
    → expires days now r ≡ true
    → IsBlank (find id (run ops (purge_turn days now db)).tips)
purge_turn-IsBlank days now id db r ops valid long e old =
    let turned = purge_turn days now db in
    let blank : find id turned.tips ≡ some (set_purged r) =
      find-purge_turn days now id db r valid long e ∙ rw old refl in
    KeepsRow-IsBlank (set_purged r) (find id (run ops turned).tips) refl refl
      (subst (λ o. KeepsRow o (find id (run ops turned).tips)) blank (run-KeepsRow id ops turned))
