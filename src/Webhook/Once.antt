-- ===== src/Webhook/Once.antt =====
-- routes/webhook.py: broadcasts over any interleaving of the program's steps.
use selfhost_tip_overlay.Prelude.{
  ℕ, ◌+◌, ◌≤◌, String, ◌≡◌, refl, ap, Bool, Option, none, some, List, [], ◌∷◌, arith, str_eq, count,
  Option-cases, inl, inr, ◌∙◌,
}
use selfhost_tip_overlay.Contracts.{TipEvent, OverlayEvent}
use selfhost_tip_overlay.Db.Schema.{Db}
use selfhost_tip_overlay.Db.Operations.{mark_pushed}
use selfhost_tip_overlay.Db.Valid.{IsValid}
use selfhost_tip_overlay.Db.Trace.{Op, push, apply, run}
use selfhost_tip_overlay.Db.Sequence.{pushes, handed, announce, is_of, left, pushes_once}
use selfhost_tip_overlay.Webhook.{App, outcome, show, finish_push}
use selfhost_tip_overlay.Webhook.Actions.{Action, call, finish, evict, act, act_all}

-- The database calls of a sequence of steps.
abbrev pub ops : List Action → List Op
ops [] = []
ops (call op ∷ xs) = op ∷ ops xs
ops (finish e answer now ∷ xs) = push e.charge_id now ∷ ops xs
ops (evict id ∷ xs) = ops xs

abbrev pub is_for : String → OverlayEvent → Bool
is_for id e = str_eq e.charge_id id

pub show_db :
    (e : TipEvent) (r : Option TipEvent) (n : Option ℕ) (a : App) → (show e r n a).db ≡ a.db
unfolding show
show_db e none n a = refl
show_db e (some r) none a = refl
show_db e (some r) (some n) a = refl

-- A step broadcasts only what its `mark_pushed` has allocated.
show_sent :
    (id : String) (e : TipEvent) (r : Option TipEvent) (n : Option ℕ) (a : App)
    (l : List (String × ℕ))
    → count (is_for id) (show e r n a).sent + count (is_of id) l
      ≤ count (is_for id) a.sent + count (is_of id) (announce e.charge_id n l)
unfolding show
show_sent id e none none a l = omega arith
show_sent id e none (some n) a l = omega arith
show_sent id e (some r) none a l = omega arith
show_sent id e (some r) (some n) a l = omega arith

handed-le :
    (id : String) (op : Op) (db : Db) (l : List (String × ℕ))
    → count (is_of id) l ≤ count (is_of id) (handed op db l)
handed-le id (push j now) db l = elim (Option-cases (mark_pushed j now db).0) [
  | inl e ↦ rw e (omega arith)
  | inr (n, e) ↦ rw e (omega arith)
]
handed-le id _ db l = omega arith

pub sent-le-pushes :
    (id : String) (xs : List Action) (a : App)
    → count (is_for id) (act_all xs a).sent
      ≤ count (is_for id) a.sent + count (is_of id) (pushes (ops xs) a.db)
unfolding act_all pushes finish_push
sent-le-pushes id [] a = omega arith
sent-le-pushes id (call op ∷ xs) a =
    let next : App = record a { db = apply op a.db } in
    omega (arith, sent-le-pushes id xs next, handed-le id op a.db (pushes (ops xs) next.db))
sent-le-pushes id (finish e answer now ∷ xs) a =
    let m = mark_pushed e.charge_id now a.db in
    let r = outcome answer e in
    let marked : App = record a { db = m.1 } in
    let next : App = show e r m.0 marked in
    omega (
      arith,
      sent-le-pushes id xs next,
      show_sent id e r m.0 marked (pushes (ops xs) m.1),
      ap (λ db. count (is_of id) (pushes (ops xs) db)) (show_db e r m.0 marked),
    )
sent-le-pushes id (evict j ∷ xs) a = sent-le-pushes id xs (act (evict j) a)

-- From a well-formed database, whatever of these steps run, in whatever order: calls of the database,
-- pushes (`mark_pushed` with what follows it) and evictions of QR codes. They broadcast a charge at
-- most once more than before, and not at all if it had been pushed. A manual replay and a simulated
-- tip are not among these steps: they broadcast again.
pub sent_once :
    (id : String) (xs : List Action) (a : App)
    → IsValid a.db
    → count (is_for id) (act_all xs a).sent ≤ count (is_for id) a.sent + left id a.db
sent_once id xs a h = omega (arith, sent-le-pushes id xs a, pushes_once id (ops xs) a.db h)

-- The database after a sequence of steps is the database after its calls.
pub db-act_all : (xs : List Action) (a : App) → (act_all xs a).db ≡ run (ops xs) a.db
unfolding act_all run finish_push
db-act_all [] a = refl
db-act_all (call op ∷ xs) a = db-act_all xs (act (call op) a)
db-act_all (finish e answer now ∷ xs) a =
    let m = mark_pushed e.charge_id now a.db in
    let marked : App = record a { db = m.1 } in
    db-act_all xs (finish_push e answer now a)
    ∙ ap (run (ops xs)) (show_db e (outcome answer e) m.0 marked)
db-act_all (evict j ∷ xs) a = db-act_all xs (act (evict j) a)
