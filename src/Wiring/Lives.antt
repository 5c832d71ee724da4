-- ===== src/Wiring/Lives.antt =====
-- main.py: the program started again and again on one database.
use selfhost_tip_overlay.Prelude.{◌+◌, ◌≤◌, String, ◌≡◌, sym, List, [], ◌∷◌, ◌++◌, arith, count}
use mathlib.Core.Path.{subst}
use selfhost_tip_overlay.Contracts.{OverlayEvent}
use selfhost_tip_overlay.Db.Schema.{Db}
use selfhost_tip_overlay.Db.Valid.{IsValid}
use selfhost_tip_overlay.Db.Trace.{run-IsValid}
use selfhost_tip_overlay.Db.Sequence.{left, pushes_left}
use selfhost_tip_overlay.Webhook.Actions.{Action, act_all}
use selfhost_tip_overlay.Webhook.Once.{ops, is_for, sent-le-pushes, db-act_all}
use selfhost_tip_overlay.Wiring.{start_app}

-- The broadcasts of all processes, and the database at the end. A process may stop between any two
-- of its atomic steps.
unfoldable pub lives : List (List Action) → Db → List OverlayEvent × Db
unfolding act_all start_app
lives [] db = ([], db)
lives (steps ∷ rest) db =
    let a = act_all steps (start_app db) in
    let (later, last) = lives rest a.db in (later ++ a.sent, last)

count-append :
    (id : String) (xs ys : List OverlayEvent)
    → count (is_for id) (xs ++ ys) ≡ count (is_for id) xs + count (is_for id) ys
count-append id [] ys = omega arith
count-append id (x ∷ xs) ys = ground (arith, count-append id xs ys)

life_left :
    (id : String) (steps : List Action) (db : Db)
    → IsValid db
    → let a = act_all steps (start_app db) in
      (count (is_for id) a.sent + left id a.db ≤ left id db) × IsValid a.db
unfolding start_app
life_left id steps db h =
    let a = start_app db in
    (
      subst (λ (d : Db). count (is_for id) (act_all steps a).sent + left id d ≤ left id db)
          (sym (db-act_all steps a))
          (omega (arith, sent-le-pushes id steps a, pushes_left id (ops steps) db h)),
      rw db-act_all (run-IsValid (ops steps) db h),
    )

lives_left :
    (id : String) (processes : List (List Action)) (db : Db)
    → IsValid db
    → count (is_for id) (lives processes db).0 + left id (lives processes db).1 ≤ left id db
unfolding lives
lives_left id [] db h = omega arith
lives_left id (steps ∷ rest) db h =
    let a = act_all steps (start_app db) in
    let (once, valid) = life_left id steps db h in
    omega (arith, once, lives_left id rest a.db valid, count-append id (lives rest a.db).0 a.sent)

-- However often the program stops, between any two of its atomic steps, those of deliveries,
-- charges, scans and purges, and is started again on the same database, which was well-formed: all
-- its processes together broadcast a charge at most once, and not at all if it had been pushed.
pub lives_once :
    (id : String) (processes : List (List Action)) (db : Db)
    → IsValid db
    → count (is_for id) (lives processes db).0 ≤ left id db
lives_once id processes db h = omega (arith, lives_left id processes db h)
