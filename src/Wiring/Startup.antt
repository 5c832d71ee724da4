-- ===== src/Wiring/Startup.antt =====
-- main.py: the scan that `lifespan` starts, on the state of a new process.
use selfhost_tip_overlay.Prelude.{ℕ, ◌≤◌, String, Option, none, some, List, arith, count}
use selfhost_tip_overlay.Db.Operations.{get_last_scan_at}
use selfhost_tip_overlay.Db.Schema.{Db}
use selfhost_tip_overlay.Db.Valid.{IsValid}
use selfhost_tip_overlay.Db.Sequence.{left}
use selfhost_tip_overlay.Payment.Json.{Json}
use selfhost_tip_overlay.Payment.Charges.{ChargeData}
use selfhost_tip_overlay.Webhook.{App, Pipeline}
use selfhost_tip_overlay.Webhook.Once.{is_for}
use selfhost_tip_overlay.Reconciliation.{lookback, scan, run, threshold_secs, set_old_threshold}
use selfhost_tip_overlay.Reconciliation.Complete.{scan_once}
use selfhost_tip_overlay.Wiring.{start_app, startup_scan}

module _ (pipeline : Pipeline) (repr : Json → String) (startup minutes : ℕ) (clock : ℕ → ℕ) where
  fetched_once :
      (id : String) (o : Option (List ChargeData)) (later : ℕ) (db : Db)
      → IsValid db
      → count
          (is_for id)
          (scan pipeline repr startup
            (threshold_secs (set_old_threshold minutes))
            clock
            o
            later
            (start_app db)).sent
        ≤ left id db
  unfolding start_app
  fetched_once id none later db h = unfold scan in omega arith
  fetched_once id (some cs) later db h = omega (
    arith,
    scan_once pipeline repr startup (threshold_secs (set_old_threshold minutes)) clock id cs later
        (start_app db) h,
  )

  since_once :
      (id : String) (o : Option ℕ) (fetch : ℕ → Option (List ChargeData)) (later : ℕ) (db : Db)
      → IsValid db
      → count
          (is_for id)
          (elim o as (λ o. App) [
            | none ↦ start_app db
            | some since ↦
                scan pipeline repr startup
                  (threshold_secs (set_old_threshold minutes))
                  clock
                  (fetch since)
                  later
                  (start_app db)
          ]).sent
        ≤ left id db
  since_once id none fetch later db h = unfold start_app in omega arith
  since_once id (some since) fetch later db h = fetched_once id (fetch since) later db h

  -- The scan of a start, on a well-formed database, with any threshold and whatever the gateway
  -- answers, an exception included, broadcasts a charge at most once, and none that had been pushed.
  pub startup_scan_once :
      (id : String) (fetch : ℕ → Option (List ChargeData)) (now later : ℕ) (db : Db)
      → IsValid db
      → count (is_for id) (startup_scan pipeline repr startup minutes clock fetch now later db).sent
        ≤ left id db
  unfolding startup_scan run
  startup_scan_once id fetch now later db h =
      since_once id (lookback (get_last_scan_at (start_app db).db) now) fetch later db h
