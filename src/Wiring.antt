-- ===== src/Wiring.antt =====
-- main.py: the daily turn of the privacy purge; routes/live_status.py. Times are microseconds since
-- `datetime.min`.
pub mod Retention
pub mod Lives
pub mod Startup
mod Tests
use selfhost_tip_overlay.Prelude.{ℕ, ◌*◌, Bool, none, some, Option, List, [], String}
use selfhost_tip_overlay.Prelude.Int.{ℤ, pos, negsuc}
use selfhost_tip_overlay.Db.Schema.{Db}
use selfhost_tip_overlay.Webhook.{App, Pipeline}
use selfhost_tip_overlay.Payment.Charges.{ChargeData}
use selfhost_tip_overlay.Stages.{load_settings}
use selfhost_tip_overlay.Db.Operations.{purge_old}
use selfhost_tip_overlay.LiveStatus.{LiveCache, get_live_status}
use selfhost_tip_overlay.Payment.Base.{Result, ok, raise, type_error, ◌>>=◌}
use selfhost_tip_overlay.Payment.Json.{Json, null, obj, num, Fields, get_or, int_of}
use selfhost_tip_overlay.Reconciliation.{hour, minus_time, set_old_threshold, threshold_secs}
use selfhost_tip_overlay.Reconciliation

-- `int(SETTINGS.get("privacy_purge_days", 90))`
unfoldable pub purge_days : Json → Result ℤ
purge_days settings = get_or "privacy_purge_days" (num (pos 90)) settings >>= int_of

-- `minutes * 60` in `set_old_threshold`: a text or a list is repeated, and None and a dict are a
-- TypeError.
unfoldable pub times_60 : Json → Result (Unit {0})
times_60 null = raise type_error
times_60 (obj fs) = raise type_error
times_60 _ = ok tt

-- What `lifespan` computes of the settings: the threshold of the scan, and the days of the purge.
unfoldable pub configure : Json → Result ℤ
unfolding times_60 purge_days
configure settings =
    get_or "recon_old_threshold_minutes" (num (pos 10)) settings >>= times_60 >>= λ _.
    purge_days settings

-- `SETTINGS`: an exception where a file is no JSON, or no dict.
unfoldable pub read_settings : Result (Option Fields) → Result (Option Fields) → Result Json
unfolding load_settings
read_settings shipped user = shipped >>= λ s. user >>= λ u. ok (load_settings s u)

abbrev pub day : ℕ
day = 24 * hour

-- One turn of `_purge_loop`, for a number of days that is not negative: where the threshold is before
-- the first date, OverflowError is logged and nothing is purged.
unfoldable pub purge_turn : ℕ → ℕ → Db → Db
unfolding purge_old
purge_turn days now db = elim (minus_time now (days * day)) [
  | none ↦ db
  | some before ↦ (purge_old before db).1
]

-- What `GET /api/live-status` answers, with the cache after it.
unfoldable pub live_status : Bool → ℕ → ℕ → LiveCache → Bool × LiveCache
unfolding get_live_status
live_status fetched t_live t_fetched cache = get_live_status fetched t_live t_fetched cache

-- `app.state` and the subscribers as a new process has them: of what the one before knew only the
-- database is left.
unfoldable pub start_app : Db → App
start_app db = record {
  db = db;
  qr_cache = [];
  hub = record { subscribers = []; queue = λ q. []; next = 0 };
  sent = [];
}

-- The task that `lifespan` starts: the scan on the new state, for a threshold in minutes that is
-- not negative.
unfoldable pub startup_scan :
    Pipeline → (Json → String) → ℕ → ℕ → (ℕ → ℕ) → (ℕ → Option (List ChargeData)) → ℕ → ℕ → Db → App
unfolding start_app threshold_secs set_old_threshold Reconciliation.run
startup_scan pipeline repr startup minutes clock fetch now later db =
    Reconciliation.run pipeline repr startup (threshold_secs (set_old_threshold minutes)) clock
      fetch now later (start_app db)
