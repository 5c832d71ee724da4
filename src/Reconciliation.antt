-- ===== src/Reconciliation.antt =====
-- app/reconciliation.py: the scan of the gateway's charges at startup. Times are microseconds since
-- `datetime.min`; the readings of the clock are numbered in their order.
pub mod Complete
pub mod Gateway
mod Tests
use selfhost_tip_overlay.Prelude.{
  ℕ, ◌+◌, ◌-◌, ◌*◌, String, Bool, true, false, not, Option, none, some, List, [], ◌∷◌, ◌++◌, ltb,
  ◌==◌, str_eq, or_default, if◌then◌else◌,
}
use selfhost_tip_overlay.Prelude.Int.{ℤ}
use selfhost_tip_overlay.Prelude.Sort.{sort_by}
use selfhost_tip_overlay.Prelude.Text.{prefix}
use selfhost_tip_overlay.Contracts.{TipEvent}
use selfhost_tip_overlay.Db.Operations.{
  record_successful, mark_pushed, get_last_scan_at, set_last_scan_at,
}
use selfhost_tip_overlay.Payment.Json.{Json, Fields, str, find_field, str_of}
use selfhost_tip_overlay.Payment.Charges.{ChargeData}
use selfhost_tip_overlay.Webhook.{App, Pipeline, finish_push}

abbrev pub hour : ℕ
hour = 3_600_000_000

-- `a - b` on datetimes: OverflowError (`none`) before `datetime.min`.
abbrev pub minus_time : ℕ → ℕ → Option ℕ
minus_time a b = if ltb a b then none else some (a - b)

-- Where the scan starts: a day back the first time, an hour before the last scan after that.
unfoldable pub lookback : Option ℕ → ℕ → Option ℕ
lookback none now = minus_time now (24 * hour)
lookback (some last_scan) now = minus_time last_scan hour

-- `_OLD_CHARGE_THRESHOLD_SECONDS or 600`, in seconds: zero counts as not set.
unfoldable pub threshold_secs : Option ℕ → ℕ
threshold_secs none = 600
threshold_secs (some s) = if s == 0 then 600 else s

-- `set_old_threshold(minutes)`
unfoldable pub set_old_threshold : ℕ → Option ℕ
set_old_threshold minutes = some (minutes * 60)

-- `str(charge.metadata.get(key, ""))[:n]`
unfoldable pub meta : (Json → String) → String → ℕ → Fields → String
unfolding find_field str_of prefix
meta repr key n fs = prefix n (str_of repr (or_default (find_field key fs) (str "")))

abbrev pub paid_time : ℕ → ChargeData → ℕ
paid_time now c = or_default c.paid_at now

abbrev pub charge_event : (Json → String) → ℕ → ChargeData → TipEvent
charge_event repr now c = record {
  charge_id = c.charge_id;
  amount = c.amount;
  currency = c.currency;
  supporter_name = meta repr "supporter_name" 50 c.metadata;
  message = meta repr "message" 200 c.metadata;
  paid_at = paid_time now c;
  source_type = c.source_type;
  tts_audio_url = none;
  flagged = false;
}

-- `paid_at.replace(tzinfo=timezone.utc)`: the date and time as written, taken for UTC.
abbrev pub wall_of : ℕ → ChargeData → ℕ
wall_of now c = or_default c.paid_wall now

-- `(startup_time - paid_at.replace(tzinfo=timezone.utc)).total_seconds() > threshold_secs`
abbrev pub is_too_old : ℕ → ℕ → ℕ → Bool
is_too_old startup secs wall = ltb (wall + secs * 1_000_000) startup

abbrev pub is_paid_charge : ChargeData → Bool
is_paid_charge c = str_eq c.status "successful"

abbrev pub paid_key : ChargeData → ℕ
paid_key c = or_default c.paid_at 0

module _ (pipeline : Pipeline) (repr : Json → String) (startup secs : ℕ) (clock : ℕ → ℕ) where
  -- `record_successful` for a charge of the list, at its place `i`.
  abbrev pub record_charge : ℕ → ChargeData → App → App
  record_charge i c a =
      let e = charge_event repr (clock (2 * i)) c in
      record a {
        db =
            (record_successful e.charge_id e.amount e.currency e.supporter_name e.message
              e.source_type e.paid_at a.db).1;
      }

  -- The push: silent where the charge is too old.
  unfoldable pub push_charge : ℕ → ChargeData → App → App
  unfolding finish_push
  push_charge i c a =
      let e = charge_event repr (clock (2 * i)) c in
      if is_too_old startup secs (wall_of (clock (2 * i)) c)
      then record a { db = (mark_pushed e.charge_id (clock (2 * i + 1)) a.db).1 }
      else finish_push e (pipeline e) (clock (2 * i + 1)) a

  unfoldable pub reconcile_charge : ℕ → ChargeData → App → App
  reconcile_charge i c a = if is_paid_charge c then push_charge i c (record_charge i c a) else a

  unfoldable pub reconcile_all : ℕ → List ChargeData → App → App
  unfolding reconcile_charge
  reconcile_all i [] a = a
  reconcile_all i (c ∷ cs) a = reconcile_all (i + 1) cs (reconcile_charge i c a)

  -- The scan of what the gateway returned, and the cursor.
  unfoldable pub scan : Option (List ChargeData) → ℕ → App → App
  unfolding reconcile_all
  scan none now a = a
  scan (some charges) now a =
      let done = reconcile_all 0 (sort_by paid_key charges) a in
      record done { db = set_last_scan_at now done.db }

  -- `fetch` is the adapter's `list_recent`; `none` where it raised.
  unfoldable pub run : (ℕ → Option (List ChargeData)) → ℕ → ℕ → App → App
  unfolding scan lookback
  run fetch now later a = elim (lookback (get_last_scan_at a.db) now) [
    | none ↦ a
    | some since ↦ scan (fetch since) later a
  ]
