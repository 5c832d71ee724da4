-- ===== src/Wiring/Tests.antt =====
-- A purge after ninety days.
use selfhost_tip_overlay.Prelude.{
  ◌+◌, ◌*◌, ◌≤◌, refl, false, count, none, some, List, [], ◌∷◌, arith,
}
use selfhost_tip_overlay.Prelude.Int.{pos}
use selfhost_tip_overlay.Db.Schema.{Tip, Db, successful, find}
use selfhost_tip_overlay.Db.Trace.{Op, paid, push, run}
use selfhost_tip_overlay.Db.Valid.{IsValid}
use selfhost_tip_overlay.Contracts.{TipEvent, hold}
use selfhost_tip_overlay.Db.Sequence.{left}
use selfhost_tip_overlay.Webhook.Actions.{Action, call, finish}
use selfhost_tip_overlay.Webhook.Once.{is_for}
use selfhost_tip_overlay.Wiring.Lives.{lives, lives_once}
use selfhost_tip_overlay.Wiring.Startup.{startup_scan_once}
use selfhost_tip_overlay.Payment.Charges.{ChargeData}
use selfhost_tip_overlay.Payment.Json.{end}
use selfhost_tip_overlay.Wiring.{day, purge_turn, startup_scan}
use selfhost_tip_overlay.Wiring.Retention.{IsBlank, purge_turn-IsBlank}

abbrev paid_row : Tip
paid_row = record {
  charge_id = "c1";
  status = successful;
  amount = pos 5000;
  currency = "thb";
  supporter_name = some "Ann";
  message = some "hi";
  source_type = none;
  created_at = 1;
  paid_at = some 2;
  pushed_at = some 3;
  event_seq = some 1;
}

abbrev db : Db
db = record { tips = paid_row ∷ []; recon_state = none }

abbrev again : List Op
again = paid "c1" (pos 5000) "thb" "Ann" "hi" "promptpay" 4 ∷ push "c1" 5 ∷ []

db-IsValid : IsValid db
db-IsValid = (
  record { pushed = refl; positive = λ e. ground (arith, e); paid = refl; personal = refl },
  tt,
  tt,
)

purge_turn-IsBlank_example : IsBlank (find "c1" (run again (purge_turn 90 (91 * day) db)).tips)
unfolding find
purge_turn-IsBlank_example =
    purge_turn-IsBlank 90 (91 * day) "c1" db paid_row again db-IsValid (omega arith) refl refl

abbrev event : TipEvent
event = record {
  charge_id = "c2";
  amount = pos 5000;
  currency = "thb";
  supporter_name = "Bob";
  message = "hi";
  paid_at = 20;
  source_type = "promptpay";
  tts_audio_url = none;
  flagged = false;
}

-- The first process records the payment and stops before the push; the second pushes it, and the
-- third gets the delivery again.
abbrev processes : List (List Action)
processes =
    (call (paid "c2" (pos 5000) "thb" "Bob" "hi" "promptpay" 20) ∷ [])
    ∷ (finish event (some hold) 30 ∷ [])
    ∷ (call (paid "c2" (pos 5000) "thb" "Bob" "hi" "promptpay" 40) ∷ finish event none 41 ∷ [])
    ∷ []

lives_once_example : count (is_for "c2") (lives processes db).0 ≤ left "c2" db
lives_once_example = lives_once "c2" processes db db-IsValid

abbrev charge : ChargeData
charge = record {
  charge_id = "c2";
  amount = pos 5000;
  currency = "thb";
  status = "successful";
  metadata = end;
  paid_at = some (2 * day);
  paid_wall = some (2 * day);
  source_type = "promptpay";
}

startup_scan_once_example :
    count
      (is_for "c2")
      (startup_scan
        (λ e. some hold)
        (λ v. "")
        (2 * day)
        10
        (λ n. 2 * day + n)
        (λ since. some (charge ∷ charge ∷ []))
        (2 * day)
        (3 * day)
        db).sent
    ≤ left "c2" db
startup_scan_once_example =
    startup_scan_once (λ e. some hold) (λ v. "") (2 * day) 10 (λ n. 2 * day + n) "c2"
      (λ since. some (charge ∷ charge ∷ [])) (2 * day) (3 * day) db db-IsValid
