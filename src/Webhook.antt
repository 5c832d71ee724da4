-- ===== src/Webhook.antt =====
-- routes/webhook.py: verify, record the money, push the tip.
pub mod Actions
pub mod Handler
pub mod Genuine
pub mod GenuineStripe
pub mod Again
pub mod Once
mod Tests
use selfhost_tip_overlay.Prelude.{
  ℕ, String, Bool, true, false, Option, none, some, List, [], ◌∷◌, ◌++◌, or_default,
}
use selfhost_tip_overlay.Prelude.Int.{ℤ}
use selfhost_tip_overlay.Prelude.Dict.{Dict, pop}
use selfhost_tip_overlay.Contracts.{TipEvent, OverlayEvent, StageResult, tip, drop, hold}
use selfhost_tip_overlay.Broadcaster.{Hub, broadcast}
use selfhost_tip_overlay.Db.Schema.{Db}
use selfhost_tip_overlay.Db.Schema
use selfhost_tip_overlay.Db.Operations.{record_successful, mark_pushed, update_status}
use selfhost_tip_overlay.Payment.Base.{
  Exception, signature_error, replay_error, Result, ok, raise, Kind, successful, failed, expired,
  ignored, WebhookEvent,
}

-- `app.state`: the database, the QR cache and the broadcaster. `sent` is the history of
-- `broadcast` calls, newest first; the program does not keep it.
pub record App : Type 0 where
  pub db : Db
  pub qr_cache : Dict String
  pub hub : Hub
  pub sent : List OverlayEvent

-- What the client of a route sees.
pub data Response : Type 0 where
  status : ℕ → Response
  unhandled : Exception → Response

-- The text that stands for the message where the pipeline failed.
abbrev pub hidden : String
hidden = "[ซ่อน]"

-- `run_in_executor` within its timeout: `none` where the pipeline raised or took too long.
abbrev pub Pipeline : Type 0
Pipeline = TipEvent → Option StageResult

-- The event to show, or `none` for "DROP". A failure blanks the message; "HOLD" passes the event
-- through.
unfoldable pub outcome : Option StageResult → TipEvent → Option TipEvent
outcome none e = some (record e { message = hidden })
outcome (some drop) e = none
outcome (some hold) e = some e
outcome (some (tip r)) e = some r

abbrev pub overlay_event : TipEvent → TipEvent → ℕ → OverlayEvent
overlay_event e result seq = record {
  charge_id = e.charge_id;
  amount = e.amount;
  supporter_name = result.supporter_name;
  message = result.message;
  event_seq = seq;
  tts_audio_url = none;
}

abbrev pub send : OverlayEvent → App → App
send e a = record a { hub = broadcast e a.hub; sent = e ∷ a.sent }

-- The broadcast after `mark_pushed`: only with a number, and not where the pipeline dropped the tip.
unfoldable pub show : TipEvent → Option TipEvent → Option ℕ → App → App
show e none seq a = a
show e (some result) none a = a
show e (some result) (some seq) a = send (overlay_event e result seq) a

-- The part of `_push_tip` after the pipeline has answered.
unfoldable pub finish_push : TipEvent → Option StageResult → ℕ → App → App
unfolding outcome show
finish_push e answer now a =
    let (seq, db) = mark_pushed e.charge_id now a.db in
    show e (outcome answer e) seq (record a { db = db })

unfoldable pub push_tip : Pipeline → TipEvent → ℕ → App → App
unfolding finish_push
push_tip pipeline e now a = finish_push e (pipeline e) now a

abbrev pub tip_event : WebhookEvent → ℕ → TipEvent
tip_event e paid_at = record {
  charge_id = e.charge_id;
  amount = e.amount;
  currency = e.currency;
  supporter_name = e.supporter_name;
  message = e.message;
  paid_at = paid_at;
  source_type = e.source_type;
  tts_audio_url = none;
  flagged = false;
}

abbrev pub evict_qr : String → App → App
evict_qr id a = record a { qr_cache = pop id a.qr_cache }

abbrev pub set_status : String → Schema.Status → App → App
set_status id s a = record a { db = update_status id s a.db }

abbrev pub record_money : WebhookEvent → ℕ → App → App
record_money e paid_at a = record a {
  db =
      (record_successful e.charge_id e.amount e.currency e.supporter_name e.message e.source_type
        paid_at a.db).1;
}

-- The branches on the kind of a verified event. `now` is the clock at each reading.
unfoldable pub handle : Pipeline → WebhookEvent → Kind → ℕ → ℕ → App → App
unfolding push_tip
handle pipeline e successful now now' a =
    let paid_at = or_default e.paid_at now in
    evict_qr e.charge_id (push_tip pipeline (tip_event e paid_at) now' (record_money e paid_at a))
handle pipeline e failed now now' a = evict_qr e.charge_id (set_status e.charge_id Schema.failed a)
handle pipeline e expired now now' a =
    evict_qr e.charge_id (set_status e.charge_id Schema.expired a)
handle pipeline e ignored now now' a = a

-- 401 for a bad signature or a replay; another exception is not caught.
unfoldable pub reject : Exception → Response
reject signature_error = status 401
reject replay_error = status 401
reject e = unhandled e

-- `verified` is what `gateway.verify_webhook` answered.
unfoldable pub receive_webhook : Pipeline → Result WebhookEvent → ℕ → ℕ → App → Response × App
unfolding handle reject
receive_webhook pipeline (raise x) now now' a = (reject x, a)
receive_webhook pipeline (ok e) now now' a = (status 200, handle pipeline e e.kind now now' a)
