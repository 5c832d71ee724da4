-- ===== src/Contracts.antt =====
-- contracts/events.py: the events that pass between the payment core and the overlay.
use selfhost_tip_overlay.Prelude.{ℕ, String, Bool, Option}
use selfhost_tip_overlay.Prelude.Int.{ℤ}

-- Amounts are in satang; a time is the number of microseconds since `datetime.min` in UTC.
pub record TipEvent : Type 0 where
  pub charge_id : String
  pub amount : ℤ
  pub currency : String
  pub supporter_name : String
  pub message : String
  pub paid_at : ℕ
  pub source_type : String
  pub tts_audio_url : Option String
  pub flagged : Bool

pub record OverlayEvent : Type 0 where
  pub charge_id : String
  pub amount : ℤ
  pub supporter_name : String
  pub message : String
  pub event_seq : ℕ
  pub tts_audio_url : Option String

-- What a stage may answer: an event, "DROP" or "HOLD".
pub data StageResult : Type 0 where
  tip : TipEvent → StageResult
  drop hold : StageResult
