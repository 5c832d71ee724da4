-- ===== src/Dev.antt =====
-- routes/dev.py: the simulated tip, mounted where DEV_TEST_TRIGGER is 1. `compare_digest` on two byte
-- strings is equality.
pub mod Fired
use selfhost_tip_overlay.Prelude.{ℕ, String, Bool, true, false, Option, none, some, if◌then◌else◌}
use selfhost_tip_overlay.Prelude.Int.{ℤ}
use selfhost_tip_overlay.Contracts.{TipEvent}
use selfhost_tip_overlay.Db.Operations.{next_seq}
use selfhost_tip_overlay.Payment.Decimal.{show}
use selfhost_tip_overlay.Security.Redaction.{join}
use selfhost_tip_overlay.Webhook.{App, Pipeline, outcome, overlay_event, send}
use selfhost_tip_overlay.Overlay.{is_authorised}

pub data DevAnswer : Type 0 where
  refused : ℕ → DevAnswer
  dropped : ℕ → DevAnswer
  fired : ℕ → ℤ → DevAnswer

-- The event, under the number that the next tip would get.
abbrev pub dev_event : ℕ → String → ℤ → String → ℕ → TipEvent
dev_event seq name amount message now = record {
  charge_id = join "dev_test_" (show seq);
  amount = amount;
  currency = "thb";
  supporter_name = name;
  message = message;
  paid_at = now;
  source_type = "promptpay";
  tts_audio_url = none;
  flagged = false;
}

-- What follows the pipeline.
unfoldable pub fire : TipEvent → Option TipEvent → ℕ → App → DevAnswer × App
fire e none seq a = (dropped seq, a)
fire e (some result) seq a = (fired seq e.amount, send (overlay_event e result seq) a)

-- The part of `test_tip` after the token.
unfoldable pub fire_event : Pipeline → TipEvent → ℕ → App → DevAnswer × App
unfolding fire
fire_event pipeline e seq a = fire e (outcome (pipeline e) e) seq a

unfoldable pub test_tip :
    Pipeline → String → String → String → ℤ → String → ℕ → App → DevAnswer × App
unfolding fire_event
test_tip pipeline overlay_token token name amount message now a =
    let seq = next_seq a.db in
    let out = fire_event pipeline (dev_event seq name amount message now) seq a in
    if is_authorised overlay_token token then out else (refused 401, a)
