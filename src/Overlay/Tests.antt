-- ===== src/Overlay/Tests.antt =====
-- A replay of a pushed charge, and the number that the next push gets.
use selfhost_tip_overlay.Prelude.{
  ℕ, arith, ◌<◌, All, count, map, String, ◌≡◌, refl, false, Option, none, some, [], ◌∷◌,
}
use selfhost_tip_overlay.Prelude.Int.{pos}
use selfhost_tip_overlay.Contracts.{TipEvent, OverlayEvent, hold}
use selfhost_tip_overlay.Db.Schema.{Tip, Status, find, max_seq}
use selfhost_tip_overlay.Db.Schema
use selfhost_tip_overlay.Db.Operations.{get_tip, next_seq, mark_pushed}
use selfhost_tip_overlay.Db.Operations.{rows_since}
use selfhost_tip_overlay.Db.Valid.{IsValid}
use selfhost_tip_overlay.Payment.Decimal.{IsPrintable}
use selfhost_tip_overlay.Overlay.Reconnect.{IsLater, is_item, reconnect_complete}
use selfhost_tip_overlay.Webhook.{App, Pipeline, outcome, finish_push}
use selfhost_tip_overlay.Overlay.{
  Item, frame_id, replayed_items, is_authorised, replay_row, rebroadcast, replay_tip,
}
use selfhost_tip_overlay.Overlay.Replay.{IsAnswered, replay_tip-IsAnswered}

abbrev row : String → Option ℕ → Option ℕ → Tip
row id pushed_at event_seq = record {
  charge_id = id;
  status = Schema.successful;
  amount = pos 5000;
  currency = "thb";
  supporter_name = some "Ann";
  message = some "hi";
  source_type = none;
  created_at = 1;
  paid_at = some 2;
  pushed_at = pushed_at;
  event_seq = event_seq;
}

abbrev app : App
app = record {
  db = record { tips = row "c1" (some 3) (some 4) ∷ row "c2" none none ∷ []; recon_state = none };
  qr_cache = [];
  hub = record { subscribers = []; queue = λ q. []; next = 0 };
  sent = [];
}

abbrev holding : Pipeline
holding e = some hold

abbrev paid : TipEvent
paid = record {
  charge_id = "c2";
  amount = pos 5000;
  currency = "thb";
  supporter_name = "Ann";
  message = "hi";
  paid_at = 2;
  source_type = "promptpay";
  tts_audio_url = none;
  flagged = false;
}

replay_tip-IsAnswered_example :
    let out = replay_tip holding "key" "key" "c1" 9 (finish_push paid (some hold) 9) app in
    IsAnswered holding "key" "key" "c1" 9 (finish_push paid (some hold) 9) app out.0 out.1
replay_tip-IsAnswered_example =
    replay_tip-IsAnswered holding "key" "key" "c1" 9 (finish_push paid (some hold) 9) app

-- The number of a replay is taken before it waits: a push in between is broadcast under it too.
replay_tip_twice :
    map
      (λ (e : OverlayEvent). e.event_seq)
      (replay_tip holding "key" "key" "c1" 9 (finish_push paid (some hold) 9) app).1.sent
    ≡ 5 ∷ 5 ∷ []
unfolding replay_tip is_authorised replay_row rebroadcast get_tip next_seq outcome find max_seq
    finish_push mark_pushed
replay_tip_twice = refl

app-IsValid : IsValid app.db
app-IsValid = (
  record { pushed = refl; positive = λ e. ground (arith, e); paid = refl; personal = refl },
  (record { ids = refl; seqs = λ n e. λ d. ground (arith, d) }, tt),
  (
    record { pushed = refl; positive = λ e. ground (arith, e); paid = refl; personal = refl },
    tt,
    tt,
  ),
)

-- The last frame that a client was sent before the event of "c1".
abbrev shown : Item
shown = record {
  charge_id = "c0";
  amount = pos 5000;
  supporter_name = "";
  message = "";
  event_seq = 3;
}

three-IsPrintable : IsPrintable 3
unfolding IsPrintable
three-IsPrintable = omega arith

reconnect_complete_example :
    All (IsLater shown) (replayed_items (some (frame_id shown)) app.db)
    × (0 < count (is_item "c1" 4) (replayed_items (some (frame_id shown)) app.db))
unfolding find rows_since
reconnect_complete_example =
    reconnect_complete shown app.db "c1" (row "c1" (some 3) (some 4)) 4 three-IsPrintable
      (omega arith) refl refl refl (omega arith)
