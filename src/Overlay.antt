-- ===== src/Overlay.antt =====
-- routes/sse.py: the stream of the overlay, the backfill and the manual replay, behind the
-- overlay's token.
pub mod Replay
pub mod Reconnect
pub mod Gap
pub mod Stream
mod Tests
use selfhost_tip_overlay.Prelude.{
  ℕ, String, Bool, true, false, not, ◌&&◌, Option, none, some, List, [], ◌∷◌, ◌+◌, map, str_eq,
  or_default, if◌then◌else◌,
}
use selfhost_tip_overlay.Prelude.Int.{ℤ, pos}
use selfhost_tip_overlay.Prelude.Text.{is_empty}
use selfhost_tip_overlay.Contracts.{TipEvent, OverlayEvent}
use selfhost_tip_overlay.Db.Schema.{Db, is_successful}
use selfhost_tip_overlay.Db.Operations.{TipRow, get_tip, SinceRow, get_since_seq, next_seq}
use selfhost_tip_overlay.RateLimit.{or_text}
use selfhost_tip_overlay.Payment.Decimal.{show}
use selfhost_tip_overlay.Payment.Json.{parse_int}
use selfhost_tip_overlay.Broadcaster.{subscribe}
use selfhost_tip_overlay.Webhook.{App, Pipeline, outcome, overlay_event, send}

-- A token is set and the request has it. `compare_digest` on two byte strings is equality.
unfoldable pub is_authorised : String → String → Bool
is_authorised overlay_token token = not (is_empty overlay_token) && str_eq token overlay_token

-- What the stream carries for one event.
pub record Item : Type 0 where
  pub charge_id : String
  pub amount : ℤ
  pub supporter_name : String
  pub message : String
  pub event_seq : ℕ

abbrev pub replay_item : SinceRow → Item
replay_item row = record {
  charge_id = row.charge_id;
  amount = row.amount;
  supporter_name = or_default row.supporter_name "";
  message = or_default row.message "";
  event_seq = row.event_seq;
}

-- The `id` field of the frame.
unfoldable pub frame_id : Item → String
frame_id i = show i.event_seq

abbrev pub live_item : OverlayEvent → Item
live_item e = record {
  charge_id = e.charge_id;
  amount = e.amount;
  supporter_name = e.supporter_name;
  message = e.message;
  event_seq = e.event_seq;
}

-- The events that a connection with this Last-Event-ID gets from the database first: none on a
-- fresh connection, and all from the start where the header is no number.
unfoldable pub replayed_items : Option String → Db → List Item
replayed_items none db = []
replayed_items (some last_event_id) db =
    let last_seq = or_default (parse_int last_event_id) (pos 0) in
    if is_empty last_event_id then [] else map replay_item (get_since_seq last_seq 50 db)

-- The loop that sends them: what is sent, and whether the client is still there at its end. Before
-- each item the client is asked for, `gone` by the number of the item.
unfoldable pub replay_frames : (ℕ → Bool) → ℕ → List Item → List Item × Bool
replay_frames gone i [] = ([], true)
replay_frames gone i (x ∷ items) =
    let (sent, there) = replay_frames gone (i + 1) items in
    if gone i then ([], false) else (x ∷ sent, there)

-- The opening of a connection: `none` is HTTP 401; the replay comes before the subscription, whose
-- queue is numbered.
unfoldable pub overlay_sse : String → String → Option String → App → Option (List Item × ℕ × App)
unfolding is_authorised
overlay_sse overlay_token token last_event_id a =
    let (queue, hub) = subscribe a.hub in
    if is_authorised overlay_token token
    then some (replayed_items last_event_id a.db, queue, record a { hub = hub })
    else none

unfoldable pub recent_tips : String → String → ℤ → Db → Option (List SinceRow)
unfolding is_authorised
recent_tips overlay_token token after db =
    if is_authorised overlay_token token then some (get_since_seq after 50 db) else none

pub data ReplayAnswer : Type 0 where
  refused : ℕ → ReplayAnswer
  dropped : ReplayAnswer
  replayed : ℕ → ReplayAnswer

-- An empty or missing text gets its default.
abbrev text_or : Option String → String → String
text_or s d = or_text (or_default s "") d

abbrev pub row_event : TipRow → ℕ → TipEvent
row_event row now = record {
  charge_id = row.charge_id;
  amount = row.amount;
  currency = or_text row.currency "thb";
  supporter_name = text_or row.supporter_name "";
  message = text_or row.message "";
  paid_at = or_default row.paid_at now;
  source_type = text_or row.source_type "promptpay";
  tts_audio_url = none;
  flagged = false;
}

-- The broadcast of a replay under a number, unless the pipeline dropped it.
unfoldable pub rebroadcast : TipEvent → Option TipEvent → ℕ → App → ReplayAnswer × App
rebroadcast e none seq a = (dropped, a)
rebroadcast e (some result) seq a = (replayed seq, send (overlay_event e result seq) a)

-- The part of `replay_tip` after the token. The number is read before the pipeline is awaited, and
-- the broadcast follows it: `during` is what the other tasks do in between.
unfoldable pub replay_row : Pipeline → Option TipRow → ℕ → (App → App) → App → ReplayAnswer × App
unfolding rebroadcast
replay_row pipeline none now during a = (refused 404, a)
replay_row pipeline (some row) now during a =
    let e = row_event row now in
    let seq = next_seq a.db in
    let shown = rebroadcast e (outcome (pipeline e) e) seq (during a) in
    if is_successful row.status then shown else (refused 409, a)

unfoldable pub replay_tip :
    Pipeline → String → String → String → ℕ → (App → App) → App → ReplayAnswer × App
replay_tip pipeline overlay_token token charge_id now during a =
    let out = replay_row pipeline (get_tip charge_id a.db) now during a in
    if is_authorised overlay_token token then out else (refused 401, a)
