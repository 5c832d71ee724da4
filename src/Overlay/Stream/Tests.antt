-- ===== src/Overlay/Stream/Tests.antt =====
-- Two connections and two broadcasts.
use selfhost_tip_overlay.Prelude.{
  ℕ, String, ◌≡◌, refl, sym, true, false, none, some, List, [], ◌∷◌, map, arith, ◌++◌, count, All,
}
use mathlib.Core.Path.{subst}
use selfhost_tip_overlay.Prelude.Int.{pos}
use selfhost_tip_overlay.Contracts.{TipEvent, OverlayEvent, hold}
use selfhost_tip_overlay.Broadcaster.{
  broadcast, put_all, remove_all, subscribe, receive, with_queue,
}
use selfhost_tip_overlay.Overlay.{Item, live_item, frame_id, replayed_items}
use selfhost_tip_overlay.Overlay.Stream.{
  unopened, replaying, World, with_stream, put, at, resume, shown, resumed, Run, here, next,
}
use selfhost_tip_overlay.Overlay.Stream.Sound.{IsSound, Run-IsSound}
use selfhost_tip_overlay.Overlay.Stream.Follows.{is_served}
use selfhost_tip_overlay.Overlay.Stream.Keeps.{Keeps, stream-Follows}
use selfhost_tip_overlay.Payment.Json.{parse_int}
use selfhost_tip_overlay.Db.Trace.{paid}
use selfhost_tip_overlay.Db.Valid.{IsValid}
use selfhost_tip_overlay.Payment.Decimal.{IsPrintable}
use selfhost_tip_overlay.Db.Schema.{Tip, Db, successful, max_seq, update_where, insert_or_ignore}
use selfhost_tip_overlay.Db.Operations.{mark_pushed, record_successful, get_since_seq, rows_since}
use selfhost_tip_overlay.Webhook.{App, outcome, finish_push}
use selfhost_tip_overlay.Webhook.Actions.{Action, call, finish, act}
use selfhost_tip_overlay.Overlay.Reconnect.{is_item}
use selfhost_tip_overlay.Overlay.Stream.Missed.{opening, lost_event}
use selfhost_tip_overlay.Overlay.Stream.Rises.{stream-Rises}
use selfhost_tip_overlay.Overlay.Stream.Rises
use selfhost_tip_overlay.Overlay.Stream.Drain.{turns, enough, stream_sent}

abbrev event : ℕ → OverlayEvent
event n = record {
  charge_id = "c1";
  amount = pos 5000;
  supporter_name = "Ann";
  message = "hi";
  event_seq = n;
  tts_audio_url = none;
}

-- Every connection is about to subscribe.
abbrev fresh : World
fresh = record {
  hub = record { subscribers = []; queue = λ q. []; next = 0 };
  stream = λ c. at (replaying []) [];
}

abbrev after : ℕ → World → World
after c w = put c (resume false (w.stream c).phase (w.stream c).sent w.hub) w

abbrev told : ℕ → World → World
told n w = record w { hub = broadcast (event n) w.hub }

abbrev opened_world : World
opened_world = after 0 fresh

-- Connection 1 subscribes between two broadcasts; connection 0 takes the first event before the
-- second, and ends up with one event in hand and one in its queue.
abbrev last_world : World
last_world = told 2 (after 0 (after 1 (told 1 opened_world)))

abbrev events : List OverlayEvent
events = event 1 ∷ event 2 ∷ []

steps : Run opened_world events last_world
steps =
    next
      (next
        (next (next here (shown opened_world (event 1))) (resumed (told 1 opened_world) 1 false))
        (resumed (after 1 (told 1 opened_world)) 0 false))
      (shown (after 0 (after 1 (told 1 opened_world))) (event 2))

fresh-IsSound : IsSound fresh
fresh-IsSound = record {
  hub = record { distinct = tt; numbered = λ j y. cc; bounded = λ j. omega arith };
  owned = λ c q e. cc;
  apart = λ c d q e f. cc;
}

is_served_last : is_served (last_world.stream 0).phase last_world.hub ≡ true
unfolding with_stream resume subscribe receive with_queue broadcast put_all remove_all
is_served_last = refl

Run-IsSound_example : IsSound last_world
Run-IsSound_example = Run-IsSound fresh-IsSound (
    next
      (next
        (next (next (next here (resumed fresh 0 false)) (shown opened_world (event 1)))
          (resumed (told 1 opened_world) 1 false))
        (resumed (after 1 (told 1 opened_world)) 0 false))
      (shown (after 0 (after 1 (told 1 opened_world))) (event 2)))

stream-Follows_example : Keeps [] events 0 last_world
stream-Follows_example = stream-Follows fresh 0 false fresh-IsSound refl steps

stream_sent_example :
    (turns enough (last_world.stream 0).phase (last_world.stream 0).sent last_world.hub).0.sent
    ≡ map live_item events
stream_sent_example = stream_sent fresh 0 false fresh-IsSound refl steps is_served_last

abbrev paid_event : String → TipEvent
paid_event id = record {
  charge_id = id;
  amount = pos 5000;
  currency = "thb";
  supporter_name = "Ann";
  message = "hi";
  paid_at = 20;
  source_type = "promptpay";
  tts_audio_url = none;
  flagged = false;
}

-- Two payments, the second of which is pushed twice.
abbrev actions : List Action
actions =
    call (paid "c1" (pos 5000) "thb" "Ann" "hi" "promptpay" 20)
    ∷ call (paid "c2" (pos 5000) "thb" "Ann" "hi" "promptpay" 20)
    ∷ finish (paid_event "c2") (some hold) 30
    ∷ finish (paid_event "c2") (some hold) 31
    ∷ finish (paid_event "c1") (some hold) 32
    ∷ []

abbrev old_row : Tip
old_row = record {
  charge_id = "c0";
  status = successful;
  amount = pos 5000;
  currency = "thb";
  supporter_name = some "Ann";
  message = some "hi";
  source_type = none;
  created_at = 1;
  paid_at = some 2;
  pushed_at = some 3;
  event_seq = some 4;
}

abbrev table : Db
table = record { tips = old_row ∷ []; recon_state = none }

table-IsValid : IsValid table
table-IsValid = (
  record { pushed = refl; positive = λ e. ground (arith, e); paid = refl; personal = refl },
  tt,
  tt,
)

abbrev app : App
app = record {
  db = table;
  qr_cache = [];
  hub = record { subscribers = []; queue = λ q. []; next = 0 };
  sent = [];
}

-- The last frame that the client had, before the row of the table.
abbrev had : Item
had = live_item (event 3)

had-IsPrintable : IsPrintable had.event_seq
unfolding IsPrintable
had-IsPrintable = omega arith

-- Every connection has been sent what it replays, and is about to subscribe.
abbrev back : World
back = record fresh { stream = λ c. at (replaying []) (replayed_items (some (frame_id had)) table) }

back-IsSound : IsSound back
back-IsSound = record { hub = fresh-IsSound.hub; owned = λ c q e. cc; apart = λ c d q e f. cc }

abbrev overlay : String → ℕ → OverlayEvent
overlay id n = record (event n) { charge_id = id }

abbrev shows : OverlayEvent → World → World
shows e w = record w { hub = broadcast e w.hub }

abbrev told_two : World
told_two = shows (overlay "c1" 6) (shows (overlay "c2" 5) (after 0 back))

pushed_two : Rises.events actions app ≡ overlay "c2" 5 ∷ overlay "c1" 6 ∷ []
unfolding outcome mark_pushed act record_successful update_where insert_or_ignore max_seq
    finish_push
pushed_two = refl

two_steps : Run (after 0 back) (Rises.events actions app) told_two
two_steps =
    subst (λ es. Run (after 0 back) es told_two) (sym pushed_two)
      (next (next here (shown (after 0 back) (overlay "c2" 5)))
        (shown (shows (overlay "c2" 5) (after 0 back)) (overlay "c1" 6)))

served_two : is_served (told_two.stream 0).phase told_two.hub ≡ true
unfolding with_stream resume subscribe with_queue broadcast put_all remove_all
served_two = refl

stream-Rises_example :
    Rises.Rises 3
      (turns enough (told_two.stream 0).phase (told_two.stream 0).sent told_two.hub).0.sent
unfolding max_seq
stream-Rises_example =
    stream-Rises had table back 0 false actions app had-IsPrintable table-IsValid refl (omega arith)
      (omega arith) back-IsSound refl two_steps served_two

-- No connection is open.
abbrev empty_world : World
empty_world = record fresh { stream = λ c. at unopened [] }

empty-IsSound : IsSound empty_world
empty-IsSound = record { hub = fresh-IsSound.hub; owned = λ c q e. cc; apart = λ c d q e f. cc }

abbrev at_replay : World
at_replay = opening 0 (some "3") table empty_world

-- A frame of the replay has been sent when an event is broadcast; one more follows the subscription.
abbrev gap_world : World
gap_world = shows (overlay "c1" 5) (after 0 at_replay)

abbrev caught_up : World
caught_up = shows (overlay "c2" 6) (after 0 gap_world)

gap_phase : (gap_world.stream 0).phase ≡ replaying []
unfolding with_stream resume replayed_items get_since_seq rows_since parse_int
gap_phase = refl

served_gap : is_served (caught_up.stream 0).phase caught_up.hub ≡ true
unfolding with_stream resume subscribe with_queue broadcast put_all remove_all replayed_items
    get_since_seq rows_since parse_int
served_gap = refl

lost_event_example :
    ((turns enough (caught_up.stream 0).phase (caught_up.stream 0).sent caught_up.hub).0.sent
      ≡ replayed_items (some "3") table ++ map live_item (overlay "c2" 6 ∷ []))
    × All
        (λ (e : OverlayEvent).
          count (is_item e.charge_id e.event_seq) (replayed_items (some "3") table) ≡ 0)
        (overlay "c1" 5 ∷ [])
unfolding max_seq
lost_event_example =
    lost_event empty_world 0 (some "3") table false empty-IsSound refl
      (next (next here (resumed at_replay 0 false)) (shown (after 0 at_replay) (overlay "c1" 5)))
      gap_phase (omega arith, tt) (next here (shown (after 0 gap_world) (overlay "c2" 6)))
      served_gap
