-- ===== src/Overlay/Stream/Rises.antt =====
-- routes/sse.py, core/db/operations.py: the numbers of the frames that a connection is sent.
use selfhost_tip_overlay.Prelude.{
  ℕ, ◌≤◌, ◌<◌, ◌≡◌, refl, sym, ap, ◌∙◌, Bool, true, Option, none, some, List, [], ◌∷◌, ◌++◌, map,
  arith, All, All-mono,
}
use mathlib.Core.Path.{subst}
use selfhost_tip_overlay.Contracts.{TipEvent, OverlayEvent}
use selfhost_tip_overlay.Db.Schema.{Db, max_seq}
use selfhost_tip_overlay.Db.Operations.{SinceRow, get_since_seq, mark_pushed}
use selfhost_tip_overlay.Db.Trace.{push, apply}
use selfhost_tip_overlay.Db.Sequence.{max_seq-mark_pushed, max_seq-apply}
use selfhost_tip_overlay.Webhook.{App, overlay_event, outcome, show, finish_push}
use selfhost_tip_overlay.Webhook.Actions.{Action, call, finish, evict, act, act_all}
use selfhost_tip_overlay.Webhook.Once.{show_db}
use selfhost_tip_overlay.Prelude.Int.{pos}
use selfhost_tip_overlay.Db.Valid.{IsValid}
use selfhost_tip_overlay.Db.Replay.{seq_of, IsAbove, get_since_seq_lem}
use selfhost_tip_overlay.Db.Rising.{Rising, get_since_seq-Rising}
use selfhost_tip_overlay.Payment.Decimal.{IsPrintable}
use selfhost_tip_overlay.Overlay.Reconnect.{replayed_items-frame_id}
use selfhost_tip_overlay.Overlay.{Item, live_item, replay_item, replayed_items, frame_id}
use selfhost_tip_overlay.Overlay.Stream.{World, replaying, put, resume, Run}
use selfhost_tip_overlay.Overlay.Stream.Sound.{IsSound}
use selfhost_tip_overlay.Overlay.Stream.Follows.{is_served}
use selfhost_tip_overlay.Overlay.Stream.Drain.{turns, enough, stream_sent}

-- What one push broadcasts.
abbrev shown_events : TipEvent → Option TipEvent → Option ℕ → List OverlayEvent
shown_events e none n = []
shown_events e (some r) none = []
shown_events e (some r) (some n) = overlay_event e r n ∷ []

-- What the steps broadcast, the first first.
abbrev pub events : List Action → App → List OverlayEvent
events [] a = []
events (call op ∷ xs) a = events xs (act (call op) a)
events (evict id ∷ xs) a = events xs (act (evict id) a)
events (finish e answer now ∷ xs) a =
    shown_events e (outcome answer e) (mark_pushed e.charge_id now a.db).0
    ++ events xs (act (finish e answer now) a)

-- The history of broadcasts with more of them.
abbrev pub told : List OverlayEvent → List OverlayEvent → List OverlayEvent
told [] sent = sent
told (e ∷ es) sent = told es (e ∷ sent)

show_told :
    (e : TipEvent) (r : Option TipEvent) (n : Option ℕ) (a : App) (es : List OverlayEvent)
    → told es (show e r n a).sent ≡ told (shown_events e r n ++ es) a.sent
unfolding show
show_told e none n a es = refl
show_told e (some r) none a es = refl
show_told e (some r) (some n) a es = refl

-- They are the broadcasts that the state keeps.
pub sent-events : (xs : List Action) (a : App) → (act_all xs a).sent ≡ told (events xs a) a.sent
unfolding act_all act
sent-events [] a = refl
sent-events (call op ∷ xs) a = sent-events xs (act (call op) a)
sent-events (evict id ∷ xs) a = sent-events xs (act (evict id) a)
sent-events (finish e answer now ∷ xs) a =
    sent-events xs (act (finish e answer now) a)
    ∙ (unfold finish_push in
        let m = mark_pushed e.charge_id now a.db in
        show_told e (outcome answer e) m.0 (record a { db = m.1 })
          (events xs (finish_push e answer now a)))

abbrev pub Rises : ℕ → List Item → Type 0
Rises low [] = Unit
Rises low (i ∷ items) = (low < i.event_seq) × Rises i.event_seq items

Rises-weaken : (low high : ℕ) (items : List Item) → low ≤ high → Rises high items → Rises low items
Rises-weaken low high [] h r = tt
Rises-weaken low high (i ∷ items) h r = (omega arith, r.1)

shown-Rises :
    (low high : ℕ) (e : TipEvent) (r : Option TipEvent) (n : Option ℕ) (es : List OverlayEvent)
    → low ≤ high
    → ((m : ℕ) → n ≡ some m → (low < m) × (m ≤ high))
    → Rises high (map live_item es)
    → Rises low (map live_item (shown_events e r n ++ es))
shown-Rises low high e none n es h m s = Rises-weaken low high (map live_item es) h s
shown-Rises low high e (some r) none es h m s = Rises-weaken low high (map live_item es) h s
shown-Rises low high e (some r) (some n) es h m s =
    let (above, below) = m n refl in (above, Rises-weaken n high (map live_item es) below s)

events-Rises :
    (xs : List Action) (a : App) → Rises (max_seq a.db.tips) (map live_item (events xs a))
unfolding act
events-Rises [] a = tt
events-Rises (call op ∷ xs) a =
    Rises-weaken (max_seq a.db.tips) _ _ (max_seq-apply op a.db) (events-Rises xs (act (call op) a))
events-Rises (evict id ∷ xs) a = events-Rises xs (act (evict id) a)
events-Rises (finish e answer now ∷ xs) a =
    let m = mark_pushed e.charge_id now a.db in
    let marked : App = record a { db = m.1 } in
    let later = finish_push e answer now a in
    let kept : later.db ≡ m.1 = unfold finish_push in show_db e (outcome answer e) m.0 marked in
    shown-Rises (max_seq a.db.tips) (max_seq m.1.tips) e (outcome answer e) m.0 (events xs later)
      (unfold apply in max_seq-apply (push e.charge_id now) a.db)
      (λ n h. max_seq-mark_pushed e.charge_id now n a.db h)
      (subst (λ (d : Db). Rises (max_seq d.tips) (map live_item (events xs later))) kept
        (events-Rises xs later))

Rising-Rises :
    (low : ℕ) (rows : List SinceRow)
    → All (λ y. low < seq_of y) rows
    → Rising rows
    → Rises low (map replay_item rows)
Rising-Rises low [] above h = tt
Rising-Rises low (x ∷ rows) above h = (above.0, Rising-Rises (seq_of x) rows h.0 h.1)

below-items :
    (top : ℕ) (rows : List SinceRow)
    → All (λ y. seq_of y ≤ top) rows
    → All (λ (i : Item). i.event_seq ≤ top) (map replay_item rows)
below-items top [] h = tt
below-items top (x ∷ rows) h = (h.0, below-items top rows h.1)

Rises-append :
    (low high : ℕ) (xs ys : List Item)
    → low ≤ high
    → Rises low xs
    → All (λ (i : Item). i.event_seq ≤ high) xs
    → Rises high ys
    → Rises low (xs ++ ys)
Rises-append low high [] ys h r b s = Rises-weaken low high ys h s
Rises-append low high (x ∷ xs) ys h r b s = (r.0, Rises-append x.event_seq high xs ys b.0 r.1 b.1 s)

replayed_items-Rises :
    (last : Item) (db : Db)
    → IsPrintable last.event_seq
    → IsValid db
    → let items = replayed_items (some (frame_id last)) db in
      Rises last.event_seq items × All (λ (i : Item). i.event_seq ≤ max_seq db.tips) items
replayed_items-Rises last db printable valid =
    let rows = get_since_seq (pos last.event_seq) 50 db in
    let (sorted, above, short) = get_since_seq_lem (pos last.event_seq) 50 db in
    let (rising, below) = get_since_seq-Rising (pos last.event_seq) 50 db valid in
    rw (replayed_items-frame_id last db printable) (
      Rising-Rises last.event_seq rows
          (All-mono (IsAbove (pos last.event_seq)) (λ y. last.event_seq < seq_of y) rows
            (λ y l. ground (arith, l)) above)
          rising,
      below-items (max_seq db.tips) rows below,
    )

-- A client comes back with the id of a frame, of an event whose number has at most 4300 digits; its
-- connection has been sent what it replays, from a well-formed database, and subscribes, in a world
-- that is sound. What is broadcast from there are the events of any sequence of calls of the database,
-- pushes and evictions, which are the steps of deliveries and scans, without a manual replay or a
-- simulated tip, on a database whose largest number is at least that of the first
-- database and that of the frame; and the hub still serves the connection after them. Then after
-- 101 turns of its own in which its client is there, all that it has been sent, replay and live
-- together, has numbers that rise strictly from above the number of that frame.
pub stream-Rises :
    (last : Item) (db : Db) (w : World) (c : ℕ) (gone : Bool) (xs : List Action) (a : App)
    {v : World}
    → IsPrintable last.event_seq
    → IsValid db
    → (w.stream c).sent ≡ replayed_items (some (frame_id last)) db
    → max_seq db.tips ≤ max_seq a.db.tips
    → last.event_seq ≤ max_seq a.db.tips
    → IsSound w
    → (w.stream c).phase ≡ replaying []
    → Run (put c (resume gone (w.stream c).phase (w.stream c).sent w.hub) w) (events xs a) v
    → is_served (v.stream c).phase v.hub ≡ true
    → Rises last.event_seq (turns enough (v.stream c).phase (v.stream c).sent v.hub).0.sent
stream-Rises last db w c gone xs a printable valid replayed grown known i p r on =
    let items = replayed_items (some (frame_id last)) db in
    let (rises, below) = replayed_items-Rises last db printable valid in
    let all =
      Rises-append last.event_seq (max_seq a.db.tips) items (map live_item (events xs a)) known
        rises
        (All-mono (λ (i : Item). i.event_seq ≤ max_seq db.tips)
          (λ (i : Item). i.event_seq ≤ max_seq a.db.tips) items (λ i l. omega (arith, l, grown))
          below)
        (events-Rises xs a) in
    subst (Rises last.event_seq)
      (sym (stream_sent w c gone i p r on ∙ ap (λ l. l ++ map live_item (events xs a)) replayed))
      all
