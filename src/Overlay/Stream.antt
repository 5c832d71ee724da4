-- ===== src/Overlay/Stream.antt =====
-- routes/sse.py: `_event_generator`, with `subscribe` of app/sse_broadcaster.py, as it runs: the
-- connections share the hub, and between two awaits of one any other step may come.
pub mod Sound
pub mod Follows
pub mod Keeps
pub mod Drain
pub mod Rises
pub mod Missed
mod Tests
use selfhost_tip_overlay.Prelude.{
  ℕ, String, ◌≡◌, Bool, true, false, Option, none, some, List, [], ◌∷◌, ◌++◌, ◌==◌, if◌then◌else◌,
}
use selfhost_tip_overlay.Contracts.{OverlayEvent}
use selfhost_tip_overlay.Db.Schema.{Db}
use selfhost_tip_overlay.Broadcaster.{Hub, subscribe, receive, closed, broadcast}
use selfhost_tip_overlay.Overlay.{Item, live_item, replayed_items}

-- Where a connection is: the rows that it has still to replay; at `q.get()`, with the queue; with an
-- event in hand, before the client is asked for; after the return, when the inner generator has not
-- been closed yet.
pub data Phase : Type 0 where
  unopened : Phase
  replaying : List Item → Phase
  live : ℕ → Phase
  holding : ℕ → OverlayEvent → Phase
  left : ℕ → Phase
  ended : Phase

-- A connection, with the frames it was sent, the first first.
pub record Stream : Type 0 where
  pub phase : Phase
  pub sent : List Item

pub record World : Type 0 where
  pub hub : Hub
  pub stream : ℕ → Stream

unfoldable pub with_stream : ℕ → Stream → (ℕ → Stream) → ℕ → Stream
with_stream c s streams d = if d == c then s else streams d

abbrev pub put : ℕ → Stream × Hub → World → World
put c (s, h) w = record w { hub = h; stream = with_stream c s w.stream }

abbrev pub at : Phase → List Item → Stream
at phase sent = record { phase = phase; sent = sent }

-- The generator up to its next await; `gone` is what `is_disconnected` answers.
unfoldable pub resume : Bool → Phase → List Item → Hub → Stream × Hub
resume gone unopened sent h = (at unopened sent, h)
resume gone (replaying (x ∷ items)) sent h =
    if gone then (at ended sent, h) else (at (replaying items) (sent ++ x ∷ []), h)
resume gone (replaying []) sent h = let (q, h') = subscribe h in (at (live q) sent, h')
resume gone (live q) sent h = elim (receive q h) [
  | none ↦ (at (live q) sent, h)
  | some (e, h') ↦ (at (holding q e) sent, h')
]
resume gone (holding q e) sent h =
    if gone then (at (left q) sent, h) else (at (live q) (sent ++ live_item e ∷ []), h)
resume gone (left q) sent h = (at ended sent, closed q h)
resume gone ended sent h = (at ended sent, h)

-- The connection is given up: its task is cancelled at `q.get()`, inside the inner generator
-- (`at_get`), or at an await or a yield of the outer one, after which the inner one is closed later.
unfoldable pub cancel : Bool → Phase → List Item → Hub → Stream × Hub
cancel at_get unopened sent h = (at unopened sent, h)
cancel at_get (replaying items) sent h = (at ended sent, h)
cancel at_get (live q) sent h =
    if at_get then (at ended sent, closed q h) else (at (left q) sent, h)
cancel at_get (holding q e) sent h = (at (left q) sent, h)
cancel at_get (left q) sent h = (at (left q) sent, h)
cancel at_get ended sent h = (at ended sent, h)

-- The steps, each with what it broadcasts.
pub data Step : World → List OverlayEvent → World → Type 0 where
  shown : (w : World) (e : OverlayEvent) → Step w (e ∷ []) (record w { hub = broadcast e w.hub })
  opened :
      (w : World) (c : ℕ) (last_event_id : Option String) (db : Db)
      → (w.stream c).phase ≡ unopened
      → Step w [] (put c (at (replaying (replayed_items last_event_id db)) [], w.hub) w)
  resumed :
      (w : World) (c : ℕ) (gone : Bool)
      → Step w [] (put c (resume gone (w.stream c).phase (w.stream c).sent w.hub) w)
  cancelled :
      (w : World) (c : ℕ) (at_get : Bool)
      → Step w [] (put c (cancel at_get (w.stream c).phase (w.stream c).sent w.hub) w)

-- Steps one after the other, with all that they broadcast, in order.
pub data Run (w : World) : List OverlayEvent → World → Type 0 where
  here : Run w [] w
  next : {es fs : List OverlayEvent} {u v : World} → Run w es u → Step u fs v → Run w (es ++ fs) v
