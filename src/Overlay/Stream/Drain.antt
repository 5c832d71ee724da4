-- ===== src/Overlay/Stream/Drain.antt =====
-- routes/sse.py: what a connection is sent when its turns come.
use selfhost_tip_overlay.Prelude.{
  ℕ, zero, suc, ◌+◌, ◌*◌, ◌≤◌, ◌≡◌, refl, sym, ap, ◌∙◌, Bool, true, false, Option, none, some, List,
  [], ◌∷◌, ◌++◌, map, arith, length,
}
use mathlib.Core.Path.{subst}
use mathlib.Core.List.{append-nil}
use selfhost_tip_overlay.Contracts.{OverlayEvent}
use selfhost_tip_overlay.Broadcaster.{Hub, maxsize, with_queue, receive}
use selfhost_tip_overlay.Broadcaster.Delivery.{has}
use selfhost_tip_overlay.Broadcaster.Sound
use selfhost_tip_overlay.Broadcaster.Sound.{IsTaken, receive-IsTaken, receive_empty}
use selfhost_tip_overlay.Overlay.{Item, live_item}
use selfhost_tip_overlay.Overlay.Stream.{
  Phase, unopened, replaying, live, holding, left, ended, Stream, World, put, at, resume, resumed,
  Run,
}
use selfhost_tip_overlay.Overlay.Stream.Sound.{IsSound, Run-IsSound, Step-IsSound}
use selfhost_tip_overlay.Overlay.Stream.Follows.{
  Follows, pending, is_served, own, false_ne, resume-Follows,
}
use selfhost_tip_overlay.Overlay.Stream.Keeps.{stream-Follows}

-- So many turns of a connection, whose client is there at each.
unfoldable pub turns : ℕ → Phase → List Item → Hub → Stream × Hub
turns zero p sent h = (at p sent, h)
turns (suc n) p sent h = let (s, h') = resume false p sent h in turns n s.phase s.sent h'

-- The turns that are left until nothing is pending.
abbrev pub weight : Phase → Hub → ℕ
weight unopened h = 0
weight (replaying items) h = 0
weight (live q) h = 2 * length (h.queue q)
weight (holding q e) h = 2 * length (h.queue q) + 1
weight (left q) h = 0
weight ended h = 0

-- One turn brings a served connection nearer to that.
record IsNearer (n : ℕ) (p : Phase) (h : Hub) : Type 0 where
  served : is_served p h ≡ true
  near : weight p h ≤ n

after_receive :
    (n q : ℕ) (sent : List Item) (h : Hub) (o : Option (OverlayEvent × Hub))
    → receive q h ≡ o
    → has q h.subscribers ≡ true
    → 2 * length (h.queue q) ≤ suc n
    → let (s, h') = elim o as (λ o. Stream × Hub) [
      | none ↦ (at (live q) sent, h)
      | some (e, h') ↦ (at (holding q e) sent, h')
    ] in
      IsNearer n s.phase h'
unfolding with_queue
after_receive n q sent h none r on near = record {
  served = on;
  near =
      let empty : length (h.queue q) ≡ 0 = ap length (receive_empty q h r) in omega (arith, empty);
}
after_receive n q sent h (some (e, h')) r on near =
    let t = receive-IsTaken q h h' e r in
    subst (IsNearer n (holding q e)) (sym t.hub) (record {
      served = on;
      near =
          let more : length (h.queue q) ≡ length (e ∷ t.rest) = ap length t.first in
          let rest : length (with_queue q t.rest h.queue q) ≡ length t.rest =
            ap length (own q t.rest h.queue) in
          omega (arith, near, more, rest);
    })

resume-IsNearer :
    (n : ℕ) (p : Phase) (sent : List Item) (h : Hub)
    → IsNearer (suc n) p h
    → let (s, h') = resume false p sent h in IsNearer n s.phase h'
unfolding resume
resume-IsNearer n unopened sent h i = absurd (false_ne i.served)
resume-IsNearer n (replaying items) sent h i = absurd (false_ne i.served)
resume-IsNearer n (live q) sent h i = after_receive n q sent h (receive q h) refl i.served i.near
resume-IsNearer n (holding q e) sent h i = record {
  served = i.served;
  near = omega (arith, i.near);
}
resume-IsNearer n (left q) sent h i = absurd (false_ne i.served)
resume-IsNearer n ended sent h i = absurd (false_ne i.served)

-- The connection after turns enough for what is pending.
idle : (p : Phase) (h : Hub) → IsNearer 0 p h → pending p h ≡ []
idle unopened h i = refl
idle (replaying items) h i = refl
idle (live q) h i = ground (arith, i.near)
idle (holding q e) h i = absurd (omega (arith, i.near))
idle (left q) h i = refl
idle ended h i = refl

turns-idle :
    (n : ℕ) (p : Phase) (sent : List Item) (h : Hub)
    → IsNearer n p h
    → let (s, h') = turns n p sent h in (pending s.phase h' ≡ []) × (is_served s.phase h' ≡ true)
unfolding turns
turns-idle zero p sent h i = (idle p h i, i.served)
turns-idle (suc n) p sent h i =
    let (s, h') = resume false p sent h in
    turns-idle n s.phase s.sent h' (resume-IsNearer n p sent h i)

turns-Follows :
    (start : List Item) (es : List OverlayEvent) (n : ℕ) (p : Phase) (sent : List Item) (h : Hub)
    → Follows start es p sent h
    → let (s, h') = turns n p sent h in Follows start es s.phase s.sent h'
unfolding turns
turns-Follows start es zero p sent h f = f
turns-Follows start es (suc n) p sent h f =
    let (s, h') = resume false p sent h in
    turns-Follows start es n s.phase s.sent h' (resume-Follows start es false p sent h f)

-- Of a connection with nothing pending that is served.
all_sent :
    (start : List Item) (es : List OverlayEvent) (p : Phase) (sent : List Item) (h : Hub)
    → pending p h ≡ []
    → is_served p h ≡ true
    → Follows start es p sent h
    → sent ≡ start ++ map live_item es
all_sent start es p sent h empty on f =
    let whole : es ≡ f.read =
      f.all
      ∙ ap (λ l. f.read ++ (l ++ f.lost)) empty
      ∙ ap (λ l. f.read ++ l) (f.served on)
      ∙ append-nil f.read in
    f.frames ∙ ap (λ l. start ++ map live_item l) (sym whole)

-- As many turns as a full queue and an event in hand need.
abbrev pub enough : ℕ
enough = 2 * maxsize + 1

start-IsNearer :
    (p : Phase) (h : Hub) → Sound.IsSound h → is_served p h ≡ true → IsNearer enough p h
start-IsNearer unopened h s on = absurd (false_ne on)
start-IsNearer (replaying items) h s on = absurd (false_ne on)
start-IsNearer (live q) h s on = record { served = on; near = omega (arith, s.bounded q) }
start-IsNearer (holding q e) h s on = record { served = on; near = omega (arith, s.bounded q) }
start-IsNearer (left q) h s on = absurd (false_ne on)
start-IsNearer ended h s on = absurd (false_ne on)

-- A connection that subscribes, in a world that is sound, and that the hub still serves after any
-- steps of all connections and any broadcasts: after 101 turns of its own in which its client is
-- there it has been sent, after its replay, a frame for every event that was broadcast since the
-- subscription, in the order of the broadcasts, and no other.
pub stream_sent :
    (w : World) (c : ℕ) (gone : Bool) {v : World} {es : List OverlayEvent}
    → IsSound w
    → (w.stream c).phase ≡ replaying []
    → Run (put c (resume gone (w.stream c).phase (w.stream c).sent w.hub) w) es v
    → is_served (v.stream c).phase v.hub ≡ true
    → (turns enough (v.stream c).phase (v.stream c).sent v.hub).0.sent
      ≡ (w.stream c).sent ++ map live_item es
stream_sent w c gone {v} {es} i p r on =
    let sound = Run-IsSound (Step-IsSound (resumed w c gone) i) r in
    let f = stream-Follows w c gone i p r in
    let phase = (v.stream c).phase in
    let sent = (v.stream c).sent in
    let h = v.hub in
    let start = (w.stream c).sent in
    let (empty, served) = turns-idle enough phase sent h (start-IsNearer phase h sound.hub on) in
    let (s, h') = turns enough phase sent h in
    all_sent start es s.phase s.sent h' empty served (turns-Follows start es enough phase sent h f)
