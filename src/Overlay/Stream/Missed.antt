-- ===== src/Overlay/Stream/Missed.antt =====
-- routes/sse.py: what a connection is sent, from its opening on, and what it misses.
use selfhost_tip_overlay.Prelude.{
  ℕ, ◌<◌, String, ◌≡◌, refl, sym, ap, ◌∙◌, Bool, true, false, Option, none, some, List, [], ◌∷◌,
  ◌++◌, map, count, arith, ◌==◌, Bool-cases, inl, inr, All, All-mono,
}
use mathlib.Core.Path.{subst}
use mathlib.Core.List.{append-nil, append_assoc}
use selfhost_tip_overlay.Contracts.{OverlayEvent}
use selfhost_tip_overlay.Db.Schema.{Db, max_seq}
use selfhost_tip_overlay.Broadcaster.{Hub, receive}
use selfhost_tip_overlay.Broadcaster.Delivery.{is-eq}
use selfhost_tip_overlay.Overlay.{Item, live_item, replayed_items}
use selfhost_tip_overlay.Overlay.Reconnect.{is_item}
use selfhost_tip_overlay.Overlay.Gap.{not_replayed}
use selfhost_tip_overlay.Overlay.Stream.{
  Phase, unopened, replaying, live, holding, left, ended, Stream, World, with_stream, at, put,
  resume, cancel, shown, opened, resumed, cancelled, Run, here, next,
}
use selfhost_tip_overlay.Overlay.Stream.Sound.{IsSound, Step-IsSound, Run-IsSound}
use selfhost_tip_overlay.Overlay.Stream.Follows.{is_served}
use selfhost_tip_overlay.Overlay.Stream.Drain.{turns, enough, stream_sent}

-- A connection that is open, and that has been sent the rows that it has not still to replay.
abbrev IsReplay : List Item → Phase → List Item → Type 0
IsReplay items unopened sent = true ≡ false
IsReplay items (replaying rest) sent = sent ++ rest ≡ items
IsReplay items (live q) sent = Unit
IsReplay items (holding q e) sent = Unit
IsReplay items (left q) sent = Unit
IsReplay items ended sent = Unit

live-IsReplay :
    (items : List Item) (q : ℕ) (sent : List Item) (h : Hub) (o : Option (OverlayEvent × Hub))
    → let s =
        (elim o as (λ o. Stream × Hub) [
          | none ↦ (at (live q) sent, h)
          | some (e, h') ↦ (at (holding q e) sent, h')
        ]).0 in
      IsReplay items s.phase s.sent
live-IsReplay items q sent h none = tt
live-IsReplay items q sent h (some (e, h')) = tt

resume-IsReplay :
    (items : List Item) (gone : Bool) (p : Phase) (sent : List Item) (h : Hub)
    → IsReplay items p sent
    → let s = (resume gone p sent h).0 in IsReplay items s.phase s.sent
unfolding resume
resume-IsReplay items gone unopened sent h r = r
resume-IsReplay items true (replaying (x ∷ rest)) sent h r = tt
resume-IsReplay items false (replaying (x ∷ rest)) sent h r = append_assoc sent (x ∷ []) rest ∙ r
resume-IsReplay items gone (replaying []) sent h r = tt
resume-IsReplay items gone (live q) sent h r = live-IsReplay items q sent h (receive q h)
resume-IsReplay items true (holding q e) sent h r = tt
resume-IsReplay items false (holding q e) sent h r = tt
resume-IsReplay items gone (left q) sent h r = tt
resume-IsReplay items gone ended sent h r = tt

cancel-IsReplay :
    (items : List Item) (at_get : Bool) (p : Phase) (sent : List Item) (h : Hub)
    → IsReplay items p sent
    → let s = (cancel at_get p sent h).0 in IsReplay items s.phase s.sent
unfolding cancel
cancel-IsReplay items at_get unopened sent h r = r
cancel-IsReplay items at_get (replaying rest) sent h r = tt
cancel-IsReplay items true (live q) sent h r = tt
cancel-IsReplay items false (live q) sent h r = tt
cancel-IsReplay items at_get (holding q e) sent h r = tt
cancel-IsReplay items at_get (left q) sent h r = tt
cancel-IsReplay items at_get ended sent h r = tt

module _ (items : List Item) (c : ℕ) where
  abbrev Replays : World → Type 0
  Replays w = IsReplay items (w.stream c).phase (w.stream c).sent

  put-Replays :
      (w : World) (d : ℕ) (s : Stream) (h : Hub)
      → (IsReplay items (w.stream d).phase (w.stream d).sent → IsReplay items s.phase s.sent)
      → Replays w
      → Replays (put d (s, h) w)
  unfolding with_stream
  put-Replays w d s h step f = elim (Bool-cases (c == d)) [
    | inl y ↦
        rw y
          (step (subst (λ c. IsReplay items (w.stream c).phase (w.stream c).sent) (is-eq c d y) f))
    | inr n ↦ rw n f
  ]

  Run-Replays : {w v : World} {es : List OverlayEvent} → Run w es v → Replays w → Replays v
  Run-Replays here f = f
  Run-Replays (next r (shown w e)) f = Run-Replays r f
  Run-Replays (next r (opened w d last_event_id db p)) f =
      put-Replays w d (at (replaying (replayed_items last_event_id db)) []) w.hub
        (λ g. let no : true ≡ false = subst (λ p. IsReplay items p (w.stream d).sent) p g in cc)
        (Run-Replays r f)
  Run-Replays (next r (resumed w d gone)) f =
      let (s, h) = resume gone (w.stream d).phase (w.stream d).sent w.hub in
      put-Replays w d s h (resume-IsReplay items gone (w.stream d).phase (w.stream d).sent w.hub)
        (Run-Replays r f)
  Run-Replays (next r (cancelled w d at_get)) f =
      let (s, h) = cancel at_get (w.stream d).phase (w.stream d).sent w.hub in
      put-Replays w d s h (cancel-IsReplay items at_get (w.stream d).phase (w.stream d).sent w.hub)
        (Run-Replays r f)

  replayed :
      (p : Phase) (sent : List Item) → p ≡ replaying [] → IsReplay items p sent → sent ≡ items
  replayed p sent e r = sym (append-nil sent) ∙ subst (λ p. IsReplay items p sent) e r

abbrev pub opening : ℕ → Option String → Db → World → World
opening c last_event_id db w = put c (at (replaying (replayed_items last_event_id db)) [], w.hub) w

-- A connection is opened in a world that is sound, on a table that its replay is read from. Events are
-- broadcast, under numbers above those of the table, while the replay is sent, and more of them
-- after the connection has subscribed, among any steps of all connections; the hub still serves the
-- connection then. After 101 turns of its own in which its client is there, it has been sent its
-- replay and the events since the subscription, in order; none of the events before it is in its
-- replay, so these are not sent to it unless they are broadcast again.
pub lost_event :
    (w : World) (c : ℕ) (last_event_id : Option String) (db : Db) (gone : Bool)
    {missed es : List OverlayEvent} {v u : World}
    → IsSound w
    → (w.stream c).phase ≡ unopened
    → Run (opening c last_event_id db w) missed v
    → (v.stream c).phase ≡ replaying []
    → All (λ e. max_seq db.tips < e.event_seq) missed
    → Run (put c (resume gone (v.stream c).phase (v.stream c).sent v.hub) v) es u
    → is_served (u.stream c).phase u.hub ≡ true
    → ((turns enough (u.stream c).phase (u.stream c).sent u.hub).0.sent
        ≡ replayed_items last_event_id db ++ map live_item es)
      × All
          (λ e. count (is_item e.charge_id e.event_seq) (replayed_items last_event_id db) ≡ 0)
          missed
unfolding with_stream
lost_event w c last_event_id db gone {missed} {es} i p r e above r' on =
    let items = replayed_items last_event_id db in
    let begun : Replays items c (opening c last_event_id db w) =
      let same : c == c ≡ true = ground arith in rw same refl in
    let sent = replayed items c _ _ e (Run-Replays items c r begun) in
    let sound = Run-IsSound (Step-IsSound (opened w c last_event_id db p) i) r in
    (
      stream_sent _ c gone sound e r' on ∙ ap (λ l. l ++ map live_item es) sent,
      All-mono (λ e. max_seq db.tips < e.event_seq) _ missed
          (λ e a. not_replayed last_event_id e.charge_id e.event_seq db a) above,
    )
