-- ===== src/Overlay/Stream/Keeps.antt =====
-- routes/sse.py, app/sse_broadcaster.py: what a connection is sent over any steps of all of them.
use selfhost_tip_overlay.Prelude.{
  ℕ, ◌≡◌, refl, sym, ap, ◌∙◌, Bool, true, List, [], ◌++◌, arith, ◌==◌, Bool-cases, inl, inr,
}
use mathlib.Core.Path.{subst}
use mathlib.Core.List.{append-nil}
use selfhost_tip_overlay.Contracts.{OverlayEvent}
use selfhost_tip_overlay.Broadcaster.{Hub, subscribe, with_queue}
use selfhost_tip_overlay.Broadcaster.Delivery.{is-eq}
use selfhost_tip_overlay.Overlay.{Item}
use selfhost_tip_overlay.Overlay.Stream.{
  Phase, replaying, Stream, World, with_stream, put, resume, Step, shown, opened, resumed,
  cancelled, Run, here, next,
}
use selfhost_tip_overlay.Overlay.Stream.Sound.{
  IsSound, Step-IsSound, Move, still, resume-Move, cancel-Move, Run-IsSound,
}
use selfhost_tip_overlay.Overlay.Stream.Follows.{
  Follows, is_subscribed, false_ne, resume-Follows, cancel-Follows, broadcast-Follows,
  Aside-Follows,
}

-- A connection of the world.
abbrev pub Keeps : List Item → List OverlayEvent → ℕ → World → Type 0
Keeps start es c w = Follows start es (w.stream c).phase (w.stream c).sent w.hub

module _ (start : List Item) (es : List OverlayEvent) (c : ℕ) where
  put-Keeps :
      (w : World) (d : ℕ) (s : Stream) (h : Hub)
      → IsSound w
      → Move (w.stream d).phase w.hub s.phase h
      → (Follows start es (w.stream d).phase (w.stream d).sent w.hub
          → Follows start es s.phase s.sent h)
      → Keeps start es c w
      → Keeps start es c (put d (s, h) w)
  unfolding with_stream
  put-Keeps w d s h i m step f = elim (Bool-cases (c == d)) [
    | inl y ↦ rw y (
        step (
          subst (λ c. Follows start es (w.stream c).phase (w.stream c).sent w.hub) (is-eq c d y) f))
    | inr n ↦ rw n (
        Aside-Follows start es (w.stream c).phase (w.stream c).sent w.hub h
          (λ q own. m.aside q (i.owned c q own) (λ own'. ground (arith, n, i.apart c d q own own')))
          f)
  ]

  Step-Keeps :
      {w v : World} {fs : List OverlayEvent}
      → IsSound w
      → Step w fs v
      → Keeps start es c w
      → Keeps start (es ++ fs) c v
  Step-Keeps i (shown w e) f =
      broadcast-Follows start es e w.hub i.hub (w.stream c).phase (w.stream c).sent f
  Step-Keeps i (opened w d last_event_id db p) f = rw (append-nil es) (
      put-Keeps w d _ _ i (still _ _ w.hub i.hub (inl refl))
        (λ g. absurd (false_ne (ap is_subscribed (sym p) ∙ g.subscribed))) f)
  Step-Keeps i (resumed w d gone) f = rw (append-nil es) (
      put-Keeps w d _ _ i (resume-Move gone (w.stream d).phase (w.stream d).sent w.hub i.hub)
        (resume-Follows start es gone (w.stream d).phase (w.stream d).sent w.hub) f)
  Step-Keeps i (cancelled w d at_get) f = rw (append-nil es) (
      put-Keeps w d _ _ i (cancel-Move at_get (w.stream d).phase (w.stream d).sent w.hub i.hub)
        (cancel-Follows start es at_get (w.stream d).phase (w.stream d).sent w.hub) f)

Run-Keeps :
    (start : List Item) (c : ℕ) {w v : World} {es : List OverlayEvent}
    → IsSound w
    → Run w es v
    → Keeps start [] c w
    → Keeps start es c v
Run-Keeps start c i here f = f
Run-Keeps start c i (next {es} r s) f =
    Step-Keeps start es c (Run-IsSound i r) s (Run-Keeps start c i r f)

begin :
    (gone : Bool) (p : Phase) (sent : List Item) (h : Hub)
    → p ≡ replaying []
    → let (s, h') = resume gone p sent h in Follows sent [] s.phase s.sent h'
unfolding resume subscribe with_queue
begin gone p sent h e = rw e (record {
  read = [];
  lost = [];
  all = ground arith;
  frames = sym (append-nil sent);
  served = λ y. refl;
  subscribed = refl;
})

begin-Keeps :
    (w : World) (c : ℕ) (gone : Bool)
    → (w.stream c).phase ≡ replaying []
    → Keeps
        (w.stream c).sent
        []
        c
        (put c (resume gone (w.stream c).phase (w.stream c).sent w.hub) w)
unfolding with_stream
begin-Keeps w c gone p =
    let same : c == c ≡ true = ground arith in
    rw same (begin gone (w.stream c).phase (w.stream c).sent w.hub p)

-- A connection that subscribes, in a world that is sound: whatever steps run from there, in whatever
-- order, what it has been sent since is a first part of what was broadcast since, each event once
-- and in order; what comes next is what is in its hand and in its queue; and while the hub serves
-- it that is all, so no event is missed.
pub stream-Follows :
    (w : World) (c : ℕ) (gone : Bool) {v : World} {es : List OverlayEvent}
    → IsSound w
    → (w.stream c).phase ≡ replaying []
    → Run (put c (resume gone (w.stream c).phase (w.stream c).sent w.hub) w) es v
    → Keeps (w.stream c).sent es c v
stream-Follows w c gone i p r =
    Run-Keeps (w.stream c).sent c (Step-IsSound (resumed w c gone) i) r (begin-Keeps w c gone p)
