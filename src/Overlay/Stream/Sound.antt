-- ===== src/Overlay/Stream/Sound.antt =====
-- routes/sse.py, app/sse_broadcaster.py: what holds of the hub and the connections between two steps.
use selfhost_tip_overlay.Prelude.{
  ℕ, ◌≤◌, ◌<◌, ◌≡◌, refl, sym, ap, ◌∙◌, ◌≢◌, Bool, true, false, Option, none, some, List, [], ◌∷◌,
  arith, ◌==◌, Bool-cases, inl, inr, ◌⊎◌,
}
use mathlib.Core.Path.{subst}
use selfhost_tip_overlay.Broadcaster.Delivery.{is-eq}
use selfhost_tip_overlay.Contracts.{OverlayEvent}
use selfhost_tip_overlay.Broadcaster.{Hub, subscribe, receive, closed, broadcast}
use selfhost_tip_overlay.Broadcaster.Sound
use selfhost_tip_overlay.Broadcaster.Sound.{
  Aside, IsTaken, subscribe-Aside, receive-Aside, closed-Aside, receive-IsTaken, receive-IsSound,
  subscribe-IsSound, closed-IsSound, closed_next, broadcast-IsSound,
}
use selfhost_tip_overlay.Overlay.{Item}
use selfhost_tip_overlay.Overlay.Stream.{
  Phase, unopened, replaying, live, holding, left, ended, Stream, World, with_stream, put, at,
  resume, cancel, Step, shown, opened, resumed, cancelled, Run, here, next,
}

-- The queue that a connection reads, or has still to remove.
abbrev pub queue_of : Phase → Option ℕ
queue_of unopened = none
queue_of (replaying items) = none
queue_of (live q) = some q
queue_of (holding q e) = some q
queue_of (left q) = some q
queue_of ended = none

-- What a step of one connection does to the hub.
pub record Move (p : Phase) (h : Hub) (p' : Phase) (h' : Hub) : Type 0 where
  pub hub : Sound.IsSound h'
  pub later : h.next ≤ h'.next
  pub owner :
      (q : ℕ) → queue_of p' ≡ some q → (queue_of p ≡ some q) ⊎ ((q ≡ h.next) × (h.next < h'.next))
  pub aside : (q : ℕ) → q < h.next → queue_of p ≢ some q → Aside q h h'

pub still :
    (p p' : Phase) (h : Hub)
    → Sound.IsSound h
    → (queue_of p' ≡ none) ⊎ (queue_of p' ≡ queue_of p)
    → Move p h p' h
still p p' h s o = record {
  hub = s;
  later = omega arith;
  owner = λ q e. ground (arith, o, e);
  aside = λ q old other. record { queue = refl; subscribed = refl };
}

closing :
    (p : Phase) (q : ℕ) (h : Hub)
    → queue_of p ≡ some q
    → Sound.IsSound h
    → Move p h ended (closed q h)
closing p q h own s = record {
  hub = closed-IsSound q h s;
  later = omega (arith, closed_next q h);
  owner = λ j e. cc;
  aside = λ j old other. closed-Aside j q h (λ e. other (own ∙ ap some (sym e))) s;
}

opening : (h : Hub) → Sound.IsSound h → Move (replaying []) h (live (subscribe h).0) (subscribe h).1
unfolding subscribe
opening h s = record {
  hub = subscribe-IsSound h s;
  later = omega arith;
  owner = λ q e. inr (cc, omega arith);
  aside = λ q old other. subscribe-Aside q h old;
}

receiving :
    (q : ℕ) (sent : List Item) (h : Hub) (o : Option (OverlayEvent × Hub))
    → receive q h ≡ o
    → Sound.IsSound h
    → let (s, h') = elim o as (λ o. Stream × Hub) [
      | none ↦ (at (live q) sent, h)
      | some (e, h') ↦ (at (holding q e) sent, h')
    ] in
      Move (live q) h s.phase h'
receiving q sent h none r s = still (live q) (live q) h s (inr refl)
receiving q sent h (some (e, h')) r s =
    let t = receive-IsTaken q h h' e r in
    record {
      hub = receive-IsSound q h h' e t s;
      later = subst (λ g. h.next ≤ g.next) (sym t.hub) (omega arith);
      owner = λ j e. inl e;
      aside = λ j old other. receive-Aside j q h h' e (λ e. other (ap some (sym e))) t;
    }

pub resume-Move :
    (gone : Bool) (p : Phase) (sent : List Item) (h : Hub)
    → Sound.IsSound h
    → let (s, h') = resume gone p sent h in Move p h s.phase h'
unfolding resume
resume-Move gone unopened sent h s = still unopened unopened h s (inl refl)
resume-Move true (replaying (x ∷ items)) sent h s =
    still (replaying (x ∷ items)) ended h s (inl refl)
resume-Move false (replaying (x ∷ items)) sent h s =
    still (replaying (x ∷ items)) (replaying items) h s (inl refl)
resume-Move gone (replaying []) sent h s = opening h s
resume-Move gone (live q) sent h s = receiving q sent h (receive q h) refl s
resume-Move true (holding q e) sent h s = still (holding q e) (left q) h s (inr refl)
resume-Move false (holding q e) sent h s = still (holding q e) (live q) h s (inr refl)
resume-Move gone (left q) sent h s = closing (left q) q h refl s
resume-Move gone ended sent h s = still ended ended h s (inl refl)

pub cancel-Move :
    (at_get : Bool) (p : Phase) (sent : List Item) (h : Hub)
    → Sound.IsSound h
    → let (s, h') = cancel at_get p sent h in Move p h s.phase h'
unfolding cancel
cancel-Move at_get unopened sent h s = still unopened unopened h s (inl refl)
cancel-Move at_get (replaying items) sent h s = still (replaying items) ended h s (inl refl)
cancel-Move true (live q) sent h s = closing (live q) q h refl s
cancel-Move false (live q) sent h s = still (live q) (left q) h s (inr refl)
cancel-Move at_get (holding q e) sent h s = still (holding q e) (left q) h s (inr refl)
cancel-Move at_get (left q) sent h s = still (left q) (left q) h s (inr refl)
cancel-Move at_get ended sent h s = still ended ended h s (inl refl)

-- No two connections have one queue, and each queue was given out by the hub.
pub record IsSound (w : World) : Type 0 where
  pub hub : Sound.IsSound w.hub
  pub owned : (c q : ℕ) → queue_of (w.stream c).phase ≡ some q → q < w.hub.next
  pub apart :
      (c d q : ℕ)
      → queue_of (w.stream c).phase ≡ some q
      → queue_of (w.stream d).phase ≡ some q
      → c ≡ d

-- Which connection has the queue after a step of one.
queue_put :
    (w : World) (c : ℕ) (s : Stream) (h : Hub) (d q : ℕ)
    → queue_of ((put c (s, h) w).stream d).phase ≡ some q
    → ((d ≡ c) × (queue_of s.phase ≡ some q)) ⊎ ((d ≢ c) × (queue_of (w.stream d).phase ≡ some q))
unfolding with_stream
queue_put w c s h d q e = elim (Bool-cases (d == c)) [
  | inl y ↦ inl (is-eq d c y, rw y at e)
  | inr n ↦ inr (ground (arith, n), rw n at e)
]

put-IsSound :
    (w : World) (c : ℕ) (s : Stream) (h : Hub)
    → Move (w.stream c).phase w.hub s.phase h
    → IsSound w
    → IsSound (put c (s, h) w)
put-IsSound w c s h m i = record {
  hub = m.hub;
  owned = λ d q e. elim (queue_put w c s h d q e) [
    | inl (same, own) ↦ elim (m.owner q own) [
      | inl old ↦ omega (arith, m.later, i.owned c q old)
      | inr (new, grown) ↦ omega (arith, new, grown)
    ]
    | inr (other, own) ↦ omega (arith, m.later, i.owned d q own)
  ];
  apart = λ d f q e g. elim (queue_put w c s h d q e) [
    | inl (same, own) ↦ elim (queue_put w c s h f q g) [
      | inl (same', own') ↦ same ∙ sym same'
      | inr (other', own') ↦ absurd (other' (clash q f own own'))
    ]
    | inr (other, own) ↦ elim (queue_put w c s h f q g) [
      | inl (same', own') ↦ absurd (other (clash q d own' own))
      | inr (other', own') ↦ i.apart d f q own own'
    ]
  ];
}
  where
    clash : (q f : ℕ) → queue_of s.phase ≡ some q → queue_of (w.stream f).phase ≡ some q → f ≡ c
    clash q f own own' = elim (m.owner q own) [
      | inl old ↦ i.apart f c q own' old
      | inr (new, grown) ↦ absurd (omega (arith, new, i.owned f q own'))
    ]

pub Step-IsSound : {w v : World} {es : List OverlayEvent} → Step w es v → IsSound w → IsSound v
unfolding broadcast
Step-IsSound (shown w e) i = record {
  hub = broadcast-IsSound e w.hub i.hub;
  owned = i.owned;
  apart = i.apart;
}
Step-IsSound (opened w c last_event_id db p) i =
    put-IsSound w c _ w.hub (still _ _ w.hub i.hub (inl refl)) i
Step-IsSound (resumed w c gone) i =
    put-IsSound w c _ _ (resume-Move gone (w.stream c).phase (w.stream c).sent w.hub i.hub) i
Step-IsSound (cancelled w c at_get) i =
    put-IsSound w c _ _ (cancel-Move at_get (w.stream c).phase (w.stream c).sent w.hub i.hub) i

-- Whatever steps run, in whatever order, from a world that is sound, the world is sound after them:
-- the connections read different queues, which the hub has given out; the hub has no subscriber
-- twice; and no queue holds more than 50 events.
pub Run-IsSound : {w v : World} {es : List OverlayEvent} → IsSound w → Run w es v → IsSound v
Run-IsSound i here = i
Run-IsSound i (next r s) = Step-IsSound s (Run-IsSound i r)
