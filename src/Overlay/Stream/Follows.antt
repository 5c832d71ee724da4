-- ===== src/Overlay/Stream/Follows.antt =====
-- routes/sse.py, app/sse_broadcaster.py: what a live connection is sent, against what is broadcast.
use selfhost_tip_overlay.Prelude.{
  ℕ, ◌≡◌, refl, sym, ap, ◌∙◌, ◌≢◌, Bool, true, false, not, ◌&&◌, Option, none, some, List, [], ◌∷◌,
  ◌++◌, map, arith, Bool-cases, inl, inr,
}
use mathlib.Core.Path.{subst}
use mathlib.Core.List.{append_assoc, append-nil, map-append}
use selfhost_tip_overlay.Contracts.{OverlayEvent}
use selfhost_tip_overlay.Broadcaster.{Hub, is_full, receive, closed, broadcast, with_queue}
use selfhost_tip_overlay.Broadcaster.Delivery.{has, broadcast_delivery}
use selfhost_tip_overlay.Broadcaster.Sound
use selfhost_tip_overlay.Broadcaster.Sound.{Aside, IsTaken, receive-IsTaken}
use selfhost_tip_overlay.Overlay.{Item, live_item}
use selfhost_tip_overlay.Overlay.Stream.{
  Phase, unopened, replaying, live, holding, left, ended, Stream, at, resume, cancel,
}
use selfhost_tip_overlay.Overlay.Stream.Sound.{queue_of}

-- The events that have reached a connection and were not sent yet.
abbrev pub pending : Phase → Hub → List OverlayEvent
pending unopened h = []
pending (replaying items) h = []
pending (live q) h = h.queue q
pending (holding q e) h = e ∷ h.queue q
pending (left q) h = []
pending ended h = []

-- A connection that the hub still serves.
abbrev pub is_served : Phase → Hub → Bool
is_served unopened h = false
is_served (replaying items) h = false
is_served (live q) h = has q h.subscribers
is_served (holding q e) h = has q h.subscribers
is_served (left q) h = false
is_served ended h = false

-- A connection that is past its replay.
abbrev pub is_subscribed : Phase → Bool
is_subscribed unopened = false
is_subscribed (replaying items) = false
is_subscribed (live q) = true
is_subscribed (holding q e) = true
is_subscribed (left q) = true
is_subscribed ended = true

-- Of the events that were broadcast since the subscription, the first have been sent, each once and
-- in order, the next are pending, and the rest is lost, of which a connection that is served has none.
pub record Follows (start : List Item) (es : List OverlayEvent) (p : Phase) (sent : List Item)
    (h : Hub) : Type 0 where
  pub read : List OverlayEvent
  pub lost : List OverlayEvent
  pub all : es ≡ read ++ (pending p h ++ lost)
  pub frames : sent ≡ start ++ map live_item read
  pub served : is_served p h ≡ true → lost ≡ []
  pub subscribed : is_subscribed p ≡ true

pub false_ne : false ≢ true
false_ne e = cc

pub own :
    (q : ℕ) (l : List OverlayEvent) (queue : ℕ → List OverlayEvent) → with_queue q l queue q ≡ l
unfolding with_queue
own q l queue = ground arith

-- What another connection leaves as it was.
module _ (h h' : Hub) where
  pending-Aside :
      (p : Phase) → ((q : ℕ) → queue_of p ≡ some q → Aside q h h') → pending p h' ≡ pending p h
  pending-Aside unopened a = refl
  pending-Aside (replaying items) a = refl
  pending-Aside (live q) a = (a q refl).queue
  pending-Aside (holding q e) a = ap (λ l. e ∷ l) (a q refl).queue
  pending-Aside (left q) a = refl
  pending-Aside ended a = refl

  is_served-Aside :
      (p : Phase) → ((q : ℕ) → queue_of p ≡ some q → Aside q h h') → is_served p h' ≡ is_served p h
  is_served-Aside unopened a = refl
  is_served-Aside (replaying items) a = refl
  is_served-Aside (live q) a = (a q refl).subscribed
  is_served-Aside (holding q e) a = (a q refl).subscribed
  is_served-Aside (left q) a = refl
  is_served-Aside ended a = refl

module _ (start : List Item) (es : List OverlayEvent) where
  -- A connection that ends loses what is pending.
  leaving :
      (p p' : Phase) (sent : List Item) (h h' : Hub)
      → pending p' h' ≡ []
      → is_served p' h' ≡ false
      → is_subscribed p' ≡ true
      → Follows start es p sent h
      → Follows start es p' sent h'
  leaving p p' sent h h' empty off on f = record {
    read = f.read;
    lost = pending p h ++ f.lost;
    all = rw empty f.all;
    frames = f.frames;
    served = λ y. cc;
    subscribed = on;
  }

  sending :
      (q : ℕ) (e : OverlayEvent) (sent : List Item) (h : Hub)
      → Follows start es (holding q e) sent h
      → Follows start es (live q) (sent ++ live_item e ∷ []) h
  sending q e sent h f = record {
    read = f.read ++ e ∷ [];
    lost = f.lost;
    all = f.all ∙ sym (append_assoc f.read (e ∷ []) (h.queue q ++ f.lost));
    frames =
        ap (λ l. l ++ live_item e ∷ []) f.frames
        ∙ append_assoc start (map live_item f.read) (live_item e ∷ [])
        ∙ ap (λ l. start ++ l) (sym (map-append live_item f.read (e ∷ [])));
    served = f.served;
    subscribed = refl;
  }

  taking :
      (q : ℕ) (e : OverlayEvent) (sent : List Item) (h h' : Hub)
      → IsTaken q h h' e
      → Follows start es (live q) sent h
      → Follows start es (holding q e) sent h'
  unfolding with_queue
  taking q e sent h h' t f = subst (Follows start es (holding q e) sent) (sym t.hub) (record {
    read = f.read;
    lost = f.lost;
    all =
        f.all
        ∙ ap (λ l. f.read ++ (l ++ f.lost))
            (t.first ∙ ap (λ l. e ∷ l) (sym (own q t.rest h.queue)));
    frames = f.frames;
    served = f.served;
    subscribed = refl;
  })

  receiving :
      (q : ℕ) (sent : List Item) (h : Hub) (o : Option (OverlayEvent × Hub))
      → receive q h ≡ o
      → Follows start es (live q) sent h
      → let (s, h') = elim o as (λ o. Stream × Hub) [
        | none ↦ (at (live q) sent, h)
        | some (e, h') ↦ (at (holding q e) sent, h')
      ] in
        Follows start es s.phase s.sent h'
  receiving q sent h none r f = f
  receiving q sent h (some (e, h')) r f = taking q e sent h h' (receive-IsTaken q h h' e r) f

  pub resume-Follows :
      (gone : Bool) (p : Phase) (sent : List Item) (h : Hub)
      → Follows start es p sent h
      → let (s, h') = resume gone p sent h in Follows start es s.phase s.sent h'
  unfolding resume
  resume-Follows gone unopened sent h f = f
  resume-Follows gone (replaying (x ∷ items)) sent h f = absurd (false_ne f.subscribed)
  resume-Follows gone (replaying []) sent h f = absurd (false_ne f.subscribed)
  resume-Follows gone (live q) sent h f = receiving q sent h (receive q h) refl f
  resume-Follows true (holding q e) sent h f =
      leaving (holding q e) (left q) sent h h refl refl refl f
  resume-Follows false (holding q e) sent h f = sending q e sent h f
  resume-Follows gone (left q) sent h f =
      leaving (left q) ended sent h (closed q h) refl refl refl f
  resume-Follows gone ended sent h f = f

  pub cancel-Follows :
      (at_get : Bool) (p : Phase) (sent : List Item) (h : Hub)
      → Follows start es p sent h
      → let (s, h') = cancel at_get p sent h in Follows start es s.phase s.sent h'
  unfolding cancel
  cancel-Follows at_get unopened sent h f = f
  cancel-Follows at_get (replaying items) sent h f = absurd (false_ne f.subscribed)
  cancel-Follows true (live q) sent h f =
      leaving (live q) ended sent h (closed q h) refl refl refl f
  cancel-Follows false (live q) sent h f = leaving (live q) (left q) sent h h refl refl refl f
  cancel-Follows at_get (holding q e) sent h f =
      leaving (holding q e) (left q) sent h h refl refl refl f
  cancel-Follows at_get (left q) sent h f = f
  cancel-Follows at_get ended sent h f = f

  -- Another connection's step.
  pub Aside-Follows :
      (p : Phase) (sent : List Item) (h h' : Hub)
      → ((q : ℕ) → queue_of p ≡ some q → Aside q h h')
      → Follows start es p sent h
      → Follows start es p sent h'
  Aside-Follows p sent h h' a f = record {
    read = f.read;
    lost = f.lost;
    all = rw (pending-Aside h h' p a) f.all;
    frames = f.frames;
    served = λ y. f.served (sym (is_served-Aside h h' p a) ∙ y);
    subscribed = f.subscribed;
  }

  -- A broadcast that does not reach the connection.
  missing :
      (e : OverlayEvent) (p : Phase) (sent : List Item) (h h' : Hub)
      → pending p h' ≡ pending p h
      → is_served p h' ≡ false
      → Follows start es p sent h
      → Follows start (es ++ e ∷ []) p sent h'
  missing e p sent h h' same off f = record {
    read = f.read;
    lost = f.lost ++ e ∷ [];
    all =
        ap (λ l. l ++ e ∷ []) f.all
        ∙ append_assoc f.read (pending p h ++ f.lost) (e ∷ [])
        ∙ ap (λ l. f.read ++ l)
            (append_assoc (pending p h) f.lost (e ∷ [])
              ∙ ap (λ l. l ++ (f.lost ++ e ∷ [])) (sym same));
    frames = f.frames;
    served = λ y. cc;
    subscribed = f.subscribed;
  }

  gaining :
      (e : OverlayEvent) (p : Phase) (sent : List Item) (h h' : Hub)
      → pending p h' ≡ pending p h ++ e ∷ []
      → is_served p h ≡ true
      → Follows start es p sent h
      → Follows start (es ++ e ∷ []) p sent h'
  gaining e p sent h h' more on f = record {
    read = f.read;
    lost = [];
    all =
        ap (λ l. l ++ e ∷ []) (f.all ∙ ap (λ l. f.read ++ (pending p h ++ l)) (f.served on))
        ∙ ap (λ l. (f.read ++ l) ++ e ∷ []) (append-nil (pending p h))
        ∙ append_assoc f.read (pending p h) (e ∷ [])
        ∙ ap (λ l. f.read ++ l)
            (sym (append-nil (pending p h ++ e ∷ [])) ∙ ap (λ l. l ++ []) (sym more));
    frames = f.frames;
    served = λ y. refl;
    subscribed = f.subscribed;
  }

  module _ (e : OverlayEvent) (h : Hub) (sound : Sound.IsSound h) where
    reaching :
        (q : ℕ) (p : Phase) (sent : List Item)
        → ((h' : Hub) → is_served p h' ≡ has q h'.subscribers)
        → ((h' : Hub) (l : List OverlayEvent)
            → h'.queue q ≡ h.queue q ++ l
            → pending p h' ≡ pending p h ++ l)
        → Follows start es p sent h
        → Follows start (es ++ e ∷ []) p sent (broadcast e h)
    reaching q p sent on at_queue f =
        let (queue, subs) = broadcast_delivery e h q sound.distinct in
        elim (Bool-cases (has q h.subscribers && not (is_full (h.queue q)))) [
          | inl y ↦
              gaining e p sent h (broadcast e h)
                (at_queue (broadcast e h) (e ∷ []) (queue ∙ rw y refl)) (on h ∙ ground (arith, y)) f
          | inr n ↦
              missing e p sent h (broadcast e h)
                (at_queue (broadcast e h) [] (queue ∙ rw n (sym (append-nil (h.queue q))))
                  ∙ append-nil (pending p h))
                (on (broadcast e h) ∙ subs ∙ n) f
        ]

    pub broadcast-Follows :
        (p : Phase) (sent : List Item)
        → Follows start es p sent h
        → Follows start (es ++ e ∷ []) p sent (broadcast e h)
    broadcast-Follows unopened sent f = absurd (false_ne f.subscribed)
    broadcast-Follows (replaying items) sent f = absurd (false_ne f.subscribed)
    broadcast-Follows (live q) sent f = reaching q (live q) sent (λ h'. refl) (λ h' l m. m) f
    broadcast-Follows (holding q x) sent f =
        reaching q (holding q x) sent (λ h'. refl) (λ h' l m. ap (λ k. x ∷ k) m) f
    broadcast-Follows (left q) sent f = missing e (left q) sent h (broadcast e h) refl refl f
    broadcast-Follows ended sent f = missing e ended sent h (broadcast e h) refl refl f
