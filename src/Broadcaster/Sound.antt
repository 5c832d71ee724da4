-- ===== src/Broadcaster/Sound.antt =====
-- app/sse_broadcaster.py: what holds of the hub between two steps, and what each operation does to
-- a queue that is not its own.
use selfhost_tip_overlay.Prelude.{
  ℕ, ◌≤◌, ◌<◌, ◌≡◌, refl, sym, ◌≢◌, true, false, Option, none, some, List, [], ◌∷◌, ◌++◌, arith,
  ◌==◌, length, length-append, if◌then◌else◌, Bool-cases, inl, inr,
}
use mathlib.Core.Path.{subst}
use selfhost_tip_overlay.Contracts.{OverlayEvent}
use selfhost_tip_overlay.Broadcaster.{
  Hub, maxsize, with_queue, subscribe, receive, close, closed, broadcast, remove_all, put_all,
}
use selfhost_tip_overlay.Broadcaster.Delivery.{
  has, Distinct, without, has-without, Distinct-without, broadcast_delivery,
}

pub record IsSound (h : Hub) : Type 0 where
  pub distinct : Distinct h.subscribers
  pub numbered : (j : ℕ) → has j h.subscribers ≡ true → j < h.next
  pub bounded : (j : ℕ) → length (h.queue j) ≤ maxsize

pub closed-without : (q : ℕ) (h : Hub) → (closed q h).subscribers ≡ without q h.subscribers
unfolding close
closed-without q h = ground arith

pub closed_queue : (q j : ℕ) (h : Hub) → (closed q h).queue j ≡ h.queue j
unfolding close
closed_queue q j h = ground arith

pub closed_next : (q : ℕ) (h : Hub) → (closed q h).next ≡ h.next
unfolding close
closed_next q h = ground arith

pub closed-IsSound : (q : ℕ) (h : Hub) → IsSound h → IsSound (closed q h)
closed-IsSound q h s = record {
  distinct = rw (closed-without q h) (Distinct-without q h.subscribers s.distinct);
  numbered = λ j y. rw (closed_next q h) (s.numbered j (kept j y));
  bounded = λ j. rw (closed_queue q j h) (s.bounded j);
}
  where
    kept : (j : ℕ) → has j (closed q h).subscribers ≡ true → has j h.subscribers ≡ true
    kept j y = ground (arith, closed-without q h, has-without q j h.subscribers s.distinct, y)

has-append : (j q : ℕ) (l : List ℕ) → has j (l ++ q ∷ []) ≡ (if q == j then true else has j l)
has-append j q [] = ground arith
has-append j q (k ∷ l) = ground (arith, has-append j q l)

Distinct-append : (q : ℕ) (l : List ℕ) → Distinct l → has q l ≡ false → Distinct (l ++ q ∷ [])
Distinct-append q [] d n = (refl, tt)
Distinct-append q (k ∷ l) d n =
    (ground (arith, has-append k q l, d, n), Distinct-append q l d.1 (ground (arith, n)))

pub subscribe-IsSound : (h : Hub) → IsSound h → IsSound (subscribe h).1
unfolding subscribe with_queue
subscribe-IsSound h s = record {
  distinct = Distinct-append h.next h.subscribers s.distinct not_next;
  numbered = λ j y. ground (arith, has-append j h.next h.subscribers, y, s.numbered j);
  bounded = λ j. ground (arith, s.bounded j);
}
  where
    not_next : has h.next h.subscribers ≡ false
    not_next = ground (arith, s.numbered h.next)

-- What was taken from the queue, and the hub without it.
pub record IsTaken (q : ℕ) (h h' : Hub) (e : OverlayEvent) : Type 0 where
  pub rest : List OverlayEvent
  pub first : h.queue q ≡ e ∷ rest
  pub hub : h' ≡ record h { queue = with_queue q rest h.queue }

taken :
    (l : List OverlayEvent) (q : ℕ) (h h' : Hub) (e : OverlayEvent)
    → elim l as (λ x. Option (OverlayEvent × Hub)) [
      | [] ↦ none
      | e ∷ rest ↦ some (e, record h { queue = with_queue q rest h.queue })
    ]
      ≡ some (e, h')
    → (rest : List OverlayEvent) × (l ≡ e ∷ rest)
      × (h' ≡ record h { queue = with_queue q rest h.queue })
taken [] q h h' e r = cc
taken (x ∷ rest) q h h' e r = (rest, cc, cc)

pub receive-IsTaken :
    (q : ℕ) (h h' : Hub) (e : OverlayEvent) → receive q h ≡ some (e, h') → IsTaken q h h' e
unfolding receive
receive-IsTaken q h h' e r =
    let (rest, first, hub) = taken (h.queue q) q h h' e r in
    record { rest = rest; first = first; hub = hub }

nothing :
    (l : List OverlayEvent) (q : ℕ) (h : Hub)
    → elim l as (λ x. Option (OverlayEvent × Hub)) [
      | [] ↦ none
      | e ∷ rest ↦ some (e, record h { queue = with_queue q rest h.queue })
    ]
      ≡ none
    → l ≡ []
nothing [] q h r = refl
nothing (x ∷ rest) q h r = cc

pub receive_empty : (q : ℕ) (h : Hub) → receive q h ≡ none → h.queue q ≡ []
unfolding receive
receive_empty q h r = nothing (h.queue q) q h r

pub receive-IsSound :
    (q : ℕ) (h h' : Hub) (e : OverlayEvent) → IsTaken q h h' e → IsSound h → IsSound h'
unfolding with_queue
receive-IsSound q h h' e t s = subst IsSound (sym t.hub) (record {
  distinct = s.distinct;
  numbered = s.numbered;
  bounded = λ j. elim (Bool-cases (j == q)) [
    | inl y ↦
        let fits : length (e ∷ t.rest) ≤ maxsize =
          subst (λ l. length l ≤ maxsize) t.first (s.bounded q) in
        rw y (omega (arith, fits))
    | inr n ↦ rw n (s.bounded j)
  ];
})

Distinct-remove_all : (dead subs : List ℕ) → Distinct subs → Distinct (remove_all dead subs)
unfolding remove_all
Distinct-remove_all [] subs d = d
Distinct-remove_all (q ∷ dead) subs d =
    Distinct-remove_all dead (without q subs) (Distinct-without q subs d)

pub broadcast-IsSound : (e : OverlayEvent) (h : Hub) → IsSound h → IsSound (broadcast e h)
unfolding broadcast
broadcast-IsSound e h s = record {
  distinct = Distinct-remove_all (put_all e h.subscribers h.queue).1 h.subscribers s.distinct;
  numbered = λ j y. s.numbered j (ground (arith, (broadcast_delivery e h j s.distinct).1, y));
  bounded = λ j.
      rw (broadcast_delivery e h j s.distinct).0
        (ground (arith, s.bounded j, length-append (h.queue j) (e ∷ [])));
}

-- A queue that is held and subscribed as before, under a number that was given out before.
pub record Aside (q : ℕ) (h h' : Hub) : Type 0 where
  pub queue : h'.queue q ≡ h.queue q
  pub subscribed : has q h'.subscribers ≡ has q h.subscribers

pub subscribe-Aside : (q : ℕ) (h : Hub) → q < h.next → Aside q h (subscribe h).1
unfolding subscribe with_queue
subscribe-Aside q h old = record {
  queue = ground (arith, old);
  subscribed = ground (arith, old, has-append q h.next h.subscribers);
}

pub receive-Aside :
    (q p : ℕ) (h h' : Hub) (e : OverlayEvent) → q ≢ p → IsTaken p h h' e → Aside q h h'
unfolding with_queue
receive-Aside q p h h' e other t =
    subst (Aside q h) (sym t.hub) (record { queue = ground (arith, other); subscribed = refl })

pub closed-Aside : (q p : ℕ) (h : Hub) → q ≢ p → IsSound h → Aside q h (closed p h)
closed-Aside q p h other s = record {
  queue = closed_queue p q h;
  subscribed = ground (arith, other, closed-without p h, has-without p q h.subscribers s.distinct);
}
