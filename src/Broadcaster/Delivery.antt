-- ===== src/Broadcaster/Delivery.antt =====
-- app/sse_broadcaster.py: `broadcast`, queue by queue, and the closing of a dropped connection.
use selfhost_tip_overlay.Prelude.{
  ℕ, ◌≡◌, refl, sym, ap, ◌∙◌, Bool, true, false, not, ◌&&◌, ◌||◌, none, some, List, [], ◌∷◌, ◌++◌,
  arith, ◌==◌, if◌then◌else◌, Bool-cases, inl, inr,
}
use selfhost_tip_overlay.Contracts.{OverlayEvent}
use selfhost_tip_overlay.Broadcaster.{
  Hub, with_queue, is_full, remove, put_all, remove_all, broadcast, close,
}

-- Whether the number occurs.
abbrev pub has : ℕ → List ℕ → Bool
has j [] = false
has j (q ∷ qs) = let rest = has j qs in q == j || rest

abbrev pub Distinct : List ℕ → Type 0
Distinct [] = Unit
Distinct (q ∷ qs) = (has q qs ≡ false) × Distinct qs

-- A queue after a broadcast that reached it.
abbrev pub with_event : OverlayEvent → List OverlayEvent → List OverlayEvent
with_event e events = if is_full events then events else events ++ e ∷ []

pub is-eq : (q j : ℕ) → q == j ≡ true → q ≡ j
is-eq q j h = ground (arith, h)

eq_comm : (q j : ℕ) → (q == j) ≡ (j == q)
eq_comm q j = ground arith

has-at : (q j : ℕ) (qs : List ℕ) → q == j ≡ true → has q qs ≡ has j qs
has-at q j qs h = ap (λ x. has x qs) (is-eq q j h)

with_queue_at :
    (q j : ℕ) (events : List OverlayEvent) (queue : ℕ → List OverlayEvent)
    → with_queue q events queue j ≡ (if q == j then events else queue j)
unfolding with_queue
with_queue_at q j events queue = rw (eq_comm q j) refl

-- The queues after `put_nowait` on one.
abbrev after_put : OverlayEvent → ℕ → (ℕ → List OverlayEvent) → ℕ → List OverlayEvent
after_put e q queue = if is_full (queue q) then queue else with_queue q (queue q ++ e ∷ []) queue

-- The list after `if q in subs: subs.remove(q)`.
abbrev pub without : ℕ → List ℕ → List ℕ
without q subs = elim (remove q subs) [ none ↦ subs | some l ↦ l ]

or-false : (b : Bool) → (b || false) ≡ b
or-false b = ground arith

has_if :
    (b : Bool) (q j : ℕ) (dead : List ℕ)
    → has j (if b then q ∷ dead else dead) ≡ ((q == j && b) || has j dead)
has_if b q j dead = ground arith

module _ (e : OverlayEvent) (j : ℕ) where
  after_put_at :
      (q : ℕ) (queue : ℕ → List OverlayEvent)
      → after_put e q queue j ≡ (if q == j then with_event e (queue j) else queue j)
  after_put_at q queue = elim (Bool-cases (is_full (queue q))) [
    | inl x ↦ rw x (elim (Bool-cases (q == j)) [
      | inl same ↦ rw same (rw (ap (λ k. is_full (queue k)) (sym (is-eq q j same)) ∙ x) refl)
      | inr other ↦ rw other refl
    ])
    | inr x ↦ rw x (
        with_queue_at q j (queue q ++ e ∷ []) queue ∙ elim (Bool-cases (q == j)) [
          | inl same ↦ rw same (
              rw (ap (λ k. is_full (queue k)) (sym (is-eq q j same)) ∙ x)
                (ap (λ k. queue k ++ e ∷ []) (is-eq q j same)))
          | inr other ↦ rw other refl
        ])
  ]

  put_all_other :
      (qs : List ℕ) (queue : ℕ → List OverlayEvent)
      → has j qs ≡ false
      → (put_all e qs queue).0 j ≡ queue j
  unfolding put_all
  put_all_other [] queue h = refl
  put_all_other (q ∷ qs) queue h =
      let apart : q == j ≡ false = ground (arith, h) in
      put_all_other qs (after_put e q queue) (ground (arith, h))
      ∙ after_put_at q queue
      ∙ rw apart refl

  put_all_queue :
      (qs : List ℕ) (queue : ℕ → List OverlayEvent)
      → Distinct qs
      → (put_all e qs queue).0 j ≡ (if has j qs then with_event e (queue j) else queue j)
  unfolding put_all
  put_all_queue [] queue d = refl
  put_all_queue (q ∷ qs) queue d = elim (Bool-cases (q == j)) [
    | inl same ↦
        put_all_other qs (after_put e q queue) (sym (has-at q j qs same) ∙ d.0)
        ∙ after_put_at q queue
        ∙ rw same refl
    | inr other ↦ put_all_queue qs (after_put e q queue) d.1 ∙ rw (after_put_at q queue, other) refl
  ]

  put_all_dead :
      (qs : List ℕ) (queue : ℕ → List OverlayEvent)
      → Distinct qs
      → has j (put_all e qs queue).1 ≡ (has j qs && is_full (queue j))
  unfolding put_all
  put_all_dead [] queue d = refl
  put_all_dead (q ∷ qs) queue d =
      let next = after_put e q queue in
      has_if (is_full (queue q)) q j (put_all e qs next).1
      ∙ rw (put_all_dead qs next d.1) (elim (Bool-cases (q == j)) [
        | inl same ↦
            rw (same, sym (has-at q j qs same) ∙ d.0)
              (or-false (is_full (queue q)) ∙ ap (λ k. is_full (queue k)) (is-eq q j same))
        | inr other ↦ rw (other, after_put_at q queue) (rw other refl)
      ])

without-cons :
    (q k : ℕ) (subs : List ℕ) → without q (k ∷ subs) ≡ (if k == q then subs else k ∷ without q subs)
unfolding remove
without-cons q k subs = ground arith

pub has-without :
    (q j : ℕ) (subs : List ℕ)
    → Distinct subs
    → has j (without q subs) ≡ (has j subs && not (q == j))
unfolding remove
has-without q j [] d = refl
has-without q j (k ∷ subs) d =
    rw (without-cons q k subs) (ground (arith, d, has-without q j subs d.1, has-at k j subs))

pub Distinct-without : (q : ℕ) (subs : List ℕ) → Distinct subs → Distinct (without q subs)
unfolding remove
Distinct-without q [] d = d
Distinct-without q (k ∷ subs) d = rw (without-cons q k subs) (elim (Bool-cases (k == q)) [
  | inl same ↦ rw same d.1
  | inr other ↦ rw other (ground (arith, d, has-without q k subs d.1), Distinct-without q subs d.1)
])

pub has-remove_all :
    (j : ℕ) (dead subs : List ℕ)
    → Distinct subs
    → has j (remove_all dead subs) ≡ (has j subs && not (has j dead))
unfolding remove_all
has-remove_all j [] subs d = ground arith
has-remove_all j (q ∷ dead) subs d =
    has-remove_all j dead (without q subs) (Distinct-without q subs d)
    ∙ rw (has-without q j subs d) (ground arith)

-- With subscribers that are all different, a broadcast puts the event, after all that it already
-- holds, in the queue of every subscriber that has room, and in no other queue; and the subscribers
-- that are left are those whose queue had room.
pub broadcast_delivery :
    (e : OverlayEvent) (h : Hub) (j : ℕ)
    → Distinct h.subscribers
    → ((broadcast e h).queue j ≡ (
        if has j h.subscribers && not (is_full (h.queue j))
        then h.queue j ++ e ∷ []
        else h.queue j))
      × (has j (broadcast e h).subscribers ≡ (has j h.subscribers && not (is_full (h.queue j))))
unfolding broadcast
broadcast_delivery e h j d = (
  put_all_queue e j h.subscribers h.queue d ∙ ground arith,
  has-remove_all j (put_all e h.subscribers h.queue).1 h.subscribers d
      ∙ rw (put_all_dead e j h.subscribers h.queue d) (ground arith),
)

remove_absent : (q : ℕ) (subs : List ℕ) → has q subs ≡ false → remove q subs ≡ none
unfolding remove
remove_absent q [] h = refl
remove_absent q (k ∷ subs) h = ground (arith, h, remove_absent q subs, eq_comm k q)

-- A connection whose queue was full at a broadcast is dropped: when it closes, `list.remove` raises
-- ValueError.
pub close_dropped :
    (e : OverlayEvent) (h : Hub) (q : ℕ)
    → Distinct h.subscribers
    → is_full (h.queue q) ≡ true
    → close q (broadcast e h) ≡ none
unfolding close
close_dropped e h q d full =
    let (queue, left) = broadcast_delivery e h q d in
    let gone : has q (broadcast e h).subscribers ≡ false = left ∙ rw full (ground arith) in
    rw (close, remove_absent q (broadcast e h).subscribers gone) refl
