-- ===== src/Broadcaster.antt =====
-- app/sse_broadcaster.py: one queue for each overlay connection. Queues are numbered as they are
-- made, since a connection keeps its queue after the broadcaster has dropped it.
pub mod Delivery
pub mod Sound
mod Tests
use selfhost_tip_overlay.Prelude.{
  ℕ, ◌+◌, Bool, true, false, not, Option, none, some, List, [], ◌∷◌, ◌++◌, ltb, ◌==◌, length,
  select, or_default, if◌then◌else◌,
}
use selfhost_tip_overlay.Contracts.{OverlayEvent}

pub record Hub : Type 0 where
  pub subscribers : List ℕ
  pub queue : ℕ → List OverlayEvent
  pub next : ℕ

-- `asyncio.Queue(maxsize=50)`
abbrev pub maxsize : ℕ
maxsize = 50

-- The queues with the contents of one replaced.
unfoldable pub with_queue : ℕ → List OverlayEvent → (ℕ → List OverlayEvent) → ℕ → List OverlayEvent
with_queue q events queue j = if j == q then events else queue j

-- `q.full()`
abbrev pub is_full : List OverlayEvent → Bool
is_full events = not (ltb (length events) maxsize)

-- `list.remove(q)`: the first occurrence, and ValueError (`none`) where there is none.
unfoldable pub remove : ℕ → List ℕ → Option (List ℕ)
remove q [] = none
remove q (j ∷ js) =
    let rest = remove q js in
    if j == q then some js else elim rest [ none ↦ none | some l ↦ some (j ∷ l) ]

-- The part of `subscribe` that runs when the connection opens.
unfoldable pub subscribe : Hub → ℕ × Hub
unfolding with_queue
subscribe h = (
  h.next,
  record h {
    subscribers = h.subscribers ++ h.next ∷ [];
    queue = with_queue h.next [] h.queue;
    next = h.next + 1;
  },
)

-- `await q.get()`: `none` where it would wait.
unfoldable pub receive : ℕ → Hub → Option (OverlayEvent × Hub)
unfolding with_queue
receive q h = elim (h.queue q) [
  | [] ↦ none
  | e ∷ rest ↦ some (e, record h { queue = with_queue q rest h.queue })
]

-- The `finally` of `subscribe`: `none` is the ValueError of `list.remove`.
unfoldable pub close : ℕ → Hub → Option Hub
unfolding remove
close q h = elim (remove q h.subscribers) [
  | none ↦ none
  | some l ↦ some (record h { subscribers = l })
]

-- The hub after the `finally`, whether or not it raises.
abbrev pub closed : ℕ → Hub → Hub
closed q h = or_default (close q h) h

-- The first loop of `broadcast`: `put_nowait` on each queue; the full ones are collected.
unfoldable pub put_all :
    OverlayEvent → List ℕ → (ℕ → List OverlayEvent) → (ℕ → List OverlayEvent) × List ℕ
unfolding with_queue
put_all e [] queue = (queue, [])
put_all e (q ∷ qs) queue =
    let full = is_full (queue q) in
    let (queue', dead) =
      put_all e qs (if full then queue else with_queue q (queue q ++ e ∷ []) queue) in
    (queue', if full then q ∷ dead else dead)

-- The second loop: a queue that is still subscribed is removed.
unfoldable pub remove_all : List ℕ → List ℕ → List ℕ
unfolding remove
remove_all [] subs = subs
remove_all (q ∷ dead) subs = remove_all dead (elim (remove q subs) [ none ↦ subs | some l ↦ l ])

unfoldable pub broadcast : OverlayEvent → Hub → Hub
unfolding put_all remove_all
broadcast e h =
    let (queue, dead) = put_all e h.subscribers h.queue in
    record h { subscribers = remove_all dead h.subscribers; queue = queue }
