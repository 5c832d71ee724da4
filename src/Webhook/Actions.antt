-- ===== src/Webhook/Actions.antt =====
-- The program's atomic steps on its state. The event loop switches between handlers only where they
-- wait: a webhook waits for the pipeline between its record and its push, so what runs is some
-- sequence of these steps, in which deliveries, charges, reconciliation and purge mix.
use selfhost_tip_overlay.Prelude.{ℕ, String, ◌≡◌, refl, Option, List, [], ◌∷◌, or_default}
use selfhost_tip_overlay.Contracts.{TipEvent, StageResult}
use selfhost_tip_overlay.Db.Trace.{Op, push, fail, expire, paid}
use selfhost_tip_overlay.Db.Trace
use selfhost_tip_overlay.Payment.Base.{WebhookEvent, Kind, successful, failed, expired, ignored}
use selfhost_tip_overlay.Webhook.{App, Pipeline, finish_push, evict_qr, tip_event, handle}

pub data Action : Type 0 where
  -- any single call on the database, `mark_pushed` with no broadcast included
  call : Op → Action
  -- the end of `_push_tip`, with the pipeline's answer and the time
  finish : TipEvent → Option StageResult → ℕ → Action
  evict : String → Action

unfoldable pub act : Action → App → App
unfolding Trace.apply
act (call op) a = record a { db = Trace.apply op a.db }
act (finish e answer now) a = finish_push e answer now a
act (evict id) a = evict_qr id a

unfoldable pub act_all : List Action → App → App
unfolding act
act_all [] a = a
act_all (x ∷ xs) a = act_all xs (act x a)

-- The atomic steps of one delivery, in their order.
abbrev pub steps : Pipeline → WebhookEvent → Kind → ℕ → ℕ → List Action
steps pipeline e successful now now' =
    let t = tip_event e (or_default e.paid_at now) in
    call (
      paid e.charge_id e.amount e.currency e.supporter_name e.message e.source_type
        (or_default e.paid_at now))
    ∷ finish t (pipeline t) now'
    ∷ evict e.charge_id
    ∷ []
steps pipeline e failed now now' = call (fail e.charge_id) ∷ evict e.charge_id ∷ []
steps pipeline e expired now now' = call (expire e.charge_id) ∷ evict e.charge_id ∷ []
steps pipeline e ignored now now' = []

-- A delivery that is not interrupted is its atomic steps, one after the other.
pub handle-steps :
    (pipeline : Pipeline) (e : WebhookEvent) (k : Kind) (now now' : ℕ) (a : App)
    → handle pipeline e k now now' a ≡ act_all (steps pipeline e k now now') a
unfolding handle act_all
handle-steps pipeline e successful now now' a = refl
handle-steps pipeline e failed now now' a = refl
handle-steps pipeline e expired now now' a = refl
handle-steps pipeline e ignored now now' a = refl
