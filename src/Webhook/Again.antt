-- ===== src/Webhook/Again.antt =====
-- routes/webhook.py: a webhook that is delivered again.
use selfhost_tip_overlay.Prelude.{
  ℕ, String, ◌≡◌, sym, ap, ◌∙◌, inl, inr, true, Option, none, some, arith, or_default, Option-cases,
}
use mathlib.Core.Path.{subst}
use selfhost_tip_overlay.Prelude.Dict.{pop, pop-pop}
use selfhost_tip_overlay.Contracts.{TipEvent}
use selfhost_tip_overlay.Db.Schema.{Tip, Db, find, max_seq}
use selfhost_tip_overlay.Db.Operations.{mark_pushed}
use selfhost_tip_overlay.Db.Valid.{IsValid}
use selfhost_tip_overlay.Db.Trace.{mark_pushed-IsValid}
use selfhost_tip_overlay.Db.Money.{is_paid, record_successful_paid}
use selfhost_tip_overlay.Db.Push.{
  is_pushed, is_pushed_row, allocated, mark_pushed-eq-allocated, mark_pushed-none,
  mark_pushed-is_pushed,
}
use selfhost_tip_overlay.Payment.Base.{ok, WebhookEvent, successful}
use selfhost_tip_overlay.Webhook.{
  App, Pipeline, outcome, show, tip_event, evict_qr, record_money, receive_webhook,
}
use selfhost_tip_overlay.Webhook.Handler.{
  after-eq, money-is_paid, show-some, show-none, mark_pushed-is_paid, recorded_row,
  recorded-IsValid, paid_row,
}

none-allocated : (top : ℕ) (r : Tip) → allocated top (some r) ≡ none → is_pushed_row (some r) ≡ true
none-allocated top r h = ground (arith, h)

pushed-allocated : (top : ℕ) (o : Option Tip) → is_pushed_row o ≡ true → allocated top o ≡ none
pushed-allocated top none h = cc
pushed-allocated top (some r) h = ground (arith, h)

-- A charge that is paid, pushed and out of the QR cache.
pub record IsSettled (id : String) (a : App) : Type 0 where
  pub valid : IsValid a.db
  pub paid : is_paid id a.db ≡ true
  pub pushed : is_pushed id a.db ≡ true
  pub evicted : pop id a.qr_cache ≡ a.qr_cache

module _ (pipeline : Pipeline) (e : WebhookEvent) (kind : e.kind ≡ successful) (now now' : ℕ)
    (a : App) where
  record_money-settled : IsSettled e.charge_id a → record_money e (or_default e.paid_at now) a ≡ a
  record_money-settled s =
      let same =
        record_successful_paid e.charge_id e.amount e.currency e.supporter_name e.message
          e.source_type (or_default e.paid_at now) a.db s.valid s.paid in
      λ i. record a { db = (same i).1 }

  unmarked : IsSettled e.charge_id a → mark_pushed e.charge_id now' a.db ≡ (none, a.db)
  unmarked s = mark_pushed-none e.charge_id now' a.db (
      mark_pushed-eq-allocated e.charge_id now' a.db s.valid
      ∙ pushed-allocated (max_seq a.db.tips) (find e.charge_id a.db.tips) s.pushed)

  -- The rest of the handler, from the recorded money on.
  abbrev rest : TipEvent → App → Option ℕ × Db → App
  rest t b m = evict_qr e.charge_id (show t (outcome (pipeline t) t) m.0 (record b { db = m.1 }))

  abbrev t : TipEvent
  t = tip_event e (or_default e.paid_at now)

  receive_webhook-settled :
      IsSettled e.charge_id a → (receive_webhook pipeline (ok e) now now' a).1 ≡ a
  receive_webhook-settled s =
      after-eq pipeline e kind now now' a s.valid
      ∙ ap (λ b. rest t b (mark_pushed e.charge_id now' b.db)) (record_money-settled s)
      ∙ ap (rest t a) (unmarked s)
      ∙ ap (evict_qr e.charge_id) (show-none t (outcome (pipeline t) t) a)
      ∙ (λ i. record a { qr_cache = s.evicted i })

  abbrev m : App
  m = record_money e (or_default e.paid_at now) a

  -- Where no number is allocated the recorded charge had been pushed.
  none-is_pushed :
      IsValid a.db
      → (mark_pushed e.charge_id now' m.db).0 ≡ none
      → is_pushed e.charge_id m.db ≡ true
  none-is_pushed valid h = rw (recorded_row e (or_default e.paid_at now) a valid) (
      none-allocated (max_seq m.db.tips) (paid_row e (or_default e.paid_at now) a valid) (
        ap (allocated (max_seq m.db.tips)) (sym (recorded_row e (or_default e.paid_at now) a valid))
        ∙ sym (
            mark_pushed-eq-allocated e.charge_id now' m.db
              (recorded-IsValid e (or_default e.paid_at now) a valid))
        ∙ h))

  marked-is_pushed :
      IsValid a.db → is_pushed e.charge_id (mark_pushed e.charge_id now' m.db).1 ≡ true
  marked-is_pushed valid = elim (Option-cases (mark_pushed e.charge_id now' m.db).0) [
    | inl h ↦ rw (mark_pushed-none e.charge_id now' m.db h) (none-is_pushed valid h)
    | inr (n, h) ↦
        mark_pushed-is_pushed e.charge_id now' m.db n
          (recorded-IsValid e (or_default e.paid_at now) a valid) h
  ]

  rest-IsSettled :
      (r : Option TipEvent) (b : App) (n : Option ℕ)
      → IsValid b.db
      → is_paid e.charge_id b.db ≡ true
      → is_pushed e.charge_id b.db ≡ true
      → IsSettled e.charge_id (evict_qr e.charge_id (show t r n b))
  rest-IsSettled r b none v p q =
      rw (show-none t r b)
        (record { valid = v; paid = p; pushed = q; evicted = pop-pop e.charge_id b.qr_cache })
  rest-IsSettled r b (some n) v p q =
      let same = (show-some t r n b).1 in
      record {
        valid = rw same v;
        paid = rw same p;
        pushed = rw same q;
        evicted = pop-pop e.charge_id (show t r (some n) b).qr_cache;
      }

  -- A delivery leaves its charge settled.
  receive_webhook-IsSettled :
      IsValid a.db → IsSettled e.charge_id (receive_webhook pipeline (ok e) now now' a).1
  receive_webhook-IsSettled valid =
      let (n, db) = mark_pushed e.charge_id now' m.db in
      subst (IsSettled e.charge_id) (sym (after-eq pipeline e kind now now' a valid)) (
        rest-IsSettled (outcome (pipeline t) t) (record m { db = db }) n
          (mark_pushed-IsValid e.charge_id now' m.db
            (recorded-IsValid e (or_default e.paid_at now) a valid))
          (mark_pushed-is_paid e.charge_id now' m.db
            (money-is_paid pipeline e kind now now' a valid))
          (marked-is_pushed valid))

-- From a well-formed database: after one delivery of a successful charge, any later delivery of a
-- successful event for the same charge leaves the whole state as it is: the database, the QR cache,
-- the overlay queues and what was broadcast.
pub receive_webhook_again :
    (pipeline pipeline' : Pipeline) (e e' : WebhookEvent) (now now' later later' : ℕ) (a : App)
    → IsValid a.db
    → e.kind ≡ successful
    → e'.kind ≡ successful
    → e'.charge_id ≡ e.charge_id
    → let once = (receive_webhook pipeline (ok e) now now' a).1 in
      (receive_webhook pipeline' (ok e') later later' once).1 ≡ once
receive_webhook_again pipeline pipeline' e e' now now' later later' a valid k k' same =
    let once = (receive_webhook pipeline (ok e) now now' a).1 in
    receive_webhook-settled pipeline' e' k' later later' once (
      subst (λ id. IsSettled id once) (sym same)
        (receive_webhook-IsSettled pipeline e k now now' a valid))
