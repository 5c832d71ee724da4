-- ===== src/Webhook/Handler.antt =====
-- routes/webhook.py: one delivery of a paid charge.
use selfhost_tip_overlay.Prelude.{
  ℕ, ◌+◌, String, ◌≡◌, refl, ◌∙◌, true, false, Option, none, some, List, [], ◌∷◌, ◌++◌, arith,
  str_eq_refl, or_default,
}
use selfhost_tip_overlay.Prelude.Dict.{get, get-pop}
use selfhost_tip_overlay.Contracts.{TipEvent, OverlayEvent, StageResult, tip, drop, hold}
use selfhost_tip_overlay.Db.Schema.{Tip, Db, find, max_seq}
use selfhost_tip_overlay.Db.Operations.{pending_row, mark_pushed}
use selfhost_tip_overlay.Db.Valid.{IsValid}
use selfhost_tip_overlay.Db.Trace.{record_successful-IsValid, push, apply}
use selfhost_tip_overlay.Db.Money.{settled, is_paid, is_paid_row, find-record_successful}
use selfhost_tip_overlay.Db.Push.{
  is_pushed, is_pushed_row, mark_pushed-eq-allocated, mark_pushed-is_pushed,
}
use selfhost_tip_overlay.Db.Keeps.{KeepsRow, apply-KeepsRow}
use selfhost_tip_overlay.Db.Sequence.{max_seq-record_successful}
use selfhost_tip_overlay.Payment.Base.{ok, WebhookEvent, successful}
use selfhost_tip_overlay.Webhook.{
  App, status, Pipeline, outcome, overlay_event, show, tip_event, evict_qr, record_money,
  receive_webhook,
}

-- A row that was not pushed is not pushed by recording the money.
settled-unpushed :
    (t : ℕ) (o : Option Tip) (r : Tip)
    → r.pushed_at ≡ none
    → is_pushed_row o ≡ false
    → (settled t (or_default o r)).pushed_at ≡ none
settled-unpushed t none r e h = ground (arith, e)
settled-unpushed t (some x) r e h = ground (arith, h)

module _ (e : WebhookEvent) (paid_at : ℕ) (a : App) (valid : IsValid a.db) where
  abbrev pub id : String
  id = e.charge_id

  abbrev pub recorded : App
  recorded = record_money e paid_at a

  abbrev pub paid_row : Tip
  paid_row = settled paid_at (
      or_default (find id a.db.tips)
        (pending_row id e.amount e.currency e.supporter_name e.message e.source_type paid_at))

  pub recorded_row : find id recorded.db.tips ≡ some paid_row
  recorded_row =
      find-record_successful id e.amount e.currency e.supporter_name e.message e.source_type paid_at
        id a.db
      ∙ rw str_eq_refl

  pub recorded-IsValid : IsValid recorded.db
  recorded-IsValid =
      record_successful-IsValid id e.amount e.currency e.supporter_name e.message e.source_type
        paid_at a.db valid

  -- The number that the push of a charge that was not pushed before allocates.
  pub recorded_number :
      (now : ℕ)
      → is_pushed id a.db ≡ false
      → (mark_pushed id now recorded.db).0 ≡ some (max_seq a.db.tips + 1)
  recorded_number now fresh =
      mark_pushed-eq-allocated id now recorded.db recorded-IsValid
      ∙ rw
          (
            recorded_row,
            max_seq-record_successful id e.amount e.currency e.supporter_name e.message
                e.source_type paid_at a.db,
          )
          (ground (
            arith,
            settled-unpushed paid_at (find id a.db.tips)
                (pending_row id e.amount e.currency e.supporter_name e.message e.source_type
                  paid_at)
                refl fresh,
          ))

-- What an overlay should show of an event under a number, by the answer of the pipeline: nothing for
-- "DROP", the event as it came for "HOLD", "[ซ่อน]" in place of the message where the pipeline failed
-- (`none`), and otherwise the name and the message of the event that it returned.
abbrev pub announced : Option StageResult → TipEvent → ℕ → List OverlayEvent
announced answer e seq =
    let shown : String → String → List OverlayEvent = λ supporter_name message.
      record {
        charge_id = e.charge_id;
        amount = e.amount;
        supporter_name = supporter_name;
        message = message;
        event_seq = seq;
        tts_audio_url = none;
      }
      ∷ [] in
    elim answer [
      | none ↦ shown e.supporter_name "[ซ่อน]"
      | some drop ↦ []
      | some hold ↦ shown e.supporter_name e.message
      | some (tip r) ↦ shown r.supporter_name r.message
    ]

-- The history of broadcasts with the one, if any, that follows an allocated number.
abbrev pub sent_with : TipEvent → Option TipEvent → ℕ → List OverlayEvent → List OverlayEvent
sent_with e none seq sent = sent
sent_with e (some result) seq sent = overlay_event e result seq ∷ sent

pub show-some :
    (e : TipEvent) (r : Option TipEvent) (seq : ℕ) (a : App)
    → ((show e r (some seq) a).sent ≡ sent_with e r seq a.sent)
      × ((show e r (some seq) a).db ≡ a.db)
unfolding show
show-some e none seq a = (refl, refl)
show-some e (some r) seq a = (refl, refl)

pub announced_lem :
    (answer : Option StageResult) (e : TipEvent) (seq : ℕ) (sent : List OverlayEvent)
    → sent_with e (outcome answer e) seq sent ≡ announced answer e seq ++ sent
unfolding outcome
announced_lem none e seq sent = refl
announced_lem (some drop) e seq sent = refl
announced_lem (some hold) e seq sent = refl
announced_lem (some (tip r)) e seq sent = refl

pub show-none : (e : TipEvent) (r : Option TipEvent) (a : App) → show e r none a ≡ a
unfolding show
show-none e none a = refl
show-none e (some r) a = refl

paid_kept : (o o' : Option Tip) → KeepsRow o o' → is_paid_row o ≡ true → is_paid_row o' ≡ true
paid_kept none o' k h = cc
paid_kept (some r) o' (r', q, k) h = rw q (ground (arith, k.money h, h))

pub mark_pushed-is_paid :
    (id : String) (now : ℕ) (db : Db)
    → is_paid id db ≡ true
    → is_paid id (mark_pushed id now db).1 ≡ true
unfolding apply
mark_pushed-is_paid id now db =
    paid_kept (find id db.tips) (find id (mark_pushed id now db).1.tips)
      (apply-KeepsRow id (push id now) db)

pub settled-is_paid : (t : ℕ) (r : Tip) → is_paid_row (some (settled t r)) ≡ true
settled-is_paid t r = ground arith

module _ (pipeline : Pipeline) (e : WebhookEvent) (kind : e.kind ≡ successful) (now now' : ℕ)
    (a : App) (valid : IsValid a.db) where
  abbrev pub paid_time : ℕ
  paid_time = or_default e.paid_at now

  abbrev pub event : TipEvent
  event = tip_event e paid_time

  abbrev pub after : App
  after = (receive_webhook pipeline (ok e) now now' a).1

  abbrev pub money : App
  money = record_money e paid_time a

  pub after-eq :
      after
      ≡ evict_qr e.charge_id (
          show event
            (outcome (pipeline event) event)
            (mark_pushed e.charge_id now' money.db).0
            (record money { db = (mark_pushed e.charge_id now' money.db).1 }))
  unfolding receive_webhook
  after-eq = rw kind

  pub money-is_paid : is_paid e.charge_id money.db ≡ true
  money-is_paid = rw (recorded_row e paid_time a valid) (settled-is_paid paid_time _)

  -- From a well-formed database: the first delivery of a paid charge that was not pushed before
  -- answers 200, leaves the charge recorded as paid and as pushed, drops its QR code, and
  -- broadcasts the event under one more than the largest number, as `announced` says of what
  -- the pipeline answered: not at all for "DROP", with "[ซ่อน]" for its message where the pipeline
  -- failed, as it came for "HOLD", and with the name and the message of the event it returned.
  pub receive_webhook_paid :
      is_pushed e.charge_id a.db ≡ false
      → ((receive_webhook pipeline (ok e) now now' a).0 ≡ status 200)
        × (after.sent ≡ announced (pipeline event) event (max_seq a.db.tips + 1) ++ a.sent)
        × (is_paid e.charge_id after.db ≡ true)
        × (is_pushed e.charge_id after.db ≡ true)
        × (get e.charge_id after.qr_cache ≡ none)
  receive_webhook_paid fresh =
      let n = max_seq a.db.tips + 1 in
      let number = recorded_number e paid_time a valid now' fresh in
      let marked : App = record money { db = (mark_pushed e.charge_id now' money.db).1 } in
      let shown = show-some event (outcome (pipeline event) event) n marked in
      (
        unfold receive_webhook in refl,
        rw (after-eq, number) (shown.0 ∙ announced_lem (pipeline event) event n a.sent),
        rw (after-eq, number, shown.1)
            (mark_pushed-is_paid e.charge_id now' money.db money-is_paid),
        rw (after-eq, number, shown.1)
            (mark_pushed-is_pushed e.charge_id now' money.db n
              (recorded-IsValid e paid_time a valid) number),
        rw (after-eq, get-pop, str_eq_refl),
      )
