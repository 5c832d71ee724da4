-- ===== src/Reconciliation/Complete.antt =====
-- app/reconciliation.py: `run` charge by charge, as atomic steps.
use selfhost_tip_overlay.Prelude.{
  ℕ, ◌+◌, ◌*◌, ◌≤◌, count, String, ◌≡◌, refl, sym, ap, ◌∙◌, true, Option, none, some, List, [],
  Option-cases, ◌∷◌, ◌++◌, arith, str_eq_refl, All, Bool-cases, inl, inr, if◌then◌else◌,
}
use selfhost_tip_overlay.Prelude.Sort.{sort_by, sort_by-All}
use selfhost_tip_overlay.Db.Schema.{Tip, Db, find, max_seq}
use selfhost_tip_overlay.Db.Operations.{mark_pushed, set_last_scan_at}
use selfhost_tip_overlay.Db.Valid.{IsValid}
use selfhost_tip_overlay.Db.Trace.{paid, push, run-IsValid, record_successful-IsValid}
use selfhost_tip_overlay.Db.Money.{find-record_successful, is_paid, is_paid_row}
use selfhost_tip_overlay.Db.Push.{
  is_pushed, is_pushed_row, allocated, mark_pushed-none, mark_pushed-eq-allocated,
  mark_pushed-is_pushed,
}
use selfhost_tip_overlay.Db.Sequence.{left}
use selfhost_tip_overlay.Db.Keeps.{KeepsRow, run-KeepsRow}
use selfhost_tip_overlay.Payment.Json.{Json}
use selfhost_tip_overlay.Webhook.{App, Pipeline, outcome, finish_push}
use selfhost_tip_overlay.Webhook.Handler.{settled-is_paid, mark_pushed-is_paid}
use selfhost_tip_overlay.Webhook.Actions.{Action, call, finish, act, act_all}
use selfhost_tip_overlay.Webhook.Once.{is_for, sent_once, ops, db-act_all, show_db}
use selfhost_tip_overlay.Payment.Charges.{ChargeData}
use selfhost_tip_overlay.Reconciliation.{
  charge_event, wall_of, is_too_old, is_paid_charge, record_charge, push_charge, reconcile_charge,
  reconcile_all, paid_key, scan,
}

-- What a database keeps of payments and pushes.
abbrev IsKept : Db → Db → Type 0
IsKept db db' =
    (id : String)
    → (is_paid id db ≡ true → is_paid id db' ≡ true)
      × (is_pushed id db ≡ true → is_pushed id db' ≡ true)

KeepsRow-is_paid :
    (o o' : Option Tip)
    → KeepsRow o o'
    → (is_paid_row o ≡ true → is_paid_row o' ≡ true)
      × (is_pushed_row o ≡ true → is_pushed_row o' ≡ true)
KeepsRow-is_paid none o' k = (λ h. cc, λ h. cc)
KeepsRow-is_paid (some r) o' (r', q, k) =
    (λ h. rw q (ground (arith, k.money h, h)), λ h. rw q (ground (arith, k.overlay h, h)))

act_all-IsKept : (xs : List Action) (a : App) → IsKept a.db (act_all xs a).db
act_all-IsKept xs a id =
    KeepsRow-is_paid (find id a.db.tips) (find id (act_all xs a).db.tips)
      (rw db-act_all (run-KeepsRow id (ops xs) a.db))

act_all-IsValid : (xs : List Action) (a : App) → IsValid a.db → IsValid (act_all xs a).db
act_all-IsValid xs a h = rw db-act_all (run-IsValid (ops xs) a.db h)

act_all-append : (xs ys : List Action) (a : App) → act_all (xs ++ ys) a ≡ act_all ys (act_all xs a)
unfolding act_all
act_all-append [] ys a = refl
act_all-append (x ∷ xs) ys a = act_all-append xs ys (act x a)

unanswered :
    (top : ℕ) (o : Option Tip)
    → is_paid_row o ≡ true
    → allocated top o ≡ none
    → is_pushed_row o ≡ true
unanswered top none h e = cc
unanswered top (some r) h e = ground (arith, e)

-- A charge that is recorded as paid is marked as pushed after `mark_pushed`, whatever it answered.
mark_pushed_paid :
    (id : String) (now : ℕ) (db : Db)
    → IsValid db
    → is_paid id db ≡ true
    → is_pushed id (mark_pushed id now db).1 ≡ true
mark_pushed_paid id now db valid h = elim (Option-cases (mark_pushed id now db).0) [
  | inr (n, e) ↦ mark_pushed-is_pushed id now db n valid e
  | inl e ↦ rw (mark_pushed-none id now db e) (
      unanswered (max_seq db.tips) (find id db.tips) h
        (sym (mark_pushed-eq-allocated id now db valid) ∙ e))
]

module _ (pipeline : Pipeline) (repr : Json → String) (startup secs : ℕ) (clock : ℕ → ℕ) where
  abbrev push_step : ℕ → ChargeData → Action
  push_step i c =
      let e = charge_event repr (clock (2 * i)) c in
      if is_too_old startup secs (wall_of (clock (2 * i)) c)
      then call (push e.charge_id (clock (2 * i + 1)))
      else finish e (pipeline e) (clock (2 * i + 1))

  -- The atomic steps for one charge of the list.
  abbrev pub charge_steps : ℕ → ChargeData → List Action
  charge_steps i c =
      let e = charge_event repr (clock (2 * i)) c in
      if is_paid_charge c
      then call
          (paid e.charge_id e.amount e.currency e.supporter_name e.message e.source_type e.paid_at)
        ∷ push_step i c
        ∷ []
      else []

  pub steps_of : ℕ → List ChargeData → List Action
  steps_of i [] = []
  steps_of i (c ∷ cs) = charge_steps i c ++ steps_of (i + 1) cs

  reconcile_charge-steps :
      (i : ℕ) (c : ChargeData) (a : App)
      → reconcile_charge pipeline repr startup secs clock i c a ≡ act_all (charge_steps i c) a
  unfolding reconcile_charge push_charge act_all
  reconcile_charge-steps i c a = ground arith

  pub reconcile_all-steps :
      (i : ℕ) (cs : List ChargeData) (a : App)
      → reconcile_all pipeline repr startup secs clock i cs a ≡ act_all (steps_of i cs) a
  unfolding reconcile_all steps_of act_all
  reconcile_all-steps i [] a = refl
  reconcile_all-steps i (c ∷ cs) a =
      let next = reconcile_charge pipeline repr startup secs clock i c a in
      reconcile_all-steps (i + 1) cs next
      ∙ ap (act_all (steps_of (i + 1) cs)) (reconcile_charge-steps i c a)
      ∙ sym (act_all-append (charge_steps i c) (steps_of (i + 1) cs) a)

  record_charge-is_paid :
      (i : ℕ) (c : ChargeData) (a : App)
      → is_paid c.charge_id (record_charge pipeline repr startup secs clock i c a).db ≡ true
  record_charge-is_paid i c a =
      let e = charge_event repr (clock (2 * i)) c in
      rw
        (
          find-record_successful e.charge_id e.amount e.currency e.supporter_name e.message
              e.source_type e.paid_at e.charge_id a.db,
          str_eq_refl,
        )
        (settled-is_paid e.paid_at _)

  push_charge_db :
      (i : ℕ) (c : ChargeData) (a : App)
      → (push_charge pipeline repr startup secs clock i c a).db
        ≡ (mark_pushed c.charge_id (clock (2 * i + 1)) a.db).1
  unfolding push_charge finish_push
  push_charge_db i c a =
      let e = charge_event repr (clock (2 * i)) c in
      let m = mark_pushed e.charge_id (clock (2 * i + 1)) a.db in
      elim (Bool-cases (is_too_old startup secs (wall_of (clock (2 * i)) c))) [
        | inl old ↦ rw old refl
        | inr new ↦ rw new (show_db e (outcome (pipeline e) e) m.0 (record a { db = m.1 }))
      ]

  -- The charge is recorded as paid and marked as pushed, if the gateway says that it was paid.
  abbrev pub IsDone : App → ChargeData → Type 0
  IsDone a c =
      is_paid_charge c ≡ true
      → (is_paid c.charge_id a.db ≡ true) × (is_pushed c.charge_id a.db ≡ true)

  reconcile_charge-IsDone :
      (i : ℕ) (c : ChargeData) (a : App)
      → IsValid a.db
      → IsDone (reconcile_charge pipeline repr startup secs clock i c a) c
  unfolding reconcile_charge
  reconcile_charge-IsDone i c a valid p =
      let next = record_charge pipeline repr startup secs clock i c a in
      let paid_now = record_charge-is_paid i c a in
      let e = charge_event repr (clock (2 * i)) c in
      let ok =
        record_successful-IsValid e.charge_id e.amount e.currency e.supporter_name e.message
          e.source_type e.paid_at a.db valid in
      rw (p, push_charge_db i c next)
        (
          mark_pushed-is_paid c.charge_id (clock (2 * i + 1)) next.db paid_now,
          mark_pushed_paid c.charge_id (clock (2 * i + 1)) next.db ok paid_now,
        )

  reconcile_all-IsDone :
      (i : ℕ) (cs : List ChargeData) (a : App)
      → IsValid a.db
      → All (IsDone (reconcile_all pipeline repr startup secs clock i cs a)) cs
  unfolding reconcile_all
  reconcile_all-IsDone i [] a valid = tt
  reconcile_all-IsDone i (c ∷ cs) a valid =
      let next = reconcile_charge pipeline repr startup secs clock i c a in
      let kept : IsKept next.db
          (reconcile_all pipeline repr startup secs clock (i + 1) cs next).db =
        rw (reconcile_all-steps (i + 1) cs next) (act_all-IsKept (steps_of (i + 1) cs) next) in
      let valid' : IsValid next.db =
        rw (reconcile_charge-steps i c a) (act_all-IsValid (charge_steps i c) a valid) in
      (
        (λ p.
            let d = reconcile_charge-IsDone i c a valid p in
            ((kept c.charge_id).0 d.0, (kept c.charge_id).1 d.1)),
        reconcile_all-IsDone (i + 1) cs next valid',
      )

  -- The scan misses no payment: when it ends, every charge of the gateway's list that was paid is
  -- recorded as paid and marked as pushed, whatever the order of the list, whatever well-formed
  -- table it began with and however old the charge is; and the cursor stands at the end of the
  -- scan.
  pub scan-IsDone :
      (charges : List ChargeData) (now : ℕ) (a : App)
      → IsValid a.db
      → let after = scan pipeline repr startup secs clock (some charges) now a in
        All (IsDone after) charges × (after.db.recon_state ≡ some (some now))
  unfolding scan set_last_scan_at
  scan-IsDone charges now a valid = (
    sort_by-All paid_key _ charges (reconcile_all-IsDone 0 (sort_by paid_key charges) a valid),
    refl,
  )

  -- From a well-formed database: a charge that had been pushed is not broadcast by the scan, and no
  -- charge is broadcast by it twice. A charge's broadcasts after the scan are at most those before
  -- it, and one more where it was not yet pushed.
  pub scan_once :
      (id : String) (charges : List ChargeData) (now : ℕ) (a : App)
      → IsValid a.db
      → count (is_for id) (scan pipeline repr startup secs clock (some charges) now a).sent
        ≤ count (is_for id) a.sent + left id a.db
  unfolding scan
  scan_once id charges now a valid =
      let cs = sort_by paid_key charges in
      rw (reconcile_all-steps 0 cs a) (sent_once id (steps_of 0 cs) a valid)
