-- ===== src/Charge/Paid.antt =====
-- routes/charge.py beside routes/webhook.py: the polling routes after a payment.
use selfhost_tip_overlay.Prelude.{ℕ, ◌≡◌, refl, ◌∙◌, true, false, Option, none, some, arith}
use selfhost_tip_overlay.Prelude.Int.{ℤ}
use selfhost_tip_overlay.Db.Schema.{Tip, find, successful}
use selfhost_tip_overlay.Db.Valid.{IsValid}
use selfhost_tip_overlay.Db.Money.{is_paid_row}
use selfhost_tip_overlay.Db.Push.{is_pushed}
use selfhost_tip_overlay.Payment.Base.{ok, WebhookEvent}
use selfhost_tip_overlay.Payment.Base
use selfhost_tip_overlay.Webhook.{Pipeline, receive_webhook}
use selfhost_tip_overlay.Webhook.Handler.{receive_webhook_paid}
use selfhost_tip_overlay.Charge.Lookup.{status_found, qr_uncached}
use selfhost_tip_overlay.Payment.Charges.{Gateway}
use selfhost_tip_overlay.Charge.{Site, http_error, charge_status, charge_status_route, get_qr}

paid_found :
    (o : Option Tip) → is_paid_row o ≡ true → (r : Tip) × (o ≡ some r) × (r.status ≡ successful)
paid_found none h = cc
paid_found (some r) h = (r, refl, ground (arith, h))

-- From a well-formed database: after the first delivery of a paid charge that was not pushed, the
-- client that polls gets the status `successful`, and the QR code can no longer be fetched.
pub paid_status :
    (gateway : Gateway) (pipeline : Pipeline) (e : WebhookEvent)
    → e.kind ≡ Base.successful
    → (now now' : ℕ) (s : Site) → IsValid s.app.db
    → is_pushed e.charge_id s.app.db ≡ false
    → let after : Site = record s { app = (receive_webhook pipeline (ok e) now now' s.app).1 } in
      ((a : ℤ) × (charge_status_route e.charge_id after
          ≡ charge_status (record { status = successful; amount = a })))
      × (get_qr gateway e.charge_id after ≡ http_error 404)
paid_status gateway pipeline e kind now now' s valid fresh =
    let (answered, sent, paid, pushed, evicted) =
      receive_webhook_paid pipeline e kind now now' s.app valid fresh in
    let (r, found, money) =
      paid_found (find e.charge_id (receive_webhook pipeline (ok e) now now' s.app).1.db.tips)
        paid in
    (
      (r.amount, status_found e.charge_id _ r found ∙ rw money refl),
      qr_uncached e.charge_id _ r found gateway evicted,
    )
