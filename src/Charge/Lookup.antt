-- ===== src/Charge/Lookup.antt =====
-- routes/charge.py: the status and the QR route, by the charge's row and the cached address.
use selfhost_tip_overlay.Prelude.{String, ◌≡◌, false, none, some, arith}
use selfhost_tip_overlay.Prelude.Text.{is_empty}
use selfhost_tip_overlay.Prelude.Dict.{get}
use selfhost_tip_overlay.Db.Schema.{Tip, find}
use selfhost_tip_overlay.Db.Operations.{get_charge_status}
use selfhost_tip_overlay.Payment.Charges.{Gateway}
use selfhost_tip_overlay.Charge.{
  Site, http_error, charge_status, charge_status_route, fetch_qr, get_qr,
}

module _ (id : String) (s : Site) (r : Tip) (found : find id s.app.db.tips ≡ some r) where
  pub status_found :
      charge_status_route id s ≡ charge_status (record { status = r.status; amount = r.amount })
  unfolding charge_status_route get_charge_status
  status_found = ground (arith, found)

  pub qr_uncached :
      (gateway : Gateway) → get id s.app.qr_cache ≡ none → get_qr gateway id s ≡ http_error 404
  unfolding get_qr get_charge_status
  qr_uncached gateway e = ground (arith, found, e)

  pub qr_cached :
      (gateway : Gateway) (uri : String)
      → get id s.app.qr_cache ≡ some uri
      → is_empty uri ≡ false
      → get_qr gateway id s ≡ fetch_qr gateway uri
  unfolding get_qr get_charge_status
  qr_cached gateway uri e full = ground (arith, found, e, full)
