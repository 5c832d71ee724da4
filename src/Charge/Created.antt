-- ===== src/Charge/Created.antt =====
-- routes/charge.py: `create_charge`, answer by answer.
use selfhost_tip_overlay.Prelude.{
  ℕ, ◌≡◌, refl, sym, ap, ◌∙◌, Bool, true, false, Option, none, some, arith, str_eq_refl,
  if◌then◌else◌,
}
use selfhost_tip_overlay.Prelude.Text.{is_empty}
use selfhost_tip_overlay.Prelude.Dict.{get, get-put}
use selfhost_tip_overlay.Db.Schema.{find, pending}
use selfhost_tip_overlay.Db.Operations.{upsert_pending, pending_row}
use selfhost_tip_overlay.Db.Find.{find-insert_or_ignore}
use selfhost_tip_overlay.RateLimit.{Request, RateLimiter, cf_key, check}
use selfhost_tip_overlay.LiveStatus.{get_live_status}
use selfhost_tip_overlay.Webhook.{App}
use selfhost_tip_overlay.Payment.Charges.{ChargeResult, Gateway}
use selfhost_tip_overlay.Charge.{
  ChargeRequest, validate, Site, Reply, http_error, created, charge_status, record_pending,
  make_charge, gated, validated, create_charge, charge_status_route, fetch_qr, get_qr,
}
use selfhost_tip_overlay.Charge.Lookup.{status_found, qr_cached}
use selfhost_tip_overlay.Charge.Valid.{IsValidRequest, validate-IsValidRequest}

module _ (gateway : Gateway) (request : Request) (body : ChargeRequest) (fetched : Bool)
    (t_limit t_live t_fetched now : ℕ) (s : Site) where
  abbrev pub after : Reply × Site
  after = create_charge gateway request body fetched t_limit t_live t_fetched now s

  -- A request that is refused, whatever refused it, leaves the database, the QR cache and the
  -- overlays as they were.
  pub create_charge_refused : (n : ℕ) → after.0 ≡ http_error n → after.1.app ≡ s.app
  unfolding create_charge gated make_charge
  create_charge_refused n e = ground (arith, e)

  -- What must be the case for a charge to be made.
  pub record IsCreated (r : ChargeResult) : Type 0 where
    pub request_made : ChargeRequest
    pub validated : validate body ≡ some request_made
    pub valid : IsValidRequest request_made
    pub admitted : (check (cf_key request) t_limit s.limiter).0 ≡ true
    pub live : (get_live_status fetched t_live t_fetched s.live).0 ≡ true
    pub charged :
        gateway.create_charge request_made.amount request_made.supporter_name request_made.message
        ≡ some r
    pub recorded : after.1.app ≡ record_pending request_made r now s.app

  abbrev IsMade : ChargeRequest → ChargeResult → Site → Type 0
  IsMade b r s' =
      ((get_live_status fetched t_live t_fetched s.live).0 ≡ true)
      × (gateway.create_charge b.amount b.supporter_name b.message ≡ some r)
      × (s'.app ≡ record_pending b r now s.app)

  gated-IsMade :
      (b : ChargeRequest) (r : ChargeResult) (limiter : RateLimiter)
      → let out = gated gateway b fetched t_live t_fetched now (record s { limiter = limiter }) in
        out.0 ≡ created r → IsMade b r out.1
  unfolding gated make_charge
  gated-IsMade b r limiter e = ground (arith, e)

  accepted :
      (s' : Site) (r : ChargeResult) (ok : Bool) (o : Option ChargeRequest)
      → let out =
          (if ok
            then validated gateway o fetched t_live t_fetched now s'
            else (http_error 429, s')) in
        out.0 ≡ created r
        → (b : ChargeRequest) × (o ≡ some b)
          × (ok ≡ true)
          × (out ≡ gated gateway b fetched t_live t_fetched now s')
  accepted s' r false o e = ground (arith, e)
  accepted s' r true none e = ground (arith, e)
  accepted s' r true (some b) e = (b, refl, refl, refl)

  created-gated :
      (r : ChargeResult)
      → after.0 ≡ created r
      → (b : ChargeRequest) × (validate body ≡ some b)
        × ((check (cf_key request) t_limit s.limiter).0 ≡ true)
        × (after
            ≡ gated gateway b fetched t_live t_fetched now
                (record s { limiter = (check (cf_key request) t_limit s.limiter).1 }))
  unfolding create_charge
  created-gated r e =
      let (allowed, limiter) = check (cf_key request) t_limit s.limiter in
      accepted (record s { limiter = limiter }) r allowed (validate body) e

  -- A charge is made only for a request that the limiter admitted and the validators accepted, while
  -- the streamer was live, and by the gateway on the validated fields: an amount from 2,000 to
  -- 10,000,000 satang, a name of at most 50 and a message of at most 200 characters. It is recorded
  -- as pending and its QR address is cached.
  pub create_charge-IsCreated : (r : ChargeResult) → after.0 ≡ created r → IsCreated r
  create_charge-IsCreated r e =
      let (b, validated, admitted, same) = created-gated r e in
      let limiter = (check (cf_key request) t_limit s.limiter).1 in
      let (live, charged, recorded) = gated-IsMade b r limiter (ap (λ o. o.0) (sym same) ∙ e) in
      record {
        request_made = b;
        validated = validated;
        valid = validate-IsValidRequest body b validated;
        admitted = admitted;
        live = live;
        charged = charged;
        recorded = ap (λ o. o.1.app) same ∙ recorded;
      }

  -- The client of a charge that had no row before finds it pending with the gateway's amount, and
  -- its QR code is the one at the address that the gateway gave, if that address is not empty.
  pub create_charge_status :
      (r : ChargeResult)
      → after.0 ≡ created r
      → find r.charge_id s.app.db.tips ≡ none
      → is_empty r.qr_download_uri ≡ false
      → (charge_status_route r.charge_id after.1
          ≡ charge_status (record { status = pending; amount = r.amount }))
        × (get_qr gateway r.charge_id after.1 ≡ fetch_qr gateway r.qr_download_uri)
  unfolding upsert_pending
  create_charge_status r e new uri =
      let c = create_charge-IsCreated r e in
      let body = c.request_made in
      let row =
        pending_row r.charge_id r.amount r.currency body.supporter_name body.message "promptpay"
          now in
      let found : find r.charge_id after.1.app.db.tips ≡ some row =
        ap (λ (x : App). find r.charge_id x.db.tips) c.recorded
        ∙ (unfold upsert_pending in find-insert_or_ignore r.charge_id row s.app.db.tips)
        ∙ rw (str_eq_refl, new) refl in
      (
        status_found r.charge_id after.1 row found,
        qr_cached r.charge_id after.1 row found gateway r.qr_download_uri
            (ap (λ (x : App). get r.charge_id x.qr_cache) c.recorded
              ∙ get-put r.charge_id r.charge_id r.qr_download_uri s.app.qr_cache
              ∙ rw str_eq_refl refl)
            uri,
      )
