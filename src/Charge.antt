-- ===== src/Charge.antt =====
-- routes/charge.py: creation of a charge behind the rate limit, the validators and the live gate;
-- its status and its QR code. FastAPI solves the rate-limit dependency before it reads the body.
mod Valid
mod Lookup
pub mod Created
pub mod Paid
pub mod RoundTrip
mod Tests
use selfhost_tip_overlay.Prelude.{
  ℕ, String, Bool, true, false, ◌&&◌, ◌||◌, Option, none, some, ◌==◌, if◌then◌else◌,
}
use selfhost_tip_overlay.Prelude.Int.{ℤ, pos, ltb_ℤ}
use selfhost_tip_overlay.Prelude.Text.{strip, prefix, is_empty}
use selfhost_tip_overlay.Prelude.Dict.{get, put}
use Prim.Native.Char.{Char, code}
use selfhost_tip_overlay.Db.Schema
use selfhost_tip_overlay.Db.Operations.{upsert_pending, get_charge_status, ChargeStatus}
use selfhost_tip_overlay.RateLimit.{Request, RateLimiter, cf_key, check}
use selfhost_tip_overlay.LiveStatus.{LiveCache, get_live_status}
use selfhost_tip_overlay.Payment.Charges.{ChargeResult, Gateway}
use selfhost_tip_overlay.Webhook.{App}

abbrev pub min_amount_satang : ℤ
min_amount_satang = pos 2000

abbrev pub max_amount_satang : ℤ
max_amount_satang = pos 10_000_000

pub record ChargeRequest : Type 0 where
  pub amount : ℤ
  pub currency : String
  pub supporter_name : String
  pub message : String

abbrev is_letter : ℕ → ℕ → Char → Bool
is_letter lower upper c = code c == lower || code c == upper

-- `v.lower() == "thb"`: no other character than these has its lower-case form in these letters.
unfoldable pub is_thb : String → Bool
is_thb (String.◌∷◌ c (String.◌∷◌ d (String.◌∷◌ e String.[]))) =
    is_letter b't' b'T' c && is_letter b'h' b'H' d && is_letter b'b' b'B' e
is_thb s = false

-- The validators, on a body whose fields have their types: `none` is HTTP 422.
unfoldable pub validate : ChargeRequest → Option ChargeRequest
unfolding is_thb strip prefix
validate body =
    if ltb_ℤ body.amount min_amount_satang
    then none
    else if ltb_ℤ max_amount_satang body.amount
    then none
    else if is_thb body.currency
    then some record {
      amount = body.amount;
      currency = "thb";
      supporter_name = prefix 50 (strip body.supporter_name);
      message = prefix 200 (strip body.message);
    }
    else none

-- What the routes keep: `app.state`, the limiter and the cached live status.
pub record Site : Type 0 where
  pub app : App
  pub limiter : RateLimiter
  pub live : LiveCache

pub data Reply : Type 0 where
  http_error : ℕ → Reply
  created : ChargeResult → Reply
  charge_status : ChargeStatus → Reply
  image : String × String → Reply

-- The QR code in the cache, and the pending row.
abbrev pub record_pending : ChargeRequest → ChargeResult → ℕ → App → App
record_pending body r now a = record a {
  db =
      upsert_pending r.charge_id r.amount r.currency body.supporter_name body.message "promptpay"
        now a.db;
  qr_cache = put r.charge_id r.qr_download_uri a.qr_cache;
}

-- After the live gate: the charge is made, or HTTP 502.
unfoldable pub make_charge : Gateway → ChargeRequest → ℕ → Site → Reply × Site
make_charge gateway body now s =
    elim (gateway.create_charge body.amount body.supporter_name body.message) [
      | none ↦ (http_error 502, s)
      | some r ↦ (created r, record s { app = record_pending body r now s.app })
    ]

-- The live gate: HTTP 403. `fetched` is what OBS would answer.
unfoldable pub gated : Gateway → ChargeRequest → Bool → ℕ → ℕ → ℕ → Site → Reply × Site
gated gateway body fetched t_live t_fetched now s =
    let (live, cache) = get_live_status fetched t_live t_fetched s.live in
    let asked : Site = record s { live = cache } in
    let charged = make_charge gateway body now asked in
    if live then charged else (http_error 403, asked)

-- HTTP 422 for a body that the validators refuse.
abbrev pub validated : Gateway → Option ChargeRequest → Bool → ℕ → ℕ → ℕ → Site → Reply × Site
validated gateway none fetched t_live t_fetched now s = (http_error 422, s)
validated gateway (some b) fetched t_live t_fetched now s =
    gated gateway b fetched t_live t_fetched now s

-- The whole handler; the clock is read in turn by the limiter, the cache before and after it asks
-- OBS, and the database.
unfoldable pub create_charge :
    Gateway → Request → ChargeRequest → Bool → ℕ → ℕ → ℕ → ℕ → Site → Reply × Site
create_charge gateway request body fetched t_limit t_live t_fetched now s =
    let (allowed, limiter) = check (cf_key request) t_limit s.limiter in
    let counted : Site = record s { limiter = limiter } in
    if allowed
    then validated gateway (validate body) fetched t_live t_fetched now counted
    else (http_error 429, counted)

unfoldable pub charge_status_route : String → Site → Reply
charge_status_route charge_id s = elim (get_charge_status charge_id s.app.db) [
  | none ↦ http_error 404
  | some row ↦ charge_status row
]

abbrev pub fetch_qr : Gateway → String → Reply
fetch_qr gateway uri = elim (gateway.proxy_qr uri) [ none ↦ http_error 502 | some p ↦ image p ]

-- The QR code of a charge with a row, through the cached address.
unfoldable pub get_qr : Gateway → String → Site → Reply
get_qr gateway charge_id s = elim (get_charge_status charge_id s.app.db) [
  | none ↦ http_error 404
  | some row ↦ elim (get charge_id s.app.qr_cache) [
    | none ↦ http_error 404
    | some uri ↦ if is_empty uri then http_error 404 else fetch_qr gateway uri
  ]
]
