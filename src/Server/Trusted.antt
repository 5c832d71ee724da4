-- ===== src/Server/Trusted.antt =====
-- main.py: which requests can make the overlay show something, or a charge count as paid.
use selfhost_tip_overlay.Prelude.{
  ℕ, String, ◌≡◌, refl, ap, ◌∙◌, Bool, true, false, ◌&&◌, ◌||◌, Option, none, some, List, [], ◌∷◌,
  arith, str_eq, or_default, if◌then◌else◌, Bool-cases, inl, inr,
}
use selfhost_tip_overlay.Prelude.Int.{ℤ}
use selfhost_tip_overlay.Db.Schema.{Tip, Db, find}
use selfhost_tip_overlay.Db.Operations.{upsert_pending, pending_row}
use selfhost_tip_overlay.Db.Find.{find-insert_or_ignore}
use selfhost_tip_overlay.Db.Money.{is_paid_row, is_paid}
use selfhost_tip_overlay.RateLimit.{Request, cf_key, check}
use selfhost_tip_overlay.LiveStatus.{get_live_status}
use selfhost_tip_overlay.Payment.Authentic.{contains}
use selfhost_tip_overlay.Payment.Charges.{ChargeResult, Gateway}
use selfhost_tip_overlay.Payment.Rejected.{omise_forged, stripe_forged}
use selfhost_tip_overlay.Payment.Signature.{Bytes, Headers, Env, signed}
use selfhost_tip_overlay.Payment.Omise
use selfhost_tip_overlay.Payment.Stripe
use selfhost_tip_overlay.Security.Boot.{Adapter, omise, stripe}
use selfhost_tip_overlay.Webhook.{App, Pipeline, receive_webhook}
use selfhost_tip_overlay.Charge.{
  Site, ChargeRequest, Reply, http_error, created, record_pending, make_charge, gated, validated,
  validate, create_charge,
}
use selfhost_tip_overlay.Overlay.{is_authorised, overlay_sse, replay_tip}
use selfhost_tip_overlay.Dev.{test_tip}
use selfhost_tip_overlay.Server.{
  Service, Call, health, webhook, charge, charge_status, qr, live, overlay, recent, replay,
  dev_test_tip, verify_webhook, is_dev, overlay_token, serve, serve_all, opened,
}

-- One of the signatures of the delivery is the HMAC of its timestamp and its body.
abbrev pub is_signed : Env → Adapter → Bytes → Headers → Bool
is_signed env (omise skey key) raw_body headers =
    contains
      (env.hmac_hex key (signed (or_default (headers "omise-signature-timestamp") "") raw_body))
      (Omise.provided_sigs (or_default (headers "omise-signature") ""))
is_signed env (stripe skey key) raw_body headers =
    let parts = Stripe.parts_of (or_default (headers "stripe-signature") "") in
    contains (env.hmac_hex key (signed parts.ts_str raw_body)) parts.v1_sigs

-- A webhook that the gateway signed, or a route for the streamer with the overlay's token; the
-- simulated tip where it is mounted.
abbrev pub is_trusted : Service → Call → Bool
is_trusted v health = false
is_trusted v (webhook now t t' raw_body headers) = is_signed v.env v.adapter raw_body headers
is_trusted v (charge request body fetched t_limit t_live t_fetched now) = false
is_trusted v (charge_status id) = false
is_trusted v (qr id) = false
is_trusted v (live fetched t_live t_fetched) = false
is_trusted v (overlay token last_event_id) = false
is_trusted v (recent token after) = false
is_trusted v (replay token id now during) = is_authorised (overlay_token v.environ) token
is_trusted v (dev_test_tip token name amount message now) =
    is_dev v.environ && is_authorised (overlay_token v.environ) token

abbrev pub any_trusted : Service → List Call → Bool
any_trusted v [] = false
any_trusted v (c ∷ calls) = is_trusted v c || any_trusted v calls

-- Nothing more has been broadcast, and the same charges are recorded as paid.
pub record IsQuiet (a a' : App) : Type 0 where
  pub sent : a'.sent ≡ a.sent
  pub paid : (id : String) → is_paid id a'.db ≡ is_paid id a.db

IsQuiet-same : (a a' : App) → a' ≡ a → IsQuiet a a'
IsQuiet-same a a' e = record {
  sent = ap (λ (x : App). x.sent) e;
  paid = λ id. ap (λ (x : App). is_paid id x.db) e;
}

webhook-IsQuiet :
    (pipeline : Pipeline) (env : Env) (adapter : Adapter) (now t t' : ℕ) (raw_body : Bytes)
    (headers : Headers) (a : App)
    → is_signed env adapter raw_body headers ≡ false
    → (receive_webhook pipeline (verify_webhook env adapter now raw_body headers) t t' a).1 ≡ a
unfolding verify_webhook
webhook-IsQuiet pipeline env (omise skey key) now t t' raw_body headers a h =
    omise_forged env key now raw_body headers pipeline t t' a h
webhook-IsQuiet pipeline env (stripe skey key) now t t' raw_body headers a h =
    stripe_forged env key now raw_body headers pipeline t t' a h

IsQuiet-if :
    (b : Bool) (a : App) (x y : Reply × Site)
    → IsQuiet a x.1.app
    → IsQuiet a y.1.app
    → IsQuiet a (if b then x else y).1.app
IsQuiet-if true a x y h k = h
IsQuiet-if false a x y h k = k

module _ (gateway : Gateway) where
  pending-is_paid :
      (id : String) (new : Tip) (db : Db)
      → is_paid_row (some new) ≡ false
      → is_paid_row (
          if str_eq new.charge_id id
          then some (or_default (find id db.tips) new)
          else find id db.tips)
        ≡ is_paid id db
  pending-is_paid id new db h = ground (arith, h)

  upsert-IsQuiet :
      (body : ChargeRequest) (r : ChargeResult) (now : ℕ) (a : App)
      → IsQuiet a (record_pending body r now a)
  unfolding upsert_pending
  upsert-IsQuiet body r now a = record {
    sent = refl;
    paid = λ id.
        let new =
          pending_row r.charge_id r.amount r.currency body.supporter_name body.message "promptpay"
            now in
        ap is_paid_row (unfold upsert_pending in find-insert_or_ignore id new a.db.tips)
        ∙ pending-is_paid id new a.db refl;
  }

  made-IsQuiet :
      (body : ChargeRequest) (now : ℕ) (s : Site) (o : Option ChargeResult)
      → let out = elim o as (λ o. Reply × Site) [
        | none ↦ (http_error 502, s)
        | some r ↦ (created r, record s { app = record_pending body r now s.app })
      ] in
        IsQuiet s.app out.1.app
  made-IsQuiet body now s none = IsQuiet-same s.app s.app refl
  made-IsQuiet body now s (some r) = upsert-IsQuiet body r now s.app

  make_charge-IsQuiet :
      (body : ChargeRequest) (now : ℕ) (s : Site)
      → IsQuiet s.app (make_charge gateway body now s).1.app
  unfolding make_charge
  make_charge-IsQuiet body now s =
      made-IsQuiet body now s (gateway.create_charge body.amount body.supporter_name body.message)

  gated-IsQuiet :
      (body : ChargeRequest) (fetched : Bool) (t_live t_fetched now : ℕ) (s : Site)
      → IsQuiet s.app (gated gateway body fetched t_live t_fetched now s).1.app
  unfolding gated
  gated-IsQuiet body fetched t_live t_fetched now s =
      let (is_live, cache) = get_live_status fetched t_live t_fetched s.live in
      let asked : Site = record s { live = cache } in
      IsQuiet-if is_live s.app _ _ (make_charge-IsQuiet body now asked)
        (IsQuiet-same s.app s.app refl)

  validated-IsQuiet :
      (o : Option ChargeRequest) (fetched : Bool) (t_live t_fetched now : ℕ) (s : Site)
      → IsQuiet s.app (validated gateway o fetched t_live t_fetched now s).1.app
  validated-IsQuiet none fetched t_live t_fetched now s = IsQuiet-same s.app s.app refl
  validated-IsQuiet (some b) fetched t_live t_fetched now s =
      gated-IsQuiet b fetched t_live t_fetched now s

  create_charge-IsQuiet :
      (request : Request) (body : ChargeRequest) (fetched : Bool) (t_limit t_live t_fetched now : ℕ)
      (s : Site)
      → IsQuiet s.app
          (create_charge gateway request body fetched t_limit t_live t_fetched now s).1.app
  unfolding create_charge
  create_charge-IsQuiet request body fetched t_limit t_live t_fetched now s =
      let (allowed, limiter) = check (cf_key request) t_limit s.limiter in
      IsQuiet-if allowed s.app _ _
        (validated-IsQuiet (validate body) fetched t_live t_fetched now
          (record s { limiter = limiter }))
        (IsQuiet-same s.app s.app refl)

overlay-IsQuiet :
    (token given : String) (last_event_id : Option String) (s : Site)
    → IsQuiet s.app (opened (overlay_sse token given last_event_id s.app) s).1.app
unfolding overlay_sse
overlay-IsQuiet token given last_event_id s = elim (Bool-cases (is_authorised token given)) [
  | inl y ↦ rw y (record { sent = refl; paid = λ id. refl })
  | inr n ↦ rw n (IsQuiet-same s.app s.app refl)
]

replay-untrusted :
    (pipeline : Pipeline) (token given id : String) (now : ℕ) (during : App → App) (a : App)
    → is_authorised token given ≡ false
    → (replay_tip pipeline token given id now during a).1 ≡ a
unfolding replay_tip
replay-untrusted pipeline token given id now during a h = rw h refl

test_tip-untrusted :
    (pipeline : Pipeline) (token given name : String) (amount : ℤ) (message : String) (now : ℕ)
    (a : App)
    → is_authorised token given ≡ false
    → (test_tip pipeline token given name amount message now a).1 ≡ a
unfolding test_tip
test_tip-untrusted pipeline token given name amount message now a h = rw h refl

serve-IsQuiet :
    (v : Service) (c : Call) (s : Site) → is_trusted v c ≡ false → IsQuiet s.app (serve v c s).1.app
unfolding serve
serve-IsQuiet v health s h = IsQuiet-same s.app s.app refl
serve-IsQuiet v (webhook now t t' raw_body headers) s h =
    IsQuiet-same s.app _
      (webhook-IsQuiet v.pipeline v.env v.adapter now t t' raw_body headers s.app h)
serve-IsQuiet v (charge request body fetched t_limit t_live t_fetched now) s h =
    create_charge-IsQuiet v.gateway request body fetched t_limit t_live t_fetched now s
serve-IsQuiet v (charge_status id) s h = IsQuiet-same s.app s.app refl
serve-IsQuiet v (qr id) s h = IsQuiet-same s.app s.app refl
serve-IsQuiet v (live fetched t_live t_fetched) s h = IsQuiet-same s.app s.app refl
serve-IsQuiet v (overlay token last_event_id) s h =
    overlay-IsQuiet (overlay_token v.environ) token last_event_id s
serve-IsQuiet v (recent token after) s h = IsQuiet-same s.app s.app refl
serve-IsQuiet v (replay token id now during) s h =
    IsQuiet-same s.app _
      (replay-untrusted v.pipeline (overlay_token v.environ) token id now during s.app h)
serve-IsQuiet v (dev_test_tip token name amount message now) s h =
    elim (Bool-cases (is_dev v.environ)) [
      | inl y ↦ rw y (
          IsQuiet-same s.app _ (
            test_tip-untrusted v.pipeline (overlay_token v.environ) token name amount message now
              s.app (rw y at h)))
      | inr n ↦ rw n (IsQuiet-same s.app s.app refl)
    ]

-- Whatever requests come, in any number and any order: where none of them is trusted, nothing is
-- broadcast and no charge comes to count as paid or ceases to. A request is trusted if it is a
-- webhook one of whose signatures is the HMAC of its timestamp and body under the webhook key; if
-- it has the overlay's token, which is set, and asks for a replay; or if it does so and asks for a
-- simulated tip while DEV_TEST_TRIGGER is "1".
pub serve_all-IsQuiet :
    (v : Service) (calls : List Call) (s : Site)
    → any_trusted v calls ≡ false
    → IsQuiet s.app (serve_all v calls s).app
unfolding serve_all
serve_all-IsQuiet v [] s h = IsQuiet-same s.app s.app refl
serve_all-IsQuiet v (c ∷ calls) s h =
    let first = serve-IsQuiet v c s (ground (arith, h)) in
    let s' = (serve v c s).1 in
    let rest = serve_all-IsQuiet v calls s' (ground (arith, h)) in
    record { sent = rest.sent ∙ first.sent; paid = λ id. rest.paid id ∙ first.paid id }
