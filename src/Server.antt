-- ===== src/Server.antt =====
-- main.py: the routes that are mounted, on the state that they share. A call is a request that has
-- reached its route, with the clock at each reading and what OBS would answer.
pub mod Trusted
pub mod Origin
mod Tests
use selfhost_tip_overlay.Prelude.{
  ℕ, String, Bool, true, false, ◌&&◌, Option, none, some, List, [], ◌∷◌, str_eq, or_default,
  if◌then◌else◌,
}
use selfhost_tip_overlay.Prelude.Int.{ℤ}
use selfhost_tip_overlay.Prelude.Text.{is_empty}
use selfhost_tip_overlay.Db.Operations.{SinceRow}
use selfhost_tip_overlay.RateLimit.{Request}
use selfhost_tip_overlay.LiveStatus.{LiveCache}
use selfhost_tip_overlay.Wiring.{live_status}
use selfhost_tip_overlay.Payment.Base.{Result, WebhookEvent}
use selfhost_tip_overlay.Payment.Charges.{Gateway}
use selfhost_tip_overlay.Payment.Signature.{Bytes, Headers, Env}
use selfhost_tip_overlay.Payment.Omise
use selfhost_tip_overlay.Payment.Stripe
use selfhost_tip_overlay.Security.Redaction.{Environ}
use selfhost_tip_overlay.Security.Boot.{Adapter, omise, stripe}
use selfhost_tip_overlay.Webhook.{App, Pipeline, Response, receive_webhook}
use selfhost_tip_overlay.Charge.{
  Site, ChargeRequest, Reply, create_charge, charge_status_route, get_qr,
}
use selfhost_tip_overlay.Overlay.{Item, ReplayAnswer, overlay_sse, recent_tips, replay_tip}
use selfhost_tip_overlay.Dev.{DevAnswer, test_tip}

-- What stays the same while the program serves: the environment, the adapter that the startup made,
-- its requests to the gateway, and `process_tip`.
pub record Service : Type 0 where
  pub environ : Environ
  pub env : Env
  pub adapter : Adapter
  pub gateway : Gateway
  pub pipeline : Pipeline

pub data Call : Type 0 where
  health : Call
  webhook : ℕ → ℕ → ℕ → Bytes → Headers → Call
  charge : Request → ChargeRequest → Bool → ℕ → ℕ → ℕ → ℕ → Call
  charge_status qr : String → Call
  live : Bool → ℕ → ℕ → Call
  overlay : String → Option String → Call
  recent : String → ℤ → Call
  replay : String → String → ℕ → (App → App) → Call
  dev_test_tip : String → String → ℤ → String → ℕ → Call

pub data Answer : Type 0 where
  healthy not_found unauthorised : Answer
  webhook_answer : Response → Answer
  charge_answer : Reply → Answer
  live_answer : Bool → Answer
  stream_answer : List Item → ℕ → Answer
  recent_answer : List SinceRow → Answer
  replay_answer : ReplayAnswer → Answer
  dev_answer : DevAnswer → Answer

-- `gateway.verify_webhook` of the adapter.
unfoldable pub verify_webhook : Env → Adapter → ℕ → Bytes → Headers → Result WebhookEvent
verify_webhook env (omise skey key) now raw_body headers =
    Omise.verify_webhook env key now raw_body headers
verify_webhook env (stripe skey key) now raw_body headers =
    Stripe.verify_webhook env key now raw_body headers

-- `allow_origins` of the CORS middleware.
unfoldable pub allow_origins : Environ → List String
allow_origins environ =
    let cors_origin = or_default (environ "CORS_ORIGIN") "" in
    if is_empty cors_origin then [] else cors_origin ∷ []

-- `os.environ.get("DEV_TEST_TRIGGER") == "1"`
unfoldable pub is_dev : Environ → Bool
is_dev environ = str_eq (or_default (environ "DEV_TEST_TRIGGER") "") "1"

-- `os.environ.get("OVERLAY_TOKEN", "")`, read at each request.
abbrev pub overlay_token : Environ → String
overlay_token environ = or_default (environ "OVERLAY_TOKEN") ""

-- The state of the webhook's, the overlay's and the development routes is `app.state`.
abbrev pub in_app {ℓ} : {A : Type ℓ} → (A → Answer) → A × App → Site → Answer × Site
in_app wrap (x, a) s = (wrap x, record s { app = a })

abbrev pub opened : Option (List Item × ℕ × App) → Site → Answer × Site
opened none s = (unauthorised, s)
opened (some (items, queue, a)) s = (stream_answer items queue, record s { app = a })

abbrev pub listed : Option (List SinceRow) → Answer
listed none = unauthorised
listed (some rows) = recent_answer rows

unfoldable pub serve : Service → Call → Site → Answer × Site
unfolding live_status is_dev
serve v health s = (healthy, s)
serve v (webhook now t t' raw_body headers) s =
    in_app webhook_answer
      (receive_webhook v.pipeline (verify_webhook v.env v.adapter now raw_body headers) t t' s.app)
      s
serve v (charge request body fetched t_limit t_live t_fetched now) s =
    let (reply, s') = create_charge v.gateway request body fetched t_limit t_live t_fetched now s in
    (charge_answer reply, s')
serve v (charge_status id) s = (charge_answer (charge_status_route id s), s)
serve v (qr id) s = (charge_answer (get_qr v.gateway id s), s)
serve v (live fetched t_live t_fetched) s =
    let (answer, cache) = live_status fetched t_live t_fetched s.live in
    (live_answer answer, record s { live = cache })
serve v (overlay token last_event_id) s =
    opened (overlay_sse (overlay_token v.environ) token last_event_id s.app) s
serve v (recent token after) s =
    (listed (recent_tips (overlay_token v.environ) token after s.app.db), s)
serve v (replay token id now during) s =
    in_app replay_answer (replay_tip v.pipeline (overlay_token v.environ) token id now during s.app)
      s
serve v (dev_test_tip token name amount message now) s =
    let out =
      in_app dev_answer
        (test_tip v.pipeline (overlay_token v.environ) token name amount message now s.app) s in
    if is_dev v.environ then out else (not_found, s)

-- The state after one call after the other.
unfoldable pub serve_all : Service → List Call → Site → Site
unfolding serve
serve_all v [] s = s
serve_all v (c ∷ calls) s = serve_all v calls (serve v c s).1
