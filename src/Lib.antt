-- ===== src/Lib.antt =====
-- The verification library of the tip overlay: a server that takes a streamer's tips through a
-- payment gateway and shows them on an overlay.
--
-- The parts, and how they interact. POST /api/charge (routes/charge.py) passes the rate limiter
-- (core/ratelimit.py), the validators and the live gate (app/obs_client.py), and has the gateway
-- make a charge, which core/db/operations.py records as pending. The gateway reports the payment to
-- routes/webhook.py: the adapter (core/payment/omise.py, core/payment/stripe.py) verifies the
-- signature and parses the payload, `record_successful` commits the money, the pipeline
-- (app/process_tip.py) decides what to show, `mark_pushed` allocates the event's number, and
-- app/sse_broadcaster.py hands the event to the overlays, which connect through routes/sse.py.
-- app/reconciliation.py scans the gateway's list of charges at startup for what the webhook missed.
-- Before any of this main.py validates the settings (core/security/secrets.py), fires forged webhooks
-- at the selected adapter (core/security/startup_test.py) and migrates the database
-- (core/db/migrations.py); once a day it purges old personal data.
--
-- Which file models which part.
--   Contracts       contracts/events.py: `TipEvent`, `OverlayEvent`, `StageResult`.
--   Db              core/db/schema.py (Db/Schema: the tables, and the SQL statements as functions on
--                   lists of rows) and core/db/operations.py (Db/Operations: one function for each
--                   method of `DBOps`, from the database to the answer and the new database).
--                   Db/Valid has the invariant, Db/Trace the sequences of calls that keep it;
--                   Db/Money, Db/Push, Db/Sequence, Db/Keeps, Db/Purge, Db/Replay and
--                   Db/Rising are named for what they prove. Db/Ledger is the abstract ledger of the charges, and
--                   Db/Refines shows the calls to be its steps.
--   Migrations      core/db/migrations.py, and `init_db` of core/db/schema.py: the version row, and the
--                   migrations as functions on tables that are a parameter. Migrations/Backup has
--                   the copy that is made before them.
--   RateLimit       core/ratelimit.py: `cf_key`, `RateLimiter.check` and `_evict_stale`.
--   Payment         core/payment/base.py (Payment/Base, Payment/Charges with the loop over the pages
--                   of a list), the verification of webhooks in core/payment/omise.py and
--                   core/payment/stripe.py (Payment/Omise, Payment/Stripe; what they share in
--                   Payment/Signature), their `list_recent` (Payment/Omise/Listing,
--                   Payment/Stripe/Listing), `create_charge` and `proxy_qr` (Payment/Omise/Creation,
--                   Payment/Stripe/Creation), the values of `json.loads` (Payment/Json) and `str` of
--                   an integer (Payment/Decimal).
--   LiveStatus      app/obs_client.py: the protocol on the three messages of OBS, and the cache;
--                   LiveStatus/Challenge is about the challenge in the first of them.
--   Security        core/security/secrets.py (Security/Secrets), core/security/log.py
--                   (Security/Redaction), core/security/startup_test.py (Security/SelfTest) and the
--                   order of the startup in main.py (Security/Boot), with the reading and the
--                   conversion of the settings. Security/Hidden, Security/Logged, Security/Ready, Security/Vectors, Security/StripeVectors, Security/Passes and Security/Serves are
--                   about them; Security/Example has an environment that passes.
--   Webhook         routes/webhook.py: `receive_webhook` and `_push_tip`. Webhook/Actions cuts a
--                   delivery into the atomic steps between which the event loop may switch;
--                   Webhook/Once is about any interleaving of them, Webhook/Genuine and
--                   Webhook/GenuineStripe about a delivery from its bytes to the overlay.
--   Charge          routes/charge.py: the three routes on the state `Site`.
--   Broadcaster     app/sse_broadcaster.py: a list of numbered queues; Broadcaster/Delivery and
--                   Broadcaster/Sound are about its operations.
--   Overlay         routes/sse.py: the opening of a connection, backfill and manual replay; Overlay/Reconnect is about
--                   the id of a frame that comes back as Last-Event-ID, Overlay/Gap about what the
--                   replay does not have. Overlay/Stream is the generator of the
--                   stream: the phases of each connection, and a relation of the steps that all
--                   connections and the broadcasts make on the hub that they share. A manual replay is given what
--                   the other tasks do while it waits for the pipeline.
--   Stages          app/process_tip.py, app/stages/amount_tiers.py, app/stages/word_filter.py and
--                   app/settings_loader.py; Stages/Cached has the settings and the patterns that the
--                   stages keep from their first use, Stages/Spaces the white space of a text.
--   Reconciliation  app/reconciliation.py: `run` on the list that the adapter returns, and in
--                   Reconciliation/Gateway on the pages that the gateway answers.
--   Dev             routes/dev.py: the simulated tip.
--   Wiring          main.py: the state of a new process and the scan that it starts, a turn of the
--                   purge, and the settings of both; routes/live_status.py. Wiring/Lives is about
--                   processes that stop and start again on one database.
--   Server          main.py: the routes that are mounted and the origins that are allowed. A request
--                   that has reached its route is a `Call`; `serve` is the program's answer, on the
--                   state of all routes.
--   Tools           tools/core_guard.py and tools/check_imports.py.
--
-- Conventions. Amounts are integers in satang; times on the calendar and on the monotonic clock are
-- microseconds, and each reading of a clock is an argument. A nullable column is an `Option`. An
-- exception is a value: `Result` names the ones that the program tells apart, `none` stands for one
-- that is caught whole. Recursion is structural on lists and texts, but for the loop over the
-- pages of a gateway's list, whose fuel is a number of requests: one more than the charges of the
-- list is enough, since every page but the last has a charge. `str` of an integer writes at most
-- 4300 digits, CPython's limit. A connection is given 101 turns to be sent what waits for it: two for
-- each of the 50 events of a full queue, and one for an event in hand.
-- The bounds are the source's: 50 events in a queue, 50 rows in a replay, 30 requests in 60 seconds,
-- 300 seconds of replay window.
--
-- Parameters stand for code that the repository calls and does not have: HMAC-SHA256, `json.loads`,
-- `datetime.fromisoformat`, the notation `str` gives numbers and containers, NFC and `lower`, the
-- search of a pattern, `base64.b64decode`, the environment, and the answers of the gateway to a
-- request; to the charge route the adapter is a pair of functions. The import check is given the
-- nodes of `ast.walk`. Of HMAC it is assumed, where the
-- self-test is concerned, that it writes hexadecimal digits and not the zeros of a forged vector; of
-- a gateway that lists charges, that each answer is a page of one list.
--
-- What is not modelled. The database engine, its pragmas and its failures; payloads with
-- numbers that are no integers, and texts where the gateway documents another type (the exception
-- `untyped`); HTTP between the adapters and the gateways, and the dispatch of a request by the
-- framework and its middleware, which are code of libraries; logging but for its redaction; the
-- delays between the turns of background tasks; and tools/make_alert_sound.py, which writes the
-- samples of a tone in floating point.
pub mod Prelude
pub mod Contracts
pub mod Db
pub mod Migrations
pub mod RateLimit
pub mod Broadcaster
pub mod Payment
pub mod LiveStatus
pub mod Security
pub mod Webhook
pub mod Charge
pub mod Overlay
pub mod Dev
pub mod Wiring
pub mod Server
pub mod Tools
pub mod Stages
pub mod Reconciliation
