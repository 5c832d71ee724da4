-- ===== src/Payment/Tests.antt =====
-- A signed Omise delivery and a signed Stripe delivery under a toy digest, and the theorems at them.
use selfhost_tip_overlay.Prelude.{ℕ, ◌≡◌, refl, none, some, [], ◌∷◌, str_eq, if◌then◌else◌, ◌==◌}
use selfhost_tip_overlay.Prelude.Int.{pos}
use selfhost_tip_overlay.Prelude.Text.{is_ascii}
use selfhost_tip_overlay.Payment.Base.{ok, type_error}
use selfhost_tip_overlay.Payment.Json.{Json, num, str, obj, end, field, parse_int}
use selfhost_tip_overlay.Payment.Signature.{Bytes, Headers, Env, encode, check_window}
use selfhost_tip_overlay.Payment.Omise
use selfhost_tip_overlay.Payment.Stripe
use selfhost_tip_overlay.Payment.Authentic.{IsAuthentic, omise-IsAuthentic, stripe-IsAuthentic}
use selfhost_tip_overlay.Payment.Rejected.{omise_non_ascii}
use selfhost_tip_overlay.Webhook.{App, receive_webhook, unhandled}
use selfhost_tip_overlay.Db.Trace.{empty}

abbrev payload : Json
payload = obj (
    field "key" (str "charge.complete") (
      field "data"
        (obj (
          field "object" (str "charge") (
            field "id" (str "chrg_1")
              (field "status" (str "successful") (field "amount" (num (pos 5000)) end)))))
        end))

-- The digest tells messages apart by whether their last byte is `A`.
last : Bytes → ℕ
last [] = 0
last (b ∷ []) = b
last (b ∷ c ∷ bs) = last (c ∷ bs)

abbrev env : Env
env = record {
  hmac_hex = λ key message. if last message == 65 then "aa" else "bb";
  loads = λ body. ok payload;
  from_iso = λ s. none;
  wall = λ s. 0;
  repr = λ v. "";
}

abbrev omise_headers : Headers
omise_headers name =
    if str_eq name "omise-signature-timestamp"
    then some "1000"
    else if str_eq name "omise-signature"
    then some "00, aa"
    else none

abbrev stripe_headers : Headers
stripe_headers name = if str_eq name "stripe-signature" then some "t=1000,v1=00,v1=aa" else none

omise_accepts : Omise.verify_signature env [] 1_100_000_000 (65 ∷ []) omise_headers ≡ ok payload
unfolding Omise.verify_signature encode last
omise_accepts = refl

stripe_accepts : Stripe.verify_signature env [] 1_100_000_000 (65 ∷ []) stripe_headers ≡ ok payload
unfolding Stripe.verify_signature encode last
stripe_accepts = refl

omise-IsAuthentic_example :
    IsAuthentic env [] 1_100_000_000 (65 ∷ []) "1000" (Omise.provided_sigs "00, aa") payload
omise-IsAuthentic_example =
    omise-IsAuthentic env [] 1_100_000_000 (65 ∷ []) omise_headers payload omise_accepts

stripe-IsAuthentic_example :
    IsAuthentic env [] 1_100_000_000
      (65 ∷ [])
      (Stripe.parts_of "t=1000,v1=00,v1=aa").ts_str
      (Stripe.parts_of "t=1000,v1=00,v1=aa").v1_sigs
      payload
stripe-IsAuthentic_example =
    stripe-IsAuthentic env [] 1_100_000_000 (65 ∷ []) stripe_headers payload stripe_accepts

abbrev app : App
app = record {
  db = empty;
  qr_cache = [];
  hub = record { subscribers = []; queue = λ q. []; next = 0 };
  sent = [];
}

abbrev accented : Headers
accented name = if str_eq name "omise-signature" then some "é" else some "1000"

omise_non_ascii_example :
    receive_webhook
      (λ e. none)
      (Omise.verify_webhook env [] 1_100_000_000 (65 ∷ []) accented)
      5
      6
      app
    ≡ (unhandled type_error, app)
unfolding Omise.provided_sigs parse_int check_window is_ascii
omise_non_ascii_example =
    omise_non_ascii env [] 1_100_000_000 (65 ∷ []) accented (λ e. none) 5 6 app "1000" "é"
      (pos 1000) "é" [] refl refl refl refl refl refl refl refl
