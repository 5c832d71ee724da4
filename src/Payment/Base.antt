-- ===== src/Payment/Base.antt =====
-- core/payment/base.py: the normalised webhook event and charge data, and the exceptions that the
-- program tells apart.
use selfhost_tip_overlay.Prelude.{ℕ, String, Option}
use selfhost_tip_overlay.Prelude.Int.{ℤ}

-- `untyped`: the payload has a value of another type than the gateway documents; what Python does
-- with it further on is not modelled.
pub data Exception : Type 0 where
  signature_error replay_error : Exception
  attribute_error type_error value_error key_error index_error overflow_error request_error
        untyped :
      Exception

pub data Result {ℓ} (A : Type ℓ) : Type ℓ where
  ok : A → Result A
  raise : Exception → Result A

infixl 5 ◌>>=◌
abbrev pub ◌>>=◌ {ℓ κ} : {A : Type ℓ} {B : Type κ} → Result A → (A → Result B) → Result B
ok a >>= f = f a
raise e >>= f = raise e

-- `WebhookEvent.kind`
pub data Kind : Type 0 where
  successful failed expired ignored : Kind

pub record WebhookEvent : Type 0 where
  pub kind : Kind
  pub charge_id : String
  pub amount : ℤ
  pub currency : String
  pub supporter_name : String
  pub message : String
  pub source_type : String
  pub paid_at : Option ℕ
