-- ===== src/Charge/Valid.antt =====
-- routes/charge.py: the validators of `ChargeRequest`.
use selfhost_tip_overlay.Prelude.{◌≤◌, ◌≡◌, some, arith}
use selfhost_tip_overlay.Prelude.Int.{◌≤ℤ◌}
use selfhost_tip_overlay.Prelude.Text.{strip, len, len-prefix-le}
use selfhost_tip_overlay.Charge.{ChargeRequest, min_amount_satang, max_amount_satang, validate}

-- A request that the validators made.
pub record IsValidRequest (b : ChargeRequest) : Type 0 where
  pub at_least : min_amount_satang ≤ℤ b.amount
  pub at_most : b.amount ≤ℤ max_amount_satang
  pub thb : b.currency ≡ "thb"
  pub name_fits : len b.supporter_name ≤ 50
  pub message_fits : len b.message ≤ 200

pub validate-IsValidRequest : (body b : ChargeRequest) → validate body ≡ some b → IsValidRequest b
unfolding validate
validate-IsValidRequest body b e = record {
  at_least = ground (arith, e);
  at_most = ground (arith, e);
  thb = ground (arith, e);
  name_fits = ground (arith, e, len-prefix-le 50 (strip body.supporter_name));
  message_fits = ground (arith, e, len-prefix-le 200 (strip body.message));
}
