-- ===== src/Payment/Charges.antt =====
-- core/payment/base.py: what an adapter says of a charge, and the interface of the adapters.
use selfhost_tip_overlay.Prelude.{
  ℕ, zero, suc, String, Bool, true, false, Option, none, some, List, [], ◌∷◌, ◌++◌,
}
use selfhost_tip_overlay.Prelude.Int.{ℤ}
use selfhost_tip_overlay.Payment.Base.{Result, ok, raise, ◌>>=◌}
use selfhost_tip_overlay.Payment.Json.{Json, Fields}

pub record ChargeResult : Type 0 where
  pub charge_id : String
  pub qr_download_uri : String
  pub status : String
  pub amount : ℤ
  pub currency : String

-- `paid_at` is the instant, and `paid_wall` the date and time that it is written with, in its own
-- offset.
pub record ChargeData : Type 0 where
  pub charge_id : String
  pub amount : ℤ
  pub currency : String
  pub status : String
  pub metadata : Fields
  pub paid_at : Option ℕ
  pub paid_wall : Option ℕ
  pub source_type : String

-- The adapter's `create_charge` and `proxy_qr`: `none` where they raise.
pub record Gateway : Type 0 where
  pub create_charge : ℤ → String → String → Option ChargeResult
  pub proxy_qr : String → Option (String × String)

abbrev pub cons_some : Option ChargeData → List ChargeData → List ChargeData
cons_some none cs = cs
cons_some (some c) cs = c ∷ cs

-- The loop over a page: what is read from each entry, if anything, in order.
unfoldable pub collect : (Json → Result (Option ChargeData)) → List Json → Result (List ChargeData)
collect read [] = ok []
collect read (x ∷ xs) = read x >>= λ c. collect read xs >>= λ cs. ok (cons_some c cs)

-- One turn of a loop over pages: what it appends, where the next request starts, and whether the
-- loop breaks.
pub record Turn (C : Type 0) : Type 0 where
  pub charges : List ChargeData
  pub next : C
  pub last : Bool

-- The loop over the pages. It has fuel; `none` means that it ran out.
module _ {C : Type 0} (turn : C → Result (Turn C)) where
  abbrev pub after_turn :
      (C → List ChargeData → Option (Result (List ChargeData)))
      → List ChargeData
      → Result (Turn C)
      → Option (Result (List ChargeData))
  after_turn again results (raise e) = some (raise e)
  after_turn again results (ok t) = elim t.last [
    | true ↦ some (ok (results ++ t.charges))
    | false ↦ again t.next (results ++ t.charges)
  ]

  unfoldable pub list_pages : ℕ → C → List ChargeData → Option (Result (List ChargeData))
  list_pages zero start results = none
  list_pages (suc fuel) start results =
      after_turn (λ next cs. list_pages fuel next cs) results (turn start)
