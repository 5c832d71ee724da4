-- ===== src/Payment/Omise/Listing.antt =====
-- core/payment/omise.py: `list_recent`. The gateway's answer at an offset is a parameter, an
-- exception where the request fails; the loop over the pages has fuel, and `none` means that it ran
-- out.
use selfhost_tip_overlay.Prelude.{
  ℕ, ◌+◌, Bool, true, Option, none, some, List, [], ◌∷◌, not, length, if◌then◌else◌,
}
use selfhost_tip_overlay.Prelude.Int.{pos, ltb_ℤ}
use selfhost_tip_overlay.Prelude.Text.{is_empty}
use selfhost_tip_overlay.Payment.Base.{Result, ok, ◌>>=◌}
use selfhost_tip_overlay.Payment.Json.{
  Json, null, num, str, arr, nil, empty_dict, get, get_or, item, is_str, text, int_of, items_of,
  number, dict,
}
use selfhost_tip_overlay.Payment.Charges.{ChargeData, collect, Turn, list_pages}
use selfhost_tip_overlay.Payment.Signature.{Env}
use selfhost_tip_overlay.Payment.Omise.{or_empty, paid_time}

-- The date and time that `paid_at` is written with, whatever its offset.
unfoldable pub wall_time : Env → Option Json → Option ℕ
wall_time env (some (str s)) = if is_empty s then none else some (env.wall s)
wall_time env p = none

-- An entry of the list with status "successful".
unfoldable pub charge_data : Env → Json → Result ChargeData
unfolding wall_time
charge_data env charge = do
  p ← get "paid_at" charge
  paid_at ← paid_time env p
  i ← item "id" charge
  charge_id ← text i
  a ← item "amount" charge
  amount ← number a
  c ← item "currency" charge
  currency ← text c
  m ← get "metadata" charge
  metadata ← dict (or_empty m)
  source ← get_or "source" empty_dict charge
  s ← get_or "type" (str "promptpay") source
  source_type ← text s
  ok (record {
    charge_id = charge_id;
    amount = amount;
    currency = currency;
    status = "successful";
    metadata = metadata;
    paid_at = paid_at;
    paid_wall = wall_time env p;
    source_type = source_type;
  })

-- One turn of the loop over a page, with the entry that it appends, if any.
unfoldable pub read_charge : Env → Json → Result (Option ChargeData)
read_charge env charge = get_or "status" null charge >>= λ status.
    if is_str "successful" status then (charge_data env charge >>= λ c. ok (some c)) else ok none

-- The loop over a page.
abbrev pub read_charges : Env → List Json → Result (List ChargeData)
read_charges env = collect (read_charge env)

-- `not page or params["offset"] >= int(data.get("total", 0))`, the offset moved already.
unfoldable pub is_last : Json → List Json → ℕ → Result Bool
is_last answer [] offset = ok true
is_last answer (x ∷ page) offset =
    get_or "total" (num (pos 0)) answer >>= int_of >>= λ total. ok (not (ltb_ℤ (pos offset) total))

-- One turn of the loop over the pages, from an offset.
unfoldable pub turn : Env → (ℕ → Result Json) → ℕ → Result (Turn ℕ)
turn env fetch offset = do
  answer ← fetch offset
  d ← get_or "data" (arr nil) answer
  page ← items_of d
  charges ← read_charges env page
  last ← is_last answer page (offset + length page)
  ok (record { charges = charges; next = offset + length page; last = last })

unfoldable pub list_recent : Env → (ℕ → Result Json) → ℕ → Option (Result (List ChargeData))
unfolding turn
list_recent env fetch fuel = list_pages (turn env fetch) fuel 0 []
