-- ===== src/Payment/Stripe/Listing.antt =====
-- core/payment/stripe.py: `list_recent`. The gateway's answer after a cursor is a parameter, an
-- exception where the request fails.
use selfhost_tip_overlay.Prelude.{
  ℕ, suc, ◌+◌, ◌-◌, ◌*◌, String, Bool, true, false, Option, none, some, List, [], ◌∷◌, leb, str_eq,
  if◌then◌else◌,
}
use selfhost_tip_overlay.Prelude.Int.{ℤ, pos, negsuc}
use selfhost_tip_overlay.Payment.Base.{Result, ok, raise, index_error, value_error, ◌>>=◌}
use selfhost_tip_overlay.Payment.Json.{
  Json, null, bool, num, str, arr, obj, nil, find_field, get, get_or, item, is_truthy, text, int_of,
  items_of, dict,
}
use selfhost_tip_overlay.Payment.Charges.{ChargeData, collect, Turn, list_pages}
use selfhost_tip_overlay.Payment.Omise.{or_empty}

-- 1970-01-01 and 10000-01-01 in seconds, the first since `datetime.min`.
abbrev pub epoch : ℕ
epoch = 62_135_596_800

abbrev pub far_future : ℕ
far_future = 253_402_300_800

-- `datetime.fromtimestamp(ts, tz=utc)`, in microseconds since `datetime.min`: `none` where the year
-- is out of range.
unfoldable pub from_timestamp : ℤ → Option ℕ
from_timestamp (pos n) = if leb far_future n then none else some ((epoch + n) * 1_000_000)
from_timestamp (negsuc n) = if leb epoch n then none else some ((epoch - suc n) * 1_000_000)

-- `latest_charge.get("created")` where it is a dict, and None where it is not.
unfoldable pub latest_created : Option Json → Option Json
unfolding find_field
latest_created (some (obj fs)) = find_field "created" fs
latest_created (some null) = none
latest_created (some (bool b)) = none
latest_created (some (num n)) = none
latest_created (some (str s)) = none
latest_created (some (arr xs)) = none
latest_created none = none

abbrev pub is_set : Option Json → Bool
is_set none = false
is_set (some v) = is_truthy v

-- `paid_at`, from `paid_ts`.
unfoldable pub time_of : Option Json → Result (Option ℕ)
unfolding from_timestamp
time_of none = ok none
time_of (some v) =
    let read : Result (Option ℕ) = int_of v >>= λ n. elim (from_timestamp n) [
      | none ↦ raise value_error
      | some t ↦ ok (some t)
    ] in
    if is_truthy v then read else ok none

-- An intent, its "succeeded" read as "successful".
unfoldable pub intent_data : Json → Result ChargeData
unfolding latest_created time_of
intent_data pi = do
  st ← get_or "status" (str "") pi
  status ← text st
  latest ← get "latest_charge" pi
  created ← get "created" pi
  paid_at ← time_of (if is_set (latest_created latest) then latest_created latest else created)
  i ← item "id" pi
  charge_id ← text i
  a ← get_or "amount" (num (pos 0)) pi
  amount ← int_of a
  c ← get_or "currency" (str "thb") pi
  currency ← text c
  m ← get "metadata" pi
  metadata ← dict (or_empty m)
  ok (record {
    charge_id = charge_id;
    amount = amount;
    currency = currency;
    status = if str_eq status "succeeded" then "successful" else status;
    metadata = metadata;
    paid_at = paid_at;
    paid_wall = paid_at;
    source_type = "promptpay";
  })

unfoldable pub read_intent : Json → Result (Option ChargeData)
read_intent pi = intent_data pi >>= λ c. ok (some c)

-- `xs[-1]`
unfoldable pub last_item : List Json → Result Json
last_item [] = raise index_error
last_item (x ∷ []) = ok x
last_item (x ∷ y ∷ xs) = last_item (y ∷ xs)

-- `data["data"][-1]["id"]`
unfoldable pub last_id : Json → Result String
last_id answer = item "data" answer >>= items_of >>= last_item >>= item "id" >>= text

-- The end of a turn: the next cursor, unless it breaks.
unfoldable pub next_turn : Json → List ChargeData → Bool → Result (Turn (Option String))
next_turn answer charges false = ok (record { charges = charges; next = none; last = true })
next_turn answer charges true =
    last_id answer >>= λ id. ok (record { charges = charges; next = some id; last = false })

-- One turn of the loop over the pages, from `starting_after`.
unfoldable pub turn : (Option String → Result Json) → Option String → Result (Turn (Option String))
turn fetch cursor = do
  answer ← fetch cursor
  d ← get_or "data" (arr nil) answer
  page ← items_of d
  charges ← collect read_intent page
  more ← get "has_more" answer
  next_turn answer charges (is_set more)

unfoldable pub list_recent : (Option String → Result Json) → ℕ → Option (Result (List ChargeData))
unfolding turn
list_recent fetch fuel = list_pages (turn fetch) fuel none []
