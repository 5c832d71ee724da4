-- ===== src/Db/Ledger.antt =====
-- What the database promises of each charge, without rows, their order, times and personal data: an
-- abstract ledger, and the step of each call on it.
use selfhost_tip_overlay.Prelude.{
  ℕ, ◌+◌, String, Bool, true, false, Option, none, some, List, [], ◌∷◌, str_eq, is_some,
  if◌then◌else◌,
}
use selfhost_tip_overlay.Prelude.Int.{ℤ}
use selfhost_tip_overlay.Db.Schema.{Status, pending, successful, failed, expired, is_pending}
use selfhost_tip_overlay.Db.Trace.{Op, upsert, paid, push, fail, expire, purge, scan}

-- A charge: its number is there once it has been pushed.
pub record Account : Type 0 where
  pub status : Status
  pub amount : ℤ
  pub number : Option ℕ

-- The largest number is the last that was given.
pub record Ledger : Type 0 where
  pub account : String → Option Account
  pub top : ℕ

abbrev pub opened : Status → ℤ → Account
opened status amount = record { status = status; amount = amount; number = none }

abbrev pub open_account : ℤ → Option Account → Option Account
open_account amount none = some (opened pending amount)
open_account amount (some x) = some x

abbrev pub settle : ℤ → Option Account → Option Account
settle amount none = some (opened successful amount)
settle amount (some x) = some record x { status = successful }

abbrev pub close : Status → Option Account → Option Account
close status none = none
close status (some x) = some (if is_pending x.status then record x { status = status } else x)

abbrev pub is_waiting : Option Account → Bool
is_waiting none = false
is_waiting (some x) = elim (is_some x.number) [ true ↦ false | false ↦ true ]

abbrev pub number_with : ℕ → Option Account → Option Account
number_with n none = none
number_with n (some x) = some (if is_some x.number then x else record x { number = some n })

-- A step on one account.
abbrev pub on_account : String → (Option Account → Option Account) → Ledger → Ledger
on_account id f l = record l { account = λ j. if str_eq id j then f (l.account j) else l.account j }

-- The next number goes to a charge that is waiting for one.
abbrev pub give_number : String → Ledger → Ledger
give_number id l = record {
  account = (on_account id (number_with (l.top + 1)) l).account;
  top = if is_waiting (l.account id) then l.top + 1 else l.top;
}

unfoldable pub ledger_step : Op → Ledger → Ledger
ledger_step (upsert id amount c n m s t) l = on_account id (open_account amount) l
ledger_step (paid id amount c n m s t) l = on_account id (settle amount) l
ledger_step (push id now) l = give_number id l
ledger_step (fail id) l = on_account id (close failed) l
ledger_step (expire id) l = on_account id (close expired) l
ledger_step (purge t) l = l
ledger_step (scan t) l = l

unfoldable pub ledger_run : List Op → Ledger → Ledger
unfolding ledger_step
ledger_run [] l = l
ledger_run (op ∷ ops) l = ledger_run ops (ledger_step op l)
