-- ===== src/Db/Tests.antt =====
-- A small table, runs over it, and the theorems at it.
use selfhost_tip_overlay.Prelude.{◌≡◌, refl, none, some, List, [], ◌∷◌}
use selfhost_tip_overlay.Prelude.Int.{pos}
use selfhost_tip_overlay.Db.Schema.{
  successful, expired, Tip, Db, insert_or_ignore, update_where, find, max_seq,
}
use selfhost_tip_overlay.Db.Operations.{
  upsert_pending, record_successful, mark_pushed, update_status, purge_old,
}
use selfhost_tip_overlay.Db.Trace.{
  Op, upsert, paid, push, fail, expire, purge, run, empty, run-IsValid,
}
use selfhost_tip_overlay.Db.Valid.{IsValid}
use selfhost_tip_overlay.Db.Keeps.{KeepsRow, run-KeepsRow}
use selfhost_tip_overlay.Db.Sequence.{pushes}
use selfhost_tip_overlay.Db.Purge.{purge_old_closed}
use selfhost_tip_overlay.Db.Ledger.{ledger_run}
use selfhost_tip_overlay.Db.Refines.{ledger, run-ledger}

-- Two charges are made; one is paid and pushed, and its webhook comes again; the other expires.
abbrev calls : List Op
calls =
    upsert "c1" (pos 5000) "thb" "Ann" "hi" "promptpay" 10
    ∷ upsert "c2" (pos 2000) "thb" "Bo" "yo" "promptpay" 11
    ∷ paid "c1" (pos 5000) "thb" "Ann" "hi" "promptpay" 20
    ∷ push "c1" 21
    ∷ paid "c1" (pos 5000) "thb" "Ann" "hi" "promptpay" 22
    ∷ push "c1" 23
    ∷ expire "c2"
    ∷ []

abbrev c1 : Tip
c1 = record {
  charge_id = "c1";
  status = successful;
  amount = pos 5000;
  currency = "thb";
  supporter_name = some "Ann";
  message = some "hi";
  source_type = some "promptpay";
  created_at = 10;
  paid_at = some 20;
  pushed_at = some 21;
  event_seq = some 1;
}

abbrev c2 : Tip
c2 = record {
  charge_id = "c2";
  status = expired;
  amount = pos 2000;
  currency = "thb";
  supporter_name = some "Bo";
  message = some "yo";
  source_type = some "promptpay";
  created_at = 11;
  paid_at = none;
  pushed_at = none;
  event_seq = none;
}

abbrev two_tips : Db
two_tips = record { tips = c1 ∷ c2 ∷ []; recon_state = none }

run-calls : run calls empty ≡ two_tips
unfolding run upsert_pending record_successful mark_pushed update_status insert_or_ignore
    update_where max_seq
run-calls = refl

pushes-calls : pushes calls empty ≡ ("c1", 1) ∷ []
unfolding pushes upsert_pending record_successful mark_pushed update_status insert_or_ignore
    update_where max_seq
pushes-calls = refl

run-IsValid_example : IsValid (run calls empty)
run-IsValid_example = run-IsValid calls empty tt

two_tips-IsValid : IsValid two_tips
two_tips-IsValid = rw run-calls at run-IsValid_example

run-KeepsRow_example :
    KeepsRow (find "c1" two_tips.tips) (find "c1" (run (purge 99 ∷ fail "c1" ∷ []) two_tips).tips)
run-KeepsRow_example = run-KeepsRow "c1" (purge 99 ∷ fail "c1" ∷ []) two_tips

purge_old_closed_example : find "c2" (purge_old 99 two_tips).1.tips ≡ some c2
unfolding find
purge_old_closed_example = purge_old_closed "c2" 99 two_tips c2 two_tips-IsValid refl refl

run-ledger_example : ledger (run calls empty) ≡ ledger_run calls (ledger empty)
run-ledger_example = run-ledger calls empty tt
