-- ===== src/Db/Operations.antt =====
-- core/db/operations.py: the methods of `DBOps`. A method that writes returns the new database
-- beside its result, and takes the time that it reads from the clock.
use selfhost_tip_overlay.Prelude.{
  ℕ, zero, suc, ◌+◌, String, Bool, not, ◌&&◌, ◌||◌, Option, none, some, List, [], ◌∷◌, map, str_eq,
  is_some, count, take, select, if◌then◌else◌,
}
use selfhost_tip_overlay.Prelude.Int.{ℤ, pos, ltb_ℤ}
use selfhost_tip_overlay.Prelude.Sort.{sort_by}
use mathlib.Core.Option
use selfhost_tip_overlay.Db.Schema.{
  Status, pending, successful, is_pending, is_successful, Tip, Db, insert_or_ignore, update_where,
  find, max_seq, before,
}

-- The row that both INSERT statements of the module write.
abbrev pub pending_row : String → ℤ → String → String → String → String → ℕ → Tip
pending_row charge_id amount currency supporter_name message source_type created_at = record {
  charge_id = charge_id;
  status = pending;
  amount = amount;
  currency = currency;
  supporter_name = some supporter_name;
  message = some message;
  source_type = some source_type;
  created_at = created_at;
  paid_at = none;
  pushed_at = none;
  event_seq = none;
}

unfoldable pub upsert_pending : String → ℤ → String → String → String → String → ℕ → Db → Db
upsert_pending charge_id amount currency supporter_name message source_type now db = record db {
  tips =
      insert_or_ignore
        (pending_row charge_id amount currency supporter_name message source_type now) db.tips;
}

abbrev pub is_unpaid : String → Tip → Bool
is_unpaid charge_id r = str_eq r.charge_id charge_id && not (is_successful r.status)

abbrev pub set_paid : ℕ → Tip → Tip
set_paid paid_at r = record r { status = successful; paid_at = some paid_at }

-- The row is there after the INSERT; the UPDATE is the guarded money record. Returns the rowcount.
unfoldable pub record_successful : String → ℤ → String → String → String → String → ℕ → Db → ℕ × Db
record_successful charge_id amount currency supporter_name message source_type paid_at db =
    let row = pending_row charge_id amount currency supporter_name message source_type paid_at in
    let rows = insert_or_ignore row db.tips in
    (
      count (is_unpaid charge_id) rows,
      record db { tips = update_where (is_unpaid charge_id) (set_paid paid_at) rows },
    )

abbrev pub is_unpushed : String → Tip → Bool
is_unpushed charge_id r = str_eq r.charge_id charge_id && not (is_some r.pushed_at)

abbrev pub set_pushed : ℕ → ℕ → Tip → Tip
set_pushed now seq r = record r { pushed_at = some now; event_seq = some seq }

-- RETURNING event_seq, `fetchone`: of the first row that the statement changed.
abbrev pub returning : ℕ → ℕ → Option ℕ
returning n seq = elim n [ zero ↦ none | suc _ ↦ some seq ]

-- One UPDATE: its subquery reads the table before any row is changed.
unfoldable pub mark_pushed : String → ℕ → Db → Option ℕ × Db
mark_pushed charge_id now db =
    let seq = max_seq db.tips + 1 in
    (
      returning (count (is_unpushed charge_id) db.tips) seq,
      record db { tips = update_where (is_unpushed charge_id) (set_pushed now seq) db.tips },
    )

abbrev pub is_pending_charge : String → Tip → Bool
is_pending_charge charge_id r = str_eq r.charge_id charge_id && is_pending r.status

unfoldable pub update_status : String → Status → Db → Db
update_status charge_id status db = record db {
  tips = update_where (is_pending_charge charge_id) (λ r. record r { status = status }) db.tips;
}

abbrev pub is_purged_by : ℕ → Tip → Bool
is_purged_by t r =
    is_some r.supporter_name
    && (before r.paid_at t || (is_pending r.status && before (some r.created_at) t))

abbrev pub set_purged : Tip → Tip
set_purged r = record r { supporter_name = none; message = none }

unfoldable pub purge_old : ℕ → Db → ℕ × Db
purge_old t db = (
  count (is_purged_by t) db.tips,
  record db { tips = update_where (is_purged_by t) set_purged db.tips },
)

unfoldable pub next_seq : Db → ℕ
next_seq db = max_seq db.tips + 1

abbrev pub seq_or_zero : Tip → ℕ
seq_or_zero r = elim r.event_seq [ none ↦ 0 | some s ↦ s ]

pub record ChargeStatus : Type 0 where
  pub status : Status
  pub amount : ℤ

unfoldable pub get_charge_status : String → Db → Option ChargeStatus
get_charge_status charge_id db =
    Option.map (λ r. record { status = r.status; amount = r.amount }) (find charge_id db.tips)

-- The columns of a row that manual replay reads.
pub record TipRow : Type 0 where
  pub charge_id : String
  pub amount : ℤ
  pub currency : String
  pub supporter_name : Option String
  pub message : Option String
  pub source_type : Option String
  pub status : Status
  pub paid_at : Option ℕ

abbrev pub tip_row : Tip → TipRow
tip_row r = record {
  charge_id = r.charge_id;
  amount = r.amount;
  currency = r.currency;
  supporter_name = r.supporter_name;
  message = r.message;
  source_type = r.source_type;
  status = r.status;
  paid_at = r.paid_at;
}

unfoldable pub get_tip : String → Db → Option TipRow
get_tip charge_id db = Option.map tip_row (find charge_id db.tips)

-- The columns of a row that goes to a reconnecting overlay.
pub record SinceRow : Type 0 where
  pub charge_id : String
  pub amount : ℤ
  pub currency : String
  pub supporter_name : Option String
  pub message : Option String
  pub event_seq : ℕ

abbrev pub since_row : Tip → ℕ → SinceRow
since_row r seq = record {
  charge_id = r.charge_id;
  amount = r.amount;
  currency = r.currency;
  supporter_name = r.supporter_name;
  message = r.message;
  event_seq = seq;
}

-- WHERE event_seq > :last_seq AND pushed_at IS NOT NULL.
unfoldable pub rows_since : ℤ → List Tip → List SinceRow
rows_since last_seq [] = []
rows_since last_seq (r ∷ rows) =
    let rest = rows_since last_seq rows in
    elim r.event_seq [
      | none ↦ rest
      | some s ↦
          if ltb_ℤ last_seq (pos s) && is_some r.pushed_at then since_row r s ∷ rest else rest
    ]

unfoldable pub get_since_seq : ℤ → ℕ → Db → List SinceRow
unfolding rows_since
get_since_seq last_seq limit db =
    take limit (sort_by (λ (r : SinceRow). r.event_seq) (rows_since last_seq db.tips))

-- The rows that are paid for and not pushed, by the time of payment.
unfoldable pub get_unpushed : Db → List TipRow
get_unpushed db = map tip_row (
    sort_by (λ (r : Tip). elim r.paid_at [ none ↦ 0 | some t ↦ t ])
      (select (λ r. is_successful r.status && not (is_some r.pushed_at)) db.tips))

-- None if the job never ran, and where the column is NULL.
unfoldable pub get_last_scan_at : Db → Option ℕ
get_last_scan_at db = elim db.recon_state [ none ↦ none | some ts ↦ ts ]

unfoldable pub set_last_scan_at : ℕ → Db → Db
set_last_scan_at ts db = record db { recon_state = some (some ts) }
