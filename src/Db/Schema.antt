-- ===== src/Db/Schema.antt =====
-- core/db/schema.py: the two tables, and the SQL statements that the operations are made of. A
-- table is its rows in the order of insertion; a nullable column is an `Option`.
use selfhost_tip_overlay.Prelude.{
  ℕ, String, Bool, true, false, Option, none, some, List, [], ◌∷◌, ltb, str_eq, if◌then◌else◌, max,
}
use selfhost_tip_overlay.Prelude.Int.{ℤ}

-- The values of the status column.
pub data Status : Type 0 where
  pending successful failed expired : Status

abbrev pub is_pending : Status → Bool
is_pending pending = true
is_pending successful = false
is_pending failed = false
is_pending expired = false

abbrev pub is_successful : Status → Bool
is_successful pending = false
is_successful successful = true
is_successful failed = false
is_successful expired = false

-- A row of `tips`.
pub record Tip : Type 0 where
  pub charge_id : String
  pub status : Status
  pub amount : ℤ
  pub currency : String
  pub supporter_name : Option String
  pub message : Option String
  pub source_type : Option String
  pub created_at : ℕ
  pub paid_at : Option ℕ
  pub pushed_at : Option ℕ
  pub event_seq : Option ℕ

-- `recon_state` is the column `last_scan_at` of its row 1, if that row is there.
pub record Db : Type 0 where
  pub tips : List Tip
  pub recon_state : Option (Option ℕ)

-- INSERT OR IGNORE: nothing happens where the primary key is taken.
unfoldable pub insert_or_ignore : Tip → List Tip → List Tip
insert_or_ignore new [] = new ∷ []
insert_or_ignore new (r ∷ rows) =
    if str_eq r.charge_id new.charge_id then r ∷ rows else r ∷ insert_or_ignore new rows

-- UPDATE … SET … WHERE.
unfoldable pub update_where : (Tip → Bool) → (Tip → Tip) → List Tip → List Tip
update_where p f [] = []
update_where p f (r ∷ rows) = (if p r then f r else r) ∷ update_where p f rows

-- SELECT … WHERE charge_id = id, its first row.
unfoldable pub find : String → List Tip → Option Tip
find id [] = none
find id (r ∷ rows) = if str_eq r.charge_id id then some r else find id rows

-- COALESCE(MAX(event_seq), 0) over the rows where it is not NULL.
unfoldable pub max_seq : List Tip → ℕ
max_seq [] = 0
max_seq (r ∷ rows) = max (elim r.event_seq [ none ↦ 0 | some s ↦ s ]) (max_seq rows)

-- `column < t` in a WHERE clause that has no NOT: NULL counts as false.
abbrev pub before : Option ℕ → ℕ → Bool
before none t = false
before (some a) t = ltb a t
