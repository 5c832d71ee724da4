-- ===== src/Db/Replay.antt =====
-- core/db/operations.py: `get_since_seq`, against the pushed rows.
use selfhost_tip_overlay.Prelude.{
  ℕ, zero, suc, ◌≤◌, ◌<◌, String, ◌≡◌, refl, ap, ◌∙◌, Bool, true, some, List, [], ◌∷◌, arith,
  is_some, count, take, length, length-take-le, All, ◌&&◌, str_eq, ◌==◌, eq_iff,
}
use selfhost_tip_overlay.Prelude.Int.{ℤ, pos, ltb_ℤ}
use selfhost_tip_overlay.Prelude.Sort.{
  sort_by, IsSorted, insert_by, sort_by-IsSorted, All-sort_by, count-sort_by,
}
use selfhost_tip_overlay.Db.Schema.{Tip, Db, find}
use selfhost_tip_overlay.Db.Operations.{SinceRow, rows_since, get_since_seq}

abbrev pub seq_of : SinceRow → ℕ
seq_of r = r.event_seq

pub All-take {κ} : (P : SinceRow → Type κ) (n : ℕ) (l : List SinceRow) → All P l → All P (take n l)
All-take P zero l h = tt
All-take P (suc n) [] h = tt
All-take P (suc n) (x ∷ l) h = (h.0, All-take P n l h.1)

take-IsSorted : (n : ℕ) (l : List SinceRow) → IsSorted seq_of l → IsSorted seq_of (take n l)
take-IsSorted zero l h = tt
take-IsSorted (suc n) [] h = tt
take-IsSorted (suc n) (x ∷ l) h =
    (All-take (λ y. seq_of x ≤ seq_of y) n l h.0, take-IsSorted n l h.1)

take_all : (n : ℕ) (l : List SinceRow) → length l ≤ n → take n l ≡ l
take_all zero [] h = refl
take_all zero (x ∷ l) h = absurd (omega arith)
take_all (suc n) [] h = refl
take_all (suc n) (x ∷ l) h = ap (◌∷◌ x) (take_all n l (omega arith))

length-insert_by :
    (x : SinceRow) (l : List SinceRow) → length (insert_by seq_of x l) ≡ suc (length l)
length-insert_by x [] = refl
length-insert_by x (y ∷ l) = ground (arith, length-insert_by x l)

length-sort_by : (l : List SinceRow) → length (sort_by seq_of l) ≡ length l
length-sort_by [] = refl
length-sort_by (x ∷ l) = length-insert_by x (sort_by seq_of l) ∙ ap suc (length-sort_by l)

abbrev pub IsAbove : ℤ → SinceRow → Type 0
IsAbove last r = ltb_ℤ last (pos r.event_seq) ≡ true

rows_since-IsAbove : (last : ℤ) (rows : List Tip) → All (IsAbove last) (rows_since last rows)
unfolding rows_since
rows_since-IsAbove last [] = tt
rows_since-IsAbove last (r ∷ rows) = ground (arith, rows_since-IsAbove last rows)

-- The rows come in rising order of their numbers, each number is above `last_seq`, and there are
-- at most `limit` of them.
pub get_since_seq_lem :
    (last : ℤ) (limit : ℕ) (db : Db)
    → IsSorted seq_of (get_since_seq last limit db)
      × All (IsAbove last) (get_since_seq last limit db)
      × (length (get_since_seq last limit db) ≤ limit)
unfolding get_since_seq
get_since_seq_lem last limit db =
    let missed = rows_since last db.tips in
    (
      take-IsSorted limit (sort_by seq_of missed) (sort_by-IsSorted seq_of missed),
      All-take (IsAbove last) limit (sort_by seq_of missed)
          (All-sort_by seq_of (IsAbove last) missed (rows_since-IsAbove last db.tips)),
      length-take-le limit (sort_by seq_of missed),
    )

-- How many rows a client whose last event is `last` has missed.
abbrev pub missed : ℤ → Db → ℕ
missed last db = length (rows_since last db.tips)

abbrev pub is_event : String → ℕ → SinceRow → Bool
is_event id n r = str_eq r.charge_id id && (r.event_seq == n)

counts_row :
    (last : ℤ) (id : String) (n : ℕ) (rows : List Tip) (r : Tip)
    → find id rows ≡ some r
    → r.event_seq ≡ some n
    → is_some r.pushed_at ≡ true
    → ltb_ℤ last (pos n) ≡ true
    → 0 < count (is_event id n) (rows_since last rows)
unfolding find rows_since
counts_row last id n [] r f e p l = cc
counts_row last id n (x ∷ rows) r f e p l =
    ground (arith, eq_iff x.charge_id id, counts_row last id n rows r)

-- Where no more than `limit` rows were missed, every pushed row above `last_seq` is sent.
pub get_since_seq_complete :
    (last : ℤ) (limit : ℕ) (id : String) (n : ℕ) (db : Db) (r : Tip)
    → missed last db ≤ limit
    → find id db.tips ≡ some r
    → r.event_seq ≡ some n
    → is_some r.pushed_at ≡ true
    → ltb_ℤ last (pos n) ≡ true
    → 0 < count (is_event id n) (get_since_seq last limit db)
unfolding get_since_seq
get_since_seq_complete last limit id n db r m f e p l =
    let rows = rows_since last db.tips in
    rw
      (
        take_all limit (sort_by seq_of rows) (rw (length-sort_by rows) m),
        count-sort_by seq_of (is_event id n) rows,
      )
      (counts_row last id n db.tips r f e p l)
