-- ===== src/Db/Rising.antt =====
-- core/db/operations.py: the rows of `get_since_seq` have different numbers.
use selfhost_tip_overlay.Prelude.{
  ℕ, zero, suc, ◌≤◌, ◌<◌, ◌≡◌, sym, ap, ◌∙◌, if◌then◌else◌, ◌≢◌, Bool, true, false, some, List, [],
  ◌∷◌, arith, take, All, All-mono, Option-cases, Bool-cases, inl, inr, max, leb,
}
use selfhost_tip_overlay.Prelude.Int.{ℤ}
use selfhost_tip_overlay.Prelude.Sort.{sort_by, insert_by, All-insert_by, All-sort_by}
use selfhost_tip_overlay.Db.Schema.{Tip, Db, max_seq}
use selfhost_tip_overlay.Db.Operations.{SinceRow, since_row, rows_since, get_since_seq}
use selfhost_tip_overlay.Db.Valid.{Apart, RowsValid, IsValid}
use selfhost_tip_overlay.Db.Replay.{seq_of, All-take}

-- Strictly sorted by number.
abbrev pub Rising : List SinceRow → Type 0
Rising [] = Unit
Rising (x ∷ xs) = All (λ y. seq_of x < seq_of y) xs × Rising xs

abbrev Differ : List SinceRow → Type 0
Differ [] = Unit
Differ (x ∷ xs) = All (λ y. seq_of x ≢ seq_of y) xs × Differ xs

insert_by-Rising :
    (x : SinceRow) (ys : List SinceRow)
    → All (λ y. seq_of x ≢ seq_of y) ys
    → Rising ys
    → Rising (insert_by seq_of x ys)
insert_by-Rising x [] d h = (tt, tt)
insert_by-Rising x (y ∷ ys) d h = elim (Bool-cases (leb (seq_of x) (seq_of y))) [
  | inl e ↦
      let first : seq_of x < seq_of y = ground (arith, e, d.0) in
      rw e (
        (
          first,
          All-mono (λ z. seq_of y < seq_of z) (λ z. seq_of x < seq_of z) ys
              (λ z l. omega (arith, l, first)) h.0,
        ),
        h,
      )
  | inr n ↦
      let first : seq_of y < seq_of x = ground (arith, n) in
      rw n (
        All-insert_by seq_of (λ z. seq_of y < seq_of z) x ys first h.0,
        insert_by-Rising x ys d.1 h.1,
      )
]

sort_by-Rising : (xs : List SinceRow) → Differ xs → Rising (sort_by seq_of xs)
sort_by-Rising [] d = tt
sort_by-Rising (x ∷ xs) d =
    insert_by-Rising x (sort_by seq_of xs) (All-sort_by seq_of (λ y. seq_of x ≢ seq_of y) xs d.0)
      (sort_by-Rising xs d.1)

-- A row that may be read, in front of those that are.
All-if {κ} :
    (P : SinceRow → Type κ) (b : Bool) (x : SinceRow) (xs : List SinceRow)
    → P x
    → All P xs
    → All P (if b then x ∷ xs else xs)
All-if P true x xs hx h = (hx, h)
All-if P false x xs hx h = h

Differ-if :
    (b : Bool) (x : SinceRow) (xs : List SinceRow)
    → All (λ y. seq_of x ≢ seq_of y) xs
    → Differ xs
    → Differ (if b then x ∷ xs else xs)
Differ-if true x xs hx h = (hx, h)
Differ-if false x xs hx h = h

-- A number that no row has is on none of the rows that are read.
rows_since-other :
    (last : ℤ) (n : ℕ) (r : Tip) (rows : List Tip)
    → r.event_seq ≡ some n
    → All (Apart r) rows
    → All (λ y. n ≢ seq_of y) (rows_since last rows)
unfolding rows_since
rows_since-other last n r [] e h = tt
rows_since-other last n r (s ∷ rows) e h =
    let rest = rows_since-other last n r rows e h.1 in
    elim (Option-cases s.event_seq) [
      | inl q ↦ rw q rest
      | inr (m, q) ↦ rw q (
          All-if (λ y. n ≢ seq_of y) _ (since_row s m) (rows_since last rows)
            (λ d. h.0.seqs n e (q ∙ ap some (sym d))) rest)
    ]

rows_since-Differ : (last : ℤ) (rows : List Tip) → RowsValid rows → Differ (rows_since last rows)
unfolding rows_since
rows_since-Differ last [] h = tt
rows_since-Differ last (r ∷ rows) h =
    let rest = rows_since-Differ last rows h.2 in
    elim (Option-cases r.event_seq) [
      | inl q ↦ rw q rest
      | inr (n, q) ↦ rw q (
          Differ-if _ (since_row r n) (rows_since last rows) (rows_since-other last n r rows q h.1)
            rest)
    ]

rows_since-top :
    (last : ℤ) (rows : List Tip) → All (λ y. seq_of y ≤ max_seq rows) (rows_since last rows)
unfolding rows_since max_seq
rows_since-top last [] = tt
rows_since-top last (r ∷ rows) =
    let rest = rows_since-top last rows in
    elim (Option-cases r.event_seq) [
      | inl q ↦ rw q (
          All-mono (λ y. seq_of y ≤ max_seq rows) (λ y. seq_of y ≤ max 0 (max_seq rows))
            (rows_since last rows) (λ y l. omega (arith, l)) rest)
      | inr (n, q) ↦ rw q (
          All-if (λ y. seq_of y ≤ max n (max_seq rows)) _ (since_row r n) (rows_since last rows)
            (omega arith)
            (All-mono (λ y. seq_of y ≤ max_seq rows) (λ y. seq_of y ≤ max n (max_seq rows))
              (rows_since last rows) (λ y l. omega (arith, l)) rest))
    ]

take-Rising : (n : ℕ) (l : List SinceRow) → Rising l → Rising (take n l)
take-Rising zero l h = tt
take-Rising (suc n) [] h = tt
take-Rising (suc n) (x ∷ l) h = (All-take (λ y. seq_of x < seq_of y) n l h.0, take-Rising n l h.1)

-- The rows come in strictly rising order of their numbers, none above the largest of the table.
pub get_since_seq-Rising :
    (last : ℤ) (limit : ℕ) (db : Db)
    → IsValid db
    → Rising (get_since_seq last limit db)
      × All (λ y. seq_of y ≤ max_seq db.tips) (get_since_seq last limit db)
unfolding get_since_seq
get_since_seq-Rising last limit db valid =
    let rows = rows_since last db.tips in
    (
      take-Rising limit (sort_by seq_of rows)
          (sort_by-Rising rows (rows_since-Differ last db.tips valid)),
      All-take (λ y. seq_of y ≤ max_seq db.tips) limit (sort_by seq_of rows)
          (All-sort_by seq_of (λ y. seq_of y ≤ max_seq db.tips) rows (rows_since-top last db.tips)),
    )
