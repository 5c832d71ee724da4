-- ===== src/Overlay/Gap.antt =====
-- routes/sse.py: an event that is not in the table is not replayed.
use selfhost_tip_overlay.Prelude.{
  ℕ, zero, suc, ◌<◌, String, ◌≡◌, refl, ◌∙◌, Bool, Option, none, some, List, [], ◌∷◌, count, take,
  arith, or_default, Bool-cases, inl, inr,
}
use selfhost_tip_overlay.Prelude.Int.{ℤ, pos}
use selfhost_tip_overlay.Prelude.Sort.{sort_by, count-sort_by}
use selfhost_tip_overlay.Prelude.Text.{is_empty}
use selfhost_tip_overlay.Db.Schema.{Tip, Db, max_seq}
use selfhost_tip_overlay.Db.Operations.{SinceRow, rows_since, get_since_seq}
use selfhost_tip_overlay.Db.Replay.{seq_of, is_event}
use selfhost_tip_overlay.Payment.Json.{parse_int}
use selfhost_tip_overlay.Overlay.{replayed_items}
use selfhost_tip_overlay.Overlay.Reconnect.{is_item, count-replay_item}

-- A number above all in the table is on none of the rows that are read.
no_event :
    (last : ℤ) (id : String) (n : ℕ) (rows : List Tip)
    → max_seq rows < n
    → count (is_event id n) (rows_since last rows) ≡ 0
unfolding rows_since max_seq
no_event last id n [] h = refl
no_event last id n (r ∷ rows) h = ground (arith, h, no_event last id n rows)

count-take :
    (p : SinceRow → Bool) (k : ℕ) (rows : List SinceRow)
    → count p rows ≡ 0
    → count p (take k rows) ≡ 0
count-take p zero rows h = refl
count-take p (suc k) [] h = refl
count-take p (suc k) (r ∷ rows) h = ground (arith, h, count-take p k rows)

pub not_replayed :
    (last : Option String) (id : String) (n : ℕ) (db : Db)
    → max_seq db.tips < n
    → count (is_item id n) (replayed_items last db) ≡ 0
unfolding replayed_items get_since_seq
not_replayed none id n db h = refl
not_replayed (some last) id n db h =
    let from = or_default (parse_int last) (pos 0) in
    let rows = get_since_seq from 50 db in
    elim (Bool-cases (is_empty last)) [
      | inl y ↦ rw y refl
      | inr x ↦ rw x (
          count-replay_item id n rows
          ∙ count-take (is_event id n) 50 (sort_by seq_of (rows_since from db.tips)) (
              count-sort_by seq_of (is_event id n) (rows_since from db.tips)
              ∙ no_event from id n db.tips h))
    ]
