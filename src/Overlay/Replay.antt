-- ===== src/Overlay/Replay.antt =====
-- routes/sse.py: `replay_tip`, and the number it uses.
use selfhost_tip_overlay.Prelude.{
  ℕ, ◌+◌, String, ◌≡◌, refl, ap, ◌∙◌, ◌≢◌, true, false, Option, none, some, ◌++◌, Bool-cases, inl,
  inr,
}
use selfhost_tip_overlay.Contracts.{StageResult, tip, drop, hold}
use selfhost_tip_overlay.Db.Schema.{Tip, Db, find, is_successful, max_seq}
use selfhost_tip_overlay.Db.Operations.{TipRow, get_tip, mark_pushed, next_seq}
use selfhost_tip_overlay.Db.Valid.{IsValid}
use selfhost_tip_overlay.Db.Push.{mark_pushed-eq-allocated}
use selfhost_tip_overlay.Webhook.{App, Pipeline, outcome}
use selfhost_tip_overlay.Webhook.Handler.{announced}
use selfhost_tip_overlay.Overlay.{
  is_authorised, ReplayAnswer, refused, dropped, replayed, row_event, rebroadcast, replay_row,
  replay_tip,
}

module _ (pipeline : Pipeline) (overlay_token token id : String) (now : ℕ) (during : App → App)
    (a : App) where
  -- The request has the token, and the charge is stored as paid.
  pub record IsReplayable (row : TipRow) : Type 0 where
    pub token_ok : is_authorised overlay_token token ≡ true
    pub stored : get_tip id a.db ≡ some row
    pub paid : is_successful row.status ≡ true

  -- Why the answer is what it is, and the state that it leaves.
  pub data IsAnswered : ReplayAnswer → App → Type 0 where
    bad_token : is_authorised overlay_token token ≡ false → IsAnswered (refused 401) a
    unknown : get_tip id a.db ≡ none → IsAnswered (refused 404) a
    unpaid :
        (row : TipRow)
        → get_tip id a.db ≡ some row
        → is_successful row.status ≡ false
        → IsAnswered (refused 409) a
    silent :
        (row : TipRow)
        → IsReplayable row
        → pipeline (row_event row now) ≡ some drop
        → IsAnswered dropped (during a)
    shown :
        (row : TipRow)
        → IsReplayable row
        → pipeline (row_event row now) ≢ some drop
        → (after : App) → after.db ≡ (during a).db
        → after.sent
          ≡ announced (pipeline (row_event row now)) (row_event row now) (max_seq a.db.tips + 1)
            ++ (during a).sent
        → IsAnswered (replayed (max_seq a.db.tips + 1)) after

  rebroadcast-IsAnswered :
      (row : TipRow) (o : Option StageResult)
      → IsReplayable row
      → pipeline (row_event row now) ≡ o
      → let e = row_event row now in
        let out = rebroadcast e (outcome o e) (next_seq a.db) (during a) in IsAnswered out.0 out.1
  unfolding rebroadcast outcome next_seq
  rebroadcast-IsAnswered row none r h = shown row r (λ d. cc) _ refl (rw h refl)
  rebroadcast-IsAnswered row (some drop) r h = silent row r h
  rebroadcast-IsAnswered row (some hold) r h = shown row r (λ d. cc) _ refl (rw h refl)
  rebroadcast-IsAnswered row (some (tip t)) r h = shown row r (λ d. cc) _ refl (rw h refl)

  row-IsAnswered :
      (o : Option TipRow)
      → is_authorised overlay_token token ≡ true
      → get_tip id a.db ≡ o
      → let out = replay_row pipeline o now during a in IsAnswered out.0 out.1
  unfolding replay_row
  row-IsAnswered none t h = unknown h
  row-IsAnswered (some row) t h = elim (Bool-cases (is_successful row.status)) [
    | inl y ↦ rw y (
        rebroadcast-IsAnswered row (pipeline (row_event row now))
          (record { token_ok = t; stored = h; paid = y }) refl)
    | inr n ↦ rw n (unpaid row h n)
  ]

  abbrev pub after : ReplayAnswer × App
  after = replay_tip pipeline overlay_token token id now during a

  -- Whatever a request for a replay asks for, with anything that the program does while it waits for
  -- the pipeline: 401 without the token, 404 for a charge that is not stored and 409 for one that is
  -- not paid change nothing; for a paid charge with the token, "DROP" broadcasts nothing, and any
  -- other answer of the pipeline, its failure included, broadcasts the stored charge once, as
  -- `announced` says, under one more than the largest number in the table when the request came. The
  -- database is left as the others leave it.
  pub replay_tip-IsAnswered : IsAnswered after.0 after.1
  unfolding replay_tip
  replay_tip-IsAnswered = elim (Bool-cases (is_authorised overlay_token token)) [
    | inl y ↦ rw y (row-IsAnswered (get_tip id a.db) y refl)
    | inr n ↦ rw n (bad_token n)
  ]

  replayed-number :
      {r : ReplayAnswer} {s : App} (seq : ℕ)
      → IsAnswered r s
      → r ≡ replayed seq
      → (seq ≡ max_seq a.db.tips + 1) × (s.db ≡ (during a).db)
  replayed-number seq (bad_token n) h = cc
  replayed-number seq (unknown n) h = cc
  replayed-number seq (unpaid row g n) h = cc
  replayed-number seq (silent row r d) h = cc
  replayed-number seq (shown row r d s e p) h = (cc, e)

  -- The number of a replay is not kept: where the table is well-formed after it and nothing was
  -- numbered while it waited, the next push of a charge that was not pushed gets the same number.
  pub replay_tip_reused :
      (seq now' : ℕ) (j : String) (r : Tip)
      → IsValid (during a).db
      → max_seq (during a).db.tips ≡ max_seq a.db.tips
      → after.0 ≡ replayed seq
      → find j (during a).db.tips ≡ some r
      → r.pushed_at ≡ none
      → (mark_pushed j now' after.1.db).0 ≡ some seq
  replay_tip_reused seq now' j r valid same e found unpushed =
      let (number, kept) = replayed-number seq replay_tip-IsAnswered e in
      ap (λ (db : Db). (mark_pushed j now' db).0) kept
      ∙ mark_pushed-eq-allocated j now' (during a).db valid
      ∙ rw (found, unpushed, number, same) refl
