-- ===== src/Overlay/Reconnect.antt =====
-- routes/sse.py: a connection that the browser opens again with the id of the last frame.
use selfhost_tip_overlay.Prelude.{
  ℕ, ◌≤◌, ◌<◌, String, ◌≡◌, refl, Bool, true, is_some, ◌&&◌, ◌+◌, ◌++◌, Bool-cases, inl, inr, ap,
  some, List, [], ◌∷◌, map, count, All, str_eq, ◌==◌, arith,
}
use selfhost_tip_overlay.Prelude.Int.{pos}
use selfhost_tip_overlay.Db.Schema.{Tip, Db, find}
use selfhost_tip_overlay.Db.Operations.{SinceRow, get_since_seq}
use selfhost_tip_overlay.Db.Replay.{
  IsAbove, missed, is_event, get_since_seq_lem, get_since_seq_complete,
}
use selfhost_tip_overlay.Payment.Decimal.{IsPrintable, show-is_empty, parse_int-show}
use selfhost_tip_overlay.Overlay.{Item, replay_frames, frame_id, replay_item, replayed_items}

-- The item of a charge under a number.
abbrev pub is_item : String → ℕ → Item → Bool
is_item id n i = str_eq i.charge_id id && (i.event_seq == n)

pub count-replay_item :
    (id : String) (n : ℕ) (rows : List SinceRow)
    → count (is_item id n) (map replay_item rows) ≡ count (is_event id n) rows
count-replay_item id n [] = refl
count-replay_item id n (r ∷ rows) = rw (count-replay_item id n rows) refl

pub replayed_items-frame_id :
    (last : Item) (db : Db)
    → IsPrintable last.event_seq
    → replayed_items (some (frame_id last)) db
      ≡ map replay_item (get_since_seq (pos last.event_seq) 50 db)
unfolding replayed_items frame_id
replayed_items-frame_id last db h =
    rw (show-is_empty last.event_seq h, parse_int-show last.event_seq h) refl

-- Its number is greater than that of another item.
abbrev pub IsLater : Item → Item → Type 0
IsLater last i = last.event_seq < i.event_seq

All-replay_item :
    (last : Item) (rows : List SinceRow)
    → All (IsAbove (pos last.event_seq)) rows
    → All (IsLater last) (map replay_item rows)
All-replay_item last [] h = tt
All-replay_item last (r ∷ rows) h = (ground (arith, h.0), All-replay_item last rows h.1)

-- A client reconnects with the id of the last frame that it was sent, from an event whose number has
-- at most 4300 digits; it missed no more than 50 events, one of which is of a stored charge that was
-- pushed under a number later than that frame's. Then all that it is sent is later than that frame,
-- and that event is in it.
pub reconnect_complete :
    (last : Item) (db : Db) (id : String) (r : Tip) (n : ℕ)
    → IsPrintable last.event_seq
    → missed (pos last.event_seq) db ≤ 50
    → find id db.tips ≡ some r
    → r.event_seq ≡ some n
    → is_some r.pushed_at ≡ true
    → last.event_seq < n
    → All (IsLater last) (replayed_items (some (frame_id last)) db)
      × (0 < count (is_item id n) (replayed_items (some (frame_id last)) db))
reconnect_complete last db id r n printable few found seq pushed later =
    let rows = get_since_seq (pos last.event_seq) 50 db in
    let (sorted, above, short) = get_since_seq_lem (pos last.event_seq) 50 db in
    rw (replayed_items-frame_id last db printable) (
      All-replay_item last rows above,
      rw (count-replay_item id n rows) (
          get_since_seq_complete (pos last.event_seq) 50 id n db r few found seq pushed
            (ground (arith, later))),
    )

-- What is sent is a first part of the items: the client that is still there at the end of the loop has
-- all of them.
pub replay_frames-append :
    (gone : ℕ → Bool) (i : ℕ) (items : List Item)
    → let (sent, there) = replay_frames gone i items in
      ((rest : List Item) × (sent ++ rest ≡ items) × (there ≡ true → sent ≡ items))
unfolding replay_frames
replay_frames-append gone i [] = ([], refl, λ h. refl)
replay_frames-append gone i (x ∷ items) =
    let (rest, whole, all) = replay_frames-append gone (i + 1) items in
    elim (Bool-cases (gone i)) [
      | inl y ↦ rw y (x ∷ items, refl, λ h. cc)
      | inr n ↦ rw n (rest, ap (λ l. x ∷ l) whole, λ h. ap (λ l. x ∷ l) (all h))
    ]
