-- ===== src/Security/Logged.antt =====
-- core/security/log.py: what a record of `safe_event` holds.
use selfhost_tip_overlay.Prelude.{
  String, ◌≡◌, refl, false, ◌∙◌, none, some, List, [], ◌∷◌, str_eq, arith, eq_iff, Option,
}
use selfhost_tip_overlay.Prelude.Dict.{Dict, get, put, get-put}
use selfhost_tip_overlay.Payment.Json.{Json, str}
use selfhost_tip_overlay.Security.Redaction.{add_fields, safe_event}
use selfhost_tip_overlay.Security.Hidden.{or_false}
use selfhost_tip_overlay.Security.Secrets.{is_in}

-- What one turn of the loop over the keys leaves.
get-add_field :
    (j key : String) (o : Option Json) (entry : Dict Json)
    → str_eq j key ≡ false
    → get j (elim o [ none ↦ entry | some v ↦ put key v entry ]) ≡ get j entry
get-add_field j key none entry h = refl
get-add_field j key (some v) entry h =
    get-put key j v entry ∙ ground (arith, h, eq_iff key j, eq_iff j key)

get-add_fields :
    (j : String) (keys : List String) (kwargs entry : Dict Json)
    → is_in j keys ≡ false
    → get j (add_fields keys kwargs entry) ≡ get j entry
unfolding add_fields
get-add_fields j [] kwargs entry h = refl
get-add_fields j (key ∷ keys) kwargs entry h =
    let (first, rest) = or_false (str_eq j key) (is_in j keys) h in
    get-add_fields j keys kwargs (elim (get key kwargs) [ none ↦ entry | some v ↦ put key v entry ])
      rest
    ∙ get-add_field j key (get key kwargs) entry first

-- A record for the log has no field but the event, the charge's id, the status, the amount, the error
-- code and the count, whatever it is given: no name and no message of a supporter.
pub safe_event_fields :
    (event_type charge_id j : String) (kwargs : Dict Json)
    → is_in j ("event" ∷ "charge_id" ∷ []) ≡ false
    → is_in j ("status" ∷ "amount" ∷ "error_code" ∷ "count" ∷ []) ≡ false
    → get j (safe_event event_type charge_id kwargs) ≡ none
unfolding safe_event get
safe_event_fields event_type charge_id j kwargs fixed listed =
    let entry : Dict Json = ("event", str event_type) ∷ ("charge_id", str charge_id) ∷ [] in
    get-add_fields j ("status" ∷ "amount" ∷ "error_code" ∷ "count" ∷ []) kwargs entry listed
    ∙ ground (
      arith,
      fixed,
      eq_iff "event" j,
      eq_iff j "event",
      eq_iff "charge_id" j,
      eq_iff j "charge_id",
    )
