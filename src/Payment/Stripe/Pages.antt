-- ===== src/Payment/Stripe/Pages.antt =====
-- core/payment/stripe.py: `list_recent`, against the whole list that the gateway pages through.
use selfhost_tip_overlay.Prelude.{
  ℕ, ◌<◌, String, ◌≡◌, refl, ap, ◌∙◌, Bool, true, false, Option, none, some, List, [], arith, ltb,
  ltb→lt, ltb_false→le, length, take, drop, take-append-drop, length-drop, nil_of_length,
  Bool-cases, inl, inr,
}
use selfhost_tip_overlay.Payment.Base.{Result, ok, ◌>>=◌}
use selfhost_tip_overlay.Payment.Json.{Json, arr, nil, get, get_or, items_of}
use selfhost_tip_overlay.Payment.Charges.{collect}
use selfhost_tip_overlay.Payment.Collect.{prepend-nil, Serves, list_pages-eq-collect}
use selfhost_tip_overlay.Payment.Stripe.Listing.{
  read_intent, is_set, last_id, next_turn, turn, list_recent,
}

-- The answer after a cursor of a gateway with pages of `limit`, where `rest` is what it lists after
-- each cursor: `has_more` tells whether more follows the page, and if so the id of the page's last
-- entry is the cursor of what follows.
pub record Answers (limit : ℕ) (rest : Option String → List Json) (cursor : Option String)
    (fetched : Result Json) : Type 0 where
  pub answer : Json
  pub listed : Json
  pub more : Option Json
  pub fetches : fetched ≡ ok answer
  pub lists : get_or "data" (arr nil) answer ≡ ok listed
  pub items : items_of listed ≡ ok (take limit (rest cursor))
  pub tells : get "has_more" answer ≡ ok more
  pub told : is_set more ≡ ltb limit (length (rest cursor))
  pub follows :
      ltb limit (length (rest cursor)) ≡ true
      → (id : String) × (last_id answer ≡ ok id) × (rest (some id) ≡ drop limit (rest cursor))

module _ (limit : ℕ) (positive : 0 < limit) (rest : Option String → List Json)
    (fetch : Option String → Result Json)
    (answers : (cursor : Option String) → Answers limit rest cursor (fetch cursor)) where
  turn-eq :
      (cursor : Option String) (more : Bool)
      → is_set (answers cursor).more ≡ more
      → turn fetch cursor ≡ (
          collect read_intent (take limit (rest cursor)) >>= λ cs.
          next_turn (answers cursor).answer cs more)
  unfolding turn
  turn-eq cursor more h =
      let a = answers cursor in rw (a.fetches, a.lists, a.items, a.tells, h) refl

  turn-Serves : (cursor : Option String) → Serves (turn fetch) read_intent rest cursor
  unfolding next_turn
  turn-Serves cursor =
      let a = answers cursor in
      let here = rest cursor in
      let size = length-drop limit here in
      elim (Bool-cases (ltb limit (length here))) [
        | inl x ↦
            let (id, marked, after) = a.follows x in
            record {
              page = take limit here;
              left = drop limit here;
              next = some id;
              last = false;
              split = take-append-drop limit here;
              turned = turn-eq cursor true (a.told ∙ x) ∙ rw marked refl;
              ended = λ e. cc;
              going = λ e. (after, omega (arith, size, ltb→lt limit (length here) x));
            }
        | inr x ↦ record {
          page = take limit here;
          left = drop limit here;
          next = none;
          last = true;
          split = take-append-drop limit here;
          turned = turn-eq cursor false (a.told ∙ x);
          ended = λ e.
              nil_of_length (drop limit here)
                (omega (arith, size, ltb_false→le limit (length here) x));
          going = λ e. cc;
        }
      ]

  -- Against a gateway that pages through a list: with fuel for one request more than the list has
  -- entries `list_recent` ends, and gives what reading the whole list in order gives, its errors
  -- included, however the list is cut into pages.
  pub stripe_list_recent :
      (fuel : ℕ)
      → length (rest none) < fuel
      → list_recent fetch fuel ≡ some (collect read_intent (rest none))
  unfolding list_recent
  stripe_list_recent fuel h =
      list_pages-eq-collect (turn fetch) read_intent rest turn-Serves fuel none [] h
      ∙ ap some (prepend-nil (collect read_intent (rest none)))
