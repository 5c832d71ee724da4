-- ===== src/Payment/Omise/Pages.antt =====
-- core/payment/omise.py: `list_recent`, against the whole list that the gateway pages through.
use selfhost_tip_overlay.Prelude.{
  ℕ, ◌+◌, ◌≤◌, ◌<◌, ◌≡◌, refl, sym, ap, ◌∙◌, ◌⊎◌, inl, inr, Bool, true, false, some, List, [], ◌∷◌,
  arith, length, take, drop, take-append-drop, length-take, length-drop, drop-drop,
  drop-length-take, length-take_zero, nil_of_length, not,
}
use selfhost_tip_overlay.Prelude.Int.{pos, ltb_ℤ}
use selfhost_tip_overlay.Payment.Base.{Result, ok}
use selfhost_tip_overlay.Payment.Json.{Json, num, arr, nil, get_or, int_of, items_of}
use selfhost_tip_overlay.Payment.Collect.{prepend-nil, Serves, list_pages-eq-collect}
use selfhost_tip_overlay.Payment.Signature.{Env}
use selfhost_tip_overlay.Payment.Omise.Listing.{
  read_charge, read_charges, is_last, turn, list_recent,
}

-- The answer that a gateway with the list `xs` and pages of `limit` gives at an offset: `data` has
-- the entries from there, and `total` counts the whole list.
pub record Answers (limit : ℕ) (xs : List Json) (offset : ℕ) (fetched : Result Json) : Type 0 where
  pub answer : Json
  pub listed : Json
  pub total : Json
  pub fetches : fetched ≡ ok answer
  pub lists : get_or "data" (arr nil) answer ≡ ok listed
  pub items : items_of listed ≡ ok (take limit (drop offset xs))
  pub counts : get_or "total" (num (pos 0)) answer ≡ ok total
  pub counted : int_of total ≡ ok (pos (length xs))

abbrev ends : List Json → ℕ → ℕ → Bool
ends [] offset total = true
ends (x ∷ page) offset total = not (ltb_ℤ (pos offset) (pos total))

is_last_lem :
    (answer t : Json) (page : List Json) (offset total : ℕ)
    → get_or "total" (num (pos 0)) answer ≡ ok t
    → int_of t ≡ ok (pos total)
    → is_last answer page offset ≡ ok (ends page offset total)
unfolding is_last
is_last_lem answer t [] offset total h k = refl
is_last_lem answer t (x ∷ page) offset total h k = rw (h, k) refl

ends-true :
    (page : List Json) (offset total : ℕ)
    → ends page offset total ≡ true
    → (length page ≡ 0) ⊎ (total ≤ offset)
ends-true [] offset total h = inl refl
ends-true (x ∷ page) offset total h = inr (ground (arith, h))

ends-false :
    (page : List Json) (offset total : ℕ) → ends page offset total ≡ false → 0 < length page
ends-false [] offset total h = ground (arith, h)
ends-false (x ∷ page) offset total h = omega arith

module _ (env : Env) (limit : ℕ) (positive : 0 < limit) (xs : List Json) (fetch : ℕ → Result Json)
    (answers : (offset : ℕ) → Answers limit xs offset (fetch offset)) where
  turn-Serves : (offset : ℕ) → Serves (turn env fetch) (read_charge env) (λ o. drop o xs) offset
  unfolding turn
  turn-Serves offset =
      let a = answers offset in
      let here = drop offset xs in
      let page = take limit here in
      let next = offset + length page in
      let lengths = length-take limit here in
      let size = length-drop offset xs in
      record {
        page = page;
        left = drop limit here;
        next = next;
        last = ends page next (length xs);
        split = take-append-drop limit here;
        turned =
            rw
              (
                a.fetches,
                a.lists,
                a.items,
                is_last_lem a.answer a.total page next (length xs) a.counts a.counted,
              )
              refl;
        ended = λ e. nil_of_length (drop limit here) (elim (ends-true page next (length xs) e) [
          | inl empty ↦ omega (arith, length-take_zero limit here positive empty, lengths, size)
          | inr beyond ↦ omega (arith, beyond, lengths, size)
        ]);
        going = λ e. (
          sym (drop-drop (length page) offset xs) ∙ drop-length-take limit here,
          omega (arith, ends-false page next (length xs) e, lengths),
        );
      }

  -- Against a gateway that pages through a list: with fuel for one request more than the list has
  -- entries `list_recent` ends, and gives what reading the whole list in order gives, its errors included, however the
  -- list is cut into pages.
  pub omise_list_recent :
      (fuel : ℕ) → length xs < fuel → list_recent env fetch fuel ≡ some (read_charges env xs)
  unfolding list_recent
  omise_list_recent fuel h =
      list_pages-eq-collect (turn env fetch) (read_charge env) (λ o. drop o xs) turn-Serves fuel 0
        [] h
      ∙ ap some (prepend-nil (read_charges env xs))
