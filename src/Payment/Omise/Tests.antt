-- ===== src/Payment/Omise/Tests.antt =====
-- A list of three charges in pages of two.
use selfhost_tip_overlay.Prelude.{ℕ, ◌≡◌, refl, ap, String, some, List, [], ◌∷◌, take, drop}
use selfhost_tip_overlay.Prelude.Int.{pos}
use selfhost_tip_overlay.Payment.Base.{Result, ok}
use selfhost_tip_overlay.Payment.Json.{
  Json, num, str, arr, obj, Items, nil, cons, end, field, list_of, get_or, int_of, items_of,
}
use selfhost_tip_overlay.Payment.Signature.{Env}
use selfhost_tip_overlay.Payment.Omise.Pages.{Answers}

abbrev pub env : Env
env = record {
  hmac_hex = λ key message. "";
  loads = λ body. ok (arr nil);
  from_iso = λ s. some 7;
  wall = λ s. 7;
  repr = λ v. "";
}

abbrev charge : String → String → Json
charge id status = obj (
    field "id" (str id) (
      field "status" (str status) (
        field "amount" (num (pos 5000))
          (field "currency" (str "thb") (field "paid_at" (str "2026") end)))))

abbrev pub charges : List Json
charges = charge "c1" "successful" ∷ charge "c2" "failed" ∷ charge "c3" "successful" ∷ []

abbrev to_items : List Json → Items
to_items [] = nil
to_items (x ∷ xs) = cons x (to_items xs)

list_of-to_items : (xs : List Json) → list_of (to_items xs) ≡ xs
list_of-to_items [] = refl
list_of-to_items (x ∷ xs) = ap (λ l. x ∷ l) (list_of-to_items xs)

abbrev pub fetch : ℕ → Result Json
fetch offset = ok (
    obj (
      field "data" (arr (to_items (take 2 (drop offset charges))))
        (field "total" (num (pos 3)) end)))

pub fetch-Answers : (offset : ℕ) → Answers 2 charges offset (fetch offset)
unfolding get_or items_of int_of
fetch-Answers offset = record {
  answer = obj (
      field "data" (arr (to_items (take 2 (drop offset charges))))
        (field "total" (num (pos 3)) end));
  listed = arr (to_items (take 2 (drop offset charges)));
  total = num (pos 3);
  fetches = refl;
  lists = refl;
  items = ap ok (list_of-to_items (take 2 (drop offset charges)));
  counts = refl;
  counted = refl;
}
