-- ===== src/Payment/Stripe/Tests.antt =====
-- A list of three intents in pages of two.
use selfhost_tip_overlay.Prelude.{
  ◌≡◌, refl, String, true, false, Option, none, some, List, [], ◌∷◌, str_eq, if◌then◌else◌, arith,
  Bool-cases, inl, inr,
}
use selfhost_tip_overlay.Prelude.Int.{pos}
use selfhost_tip_overlay.Payment.Base.{Result, ok}
use selfhost_tip_overlay.Payment.Json.{
  Json, bool, num, str, arr, obj, nil, cons, end, field, get, get_or, item, text, items_of,
  is_truthy,
}
use selfhost_tip_overlay.Payment.Charges.{collect}
use selfhost_tip_overlay.Payment.Stripe.Listing.{read_intent, last_item, last_id, list_recent}
use selfhost_tip_overlay.Payment.Stripe.Pages.{Answers, stripe_list_recent}

abbrev intent : String → Json
intent id =
    obj (field "id" (str id) (field "status" (str "succeeded") (field "created" (num (pos 5)) end)))

abbrev first_page : Json
first_page = arr (cons (intent "p1") (cons (intent "p2") nil))

abbrev second_page : Json
second_page = arr (cons (intent "p3") nil)

abbrev answer : Json → Json → Json
answer page more = obj (field "data" page (field "has_more" more end))

abbrev pub rest : Option String → List Json
rest none = intent "p1" ∷ intent "p2" ∷ intent "p3" ∷ []
rest (some id) = if str_eq id "p2" then intent "p3" ∷ [] else []

abbrev pub fetch : Option String → Result Json
fetch none = ok (answer first_page (bool true))
fetch (some id) = ok (answer (if str_eq id "p2" then second_page else arr nil) (bool false))

pub fetch-Answers : (cursor : Option String) → Answers 2 rest cursor (fetch cursor)
unfolding get_or get items_of last_id item text last_item is_truthy
fetch-Answers none = record {
  answer = answer first_page (bool true);
  listed = first_page;
  more = some (bool true);
  fetches = refl;
  lists = refl;
  items = refl;
  tells = refl;
  told = refl;
  follows = λ e. ("p2", refl, refl);
}
fetch-Answers (some id) = elim (Bool-cases (str_eq id "p2")) [
  | inl x ↦ rw x record {
    answer = answer second_page (bool false);
    listed = second_page;
    more = some (bool false);
    fetches = refl;
    lists = refl;
    items = rw x refl;
    tells = refl;
    told = rw x refl;
    follows = λ e. cc (e, x);
  }
  | inr x ↦ rw x record {
    answer = answer (arr nil) (bool false);
    listed = arr nil;
    more = some (bool false);
    fetches = refl;
    lists = refl;
    items = rw x refl;
    tells = refl;
    told = rw x refl;
    follows = λ e. cc (e, x);
  }
]

stripe_list_recent_example : list_recent fetch 4 ≡ some (collect read_intent (rest none))
stripe_list_recent_example =
    stripe_list_recent 2 (omega arith) rest fetch fetch-Answers 4 (omega arith)
