-- ===== src/Payment/Json.antt =====
-- What `json.loads` returns, and what the adapters do with it. Numbers are integers: a payload
-- with another number is outside the model.
use selfhost_tip_overlay.Prelude.{
  ℕ, zero, suc, ◌+◌, ◌-◌, ◌*◌, String, Bool, true, false, not, ◌&&◌, Option, none, some, List, [],
  ◌∷◌, leb, ltb, ◌==◌, str_eq, if◌then◌else◌,
}
use selfhost_tip_overlay.Prelude.Int.{ℤ, pos, negsuc}
use selfhost_tip_overlay.Prelude.Text.{is_empty, strip}
use Prim.Native.Char.{code}
use selfhost_tip_overlay.Payment.Base.{
  Result, ok, raise, attribute_error, type_error, key_error, value_error, untyped, ◌>>=◌,
}

mutual
  pub data Json : Type 0 where
    null : Json
    bool : Bool → Json
    num : ℤ → Json
    str : String → Json
    arr : Items → Json
    obj : Fields → Json

  pub data Items : Type 0 where
    nil : Items
    cons : Json → Items → Items

  -- The items of a dict, whose keys are distinct.
  pub data Fields : Type 0 where
    end : Fields
    field : String → Json → Fields → Fields

abbrev pub empty_dict : Json
empty_dict = obj end

unfoldable pub find_field : String → Fields → Option Json
find_field k end = none
find_field k (field j v fs) = if str_eq j k then some v else find_field k fs

-- `x.get(k)`, and `x.get(k, d)`: AttributeError where `x` is no dict.
unfoldable pub get : String → Json → Result (Option Json)
unfolding find_field
get k (obj fs) = ok (find_field k fs)
get k null = raise attribute_error
get k (bool b) = raise attribute_error
get k (num n) = raise attribute_error
get k (str s) = raise attribute_error
get k (arr xs) = raise attribute_error

unfoldable pub get_or : String → Json → Json → Result Json
unfolding get
get_or k d x = get k x >>= λ o. ok (elim o [ none ↦ d | some v ↦ v ])

-- `x[k]`
unfoldable pub item : String → Json → Result Json
unfolding find_field
item k (obj fs) = elim (find_field k fs) [ none ↦ raise key_error | some v ↦ ok v ]
item k null = raise type_error
item k (bool b) = raise type_error
item k (num n) = raise type_error
item k (str s) = raise type_error
item k (arr xs) = raise type_error

-- `v == s` for a literal `s`.
unfoldable pub is_str : String → Json → Bool
is_str s (str t) = str_eq t s
is_str s null = false
is_str s (bool b) = false
is_str s (num n) = false
is_str s (arr xs) = false
is_str s (obj fs) = false

-- `bool(v)`
unfoldable pub is_truthy : Json → Bool
is_truthy null = false
is_truthy (bool b) = b
is_truthy (num (pos zero)) = false
is_truthy (num n) = true
is_truthy (str s) = not (is_empty s)
is_truthy (arr nil) = false
is_truthy (arr xs) = true
is_truthy (obj end) = false
is_truthy (obj fs) = true

-- A text where the gateway documents one.
unfoldable pub text : Json → Result String
text (str s) = ok s
text null = raise untyped
text (bool b) = raise untyped
text (num n) = raise untyped
text (arr xs) = raise untyped
text (obj fs) = raise untyped

-- A list, an integer and a dict where the gateway documents one.
abbrev pub list_of : Items → List Json
list_of nil = []
list_of (cons x xs) = x ∷ list_of xs

unfoldable pub items_of : Json → Result (List Json)
items_of null = raise untyped
items_of (bool b) = raise untyped
items_of (num n) = raise untyped
items_of (str s) = raise untyped
items_of (arr xs) = ok (list_of xs)
items_of (obj fs) = raise untyped

unfoldable pub number : Json → Result ℤ
number null = raise untyped
number (bool b) = raise untyped
number (num n) = ok n
number (str s) = raise untyped
number (arr xs) = raise untyped
number (obj fs) = raise untyped

unfoldable pub dict : Json → Result Fields
dict null = raise untyped
dict (bool b) = raise untyped
dict (num n) = raise untyped
dict (str s) = raise untyped
dict (arr xs) = raise untyped
dict (obj fs) = ok fs

-- `str(v)`; the notation of numbers and containers is a parameter.
unfoldable pub str_of : (Json → String) → Json → String
str_of repr (str s) = s
str_of repr null = "None"
str_of repr (bool true) = "True"
str_of repr (bool false) = "False"
str_of repr v = repr v

abbrev pub is_digit : ℕ → Bool
is_digit c = leb b'0' c && leb c b'9'

-- The digits of `int(s)`: `_` may stand between two of them. `none` is ValueError.
unfoldable pub int_digits : Bool → ℕ → String → Option ℕ
int_digits prev acc String.[] = if prev then some acc else none
int_digits prev acc (String.◌∷◌ c s) =
    let k = code c in
    let next = int_digits true (acc * 10 + (k - b'0')) s in
    let skip = int_digits false acc s in
    if is_digit k then next else if k == b'_' && prev then skip else none

unfoldable pub count_digits : String → ℕ
count_digits String.[] = 0
count_digits (String.◌∷◌ c s) = (if is_digit (code c) then 1 else 0) + count_digits s

unfoldable pub minus : ℕ → ℤ
minus zero = pos 0
minus (suc n) = negsuc n

unfoldable pub unsigned : String → Option ℕ
unfolding int_digits count_digits
unsigned s = if ltb 4300 (count_digits s) then none else int_digits false 0 s

unfoldable pub signed_int : String → Option ℤ
unfolding unsigned minus
signed_int String.[] = none
signed_int (String.◌∷◌ c s) =
    if code c == b'-'
    then elim (unsigned s) [ none ↦ none | some n ↦ some (minus n) ]
    else if code c == b'+'
    then elim (unsigned s) [ none ↦ none | some n ↦ some (pos n) ]
    else elim (unsigned (String.◌∷◌ c s)) [ none ↦ none | some n ↦ some (pos n) ]

-- `int(s)` on ASCII digits, with CPython's limit of 4300 digits. `none` is ValueError.
unfoldable pub parse_int : String → Option ℤ
unfolding signed_int strip
parse_int s = signed_int (strip s)

-- `int(v)`
unfoldable pub int_of : Json → Result ℤ
unfolding parse_int
int_of (num n) = ok n
int_of (bool true) = ok (pos 1)
int_of (bool false) = ok (pos 0)
int_of (str s) = elim (parse_int s) [ none ↦ raise value_error | some n ↦ ok n ]
int_of null = raise type_error
int_of (arr xs) = raise type_error
int_of (obj fs) = raise type_error
