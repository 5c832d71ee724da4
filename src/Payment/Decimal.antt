-- ===== src/Payment/Decimal.antt =====
-- `str(n)` of an integer, and `int` of it again.
use selfhost_tip_overlay.Prelude.{
  ℕ, zero, suc, ◌+◌, ◌*◌, ◌/◌, ◌%◌, ◌^◌, ◌≤◌, ◌<◌, String, Bool, true, false, some, ltb, ◌≡◌, refl,
  arith, Bool-cases, inl, inr, ap, ◌∙◌,
}
use Prim.Native.Char.{Char, code, nul}
use selfhost_tip_overlay.Prelude.Int.{ℤ, pos, negsuc}
use selfhost_tip_overlay.Prelude.Text.{is_empty, is_space, lstrip, rstrip, strip}
use selfhost_tip_overlay.Payment.Json.{
  is_digit, int_digits, count_digits, unsigned, signed_int, parse_int,
}

abbrev char_of : ℕ → String → Char
char_of n String.[] = nul
char_of zero (String.◌∷◌ c s) = c
char_of (suc n) (String.◌∷◌ c s) = char_of n s

abbrev digit : ℕ → Char
digit n = char_of n "0123456789"

-- The digits of a number in front of a text, by fuel for that many digits.
unfoldable pub digits_onto : ℕ → ℕ → String → String
digits_onto zero n s = s
digits_onto (suc fuel) n s = elim (ltb n 10) [
  | true ↦ String.◌∷◌ (digit n) s
  | false ↦ digits_onto fuel (n / 10) (String.◌∷◌ (digit (n % 10)) s)
]

-- `str(n)`: CPython refuses an integer of more than 4300 digits, which the callers do not have.
unfoldable pub show : ℕ → String
unfolding digits_onto
show n = digits_onto 4300 n ""

unfoldable pub show_int : ℤ → String
unfolding show
show_int (pos n) = show n
show_int (negsuc n) = String.◌∷◌ "-" (show (suc n))

code-digit : (n : ℕ) → n < 10 → code (digit n) ≡ b'0' + n
code-digit zero h = refl
code-digit (suc zero) h = refl
code-digit (suc (suc zero)) h = refl
code-digit (suc (suc (suc zero))) h = refl
code-digit (suc (suc (suc (suc zero)))) h = refl
code-digit (suc (suc (suc (suc (suc zero))))) h = refl
code-digit (suc (suc (suc (suc (suc (suc zero)))))) h = refl
code-digit (suc (suc (suc (suc (suc (suc (suc zero))))))) h = refl
code-digit (suc (suc (suc (suc (suc (suc (suc (suc zero)))))))) h = refl
code-digit (suc (suc (suc (suc (suc (suc (suc (suc (suc zero))))))))) h = refl
code-digit (suc (suc (suc (suc (suc (suc (suc (suc (suc (suc n)))))))))) h =
    absurd (omega (arith, h))

less_by_ten : (f n : ℕ) → n < 10 ^ suc f → n / 10 < 10 ^ f
less_by_ten f n h = omega (arith, h)

is_digit-digit : (n : ℕ) → n < 10 → is_digit (code (digit n)) ≡ true
is_digit-digit n h = rw (code-digit n h) (ground (arith, h))

int_digits-digit :
    (b : Bool) (acc n : ℕ) (s : String)
    → n < 10
    → int_digits b acc (String.◌∷◌ (digit n) s) ≡ int_digits true (acc * 10 + n) s
unfolding int_digits
int_digits-digit b acc n s h =
    rw (is_digit-digit n h, code-digit n h)
      (ap (λ k. int_digits true (acc * 10 + k) s) (omega arith))

digits_onto_last :
    (f n : ℕ) (s : String) → ltb n 10 ≡ true → digits_onto (suc f) n s ≡ String.◌∷◌ (digit n) s
unfolding digits_onto
digits_onto_last f n s h = rw (digits_onto, h)

digits_onto_more :
    (f n : ℕ) (s : String)
    → ltb n 10 ≡ false
    → digits_onto (suc f) n s ≡ digits_onto f (n / 10) (String.◌∷◌ (digit (n % 10)) s)
unfolding digits_onto
digits_onto_more f n s h = rw (digits_onto, h)

-- A property of the digits, from the last two steps.
module _ (P : ℕ → String → String → Type 0) where
  digits-ind :
      ((n : ℕ) (s : String) → n < 10 → P n s (String.◌∷◌ (digit n) s))
      → ((n : ℕ) (s t : String) → P (n / 10) (String.◌∷◌ (digit (n % 10)) s) t → P n s t)
      → (f n : ℕ) (s : String) → n < 10 ^ suc f
      → P n s (digits_onto (suc f) n s)
  digits-ind last more zero n s h =
      let small : n < 10 = omega (arith, h) in
      rw (digits_onto_last zero n s (ground (arith, small))) (last n s small)
  digits-ind last more (suc g) n s h = elim (Bool-cases (ltb n 10)) [
    | inl y ↦ rw (digits_onto_last (suc g) n s y) (last n s (ground (arith, y)))
    | inr x ↦
        let s' = String.◌∷◌ (digit (n % 10)) s in
        rw (digits_onto_more (suc g) n s x) (
          more n s (digits_onto (suc g) (n / 10) s')
            (digits-ind last more g (n / 10) s' (less_by_ten (suc g) n h)))
  ]

-- Texts of digits only.
abbrev pub AllDigits : String → Type 0
AllDigits String.[] = Unit
AllDigits (String.◌∷◌ c s) = (is_digit (code c) ≡ true) × AllDigits s

digits_onto-AllDigits :
    (f n : ℕ) (s : String) → n < 10 ^ suc f → AllDigits s → AllDigits (digits_onto (suc f) n s)
digits_onto-AllDigits f n s h =
    digits-ind (λ n s t. AllDigits s → AllDigits t) (λ n s l a. (is_digit-digit n l, a))
      (λ n s t k a. k (is_digit-digit (n % 10) (omega arith), a)) f n s h

-- Reading the digits gives the number, from where the rest goes on.
int_digits-digits_onto :
    (f n : ℕ) (s : String)
    → n < 10 ^ suc f
    → int_digits false 0 (digits_onto (suc f) n s) ≡ int_digits true n s
int_digits-digits_onto f n s h =
    digits-ind (λ n s t. int_digits false 0 t ≡ int_digits true n s)
      (λ n s l. int_digits-digit false 0 n s l ∙ ap (λ m. int_digits true m s) (omega arith))
      (λ n s t k.
        k
        ∙ int_digits-digit true (n / 10) (n % 10) s (omega arith)
        ∙ ap (λ m. int_digits true m s) (omega arith))
      f n s h

count_digits-cons : (c : Char) (s : String) → count_digits (String.◌∷◌ c s) ≤ 1 + count_digits s
unfolding count_digits
count_digits-cons c s = ground arith

count_digits-digits_onto :
    (f n : ℕ) (s : String) → count_digits (digits_onto f n s) ≤ f + count_digits s
unfolding digits_onto
count_digits-digits_onto zero n s = omega arith
count_digits-digits_onto (suc f) n s = elim (Bool-cases (ltb n 10)) [
  | inl y ↦ rw (digits_onto, y) (omega (arith, count_digits-cons (digit n) s))
  | inr x ↦
      rw (digits_onto, x)
        (omega (
          arith,
          count_digits-cons (digit (n % 10)) s,
          count_digits-digits_onto f (n / 10) (String.◌∷◌ (digit (n % 10)) s),
        ))
]

is_space-digit : (c : Char) → is_digit (code c) ≡ true → is_space c ≡ false
unfolding is_space
is_space-digit c h = ground (arith, h)

lstrip-AllDigits : (s : String) → AllDigits s → lstrip s ≡ s
unfolding lstrip
lstrip-AllDigits String.[] a = refl
lstrip-AllDigits (String.◌∷◌ c s) a = rw (lstrip, is_space-digit c a.0) refl

rstrip-AllDigits : (s : String) → AllDigits s → rstrip s ≡ s
unfolding rstrip
rstrip-AllDigits String.[] a = refl
rstrip-AllDigits (String.◌∷◌ c s) a = rw (is_space-digit c a.0, rstrip-AllDigits s a.1) refl

not_empty : (f n : ℕ) (s : String) → n < 10 ^ suc f → is_empty (digits_onto (suc f) n s) ≡ false
not_empty = digits-ind (λ n s t. is_empty t ≡ false) (λ n s l. refl) (λ n s t k. k)

signed_int-AllDigits :
    (s : String) (n : ℕ)
    → is_empty s ≡ false
    → AllDigits s
    → unsigned s ≡ some n
    → signed_int s ≡ some (pos n)
unfolding signed_int
signed_int-AllDigits String.[] n e a h = cc
signed_int-AllDigits (String.◌∷◌ c s) n e a h = ground (arith, a.0, h)

not_ltb : (a b : ℕ) → a ≤ b → ltb b a ≡ false
not_ltb a b h = ground (arith, h)

count_digits-le : (f n : ℕ) → count_digits (digits_onto f n "") ≤ f
unfolding count_digits
count_digits-le f n = omega (arith, count_digits-digits_onto f n "")

-- What `str` accepts: at most 4300 digits.
unfoldable pub IsPrintable : ℕ → Type 0
IsPrintable n = n < 10 ^ 4300

unsigned-show : (n : ℕ) → IsPrintable n → unsigned (show n) ≡ some n
unfolding unsigned show IsPrintable
unsigned-show n h = rw (not_ltb _ _ (count_digits-le 4300 n)) (int_digits-digits_onto 4299 n "" h)

pub show-AllDigits : (n : ℕ) → IsPrintable n → AllDigits (show n)
unfolding show IsPrintable
show-AllDigits n h = digits_onto-AllDigits 4299 n "" h tt

-- A printed number is a text that is not empty and that `str.strip` leaves as it is.
pub show-is_empty : (n : ℕ) → IsPrintable n → is_empty (show n) ≡ false
unfolding show IsPrintable
show-is_empty n h = not_empty 4299 n "" h

pub strip-show : (n : ℕ) → IsPrintable n → strip (show n) ≡ show n
unfolding strip
strip-show n h =
    let a = show-AllDigits n h in rw (lstrip-AllDigits (show n) a, rstrip-AllDigits (show n) a)

-- `int(str(n))` is `n`, for a number of at most 4300 digits.
pub parse_int-show : (n : ℕ) → IsPrintable n → parse_int (show n) ≡ some (pos n)
unfolding parse_int
parse_int-show n h =
    rw (strip-show n h)
      (signed_int-AllDigits (show n) n (show-is_empty n h) (show-AllDigits n h) (unsigned-show n h))
