-- ===== src/Prelude/Sort.antt =====
-- A stable sort by a key: Python's `list.sort` and SQL's ORDER BY.
use selfhost_tip_overlay.Prelude.Tests.{leb, if◌then◌else◌}
use selfhost_tip_overlay.Prelude.Lists.{All, All-mono, count}
use Prim.Native.Nat.{ℕ, ◌≤◌}
use mathlib.Core.Path.{◌≡◌, refl}
use mathlib.Core.Bool.{Bool}
use mathlib.Core.List.{List, [], ◌∷◌}
use native.Mathlib.Omega.{arith}

module _ {ℓ} {A : Type ℓ} (key : A → ℕ) where
  -- Before the first element whose key is not smaller, so equal keys keep their order.
  abbrev pub insert_by : A → List A → List A
  insert_by x [] = x ∷ []
  insert_by x (y ∷ ys) = if leb (key x) (key y) then x ∷ y ∷ ys else y ∷ insert_by x ys

  abbrev pub sort_by : List A → List A
  sort_by [] = []
  sort_by (x ∷ xs) = insert_by x (sort_by xs)

  -- Every element is at most all that follow it.
  abbrev pub IsSorted : List A → Type 0
  IsSorted [] = Unit
  IsSorted (x ∷ xs) = All (λ y. key x ≤ key y) xs × IsSorted xs

  pub All-insert_by {κ} :
      (P : A → Type κ) (x : A) (ys : List A) → P x → All P ys → All P (insert_by x ys)
  All-insert_by P x [] hx hy = (hx, tt)
  All-insert_by P x (y ∷ ys) hx hy = ground (arith, All-insert_by P x ys hx)

  pub All-sort_by {κ} : (P : A → Type κ) (xs : List A) → All P xs → All P (sort_by xs)
  All-sort_by P [] h = tt
  All-sort_by P (x ∷ xs) h = All-insert_by P x (sort_by xs) h.0 (All-sort_by P xs h.1)

  pub insert_by-All {κ} :
      (P : A → Type κ) (x : A) (ys : List A) → All P (insert_by x ys) → P x × All P ys
  insert_by-All P x [] h = h
  insert_by-All P x (y ∷ ys) h = ground (arith, insert_by-All P x ys)

  -- What holds of all of the sorted list holds of all of the list.
  pub sort_by-All {κ} : (P : A → Type κ) (xs : List A) → All P (sort_by xs) → All P xs
  sort_by-All P [] h = tt
  sort_by-All P (x ∷ xs) h =
      let both = insert_by-All P x (sort_by xs) h in (both.0, sort_by-All P xs both.1)

  pub insert_by-IsSorted : (x : A) (ys : List A) → IsSorted ys → IsSorted (insert_by x ys)
  insert_by-IsSorted x [] h = (tt, tt)
  insert_by-IsSorted x (y ∷ ys) h = ground (
    arith,
    insert_by-IsSorted x ys,
    All-insert_by (λ z. key y ≤ key z) x ys,
    All-mono (λ z. key y ≤ key z) (λ z. key x ≤ key z) ys,
  )

  pub sort_by-IsSorted : (xs : List A) → IsSorted (sort_by xs)
  sort_by-IsSorted [] = tt
  sort_by-IsSorted (x ∷ xs) = insert_by-IsSorted x (sort_by xs) (sort_by-IsSorted xs)

  -- Sorting loses and invents nothing.
  pub count-insert_by :
      (p : A → Bool) (x : A) (ys : List A) → count p (insert_by x ys) ≡ count p (x ∷ ys)
  count-insert_by p x [] = refl
  count-insert_by p x (y ∷ ys) = ground (arith, count-insert_by p x ys)

  pub count-sort_by : (p : A → Bool) (xs : List A) → count p (sort_by xs) ≡ count p xs
  count-sort_by p [] = refl
  count-sort_by p (x ∷ xs) = ground (arith, count-sort_by p xs, count-insert_by p x (sort_by xs))
