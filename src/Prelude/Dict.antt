-- ===== src/Prelude/Dict.antt =====
-- A Python dict with string keys, as its items in the order of insertion.
use selfhost_tip_overlay.Prelude.Tests.{str_eq, if◌then◌else◌}
use Prim.Native.String.{String}
use mathlib.Core.Path.{◌≡◌, refl}
use mathlib.Core.Option.{Option, none, some}
use mathlib.Core.List.{List, [], ◌∷◌}
use native.Mathlib.Omega.{arith}
use text.Mathlib.TextEquality.{eq_iff}

abbrev pub Dict {ℓ} : Type ℓ → Type ℓ
Dict V = List (String × V)

module _ {ℓ} {V : Type ℓ} where
  -- `d.get(k)`
  unfoldable pub get : String → Dict V → Option V
  get k [] = none
  get k ((j, v) ∷ d) = if str_eq j k then some v else get k d

  -- `d[k] = v`
  unfoldable pub put : String → V → Dict V → Dict V
  put k v [] = (k, v) ∷ []
  put k v ((j, w) ∷ d) = if str_eq j k then (j, v) ∷ d else (j, w) ∷ put k v d

  -- `d.pop(k, None)`
  unfoldable pub pop : String → Dict V → Dict V
  pop k [] = []
  pop k ((j, w) ∷ d) = let rest = pop k d in if str_eq j k then rest else (j, w) ∷ rest

  pub get-put :
      (k j : String) (v : V) (d : Dict V)
      → get j (put k v d) ≡ (if str_eq k j then some v else get j d)
  unfolding get put
  get-put k j v [] = refl
  get-put k j v ((i, w) ∷ d) = ground (arith, eq_iff i k, eq_iff i j, eq_iff k j, get-put k j v d)

  pub get-pop :
      (k j : String) (d : Dict V) → get j (pop k d) ≡ (if str_eq k j then none else get j d)
  unfolding get pop
  get-pop k j [] = ground arith
  get-pop k j ((i, w) ∷ d) = ground (arith, eq_iff i k, eq_iff i j, eq_iff k j, get-pop k j d)

  pub pop-pop : (k : String) (d : Dict V) → pop k (pop k d) ≡ pop k d
  unfolding pop
  pop-pop k [] = refl
  pop-pop k ((i, w) ∷ d) = ground (arith, pop-pop k d)
