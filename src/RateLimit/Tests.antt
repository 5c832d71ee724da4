-- ===== src/RateLimit/Tests.antt =====
-- A small limiter, two hits in a window of ten, and the theorems at it.
use selfhost_tip_overlay.Prelude.{
  ℕ, ◌≤◌, String, ◌≡◌, refl, none, some, List, [], ◌∷◌, arith, count, ltb,
}
use selfhost_tip_overlay.Prelude.Dict.{get, put}
use selfhost_tip_overlay.Prelude.Text.{strip, split}
use selfhost_tip_overlay.RateLimit.{cf_key, check}
use selfhost_tip_overlay.RateLimit.Window.{live}
use selfhost_tip_overlay.RateLimit.Budget.{run, accepted, new, budget, check_exact}
use selfhost_tip_overlay.RateLimit.Inv.{in_window}

abbrev calls : List (String × ℕ)
calls = ("a", 1) ∷ ("b", 2) ∷ ("a", 3) ∷ ("a", 4) ∷ ("c", 30) ∷ ("a", 31) ∷ []

-- The third call of "a" gets 429; at 30 the keys "a" and "b" are evicted.
accepted-calls : accepted "a" calls (new 2 10 1) [] ≡ 31 ∷ 3 ∷ 1 ∷ []
unfolding accepted check get put
accepted-calls = refl

-- The peer's host stands in where neither header is set.
cf_key-peer : cf_key (record { headers = λ _. none; client = some "10.0.0.9" }) ≡ "10.0.0.9"
unfolding cf_key strip split
cf_key-peer = refl

budget_example : count (in_window 10 4) (accepted "a" calls (new 2 10 1) []) ≤ 2
budget_example = budget "a" 2 10 1 calls 0 (omega arith) 4

check_exact_example :
    (check "a" 32 (run calls (new 2 10 1))).0
    ≡ ltb (live 10 32 (accepted "a" calls (new 2 10 1) [])) 2
check_exact_example = check_exact "a" 2 10 1 calls 0 (omega arith) 32 (omega arith)
