-- ===== src/RateLimit/Window.antt =====
-- core/ratelimit.py: deques of rising times, and their part in the window.
use selfhost_tip_overlay.Prelude.{
  ℕ, ◌+◌, ◌≤◌, ◌<◌, ◌≡◌, refl, true, List, [], ◌∷◌, ◌++◌, arith, ltb, length, count, All,
  All-append,
}
use selfhost_tip_overlay.RateLimit.{is_stale, prune}

-- How many hits are still in the window at `now`.
abbrev pub live : ℕ → ℕ → List ℕ → ℕ
live window now = count (λ t. ltb now (t + window))

-- Oldest first.
abbrev pub Rises : List ℕ → Type 0
Rises [] = Unit
Rises (t ∷ d) = All (λ u. t ≤ u) d × Rises d

abbrev pub AtMost : ℕ → List ℕ → Type 0
AtMost now d = All (λ t. t ≤ now) d

module _ (w now : ℕ) where
  live-All : (t : ℕ) (d : List ℕ) → All (λ u. t ≤ u) d → now < t + w → live w now d ≡ length d
  live-All t [] h l = refl
  live-All t (u ∷ d) h l = ground (arith, live-All t d h.1 l)

  -- What is left after the prune is what is in the window.
  pub length-prune : (d : List ℕ) → Rises d → length (prune w now d) ≡ live w now d
  unfolding prune
  length-prune [] h = refl
  length-prune (t ∷ d) h = ground (arith, length-prune d h.1, live-All t d h.0)

  pub live-prune :
      (later : ℕ) (d : List ℕ) → now ≤ later → live w later (prune w now d) ≡ live w later d
  unfolding prune
  live-prune later [] h = refl
  live-prune later (t ∷ d) h = ground (arith, live-prune later d h)

  pub All-prune {κ} : (P : ℕ → Type κ) (d : List ℕ) → All P d → All P (prune w now d)
  unfolding prune
  All-prune P [] h = tt
  All-prune P (t ∷ d) h = ground (arith, All-prune P d h.1)

  pub prune-Rises : (d : List ℕ) → Rises d → Rises (prune w now d)
  unfolding prune
  prune-Rises [] h = tt
  prune-Rises (t ∷ d) h = ground (arith, prune-Rises d h.1)

  -- A stale deque has nothing in the window, then or later.
  pub live_stale :
      (later : ℕ) (d : List ℕ)
      → now ≤ later
      → Rises d
      → is_stale w now d ≡ true
      → live w later d ≡ 0
  unfolding is_stale
  live_stale later [] h r s = refl
  live_stale later (t ∷ []) h r s = ground arith
  live_stale later (t ∷ u ∷ d) h r s = ground (arith, live_stale later (u ∷ d) h r.1 s, r.0.0)

pub append-Rises : (d : List ℕ) (now : ℕ) → Rises d → AtMost now d → Rises (d ++ now ∷ [])
append-Rises [] now r h = (tt, tt)
append-Rises (t ∷ d) now r h =
    (All-append (λ u. t ≤ u) d (now ∷ []) r.0 (h.0, tt), append-Rises d now r.1 h.1)
