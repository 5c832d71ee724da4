-- ===== src/RateLimit/Inv.antt =====
-- core/ratelimit.py: the deque of one key across checks.
use selfhost_tip_overlay.Prelude.{
  ℕ, ◌+◌, ◌≤◌, ◌<◌, String, ◌≡◌, refl, sym, ◌∙◌, ◌⊎◌, inl, inr, Bool, true, ◌&&◌, Option, none,
  some, List, [], ◌∷◌, ◌++◌, arith, eq_iff, str_eq, str_eq_refl, str-cases, leb, ltb, length, count,
  All-mono, All-append, count-append, Bool-cases, if◌then◌else◌,
}
use selfhost_tip_overlay.Prelude.Dict.{Dict, get, put, get-put}
use selfhost_tip_overlay.RateLimit.{
  RateLimiter, is_stale, evict_stale, prune, deque, swept, admit, check,
}
use selfhost_tip_overlay.RateLimit.Window.{
  live, Rises, AtMost, length-prune, live-prune, All-prune, prune-Rises, live_stale, append-Rises,
}

-- No key stands twice in the dict.
abbrev pub Distinct : Dict (List ℕ) → Type 0
Distinct [] = Unit
Distinct ((k, d) ∷ hits) = (get k hits ≡ none) × Distinct hits

abbrev unless_stale : ℕ → ℕ → Option (List ℕ) → Option (List ℕ)
unless_stale w now none = none
unless_stale w now (some d) = if is_stale w now d then none else some d

get-evict_stale :
    (w now : ℕ) (k : String) (hits : Dict (List ℕ))
    → Distinct hits
    → get k (evict_stale w now hits) ≡ unless_stale w now (get k hits)
unfolding get evict_stale
get-evict_stale w now k [] h = refl
get-evict_stale w now k ((j, d) ∷ hits) h = elim (str-cases j k) [
  | inl e ↦
      rw (← e, str_eq_refl j) (ground (arith, str_eq_refl j, get-evict_stale w now j hits h.1, h.0))
  | inr e ↦ rw e (ground (arith, e, get-evict_stale w now k hits h.1))
]

evict_stale-Distinct :
    (w now : ℕ) (hits : Dict (List ℕ)) → Distinct hits → Distinct (evict_stale w now hits)
unfolding evict_stale
evict_stale-Distinct w now [] h = tt
evict_stale-Distinct w now ((j, d) ∷ hits) h =
    ground (arith, evict_stale-Distinct w now hits h.1, get-evict_stale w now j hits h.1, h.0)

put-Distinct :
    (k : String) (d : List ℕ) (hits : Dict (List ℕ)) → Distinct hits → Distinct (put k d hits)
unfolding put
put-Distinct k d [] h = (unfold get in refl, tt)
put-Distinct k d ((j, c) ∷ hits) h =
    ground (arith, put-Distinct k d hits h.1, get-put k j d hits, h.0, eq_iff j k, eq_iff k j)

-- What holds of the deque of one key at the time `now`, beside the accepted hits of the key so far.
pub record Inv (w max_requests now : ℕ) (d : List ℕ) (accepted : List ℕ) : Type 0 where
  pub same : (t : ℕ) → now ≤ t → live w t accepted ≡ live w t d
  pub rises : Rises d
  pub past : AtMost now d
  pub within : (t : ℕ) → count (λ e. ltb t (e + w) && leb e t) accepted ≤ max_requests

module _ (w m now later : ℕ) (h : now ≤ later) (d : List ℕ) (accepted : List ℕ)
    (inv : Inv w m now d accepted) where
  wait-Inv : Inv w m later d accepted
  wait-Inv = record {
    same = λ t l. inv.same t (omega arith);
    rises = inv.rises;
    past = All-mono (λ t. t ≤ now) (λ t. t ≤ later) d (λ t l. omega arith) inv.past;
    within = inv.within;
  }

  stale-Inv : is_stale w later d ≡ true → Inv w m later [] accepted
  stale-Inv s = record {
    same = λ t l. inv.same t (omega arith) ∙ live_stale w later t d l inv.rises s;
    rises = tt;
    past = tt;
    within = inv.within;
  }

  prune-Inv : Inv w m later (prune w later d) accepted
  prune-Inv = record {
    same = λ t l. inv.same t (omega arith) ∙ sym (live-prune w later t d l);
    rises = prune-Rises w later d inv.rises;
    past = All-prune w later (λ t. t ≤ later) d wait-Inv.past;
    within = inv.within;
  }

count_mono :
    (p q : ℕ → Bool) (l : List ℕ) → ((e : ℕ) → p e ≡ true → q e ≡ true) → count p l ≤ count q l
count_mono p q [] h = omega arith
count_mono p q (e ∷ l) h = ground (arith, h e, count_mono p q l h)

live-le-length : (w now : ℕ) (l : List ℕ) → live w now l ≤ length l
live-le-length w now [] = omega arith
live-le-length w now (t ∷ l) = ground (arith, live-le-length w now l)

abbrev pub in_window : ℕ → ℕ → ℕ → Bool
in_window w t e = ltb t (e + w) && leb e t

module _ (w m now : ℕ) (d : List ℕ) (accepted : List ℕ) (inv : Inv w m now d accepted) where
  -- Hits in a window that ends later are in the window now.
  window-le : (t : ℕ) → now ≤ t → count (in_window w t) accepted ≤ length d
  window-le t l = omega (
    arith,
    count_mono (in_window w t) (λ e. ltb now (e + w)) accepted (λ e x. ground (arith, x, l)),
    inv.same now (omega arith),
    live-le-length w now d,
  )

  within_after : (t : ℕ) → length d < m → count (in_window w t) (now ∷ accepted) ≤ m
  within_after t room = elim (Bool-cases (leb now t)) [
    | inl e ↦ ground (arith, e, window-le t)
    | inr e ↦ ground (arith, e, inv.within t)
  ]

  accept-Inv : length d < m → Inv w m now (d ++ now ∷ []) (now ∷ accepted)
  accept-Inv room = record {
    same = λ t l. ground (arith, inv.same t l, count-append (λ e. ltb t (e + w)) d (now ∷ []));
    rises = append-Rises d now inv.rises inv.past;
    past = All-append (λ t. t ≤ now) d (now ∷ []) inv.past (omega arith, tt);
    within = λ t. within_after t room;
  }

-- The limiter is well-formed for the key `k` at the time `now`, after the accepted hits.
pub record KeyInv (k : String) (now : ℕ) (l : RateLimiter) (accepted : List ℕ) : Type 0 where
  pub distinct : Distinct l.hits
  pub inv : Inv l.window l.max_requests now (deque k l.hits) accepted

swept-Distinct : (now : ℕ) (l : RateLimiter) → Distinct l.hits → Distinct (swept now l)
unfolding swept
swept-Distinct now l h = ground (arith, h, evict_stale-Distinct l.window now l.hits h)

deque-swept :
    (k : String) (now : ℕ) (l : RateLimiter)
    → Distinct l.hits
    → (deque k (swept now l) ≡ deque k l.hits)
      ⊎ ((deque k (swept now l) ≡ []) × (is_stale l.window now (deque k l.hits) ≡ true))
unfolding swept
deque-swept k now l h = ground (arith, get-evict_stale l.window now k l.hits h)

swept-Inv :
    (k : String) (now later : ℕ) (l : RateLimiter) (accepted : List ℕ)
    → now ≤ later
    → KeyInv k now l accepted
    → Inv l.window l.max_requests later (deque k (swept later l)) accepted
swept-Inv k now later l accepted h key = elim (deque-swept k later l key.distinct) [
  | inl e ↦ rw e (wait-Inv l.window l.max_requests now later h (deque k l.hits) accepted key.inv)
  | inr (e, s) ↦
      rw e (stale-Inv l.window l.max_requests now later h (deque k l.hits) accepted key.inv s)
]

-- The accepted hits of the key `k`, newest first, after one more check.
abbrev pub noted : String → String → ℕ → Bool → List ℕ → List ℕ
noted k j now ok accepted = if ok && str_eq j k then now ∷ accepted else accepted

deque-put :
    (k j : String) (d : List ℕ) (hits : Dict (List ℕ))
    → deque k (put j d hits) ≡ (if str_eq j k then d else deque k hits)
deque-put k j d hits = ground (arith, get-put j k d hits)

admit-KeyInv :
    (k j : String) (now : ℕ) (hits : Dict (List ℕ)) (l : RateLimiter) (accepted : List ℕ)
    → Distinct hits
    → Inv l.window l.max_requests now (deque k hits) accepted
    → let (ok, l') = admit j now hits (prune l.window now (deque j hits)) l in
      KeyInv k now l' (noted k j now ok accepted)
unfolding admit
admit-KeyInv k j now hits l accepted ds inv =
    let dq = prune l.window now (deque j hits) in
    elim (Bool-cases (leb l.max_requests (length dq))) [
      | inl full ↦ rw full (record {
        distinct = put-Distinct j dq hits ds;
        inv = elim (str-cases j k) [
          | inl e ↦
              rw (deque-put k j dq hits, e, str_eq_refl k)
                (prune-Inv l.window l.max_requests now now (omega arith) (deque k hits) accepted
                  inv)
          | inr e ↦ rw (deque-put k j dq hits, e) inv
        ];
      })
      | inr room ↦ rw room (record {
        distinct = put-Distinct j (dq ++ now ∷ []) hits ds;
        inv = elim (str-cases j k) [
          | inl e ↦
              rw (deque-put k j (dq ++ now ∷ []) hits, e, str_eq_refl k)
                (accept-Inv l.window l.max_requests now (prune l.window now (deque k hits)) accepted
                  (prune-Inv l.window l.max_requests now now (omega arith) (deque k hits) accepted
                    inv)
                  (ground (arith, rw e at room)))
          | inr e ↦ rw (deque-put k j (dq ++ now ∷ []) hits, e) inv
        ];
      })
    ]

pub check-KeyInv :
    (k j : String) (now later : ℕ) (l : RateLimiter) (accepted : List ℕ)
    → now ≤ later
    → KeyInv k now l accepted
    → KeyInv k later (check j later l).1 (noted k j later (check j later l).0 accepted)
unfolding check
check-KeyInv k j now later l accepted h key =
    admit-KeyInv k j later (swept later l) l accepted (swept-Distinct later l key.distinct)
      (swept-Inv k now later l accepted h key)

pub check-KeyInv_exact :
    (k : String) (now later : ℕ) (l : RateLimiter) (accepted : List ℕ)
    → now ≤ later
    → KeyInv k now l accepted
    → (check k later l).0 ≡ ltb (live l.window later accepted) l.max_requests
unfolding check admit
check-KeyInv_exact k now later l accepted h key =
    let inv = swept-Inv k now later l accepted h key in
    rw
      (
        inv.same later (omega arith),
        ← length-prune l.window later (deque k (swept later l)) inv.rises,
      )
      (ground arith)
