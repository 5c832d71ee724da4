-- ===== src/Payment/Collect.antt =====
-- core/payment/omise.py, core/payment/stripe.py: reading a list of entries page by page.
use selfhost_tip_overlay.Prelude.{
  ℕ, ◌≡◌, refl, sym, ap, ◌∙◌, Option, none, some, List, [], ◌∷◌, ◌++◌, zero, suc, ◌<◌, Bool, true,
  false, length, arith,
}
use mathlib.Core.List.{append_assoc, append-nil}
use selfhost_tip_overlay.Payment.Base.{Result, ok, raise, ◌>>=◌}
use selfhost_tip_overlay.Payment.Json.{Json}
use selfhost_tip_overlay.Payment.Charges.{
  ChargeData, cons_some, collect, Turn, after_turn, list_pages,
}

-- The results so far, before the rest of them.
abbrev pub prepend : List ChargeData → Result (List ChargeData) → Result (List ChargeData)
prepend results (ok cs) = ok (results ++ cs)
prepend results (raise e) = raise e

pub prepend-nil : (r : Result (List ChargeData)) → prepend [] r ≡ r
prepend-nil (ok cs) = refl
prepend-nil (raise e) = refl

pub prepend-append :
    (xs ys : List ChargeData) (r : Result (List ChargeData))
    → prepend (xs ++ ys) r ≡ prepend xs (prepend ys r)
prepend-append xs ys (ok cs) = ap ok (append_assoc xs ys cs)
prepend-append xs ys (raise e) = refl

prepend-bind :
    (r : Result (Option ChargeData)) (m k : Result (List ChargeData))
    → (r >>= λ c. (m >>= λ cs. prepend cs k) >>= λ cs. ok (cons_some c cs))
      ≡ ((r >>= λ c. m >>= λ cs. ok (cons_some c cs)) >>= λ cs. prepend cs k)
prepend-bind (raise e) m k = refl
prepend-bind (ok c) (raise e) k = refl
prepend-bind (ok none) (ok cs) (ok ds) = refl
prepend-bind (ok none) (ok cs) (raise e) = refl
prepend-bind (ok (some c)) (ok cs) (ok ds) = refl
prepend-bind (ok (some c)) (ok cs) (raise e) = refl

module _ (read : Json → Result (Option ChargeData)) where
  pub collect-append :
      (xs ys : List Json)
      → collect read (xs ++ ys) ≡ (collect read xs >>= λ cs. prepend cs (collect read ys))
  unfolding collect
  collect-append [] ys = sym (prepend-nil (collect read ys))
  collect-append (x ∷ xs) ys =
      rw (collect-append xs ys) (prepend-bind (read x) (collect read xs) (collect read ys))

-- A loop over pages whose turns take apart a list: what is still to come from a start, and for each
-- start the page that its turn reads and what is left after that.
pub record Serves {C : Type 0} (turn : C → Result (Turn C))
    (read : Json → Result (Option ChargeData)) (rest : C → List Json) (start : C) : Type 0 where
  pub page : List Json
  pub left : List Json
  pub next : C
  pub last : Bool
  pub split : page ++ left ≡ rest start
  pub turned :
      turn start
      ≡ (collect read page >>= λ cs. ok (record { charges = cs; next = next; last = last }))
  pub ended : last ≡ true → left ≡ []
  pub going : last ≡ false → (rest next ≡ left) × (length left < length (rest start))

module _ {C : Type 0} (turn : C → Result (Turn C)) (read : Json → Result (Option ChargeData))
    (rest : C → List Json) (serves : (c : C) → Serves turn read rest c) where
  after_turn_lem :
      (again : C → List ChargeData → Option (Result (List ChargeData))) (results : List ChargeData)
      (m : Result (List ChargeData)) (next : C) (last : Bool) (left : List Json)
      → (last ≡ true → left ≡ [])
      → (last ≡ false
          → (cs : List ChargeData) → again next cs ≡ some (prepend cs (collect read left)))
      → after_turn turn again results
          (m >>= λ cs. ok (record { charges = cs; next = next; last = last }))
        ≡ some (prepend results (m >>= λ cs. prepend cs (collect read left)))
  unfolding collect
  after_turn_lem again results (raise e) next last left h k = refl
  after_turn_lem again results (ok cs) next true left h k =
      rw (h refl) (ap (λ l. some (ok (results ++ l))) (sym (append-nil cs)))
  after_turn_lem again results (ok cs) next false left h k =
      k refl (results ++ cs) ∙ ap some (prepend-append results cs (collect read left))

  -- The loop ends, with fuel for one turn more than there are entries, and reads them all in order.
  pub list_pages-eq-collect :
      (fuel : ℕ) (start : C) (results : List ChargeData)
      → length (rest start) < fuel
      → list_pages turn fuel start results ≡ some (prepend results (collect read (rest start)))
  unfolding list_pages
  list_pages-eq-collect zero start results h = absurd (omega arith)
  list_pages-eq-collect (suc fuel) start results h =
      let s = serves start in
      ap (after_turn turn (λ next cs. list_pages turn fuel next cs) results) s.turned
      ∙ after_turn_lem (λ next cs. list_pages turn fuel next cs) results (collect read s.page)
          s.next s.last s.left s.ended
          (λ more cs.
            let (same, fewer) = s.going more in
            let shorter : length (rest s.next) < fuel = rw same (omega (arith, fewer, h)) in
            list_pages-eq-collect fuel s.next cs shorter
            ∙ ap (λ l. some (prepend cs (collect read l))) same)
      ∙ ap (λ r. some (prepend results r))
          (sym (collect-append read s.page s.left) ∙ ap (collect read) s.split)
