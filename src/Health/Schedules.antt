-- ===== src/Health/Schedules.antt =====
-- The order in which the goroutines write does not matter, and the verdict is that of all checks.
use mathlib.Core.List.{Permᴰ}
use mathlib.Core.Option.{some-injective}
use kubernetes_cost_analyzer.Common.{
  ℕ, zero, suc, ◌≡◌, ◌↔◌, refl, sym, ap, ◌∙◌, Option, none, some, List, [], ◌∷◌, map, length, All,
  arith,
}
use kubernetes_cost_analyzer.Clock.{Duration}
use kubernetes_cost_analyzer.Health.{
  status_up, returned, Checker, CheckResult, new_aggregator, checked, run_one, element, assign,
  place, blanks, no_result, write_result, write_all, overall, run,
}

-- 0, …, n - 1.
abbrev pub indices : ℕ → List ℕ
indices zero = []
indices (suc n) = 0 ∷ map suc (indices n)

-- Two writes commute: at one index they write one result.
assign_swap :
    {A : Type 0} (xs : List A) (i j : ℕ) (a b : A)
    → (i ≡ j → a ≡ b)
    → assign (assign xs i a) j b ≡ assign (assign xs j b) i a
assign_swap [] i j a b _ = refl
assign_swap (x ∷ xs) zero zero a b same = ap (λ y. y ∷ xs) (sym (same refl))
assign_swap (x ∷ xs) zero (suc j) a b _ = refl
assign_swap (x ∷ xs) (suc i) zero a b _ = refl
assign_swap (x ∷ xs) (suc i) (suc j) a b same =
    ap (λ ys. x ∷ ys) (assign_swap xs i j a b (λ e. same (ap suc e)))

place-swap :
    (o p : Option Checker) (i j : ℕ) (results : List CheckResult)
    → (i ≡ j → o ≡ p)
    → place p j (place o i results) ≡ place o i (place p j results)
place-swap none none i j results _ = refl
place-swap none (some c) i j results _ = refl
place-swap (some c) none i j results _ = refl
place-swap (some c) (some c') i j results same =
    assign_swap results i j (run_one c) (run_one c')
      (λ e. ap run_one (some-injective c c' (same e)))

place-suc :
    (o : Option Checker) (i : ℕ) (x : CheckResult) (xs : List CheckResult)
    → place o (suc i) (x ∷ xs) ≡ x ∷ place o i xs
place-suc none i x xs = refl
place-suc (some c) i x xs = refl

write_result-swap :
    (cs : List Checker) (i j : ℕ) (results : List CheckResult)
    → write_result cs j (write_result cs i results) ≡ write_result cs i (write_result cs j results)
unfolding write_result
write_result-swap cs i j results =
    place-swap (element cs i) (element cs j) i j results (λ e. ap (element cs) e)

write_all-perm :
    (cs : List Checker) {is js : List ℕ} (results : List CheckResult)
    → Permᴰ is js
    → write_all cs is results ≡ write_all cs js results
unfolding write_all
write_all-perm cs results Permᴰ.nil = refl
write_all-perm cs results (Permᴰ.cons {a = a} same p) =
    rw (← same) (write_all-perm cs (write_result cs a results) p)
write_all-perm cs results (Permᴰ.swap {a = a} {b = b} {l = l} p q) =
    rw (← p, ← q) (ap (write_all cs l) (write_result-swap cs a b results))
write_all-perm cs results (Permᴰ.trans p q) =
    write_all-perm cs results p ∙ write_all-perm cs results q

-- Writes behind the first index leave the first result alone.
write_all-suc :
    (c : Checker) (cs : List Checker) (is : List ℕ) (x : CheckResult) (xs : List CheckResult)
    → write_all (c ∷ cs) (map suc is) (x ∷ xs) ≡ x ∷ write_all cs is xs
unfolding write_all write_result
write_all-suc c cs [] x xs = refl
write_all-suc c cs (i ∷ is) x xs =
    ap (write_all (c ∷ cs) (map suc is)) (place-suc (element cs i) i x xs)
    ∙ write_all-suc c cs is x (write_result cs i xs)

write_all-indices :
    (cs : List Checker)
    → write_all cs (indices (length cs)) (blanks (length cs) no_result) ≡ map run_one cs
unfolding write_all write_result
write_all-indices [] = refl
write_all-indices (c ∷ cs) =
    write_all-suc c cs (indices (length cs)) (run_one c) (blanks (length cs) no_result)
    ∙ ap (λ rs. run_one c ∷ rs) (write_all-indices cs)

-- A dependency that can be used: neither its name panics nor its check panics or fails.
abbrev pub IsUsable : Checker → Type 0
IsUsable c = (c.name_panic ≡ none) × (c.check ≡ returned)

run_one_iff : (c : Checker) → ((run_one c).status ≡ status_up) ↔ IsUsable c
unfolding run_one checked
run_one_iff c = (λ h. ground arith, λ h. ground arith)

overall_iff : (cs : List Checker) → (overall (map run_one cs) ≡ status_up) ↔ All IsUsable cs
unfolding overall
overall_iff [] = (λ _. tt, λ _. refl)
overall_iff (c ∷ cs) = ground (arith, run_one_iff c, overall_iff cs)

ordered :
    (cs : List Checker) (order : List ℕ)
    → Permᴰ (indices (length cs)) order
    → write_all cs order (blanks (length cs) no_result) ≡ map run_one cs
ordered cs order p = sym (write_all-perm cs (blanks (length cs) no_result) p) ∙ write_all-indices cs

-- In whatever order the checks finish, the report has the result of every check at its own place, and
-- the process is ready exactly if every dependency can be used: none fails or panics, in its check or
-- when it is asked for its name.
pub run_complete :
    (order : List ℕ) (checkers : List Checker) (timeout : Duration)
    → Permᴰ (indices (length checkers)) order
    → let report = run order (new_aggregator timeout checkers) in
      (report.checks ≡ map run_one checkers) × ((report.status ≡ status_up) ↔ All IsUsable checkers)
unfolding run new_aggregator
run_complete order [] timeout p = (refl, (λ _. tt, λ _. refl))
run_complete order (c ∷ cs) timeout p =
    let e = ordered (c ∷ cs) order p in (e, rw e (overall_iff (c ∷ cs)))
