-- ===== src/Policy/Budget/Tests.antt =====
-- Budgets that are checked, and the theorem at one.
use jev_router.Common.{ℕ, ◌≡◌, refl, true, false, String, List, [], ◌∷◌, arith}
use jev_router.Common.Int.{pos, negsuc}
use jev_router.Fixtures.{fixed}
use jev_router.Deciders.{Json, integer, boolean}
use jev_router.Policy.Budget.{
  input_tokens, output_tokens, not_whole, whole, bad_counts, reserve_tokens, ceiling, budget,
  context_budget, BudgetCheck,
}
use jev_router.Policy.Budget.Fits.{Shrinks, Admitted, context_budget-Admitted}

unfoldable budget_run : Unit {0}
unfolding whole bad_counts reserve_tokens ceiling budget context_budget
budget_run = tt

abbrev count : ℕ → Json
count n = integer (pos n)

abbrev check : ℕ → List String → BudgetCheck
check input_count unknown =
    context_budget (count 100000) (count input_count) (count 2000) (count 0) "chars" unknown

a_measured_request_fits : (check 88000 []).fits ≡ true
unfolding budget_run
a_measured_request_fits = refl

the_same_with_an_image_does_not : (check 88000 ("image" ∷ [])).fits ≡ false
unfolding budget_run
the_same_with_an_image_does_not = refl

a_truth_value_is_no_count :
    (context_budget (count 100000) (boolean true) (integer (negsuc 0)) (count 0) "" []).reason
    ≡ not_whole (input_tokens ∷ output_tokens ∷ [])
unfolding budget_run
a_truth_value_is_no_count = refl

shrinks : Shrinks
unfolding Shrinks
shrinks n = omega arith

context_budget-Admitted_example :
    Admitted (count 100000) (count 60000) (count 2000) (count 0) (check 60000 ("image" ∷ []))
unfolding budget_run
context_budget-Admitted_example =
    context_budget-Admitted shrinks (count 100000) (count 60000) (count 2000) (count 0) "chars"
      ("image" ∷ []) refl
