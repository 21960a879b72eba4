-- ===== src/Analytics/Tests.antt =====
-- Runs of backend/app/engine/analytics on the household of one salary.
use mathlib.Core.List.Perm
use smart_salary_india.Money.{quantize}
use smart_salary_india.Base.{ℕ, ◌≡◌, refl, true, false, none, some, List, [], ◌∷◌}
use smart_salary_india.Base.Int.{pos}
use smart_salary_india.Analytics.Cashflow.{
  monthly, annual, one_time, essential, one_off, elss, ExpenseItemInput, SavingsItemInput,
  CashflowResult, evaluated, invalid_salary_input, evaluate, summarize, accumulate, add_expense,
  add_saving, annualize_amount,
}
use smart_salary_india.Analytics.Cashflow.Sums.{
  IsConsistentEvaluation, evaluate-IsConsistentEvaluation, evaluate-perm,
}

abbrev rent : ExpenseItemInput
rent = record {
  category = "rent";
  amount = 2_000_000;
  frequency = monthly;
  nature = essential;
  is_statutory_deduction_claim = false;
  statutory_section = none;
}

-- A section that no act has.
abbrev car : ExpenseItemInput
car = record {
  category = "car";
  amount = 50_000_000;
  frequency = one_time;
  nature = one_off;
  is_statutory_deduction_claim = true;
  statutory_section = some "car";
}

abbrev fund : SavingsItemInput
fund = record {
  vehicle = elss;
  amount = 20_000_000;
  frequency = annual;
  qualifies_section_80c = true;
  qualifies_section_80ccd_1b = false;
}

abbrev deductions_of : CashflowResult → List ℕ
deductions_of (evaluated r) =
    r.statutory_tax_deductions_from_expenses ∷ r.statutory_80c_from_savings ∷ []
deductions_of invalid_salary_input = []

-- The car counts as a deduction, and the fund up to the limit.
car_deducted :
    deductions_of (evaluate (pos 120_000_000) (rent ∷ car ∷ []) (fund ∷ []))
    ≡ 50_000_000 ∷ 15_000_000 ∷ []
unfolding evaluate summarize accumulate add_expense add_saving annualize_amount quantize
car_deducted = refl

evaluate-IsConsistentEvaluation_example :
    IsConsistentEvaluation
      (pos 120_000_000)
      (rent ∷ car ∷ [])
      (fund ∷ [])
      (evaluate (pos 120_000_000) (rent ∷ car ∷ []) (fund ∷ []))
evaluate-IsConsistentEvaluation_example =
    evaluate-IsConsistentEvaluation (pos 120_000_000) (rent ∷ car ∷ []) (fund ∷ [])

evaluate-perm_example :
    evaluate (pos 120_000_000) (rent ∷ car ∷ []) (fund ∷ [])
    ≡ evaluate (pos 120_000_000) (car ∷ rent ∷ []) (fund ∷ [])
evaluate-perm_example =
    evaluate-perm (pos 120_000_000) (Perm.swap car rent []) (Perm.refl (fund ∷ []))
