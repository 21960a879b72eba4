-- ===== src/Salary/Service/Laws.antt =====
-- What backend/app/services/calculation_service.py guarantees of a finished calculation.
use Prim.Native.String.{String}
use smart_salary_india.Base.{ℕ, ◌≡◌, Option, none, some, arith}
use smart_salary_india.Base.Int.{pos, ◌+ℤ◌, ◌-ℤ◌, int_laws}
use smart_salary_india.Tax.Rules.{TaxRegime, TaxRuleSet}
use smart_salary_india.Salary.Normalizer.{
  SalaryInput, NormalizedSalary, normalize, Normalized, ok, err,
}
use smart_salary_india.Salary.Pf.{PfRuleSet}
use smart_salary_india.Salary.Pt.{PtRuleSet}
use smart_salary_india.Salary.Invariants.{Violation, validate}
use smart_salary_india.Salary.Service.{
  Database, Outcome, VerifiedCalculation, done, violated, compute, calculate_salary, conclude,
  with_rules, with_normalized, calculation,
}
use smart_salary_india.Salary.Pt.Seeds.{PtRuleResult, found, unknown_state, not_configured}

pub validate-own :
    (gross other tax pf pt : ℕ)
    → validate
        (pos gross)
        (pos other)
        (pos tax)
        (pos pf)
        (pos pt)
        (pos gross -ℤ pos tax -ℤ pos pf -ℤ pos pt -ℤ pos other)
      ≡ none
unfolding validate
validate-own gross other tax pf pt =
    let t = pos gross -ℤ pos tax -ℤ pos pf -ℤ pos pt -ℤ pos other in
    let same : t -ℤ t ≡ pos 0 = omega int_laws in rw same (ground arith)

-- What a finished calculation satisfies: nothing of the gross salary is lost.
abbrev pub Accounts : VerifiedCalculation → Type 0
Accounts c =
    c.take_home_annual
      +ℤ pos c.tax.total_annual_tax_liability
      +ℤ pos c.pf.annual_employee_epf
      +ℤ pos c.pt.annual_pt
      +ℤ pos c.normalized.other_employee_deductions
    ≡ pos c.normalized.annual_gross

-- An outcome that is no violation of an invariant, and accounts for the gross if it is a result.
abbrev pub IsSound : Outcome → Type 0
IsSound (done c) = Accounts c
IsSound (violated v) = ⊥
IsSound _ = Unit

conclude-IsSound :
    (o : Option Violation) (c : VerifiedCalculation)
    → o ≡ none
    → Accounts c
    → IsSound (conclude o c)
unfolding conclude
conclude-IsSound none c e a = a
conclude-IsSound (some v) c e a = cc

compute-IsSound :
    (inp : SalaryInput) (regime : TaxRegime) (state : String) (age : ℕ) (n : NormalizedSalary)
    (t : TaxRuleSet) (p : PfRuleSet) (q : PtRuleSet)
    → IsSound (compute inp regime state age n t p q)
unfolding compute calculation
compute-IsSound inp regime state age n t p q =
    conclude-IsSound _ _ (validate-own _ _ _ _ _) (omega int_laws)

with_rules-IsSound :
    (t : Option TaxRuleSet) (p : Option PfRuleSet) (q : PtRuleResult)
    (next : TaxRuleSet → PfRuleSet → PtRuleSet → Outcome)
    → ((t' : TaxRuleSet) (p' : PfRuleSet) (q' : PtRuleSet) → IsSound (next t' p' q'))
    → IsSound (with_rules t p q next)
unfolding with_rules
with_rules-IsSound none p q next h = tt
with_rules-IsSound (some t) none q next h = tt
with_rules-IsSound (some t) (some p) unknown_state next h = tt
with_rules-IsSound (some t) (some p) not_configured next h = tt
with_rules-IsSound (some t) (some p) (found q) next h = h t p q

with_normalized-IsSound :
    (r : Normalized) (next : NormalizedSalary → Outcome)
    → ((n : NormalizedSalary) → IsSound (next n))
    → IsSound (with_normalized r next)
unfolding with_normalized
with_normalized-IsSound (err e) next h = tt
with_normalized-IsSound (ok n) next h = h n

-- For any database and input, `calculate_salary` never fails its own invariant check, and in every
-- result take-home pay, tax, provident fund, professional tax and the other deductions add up to
-- the gross salary, even where take-home pay is negative.
pub calculate_salary-IsSound :
    (db : Database) (inp : SalaryInput) (regime : TaxRegime) (state : String) (age : ℕ)
    → IsSound (calculate_salary db inp regime state age)
unfolding calculate_salary
calculate_salary-IsSound db inp regime state age =
    with_normalized-IsSound (normalize inp) _
      λ n. with_rules-IsSound _ _ _ _ (compute-IsSound inp regime state age n)
