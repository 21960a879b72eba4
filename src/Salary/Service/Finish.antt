-- ===== src/Salary/Service/Finish.antt =====
-- When a calculation of backend/app/services/calculation_service.py finishes with a result.
use Prim.Native.String.{String}
use smart_salary_india.Base.{ℕ, ◌≡◌, refl, Bool, true, false, ◌&&◌, Option, none, some}
use smart_salary_india.Tax.Rules.{TaxRegime, TaxRuleSet}
use smart_salary_india.Seeds.{get_tax_rule_set}
use smart_salary_india.Salary.Normalizer.{
  SalaryInput, NormalizedSalary, normalize, Normalized, ok, err,
}
use smart_salary_india.Salary.Normalizer.Laws.{is_ok}
use smart_salary_india.Salary.Pf.{PfRuleSet}
use smart_salary_india.Salary.Pt.{PtRuleSet}
use smart_salary_india.Salary.Invariants.{Violation}
use smart_salary_india.Salary.Service.{
  Database, Outcome, VerifiedCalculation, done, compute, calculate_salary, conclude, with_rules,
  with_normalized, get_pf_rule_set, calculation,
}
use smart_salary_india.Salary.Service.Laws.{validate-own}
use smart_salary_india.Salary.Pt.Seeds.{
  PtRuleResult, found, unknown_state, not_configured, get_pt_rule_set,
}

abbrev pub is_done : Outcome → Bool
is_done (done _) = true
is_done _ = false

-- All three rules are there.
abbrev pub all_found : Option TaxRuleSet → Option PfRuleSet → PtRuleResult → Bool
all_found (some _) (some _) (found _) = true
all_found _ _ _ = false

conclude-done : (o : Option Violation) (c : VerifiedCalculation) → o ≡ none → conclude o c ≡ done c
unfolding conclude
conclude-done none c e = refl
conclude-done (some v) c e = cc

-- The invariant check always passes.
pub compute-done :
    (inp : SalaryInput) (regime : TaxRegime) (state : String) (age : ℕ) (n : NormalizedSalary)
    (t : TaxRuleSet) (p : PfRuleSet) (q : PtRuleSet)
    → compute inp regime state age n t p q ≡ done (calculation inp regime state age n t p q)
unfolding compute calculation
compute-done inp regime state age n t p q = conclude-done _ _ (validate-own _ _ _ _ _)

compute-is_done :
    (inp : SalaryInput) (regime : TaxRegime) (state : String) (age : ℕ) (n : NormalizedSalary)
    (t : TaxRuleSet) (p : PfRuleSet) (q : PtRuleSet)
    → is_done (compute inp regime state age n t p q) ≡ true
compute-is_done inp regime state age n t p q = rw (compute-done inp regime state age n t p q) refl

with_rules-is_done :
    (t : Option TaxRuleSet) (p : Option PfRuleSet) (q : PtRuleResult)
    (next : TaxRuleSet → PfRuleSet → PtRuleSet → Outcome)
    → ((t' : TaxRuleSet) (p' : PfRuleSet) (q' : PtRuleSet) → is_done (next t' p' q') ≡ true)
    → is_done (with_rules t p q next) ≡ all_found t p q
unfolding with_rules
with_rules-is_done none p q next h = refl
with_rules-is_done (some t) none q next h = refl
with_rules-is_done (some t) (some p) unknown_state next h = refl
with_rules-is_done (some t) (some p) not_configured next h = refl
with_rules-is_done (some t) (some p) (found q) next h = h t p q

with_normalized-is_done :
    (r : Normalized) (next : NormalizedSalary → Outcome) (b : Bool)
    → ((n : NormalizedSalary) → is_done (next n) ≡ b)
    → is_done (with_normalized r next) ≡ (is_ok r && b)
unfolding with_normalized
with_normalized-is_done (err e) next b h = refl
with_normalized-is_done (ok n) next b h = h n

-- A calculation finishes with a result exactly if the input can be normalized and the tax, the
-- provident fund and the professional tax rules are all found.
pub calculate_salary-is_done :
    (db : Database) (inp : SalaryInput) (regime : TaxRegime) (state : String) (age : ℕ)
    → is_done (calculate_salary db inp regime state age) ≡ (
        is_ok (normalize inp)
        && all_found
            (get_tax_rule_set db.tax_versions inp.financial_year regime)
            (get_pf_rule_set db.pf_versions inp.financial_year)
            (get_pt_rule_set db.states db.pt_versions state))
unfolding calculate_salary
calculate_salary-is_done db inp regime state age =
    with_normalized-is_done (normalize inp) _ _
      λ n. with_rules-is_done _ _ _ _ (compute-is_done inp regime state age n)
