-- ===== src/Salary/Service.antt =====
-- backend/app/services/calculation_service.py with backend/app/services/rule_applicability.py and
-- backend/app/repositories/pf_rule_repository.py: a salary from the raw input to take-home pay.
-- The ledger, the provenance hashes and the persistence of a result are left out.
pub mod Laws
pub mod Finish
pub mod Comparison
use Prim.Native.String
use Prim.Native.String.{String}
use text.Mathlib.Text.{◌==◌ as str_eq, starts_with}
use smart_salary_india.Base.{
  ℕ, ◌+◌, ◌-◌, Bool, true, ◌&&◌, Option, none, some, List, [], ◌∷◌, find?, if◌then◌else◌,
}
use smart_salary_india.Base.Int.{ℤ, pos, ◌-ℤ◌}
use smart_salary_india.Money.{quantize_ℤ}
use smart_salary_india.Tax.Rules.{TaxRegime, old, new, TaxRuleSet, TaxCalculationInput, tax_input}
use smart_salary_india.Tax.Calculator.{TaxResult, calculate_tax}
use smart_salary_india.Tax.Comparator.{recommend}
use smart_salary_india.Seeds.{TaxRuleVersion, get_tax_rule_set}
use smart_salary_india.Salary.Normalizer.{
  SalaryInput, NormalizedSalary, InputError, Normalized, ok, err, normalize,
}
use smart_salary_india.Salary.Pf.{PfCalculationInput, PfRuleSet, PfCalculationResult, calculate_pf}
use smart_salary_india.Salary.Pt.{
  all, PtCalculationInput, PtRuleSet, PtCalculationResult, calculate_pt,
}
use smart_salary_india.Salary.Pt.Seeds.{
  State, PtRuleVersion, PtRuleResult, found, unknown_state, not_configured, get_pt_rule_set,
}
use smart_salary_india.Salary.Invariants.{Violation, validate}

-- A provident fund version with its rules, which carry the version's code.
pub record PfRuleVersion : Type 0 where
  pub version_code : String
  pub status : String
  pub rules : List PfRuleSet

pub record Database : Type 0 where
  pub tax_versions : List TaxRuleVersion
  pub pf_versions : List PfRuleVersion
  pub states : List State
  pub pt_versions : List PtRuleVersion

-- The first rule of a version that is there.
abbrev pub first_rule : Option PfRuleVersion → Option PfRuleSet
first_rule none = none
first_rule (some v) = elim v.rules [
  | [] ↦ none
  | r ∷ _ ↦ some (record r { rule_version_code = v.version_code })
]

-- `get_pf_rule_set`: the year's active version, or else the first active one.
unfoldable pub get_pf_rule_set : List PfRuleVersion → String → Option PfRuleSet
get_pf_rule_set versions financial_year =
    let prefix = String.◌++◌ "PFRV-" financial_year in
    let of_year =
      first_rule
        (find? (λ v. starts_with v.version_code prefix && str_eq v.status "ACTIVE") versions) in
    elim of_year [
      | some r ↦ some r
      | none ↦ first_rule (find? (λ v. str_eq v.status "ACTIVE") versions)
    ]

-- What `calculate_salary` returns, without the ledger, the trace and the hashes.
pub record VerifiedCalculation : Type 0 where
  pub normalized : NormalizedSalary
  pub tax : TaxResult
  pub pf : PfCalculationResult
  pub pt : PtCalculationResult
  pub take_home_annual : ℤ
  pub take_home_monthly : ℤ

pub data Outcome : Type 0 where
  done : VerifiedCalculation → Outcome
  invalid_input : InputError → Outcome
  tax_rule_not_found pf_rule_not_found pt_state_unknown pt_not_configured : Outcome
  violated : Violation → Outcome

-- The exception of the invariant check, or the result.
unfoldable pub conclude : Option Violation → VerifiedCalculation → Outcome
conclude none c = done c
conclude (some v) c = violated v

-- The amounts of steps 3 to 7, once the rules are there.
unfoldable pub calculation :
    SalaryInput
    → TaxRegime
    → String
    → ℕ
    → NormalizedSalary
    → TaxRuleSet
    → PfRuleSet
    → PtRuleSet
    → VerifiedCalculation
calculation inp regime state_code age normalized tax_rules pf_rules pt_rules =
    let tax =
      calculate_tax
        (record (tax_input inp.financial_year regime normalized.annual_gross 0 0) { age = age })
        tax_rules in
    let pf =
      calculate_pf
        (record {
          pf_wage_base_monthly = normalized.pf_wage_base_monthly;
          is_pf_applicable = true;
          opt_in_higher_wage = inp.pf_opt_in_higher_wage;
        })
        pf_rules in
    let pt =
      calculate_pt
        (record {
          state_code = state_code;
          monthly_gross_salary = normalized.monthly_gross;
          gender = all;
        })
        pt_rules in
    let take_home =
      pos normalized.annual_gross
      -ℤ pos tax.total_annual_tax_liability
      -ℤ pos pf.annual_employee_epf
      -ℤ pos pt.annual_pt
      -ℤ pos normalized.other_employee_deductions in
    record {
      normalized = normalized;
      tax = tax;
      pf = pf;
      pt = pt;
      take_home_annual = take_home;
      take_home_monthly = quantize_ℤ take_home 12;
    }

-- The invariant check on the amounts.
unfoldable pub compute :
    SalaryInput
    → TaxRegime
    → String
    → ℕ
    → NormalizedSalary
    → TaxRuleSet
    → PfRuleSet
    → PtRuleSet
    → Outcome
compute inp regime state_code age normalized tax_rules pf_rules pt_rules =
    let c = calculation inp regime state_code age normalized tax_rules pf_rules pt_rules in
    conclude
      (validate (pos c.normalized.annual_gross) (pos c.normalized.other_employee_deductions)
        (pos c.tax.total_annual_tax_liability) (pos c.pf.annual_employee_epf) (pos c.pt.annual_pt)
        c.take_home_annual)
      c

-- `resolve_all`: the first rule that is missing, in the order tax, PF and PT, or the next steps.
unfoldable pub with_rules :
    Option TaxRuleSet
    → Option PfRuleSet
    → PtRuleResult
    → (TaxRuleSet → PfRuleSet → PtRuleSet → Outcome)
    → Outcome
with_rules none pf pt next = tax_rule_not_found
with_rules (some tax) none pt next = pf_rule_not_found
with_rules (some tax) (some pf) unknown_state next = pt_state_unknown
with_rules (some tax) (some pf) not_configured next = pt_not_configured
with_rules (some tax) (some pf) (found pt) next = next tax pf pt

-- The steps after the normalizer, unless it raised.
unfoldable pub with_normalized : Normalized → (NormalizedSalary → Outcome) → Outcome
with_normalized (err e) next = invalid_input e
with_normalized (ok n) next = next n

-- `calculate_salary`
unfoldable pub calculate_salary : Database → SalaryInput → TaxRegime → String → ℕ → Outcome
calculate_salary db inp regime state_code age = with_normalized (normalize inp) λ normalized.
    with_rules (get_tax_rule_set db.tax_versions inp.financial_year regime)
      (get_pf_rule_set db.pf_versions inp.financial_year)
      (get_pt_rule_set db.states db.pt_versions state_code)
      (compute inp regime state_code age normalized)

pub record RegimeComparison : Type 0 where
  pub old_regime : VerifiedCalculation
  pub new_regime : VerifiedCalculation
  pub tax_difference : ℕ
  pub recommended_regime : TaxRegime

unfoldable pub comparison : VerifiedCalculation → VerifiedCalculation → RegimeComparison
comparison old_res new_res =
    let old_tax = old_res.tax.total_annual_tax_liability in
    let new_tax = new_res.tax.total_annual_tax_liability in
    record {
      old_regime = old_res;
      new_regime = new_res;
      tax_difference = old_tax - new_tax + (new_tax - old_tax);
      recommended_regime = recommend old_tax new_tax;
    }

-- The comparison of two outcomes; `none` is an exception of either calculation.
unfoldable pub compared : Outcome → Outcome → Option RegimeComparison
compared (done old_res) (done new_res) = some (comparison old_res new_res)
compared _ _ = none

-- `compare_regimes`
unfoldable pub compare_regimes : Database → SalaryInput → String → ℕ → Option RegimeComparison
compare_regimes db inp state_code age =
    compared (calculate_salary db inp old state_code age)
      (calculate_salary db inp new state_code age)
