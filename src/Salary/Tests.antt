-- ===== src/Salary/Tests.antt =====
-- Runs and examples of the salary calculation.
use smart_salary_india.Base.{
  ◌≡◌, refl, true, false, ◌&&◌, none, some, [], ◌∷◌, leb, if◌then◌else◌, All, ◌*◌, ◌+◌,
}
use smart_salary_india.Base.Int.{pos, negsuc}
use smart_salary_india.Money.{quantize}
use smart_salary_india.Tax.Rules.{new, old, TaxRegime}
use smart_salary_india.Seeds.TaxRules.{rupees, seeded, old_version, new_version}
use smart_salary_india.Salary.Normalizer.{
  SalaryInput, NormalizedSalary, ok, err, negative, normalize, first_negative, to_amount, is_given,
  stated_gross, without_special, sum_components, balanced_special, finish, from_components,
  from_default,
}
use smart_salary_india.Salary.Normalizer.Laws.{is_ok, no_negative, has_amount, normalize-is_ok}
use smart_salary_india.Salary.Pf.{PfCalculationInput, calculate_pf}
use smart_salary_india.Salary.Pf.Bounds.{seeded_pf}
use smart_salary_india.Salary.Pt.{male, calculate_pt}
use smart_salary_india.Salary.Pt.Seeds.{karnataka, maharashtra, seeded_pt, get_pt_rule_set}
use smart_salary_india.Salary.Pt.Laws.{rules_of, pt_input, Capped, seeded_pt-Capped}
use smart_salary_india.Salary.Projection.{generate_monthly_schedule, pt_amount}
use smart_salary_india.Salary.Projection.Laws.{
  SumsToAnnual, total, with_pt, generate_monthly_schedule-pt,
}
use smart_salary_india.Salary.Pt.Seeds.{telangana, west_bengal, gujarat}
use smart_salary_india.Salary.Service.{
  Database, calculate_salary, comparison, compared, compare_regimes, calculation, done,
  VerifiedCalculation, with_normalized, with_rules, get_pf_rule_set,
}
use smart_salary_india.Salary.Service.Laws.{IsSound, calculate_salary-IsSound}
use smart_salary_india.Seeds.{get_tax_rule_set, rule_set, TaxRuleVersion}
use smart_salary_india.Salary.Service.Comparison.{IsFair, compare_regimes-IsFair}
use smart_salary_india.Salary.Service.Finish.{
  compute-done, calculate_salary-is_done, is_done, all_found,
}

-- A stated gross of twelve lakh rupees with basic, HRA and a bonus.
abbrev sample : SalaryInput
sample = record {
  financial_year = "2025-26";
  annual_ctc = none;
  annual_gross = some (pos (rupees 1_200_000));
  monthly_gross = none;
  basic_salary = some (pos (rupees 600_000));
  da = none;
  hra = some (pos (rupees 240_000));
  special_allowance = none;
  bonus = some (pos (rupees 60_000));
  other_allowances = none;
  other_employee_deductions = some (pos (rupees 12_000));
  pf_opt_in_higher_wage = false;
}

abbrev sample_normalized : NormalizedSalary
sample_normalized = record {
  annual_gross = rupees 1_200_000;
  basic_salary = rupees 600_000;
  da = 0;
  hra = rupees 240_000;
  special_allowance = rupees 300_000;
  bonus = rupees 60_000;
  other_allowances = 0;
  other_employee_deductions = rupees 12_000;
  monthly_gross = rupees 100_000;
  pf_wage_base_monthly = rupees 50_000;
  annual_ctc = none;
}

normalize-sample : normalize sample ≡ ok sample_normalized
unfolding normalize first_negative to_amount is_given stated_gross without_special sum_components
    balanced_special finish from_components from_default quantize
normalize-sample = refl

normalize-negative : normalize (record sample { hra = some (negsuc 0) }) ≡ err (negative "hra")
unfolding normalize first_negative
normalize-negative = refl

-- A stated gross that the components do not add up to is taken as it is if a special allowance is
-- given beside it.
normalize-mismatch :
    normalize (record sample { special_allowance = some (pos (rupees 1_000)) })
    ≡ ok (record sample_normalized { special_allowance = rupees 1_000 })
unfolding normalize first_negative to_amount is_given stated_gross without_special sum_components
    balanced_special finish from_components from_default quantize
normalize-mismatch = refl

normalize-is_ok_example : is_ok (normalize sample) ≡ (no_negative sample && has_amount sample)
normalize-is_ok_example = normalize-is_ok sample

sample-no_special : to_amount sample.special_allowance ≡ 0
unfolding to_amount
sample-no_special = refl

abbrev pf_input : PfCalculationInput
pf_input = record {
  pf_wage_base_monthly = rupees 50_000;
  is_pf_applicable = true;
  opt_in_higher_wage = false;
}

calculate_pf-sample :
    ((calculate_pf pf_input seeded_pf).monthly_employee_epf ≡ rupees 1_800)
    × ((calculate_pf pf_input seeded_pf).monthly_employer_eps ≡ 124_950)
unfolding calculate_pf quantize
calculate_pf-sample = (refl, refl)

seeded_pt-Capped_example : All (Capped (rupees 60_000) male) seeded_pt
seeded_pt-Capped_example = seeded_pt-Capped (rupees 60_000) male

abbrev seeded_database : Database
seeded_database = record {
  tax_versions = seeded;
  pf_versions =
      record { version_code = "PFRV-2025-26-v1"; status = "ACTIVE"; rules = seeded_pf ∷ [] } ∷ [];
  states = record { code = "KA"; name = "Karnataka" } ∷ [];
  pt_versions = seeded_pt;
}

calculate_salary-IsSound_example : IsSound (calculate_salary seeded_database sample new "KA" 30)
calculate_salary-IsSound_example = calculate_salary-IsSound seeded_database sample new "KA" 30

-- The finished calculation of the sample under the rules that the database finds.
abbrev calculation_of : TaxRegime → TaxRuleVersion → VerifiedCalculation
calculation_of regime v =
    calculation sample regime "KA" 30 sample_normalized (rule_set "2025-26" regime v) seeded_pf
      (record {
        state_code = "KA";
        state_name = "Karnataka";
        rule_version_code = karnataka.version_code;
        slabs = karnataka.slabs;
      })

abbrev old_result : VerifiedCalculation
old_result = calculation_of old (old_version "TRV-2025-26-OLD-v1" "2025-26")

abbrev new_result : VerifiedCalculation
new_result = calculation_of new (new_version "TRV-2025-26-NEW-v1" "2025-26")

calculate_salary-old : calculate_salary seeded_database sample old "KA" 30 ≡ done old_result
unfolding calculate_salary with_normalized with_rules get_tax_rule_set get_pf_rule_set
    get_pt_rule_set
calculate_salary-old = rw normalize-sample (compute-done sample old "KA" 30 _ _ _ _)

calculate_salary-new : calculate_salary seeded_database sample new "KA" 30 ≡ done new_result
unfolding calculate_salary with_normalized with_rules get_tax_rule_set get_pf_rule_set
    get_pt_rule_set
calculate_salary-new = rw normalize-sample (compute-done sample new "KA" 30 _ _ _ _)

compare_regimes-sample :
    compare_regimes seeded_database sample "KA" 30 ≡ some (comparison old_result new_result)
unfolding compare_regimes compared
compare_regimes-sample = rw (calculate_salary-old, calculate_salary-new) refl

calculate_salary-is_done_example : is_done (calculate_salary seeded_database sample new "KA" 30) ≡ (
    is_ok (normalize sample)
    && all_found
        (get_tax_rule_set seeded_database.tax_versions "2025-26" new)
        (get_pf_rule_set seeded_database.pf_versions "2025-26")
        (get_pt_rule_set seeded_database.states seeded_database.pt_versions "KA"))
calculate_salary-is_done_example = calculate_salary-is_done seeded_database sample new "KA" 30

compare_regimes-IsFair_example : IsFair (comparison old_result new_result)
compare_regimes-IsFair_example =
    compare_regimes-IsFair seeded_database sample "KA" 30 compare_regimes-sample

generate_monthly_schedule-pt_example :
    All
      (SumsToAnnual 2025 new_result 1_000_050 male)
      (karnataka ∷ telangana ∷ west_bengal ∷ gujarat ∷ [])
    × (total
          (λ r. r.professional_tax)
          (generate_monthly_schedule 2025 "MH" (with_pt new_result maharashtra 1_000_050 male))
        ≡ (if leb 1_000_100 1_000_050
            then (calculate_pt (pt_input "MH" 1_000_050 male) (rules_of maharashtra)).annual_pt
            else 11
                * (calculate_pt (pt_input "MH" 1_000_050 male) (rules_of maharashtra)).monthly_pt
              + 30_000))
generate_monthly_schedule-pt_example = generate_monthly_schedule-pt 2025 new_result 1_000_050 male

-- Nobody pays in Maharashtra below 7,500 rupees a month, but February's paycheck takes 300 rupees.
february_of_exempt : pt_amount "MH" "Feb" 0 ≡ 30_000
unfolding pt_amount
february_of_exempt = refl
