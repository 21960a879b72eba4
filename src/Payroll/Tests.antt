-- ===== src/Payroll/Tests.antt =====
-- Runs of the payroll of backend/app/services/payroll_service.py: one employee of Karnataka with
-- twelve lakh rupees a year, and one without a salary record.
use Prim.Native.String.{String}
use smart_salary_india.Base.{ℕ, ◌≡◌, refl, none, some, List, map, [], ◌∷◌, ◌++◌, false}
use smart_salary_india.Money.{quantize}
use smart_salary_india.Compensation.{SalaryRecord}
use smart_salary_india.Compensation.Ranges.{covers}
use smart_salary_india.Tax.Rules.{new}
use smart_salary_india.Seeds.TaxRules.{rupees, seeded, new_version}
use smart_salary_india.Seeds.{get_tax_rule_set, rule_set}
use smart_salary_india.Salary.Normalizer.{
  NormalizedSalary, ok, normalize, first_negative, to_amount, is_given, stated_gross,
  without_special, sum_components, balanced_special, finish, from_components, from_default,
}
use smart_salary_india.Salary.Pf.Bounds.{seeded_pf}
use smart_salary_india.Salary.Pt.Seeds.{karnataka, seeded_pt, get_pt_rule_set}
use smart_salary_india.Salary.Service.{
  Database, VerifiedCalculation, calculation, calculate_salary, done, with_normalized, with_rules,
  get_pf_rule_set, pt_state_unknown,
}
use smart_salary_india.Salary.Service.Finish.{compute-done}
use smart_salary_india.Payroll.{
  PayrollPeriod, PayrollTotals, PayrollRun, PayrollRunItem, PayrollTables, calculated, rejected,
  period_closed, salary_input, item_for, add_to, no_totals, new_run, completed,
  calculate_payroll_run, on_period, on_run, execute, prepare, employee_loop, payslip_of, slip_of,
  active_comp, advance, conclude_run, persist, calculations_of, stored_of, store_then,
  StoredCalculation, half_even, abort, calculation_failed, first,
}
use smart_salary_india.Payroll.Runs.{IsSettled, calculate_payroll_run-IsSettled}
use smart_salary_india.Payroll.Again.{calculate_payroll_run-again}

abbrev rules : Database
rules = record {
  tax_versions = seeded;
  pf_versions =
      record { version_code = "PFRV-2025-26-v1"; status = "ACTIVE"; rules = seeded_pf ∷ [] } ∷ [];
  states = record { code = "KA"; name = "Karnataka" } ∷ [];
  pt_versions = seeded_pt;
}

abbrev input_hash : ℕ → String → ℕ → ℕ → String
input_hash organization_id period version count = period

abbrev result_hash : PayrollTotals → List PayrollRunItem → String
result_hash totals items = "result"

abbrev period : PayrollPeriod
period = record {
  id = 3;
  organization_id = 1;
  financial_year = "2025-26";
  period_code = "2025-04";
  pay_date = 20_250_430;
  status = "OPEN";
}

abbrev tables : PayrollTables
tables = record {
  employees =
      record {
        id = 7;
        organization_id = some 1;
        employment_status = "ACTIVE";
        state_code = some "KA";
      }
      ∷ record { id = 8; organization_id = some 1; employment_status = "ACTIVE"; state_code = none }
      ∷ [];
  salaries =
      record {
        id = 1;
        employee_id = 7;
        effective_from = 20_250_401;
        effective_to = none;
        annual_ctc = rupees 1_200_000;
        monthly_gross = rupees 100_000;
      }
      ∷ [];
  periods = period ∷ [];
  runs = [];
  items = [];
  calculations = [];
  next_run = 1;
}

abbrev normalized : NormalizedSalary
normalized = record {
  annual_gross = rupees 1_200_000;
  basic_salary = rupees 600_000;
  da = 0;
  hra = rupees 240_000;
  special_allowance = rupees 360_000;
  bonus = 0;
  other_allowances = 0;
  other_employee_deductions = 0;
  monthly_gross = rupees 100_000;
  pf_wage_base_monthly = rupees 50_000;
  annual_ctc = none;
}

normalize_input : normalize (salary_input (rupees 1_200_000) "2025-26") ≡ ok normalized
unfolding normalize first_negative to_amount is_given stated_gross without_special sum_components
    balanced_special finish from_components from_default quantize
normalize_input = refl

abbrev monthly : VerifiedCalculation
monthly =
    calculation (salary_input (rupees 1_200_000) "2025-26") new "KA" 25 normalized
      (rule_set "2025-26" new (new_version "TRV-2025-26-NEW-v1" "2025-26")) seeded_pf
      (record {
        state_code = "KA";
        state_name = "Karnataka";
        rule_version_code = karnataka.version_code;
        slabs = karnataka.slabs;
      })

calculation_done :
    calculate_salary rules (salary_input (rupees 1_200_000) "2025-26") new "KA" 25 ≡ done monthly
unfolding calculate_salary with_normalized with_rules get_tax_rule_set get_pf_rule_set
    get_pt_rule_set
calculation_done = rw normalize_input (compute-done _ new "KA" 25 _ _ _ _)

abbrev item : PayrollRunItem
item = item_for 1 7 (rupees 100_000) monthly

abbrev april : PayrollRun
april =
    completed rules input_hash result_hash period (new_run 1 1 3 1 none) 2 (add_to no_totals item)
      (item ∷ [])

april_calculated :
    (calculate_payroll_run rules input_hash result_hash 1 3 1 none tables).0 ≡ calculated april
unfolding calculate_payroll_run on_period on_run execute prepare employee_loop payslip_of slip_of
    active_comp advance conclude_run new_run completed persist calculations_of stored_of store_then
april_calculated = rw calculation_done refl

-- A closed period is not calculated.
closed_period :
    (calculate_payroll_run rules input_hash result_hash 1 3 1 none
      (record tables { periods = record period { status = "CLOSED" } ∷ [] })).0
    ≡ rejected period_closed
unfolding calculate_payroll_run on_period
closed_period = refl

calculate_payroll_run-IsSettled_example :
    IsSettled april (calculate_payroll_run rules input_hash result_hash 1 3 1 none tables).1
calculate_payroll_run-IsSettled_example =
    calculate_payroll_run-IsSettled rules input_hash result_hash 1 3 1 none tables tt
      april_calculated

calculate_payroll_run-again_example :
    let first = calculate_payroll_run rules input_hash result_hash 1 3 1 none tables in
    (rows : List StoredCalculation) × (first.1.calculations ≡ tables.calculations ++ rows)
    × (calculate_payroll_run rules input_hash result_hash 1 3 1 (some 5) first.1
        ≡ (first.0, record first.1 { calculations = first.1.calculations ++ rows }))
calculate_payroll_run-again_example =
    calculate_payroll_run-again rules input_hash result_hash 1 3 1 none (some 5) tables tt
      april_calculated

-- Employee 8 works in a state that the rules do not know.
abbrev tables_with_stranger : PayrollTables
tables_with_stranger = record tables {
  employees =
      record {
        id = 7;
        organization_id = some 1;
        employment_status = "ACTIVE";
        state_code = some "KA";
      }
      ∷ record {
        id = 8;
        organization_id = some 1;
        employment_status = "ACTIVE";
        state_code = some "XX";
      }
      ∷ [];
  salaries =
      record {
        id = 1;
        employee_id = 7;
        effective_from = 20_250_401;
        effective_to = none;
        annual_ctc = rupees 1_200_000;
        monthly_gross = rupees 100_000;
      }
      ∷ record {
        id = 2;
        employee_id = 8;
        effective_from = 20_250_401;
        effective_to = none;
        annual_ctc = rupees 1_200_000;
        monthly_gross = rupees 100_000;
      }
      ∷ [];
}

stranger_refused :
    calculate_salary rules (salary_input (rupees 1_200_000) "2025-26") new "XX" 25
    ≡ pt_state_unknown
unfolding calculate_salary with_normalized with_rules get_tax_rule_set get_pf_rule_set
    get_pt_rule_set
stranger_refused = rw normalize_input refl

-- The exception for employee 8 leaves a run that stays CALCULATING.
failed_run : calculate_payroll_run rules input_hash result_hash 1 3 1 none tables_with_stranger ≡ (
  rejected (calculation_failed pt_state_unknown),
  record tables_with_stranger {
    runs = new_run 1 1 3 1 none ∷ [];
    calculations = record { employee_id = 7; result = monthly } ∷ [];
    next_run = 2;
  },
)
unfolding calculate_payroll_run on_period on_run execute prepare employee_loop payslip_of slip_of
    active_comp advance conclude_run new_run completed persist calculations_of stored_of store_then
    abort
failed_run = rw (calculation_done, stranger_refused) refl

-- A record that ended before the pay date is still taken.
abbrev ended : List SalaryRecord
ended =
    record {
      id = 1;
      employee_id = 7;
      effective_from = 20_240_401;
      effective_to = some 20_250_331;
      annual_ctc = rupees 1_200_000;
      monthly_gross = rupees 100_000;
    }
    ∷ []

ended_comp : map (λ c. covers 7 20_250_430 c) ended ≡ false ∷ []
ended_comp = refl

ended_taken : active_comp ended 7 20_250_430 ≡ first ended
unfolding active_comp
ended_taken = refl

-- Five paise: the tie of the half goes to the even paisa.
half_of_five : (half_even 5 2 ≡ 2) × (half_even 7 2 ≡ 4) × (half_even 5 4 ≡ 1)
unfolding half_even
half_of_five = (refl, refl, refl)
