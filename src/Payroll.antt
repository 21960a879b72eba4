-- ===== src/Payroll.antt =====
-- backend/app/services/payroll_service.py over the rows of payroll_periods, payroll_runs and
-- payroll_run_items (backend/app/models/payroll.py), employees and salary_records. The amounts of a
-- salary record are not negative. The two hashes are parameters; the id of an item, its links to the
-- rows of its calculation, and the columns that no run sets are left out. What the persistence of a
-- calculation adds to calculation_runs and to the tables of its snapshot, line items and traces is
-- one row of `calculations`, without the ids. The persistence of a calculation (backend/app/repositories/calculation_repository.py) commits the
-- session, and with it the items added before: a run that fails later on keeps them.
pub mod Sums
pub mod Items
pub mod Runs
pub mod Again
pub mod Tests
use Prim.Native.String.{String}
use text.Mathlib.Text.{◌==◌ as str_eq}
use smart_salary_india.Base.{
  ℕ, suc, ◌+◌, ◌*◌, ◌/◌, ◌%◌, ◌==◌, Bool, true, false, not, ◌&&◌, ◌||◌, Option, none, some, List,
  [], ◌∷◌, ◌++◌, leb, ltb, if◌then◌else◌, find?, filter, update, length, sorted_desc,
}
use smart_salary_india.Base.Int.{ℤ, pos, ◌-ℤ◌, ◌+ℤ◌}
use smart_salary_india.Compensation.{SalaryRecord}
use smart_salary_india.Tax.Rules.{TaxRegime, new}
use smart_salary_india.Salary.Normalizer.{SalaryInput}
use smart_salary_india.Salary.Service.{
  Database, Outcome, VerifiedCalculation, done, calculate_salary,
}

pub record Employee : Type 0 where
  pub id : ℕ
  pub organization_id : Option ℕ
  pub employment_status : String
  pub state_code : Option String

pub record PayrollPeriod : Type 0 where
  pub id : ℕ
  pub organization_id : ℕ
  pub financial_year : String
  pub period_code : String
  pub pay_date : ℕ
  pub status : String

-- The eight totals of a run.
pub record PayrollTotals : Type 0 where
  pub gross_earnings : ℕ
  pub employee_deductions : ℕ
  pub tax_tds : ℕ
  pub employee_pf : ℕ
  pub employer_pf : ℕ
  pub pt : ℕ
  pub net_pay : ℤ
  pub employer_cost : ℕ

pub record PayrollRun : Type 0 where
  pub id : ℕ
  pub organization_id : ℕ
  pub payroll_period_id : ℕ
  pub run_version : ℕ
  pub status : String
  pub totals : PayrollTotals
  pub input_hash : String
  pub result_hash : String
  pub created_by : Option ℕ

pub record PayrollRunItem : Type 0 where
  pub payroll_run_id : ℕ
  pub employee_id : ℕ
  pub monthly_gross : ℕ
  pub basic_salary : ℕ
  pub hra : ℕ
  pub special_allowance : ℤ
  pub employee_pf : ℕ
  pub professional_tax : ℕ
  pub tds_deducted : ℕ
  pub total_employee_deductions : ℕ
  pub net_pay : ℤ
  pub employer_pf : ℕ
  pub employer_cost : ℕ

-- What the persistence of a calculation stores.
pub record StoredCalculation : Type 0 where
  pub employee_id : ℕ
  pub result : VerifiedCalculation

pub record PayrollTables : Type 0 where
  pub employees : List Employee
  pub salaries : List SalaryRecord
  pub periods : List PayrollPeriod
  pub runs : List PayrollRun
  pub items : List PayrollRunItem
  pub calculations : List StoredCalculation
  pub next_run : ℕ

pub data PayrollError : Type 0 where
  period_not_found period_closed run_locked : PayrollError
  calculation_failed : Outcome → PayrollError

pub data PayrollResult : Type 0 where
  calculated : PayrollRun → PayrollResult
  rejected : PayrollError → PayrollResult

abbrev pub no_totals : PayrollTotals
no_totals = record {
  gross_earnings = 0;
  employee_deductions = 0;
  tax_tds = 0;
  employee_pf = 0;
  employer_pf = 0;
  pt = 0;
  net_pay = pos 0;
  employer_cost = 0;
}

-- `quantize(Decimal("0.01"))` of n / d paise: the context rounds a tie to the even paisa.
unfoldable pub half_even : ℕ → ℕ → ℕ
half_even n d =
    let q = n / d in
    let twice = 2 * (n % d) in
    if ltb twice d then q else if ltb d twice then suc q else if (q % 2) == 0 then q else suc q

-- The query of the employees of a run.
abbrev pub is_active_of : ℕ → Employee → Bool
is_active_of organization_id e =
    (elim e.organization_id [ none ↦ false | some o ↦ o == organization_id ])
    && str_eq e.employment_status "ACTIVE"

abbrev pub first {ℓ} : {A : Type ℓ} → List A → Option A
first [] = none
first (x ∷ xs) = some x

-- The salary record of an employee on the pay date, the latest one first.
unfoldable pub active_comp : List SalaryRecord → ℕ → ℕ → Option SalaryRecord
active_comp salaries employee_id pay_date = first (
    sorted_desc (λ s. s.effective_from)
      (filter (λ s. s.employee_id == employee_id && leb s.effective_from pay_date) salaries))

-- `emp.state.code if emp.state else "KA"`
abbrev pub state_or_ka : Option String → String
state_or_ka none = "KA"
state_or_ka (some code) = code

-- `SalaryInput(annual_gross=annual_ctc, financial_year=...)`
abbrev pub salary_input : ℕ → String → SalaryInput
salary_input annual_ctc financial_year = record {
  financial_year = financial_year;
  annual_ctc = none;
  annual_gross = some (pos annual_ctc);
  monthly_gross = none;
  basic_salary = none;
  da = none;
  hra = none;
  special_allowance = none;
  bonus = none;
  other_allowances = none;
  other_employee_deductions = none;
  pf_opt_in_higher_wage = false;
}

-- The line item of an employee from the calculation's monthly amounts.
unfoldable pub item_for : ℕ → ℕ → ℕ → VerifiedCalculation → PayrollRunItem
item_for run_id employee_id monthly_gross c =
    let basic = half_even monthly_gross 2 in
    let hra = half_even monthly_gross 4 in
    let emp_ded = c.pf.monthly_employee_epf + c.pt.monthly_pt + c.tax.estimated_monthly_tax in
    record {
      payroll_run_id = run_id;
      employee_id = employee_id;
      monthly_gross = monthly_gross;
      basic_salary = basic;
      hra = hra;
      special_allowance = pos monthly_gross -ℤ pos basic -ℤ pos hra;
      employee_pf = c.pf.monthly_employee_epf;
      professional_tax = c.pt.monthly_pt;
      tds_deducted = c.tax.estimated_monthly_tax;
      total_employee_deductions = emp_ded;
      net_pay = pos monthly_gross -ℤ pos emp_ded;
      employer_pf = c.pf.total_monthly_employer_contribution;
      employer_cost = monthly_gross + c.pf.total_monthly_employer_contribution;
    }

-- The `tot_... +=` of an item.
unfoldable pub add_to : PayrollTotals → PayrollRunItem → PayrollTotals
add_to t i = record {
  gross_earnings = t.gross_earnings + i.monthly_gross;
  employee_deductions = t.employee_deductions + i.total_employee_deductions;
  tax_tds = t.tax_tds + i.tds_deducted;
  employee_pf = t.employee_pf + i.employee_pf;
  employer_pf = t.employer_pf + i.employer_pf;
  pt = t.pt + i.professional_tax;
  net_pay = t.net_pay +ℤ i.net_pay;
  employer_cost = t.employer_cost + i.employer_cost;
}

-- What the body of the loop makes of an employee: nothing without a salary record, an item, or the
-- exception of the calculation.
pub data EmployeeSlip : Type 0 where
  skipped : EmployeeSlip
  payslip : PayrollRunItem → EmployeeSlip
  stopped : Outcome → EmployeeSlip

-- The loop over the employees: the totals and items so far, and the items of the last commit, if
-- there was one; or the exception with that commit.
pub data LoopState : Type 0 where
  running : PayrollTotals → List PayrollRunItem → Option (List PayrollRunItem) → LoopState
  failed : Outcome → Option (List PayrollRunItem) → LoopState

-- A calculation commits what the session holds, and its item is added after that.
unfoldable pub advance : LoopState → EmployeeSlip → LoopState
advance (failed error committed) slip = failed error committed
advance (running totals items committed) skipped = running totals items committed
advance (running totals items committed) (payslip i) =
    running (add_to totals i) (items ++ (i ∷ [])) (some items)
advance (running totals items committed) (stopped error) = failed error committed

abbrev pub is_period : ℕ → ℕ → PayrollPeriod → Bool
is_period i organization_id p = p.id == i && p.organization_id == organization_id

-- The key of the unique constraint.
abbrev pub is_run : ℕ → ℕ → ℕ → PayrollRun → Bool
is_run organization_id period_id version r =
    r.organization_id == organization_id
    && r.payroll_period_id == period_id
    && r.run_version == version

abbrev pub is_closed_period : PayrollPeriod → Bool
is_closed_period p = str_eq p.status "LOCKED" || str_eq p.status "CLOSED"

abbrev pub is_item_of : ℕ → PayrollRunItem → Bool
is_item_of i item = item.payroll_run_id == i

abbrev pub put_run : PayrollRun → List PayrollRun → List PayrollRun
put_run r = update (λ x. x.id == r.id) λ _. r

abbrev pub put_period : PayrollPeriod → List PayrollPeriod → List PayrollPeriod
put_period p = update (λ x. x.id == p.id) λ _. p

-- A run that the service adds.
unfoldable pub new_run : ℕ → ℕ → ℕ → ℕ → Option ℕ → PayrollRun
new_run i organization_id period_id version created_by = record {
  id = i;
  organization_id = organization_id;
  payroll_period_id = period_id;
  run_version = version;
  status = "CALCULATING";
  totals = no_totals;
  input_hash = "PENDING";
  result_hash = "PENDING";
  created_by = created_by;
}

-- The tables with the run cleared of its items, or with the new run.
unfoldable pub prepare : Option PayrollRun → PayrollRun → PayrollTables → PayrollTables
prepare none fresh db = record db { runs = db.runs ++ (fresh ∷ []); next_run = suc db.next_run }
prepare (some r) fresh db = record db { items = filter (λ i. not (is_item_of r.id i)) db.items }

abbrev pub run_or : Option PayrollRun → PayrollRun → PayrollRun
run_or none fresh = fresh
run_or (some r) fresh = r

abbrev pub is_locked : Option PayrollRun → Bool
is_locked none = false
is_locked (some r) = str_eq r.status "LOCKED"

-- What an exception leaves: the tables before the request, or what the last commit stored.
unfoldable pub abort : Option (List PayrollRunItem) → PayrollTables → PayrollTables → PayrollTables
abort none before prepared = before
abort (some items) before prepared = record prepared { items = prepared.items ++ items }

-- The rules of the calculation and the two hashes of a run are parameters of the service.
module _ (rules : Database) (input_hash : ℕ → String → ℕ → ℕ → String)
    (result_hash : PayrollTotals → List PayrollRunItem → String) where
  -- The item from the authoritative calculation of an employee, unless it raised.
  unfoldable pub slip_of : ℕ → Employee → SalaryRecord → Outcome → EmployeeSlip
  slip_of run_id e s (done c) = payslip (item_for run_id e.id s.monthly_gross c)
  slip_of run_id e s error = stopped error

  unfoldable pub payslip_of : String → ℕ → Employee → Option SalaryRecord → EmployeeSlip
  payslip_of financial_year run_id e none = skipped
  payslip_of financial_year run_id e (some s) = slip_of run_id e s (
      calculate_salary rules (salary_input s.annual_ctc financial_year) new
        (state_or_ka e.state_code) 25)

  -- The loop over the employees, for a financial year and a pay date.
  unfoldable pub employee_loop :
      String → ℕ → ℕ → List SalaryRecord → List Employee → LoopState → LoopState
  employee_loop financial_year pay_date run_id salaries [] progress = progress
  employee_loop financial_year pay_date run_id salaries (e ∷ es) progress =
      employee_loop financial_year pay_date run_id salaries es
        (advance progress (payslip_of financial_year run_id e (active_comp salaries e.id pay_date)))

  -- The calculation of an employee is stored before the ones that follow; an exception ends them.
  unfoldable pub store_then : ℕ → Outcome → List StoredCalculation → List StoredCalculation
  store_then i (done c) rest = record { employee_id = i; result = c } ∷ rest
  store_then i error rest = []

  unfoldable pub stored_of :
      String → Employee → Option SalaryRecord → List StoredCalculation → List StoredCalculation
  stored_of financial_year e none rest = rest
  stored_of financial_year e (some s) rest =
      store_then e.id
        (calculate_salary rules (salary_input s.annual_ctc financial_year) new
          (state_or_ka e.state_code) 25)
        rest

  -- What the loop over the employees stores.
  unfoldable pub calculations_of :
      String → ℕ → List SalaryRecord → List Employee → List StoredCalculation
  calculations_of financial_year pay_date salaries [] = []
  calculations_of financial_year pay_date salaries (e ∷ es) =
      stored_of financial_year e (active_comp salaries e.id pay_date)
        (calculations_of financial_year pay_date salaries es)

  unfoldable pub persist :
      PayrollPeriod → List SalaryRecord → List Employee → PayrollTables → PayrollTables
  persist p salaries employees db = record db {
    calculations =
        db.calculations ++ calculations_of p.financial_year p.pay_date salaries employees;
  }

  -- The run with its totals and hashes.
  unfoldable pub completed :
      PayrollPeriod → PayrollRun → ℕ → PayrollTotals → List PayrollRunItem → PayrollRun
  completed p r count totals items = record r {
    totals = totals;
    input_hash = input_hash r.organization_id p.period_code r.run_version count;
    result_hash = result_hash totals items;
    status = "CALCULATED";
  }

  -- The end of a request, from the loop on.
  unfoldable pub conclude_run :
      PayrollPeriod
      → PayrollRun
      → ℕ
      → PayrollTables
      → PayrollTables
      → LoopState
      → PayrollResult × PayrollTables
  conclude_run p r count before prepared (failed error committed) =
      (rejected (calculation_failed error), abort committed before prepared)
  conclude_run p r count before prepared (running totals items committed) =
      let r' = completed p r count totals items in
      (
        calculated r',
        record prepared {
          runs = put_run r' prepared.runs;
          items = prepared.items ++ items;
          periods = put_period (record p { status = "CALCULATED" }) prepared.periods;
        },
      )

  -- The run of the key once the guards have passed.
  unfoldable pub execute :
      PayrollPeriod → Option PayrollRun → PayrollRun → PayrollTables → PayrollResult × PayrollTables
  execute p o fresh db =
      let r = run_or o fresh in
      let employees = filter (is_active_of r.organization_id) db.employees in
      let prepared = persist p db.salaries employees (prepare o fresh db) in
      conclude_run p r (length employees) db prepared (
        employee_loop p.financial_year p.pay_date r.id db.salaries employees
          (running no_totals [] none))

  unfoldable pub on_run :
      PayrollPeriod → Option PayrollRun → PayrollRun → PayrollTables → PayrollResult × PayrollTables
  on_run p o fresh db = if is_locked o then (rejected run_locked, db) else execute p o fresh db

  unfoldable pub on_period :
      ℕ → ℕ → Option ℕ → Option PayrollPeriod → PayrollTables → PayrollResult × PayrollTables
  on_period organization_id version created_by none db = (rejected period_not_found, db)
  on_period organization_id version created_by (some p) db =
      if is_closed_period p
      then (rejected period_closed, db)
      else on_run p (find? (is_run organization_id p.id version) db.runs)
          (new_run db.next_run organization_id p.id version created_by) db

  -- `calculate_payroll_run`
  unfoldable pub calculate_payroll_run :
      ℕ → ℕ → ℕ → Option ℕ → PayrollTables → PayrollResult × PayrollTables
  calculate_payroll_run organization_id period_id version created_by db =
      on_period organization_id version created_by
        (find? (is_period period_id organization_id) db.periods) db
