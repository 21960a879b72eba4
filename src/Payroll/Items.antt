-- ===== src/Payroll/Items.antt =====
-- The loop over the employees of backend/app/services/payroll_service.py and a run that it finishes.
use Prim.Native.String.{String}
use smart_salary_india.Base.{ℕ, Option, none, some, List, [], ◌∷◌, All, append-All}
use smart_salary_india.Salary.Service.{
  Database, Outcome, done, invalid_input, tax_rule_not_found, pf_rule_not_found, pt_state_unknown,
  pt_not_configured, violated,
}
use smart_salary_india.Compensation.{SalaryRecord}
use smart_salary_india.Payroll.{
  Employee, PayrollTotals, PayrollRunItem, EmployeeSlip, skipped, payslip, stopped, LoopState,
  running, failed, advance, slip_of, payslip_of, employee_loop,
}
use smart_salary_india.Payroll.Sums.{
  IsSummed, TotalsBalanced, IsCanonical, add_to-IsSummed, add_to-TotalsBalanced,
  item_for-IsCanonical,
}

-- The totals so far are the sums, and every item so far is canonical.
abbrev pub IsGood : ℕ → PayrollTotals → List PayrollRunItem → Type 0
IsGood run_id t items = IsSummed t items × TotalsBalanced t × All (IsCanonical run_id) items

abbrev pub IsGoodProgress : ℕ → LoopState → Type 0
IsGoodProgress run_id (failed error committed) = Unit
IsGoodProgress run_id (running t items committed) = IsGood run_id t items

abbrev IsGoodSlip : ℕ → EmployeeSlip → Type 0
IsGoodSlip run_id (payslip i) = IsCanonical run_id i
IsGoodSlip run_id _ = Unit

advance-IsGood :
    (run_id : ℕ) (progress : LoopState) (slip : EmployeeSlip)
    → IsGoodProgress run_id progress
    → IsGoodSlip run_id slip
    → IsGoodProgress run_id (advance progress slip)
unfolding advance
advance-IsGood run_id (failed error committed) slip h k = tt
advance-IsGood run_id (running t items committed) skipped h k = h
advance-IsGood run_id (running t items committed) (payslip i) h k = (
  add_to-IsSummed t items i h.0,
  add_to-TotalsBalanced run_id t i k h.1,
  append-All (IsCanonical run_id) items i h.2 k,
)
advance-IsGood run_id (running t items committed) (stopped error) h k = tt

module _ (rules : Database) (input_hash : ℕ → String → ℕ → ℕ → String)
    (result_hash : PayrollTotals → List PayrollRunItem → String) where
  slip_of-IsGood :
      (run_id : ℕ) (e : Employee) (s : SalaryRecord) (o : Outcome)
      → IsGoodSlip run_id (slip_of rules input_hash result_hash run_id e s o)
  unfolding slip_of
  slip_of-IsGood run_id e s (done c) = item_for-IsCanonical run_id e.id s.monthly_gross c
  slip_of-IsGood run_id e s (invalid_input x) = tt
  slip_of-IsGood run_id e s tax_rule_not_found = tt
  slip_of-IsGood run_id e s pf_rule_not_found = tt
  slip_of-IsGood run_id e s pt_state_unknown = tt
  slip_of-IsGood run_id e s pt_not_configured = tt
  slip_of-IsGood run_id e s (violated v) = tt

  payslip_of-IsGood :
      (year : String) (run_id : ℕ) (e : Employee) (o : Option SalaryRecord)
      → IsGoodSlip run_id (payslip_of rules input_hash result_hash year run_id e o)
  unfolding payslip_of
  payslip_of-IsGood year run_id e none = tt
  payslip_of-IsGood year run_id e (some s) = slip_of-IsGood run_id e s _

  pub employee_loop-IsGood :
      (year : String) (pay_date run_id : ℕ) (salaries : List SalaryRecord) (es : List Employee)
      (progress : LoopState)
      → IsGoodProgress run_id progress
      → IsGoodProgress run_id
          (employee_loop rules input_hash result_hash year pay_date run_id salaries es progress)
  unfolding employee_loop
  employee_loop-IsGood year pay_date run_id salaries [] progress h = h
  employee_loop-IsGood year pay_date run_id salaries (e ∷ es) progress h =
      employee_loop-IsGood year pay_date run_id salaries es _
        (advance-IsGood run_id progress _ h (payslip_of-IsGood year run_id e _))
