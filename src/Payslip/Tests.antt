-- ===== src/Payslip/Tests.antt =====
-- Runs and examples of the payslip reconciliation.
use smart_salary_india.Base.{◌+◌, ◌≡◌, refl, true, some}
use smart_salary_india.Base.Int.{pos, ◌-ℤ◌}
use smart_salary_india.Payslip.Tolerance.{
  employee_epf, tds, tolerable_rounding, critical_mismatch, evaluate_difference, get_tolerance,
  judge,
}
use smart_salary_india.Payslip.Difference.{
  ExtractedPayslip, ExpectedPayroll, StatutoryExpectation, discrepancy_critical, against_payroll,
  against_statutory,
}
use smart_salary_india.Payslip.Reconciliation.{
  reconcile, loop, comparisons, item_of, find_difference, compare_payroll, compare_statutory,
}
use smart_salary_india.Payslip.Counts.{
  count, critical_item, rounding_item, different_item, upgraded_item, reconcile-counts,
}

-- The EPF of the payslip is half a rupee off the payroll's, and 300 rupees off the statutory one.
abbrev slip : ExtractedPayslip
slip = record {
  gross_earnings = pos 10_000_000;
  basic = pos 5_000_000;
  hra = pos 2_000_000;
  employee_epf = pos 180_050;
  professional_tax = pos 20_000;
  tds = pos 500_000;
  total_deductions = pos 700_050;
  net_pay = pos 9_299_950;
  formula_verified = true;
}

abbrev payroll : ExpectedPayroll
payroll = record {
  gross_earnings = pos 10_000_000;
  basic = pos 5_000_000;
  hra = pos 2_000_000;
  employee_epf = pos 180_000;
  professional_tax = pos 20_000;
  tds = pos 500_000;
  total_deductions = pos 700_050;
  net_pay = pos 9_299_950;
}

abbrev statutory : StatutoryExpectation
statutory = record {
  monthly_gross = pos 10_000_000;
  monthly_epf = pos 150_000;
  monthly_pt = pos 20_000;
  monthly_tds_projected = pos 500_000;
}

evaluate_difference-run :
    ((evaluate_difference tds (pos 502_000) (pos 500_000)).0 ≡ tolerable_rounding)
    × ((evaluate_difference tds (pos 503_000) (pos 500_000)).0 ≡ critical_mismatch)
    × ((evaluate_difference employee_epf (pos 180_101) (pos 180_000)).0 ≡ critical_mismatch)
unfolding evaluate_difference judge get_tolerance ◌-ℤ◌
evaluate_difference-run = (refl, refl, refl)

-- One field differs, and is counted as a warning and as critical.
reconcile-counted_twice :
    let r = reconcile slip (some payroll) (some statutory) in
    (r.reconciliation_status ≡ discrepancy_critical)
    × (r.total_discrepancies ≡ 2)
    × (count different_item r.items ≡ 1)
unfolding reconcile loop comparisons item_of find_difference compare_payroll compare_statutory
    against_payroll against_statutory evaluate_difference judge get_tolerance ◌-ℤ◌
reconcile-counted_twice = (refl, refl, refl)

reconcile-counts_example :
    let r = reconcile slip (some payroll) (some statutory) in
    (r.critical_discrepancies ≡ count critical_item r.items)
    × (r.warning_discrepancies ≡ count rounding_item r.items)
    × (r.total_discrepancies ≡ count different_item r.items + count upgraded_item r.items)
reconcile-counts_example = reconcile-counts slip (some payroll) (some statutory)
