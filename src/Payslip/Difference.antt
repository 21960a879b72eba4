-- ===== src/Payslip/Difference.antt =====
-- The data of backend/app/engine/payslip/reconciliation_engine.py and its two comparisons of one field.
use smart_salary_india.Base.{ℕ, ◌+◌, Bool, Option, none, some, List, if◌then◌else◌}
use smart_salary_india.Base.Int.{ℤ, ltb_ℤ}
use smart_salary_india.Payslip.Tolerance.{
  Field, employee_epf, Evaluation, exact, tolerable_rounding, critical_mismatch,
}

-- The fields of ExtractedPayslipDTO that are read here.
pub record ExtractedPayslip : Type 0 where
  pub gross_earnings : ℤ
  pub basic : ℤ
  pub hra : ℤ
  pub employee_epf : ℤ
  pub professional_tax : ℤ
  pub tds : ℤ
  pub total_deductions : ℤ
  pub net_pay : ℤ
  pub formula_verified : Bool

-- The fields of ExpectedPayrollDTO that are read here.
pub record ExpectedPayroll : Type 0 where
  pub gross_earnings : ℤ
  pub basic : ℤ
  pub hra : ℤ
  pub employee_epf : ℤ
  pub professional_tax : ℤ
  pub tds : ℤ
  pub total_deductions : ℤ
  pub net_pay : ℤ

-- The fields of StatutoryExpectationDTO that are read here.
pub record StatutoryExpectation : Type 0 where
  pub monthly_gross : ℤ
  pub monthly_epf : ℤ
  pub monthly_pt : ℤ
  pub monthly_tds_projected : ℤ

-- DiscrepancyCode, as far as the engine assigns it; a mismatch carries its field.
pub data Code : Type 0 where
  payroll_reference_missing statutory_reference_missing document_formula_mismatch : Code
  pf_under_deduction pf_over_deduction rounding_variance : Code
  mismatch : Field → Code

pub data FieldStatus : Type 0 where
  matched warning critical : FieldStatus

pub record FieldReconciliationItem : Type 0 where
  pub field_name : Field
  pub document_value : ℤ
  pub payroll_value : Option ℤ
  pub statutory_value : Option ℤ
  pub delta_document_vs_payroll : ℕ
  pub delta_document_vs_statutory : Option ℕ
  pub status : FieldStatus
  pub discrepancy_code : Option Code

pub data OverallStatus : Type 0 where
  all_matched discrepancy_warning discrepancy_critical unreconciled : OverallStatus

pub record ReconciliationResult : Type 0 where
  pub reconciliation_status : OverallStatus
  pub total_discrepancies : ℕ
  pub critical_discrepancies : ℕ
  pub warning_discrepancies : ℕ
  pub has_payroll_reference : Bool
  pub has_statutory_reference : Bool
  pub formula_verified : Bool
  pub items : List FieldReconciliationItem
  pub discrepancy_codes : List Code

-- What one pass of the loop finds: the status, the code and what it adds to the two counts.
pub record Finding : Type 0 where
  pub status : FieldStatus
  pub code : Option Code
  pub criticals : ℕ
  pub warnings : ℕ

-- The code of a critical difference from the payroll.
abbrev pub payroll_code : Field → ℤ → ℤ → Code
payroll_code employee_epf doc pay = if ltb_ℤ doc pay then pf_under_deduction else pf_over_deduction
payroll_code field doc pay = mismatch field

-- A versus B: document and payroll.
unfoldable pub against_payroll : Field → ℤ → ℤ → Evaluation → Finding
against_payroll field doc pay exact = record {
  status = matched;
  code = none;
  criticals = 0;
  warnings = 0;
}
against_payroll field doc pay tolerable_rounding = record {
  status = warning;
  code = some rounding_variance;
  criticals = 0;
  warnings = 1;
}
against_payroll field doc pay critical_mismatch = record {
  status = critical;
  code = some (payroll_code field doc pay);
  criticals = 1;
  warnings = 0;
}

-- `assigned_code or code`
abbrev pub or_code : Option Code → Code → Option Code
or_code none c = some c
or_code (some a) c = some a

-- A versus C: document and statutory engine, after the payroll's finding.
unfoldable pub against_statutory : Field → Finding → Evaluation → Finding
against_statutory field f exact = f
against_statutory field f tolerable_rounding = elim f.status [
  | matched ↦ record f {
    status = warning;
    code = or_code f.code rounding_variance;
    warnings = f.warnings + 1;
  }
  | _ ↦ f
]
against_statutory field f critical_mismatch = elim f.status [
  | critical ↦ record f { code = or_code f.code (mismatch field) }
  | _ ↦ record f {
    status = critical;
    code = or_code f.code (mismatch field);
    criticals = f.criticals + 1;
  }
]
