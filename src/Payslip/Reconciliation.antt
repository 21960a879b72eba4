-- ===== src/Payslip/Reconciliation.antt =====
-- backend/app/engine/payslip/reconciliation_engine.py. The texts of notes and of the summary, the
-- display names and the floating point score are left out.
use smart_salary_india.Base.{
  ℕ, ◌+◌, Bool, true, false, not, ◌&&◌, ◌||◌, Option, none, some, List, [], ◌∷◌, ◌++◌, ltb,
  if◌then◌else◌, any,
}
use smart_salary_india.Base.Int.{ℤ}
use smart_salary_india.Payslip.Tolerance.{
  Field, gross_earnings, basic, hra, employee_epf, professional_tax, tds, total_deductions, net_pay,
  evaluate_difference,
}
use smart_salary_india.Payslip.Difference.{
  ExtractedPayslip, ExpectedPayroll, StatutoryExpectation, Code, FieldReconciliationItem,
  OverallStatus, ReconciliationResult, Finding, against_payroll, against_statutory,
  payroll_reference_missing, statutory_reference_missing, document_formula_mismatch,
  pf_under_deduction, pf_over_deduction, rounding_variance, mismatch, matched, all_matched,
  discrepancy_warning, discrepancy_critical, unreconciled,
}

abbrev pub same_field : Field → Field → Bool
same_field gross_earnings gross_earnings = true
same_field basic basic = true
same_field hra hra = true
same_field employee_epf employee_epf = true
same_field professional_tax professional_tax = true
same_field tds tds = true
same_field total_deductions total_deductions = true
same_field net_pay net_pay = true
same_field _ _ = false

abbrev pub same_code : Code → Code → Bool
same_code payroll_reference_missing payroll_reference_missing = true
same_code statutory_reference_missing statutory_reference_missing = true
same_code document_formula_mismatch document_formula_mismatch = true
same_code pf_under_deduction pf_under_deduction = true
same_code pf_over_deduction pf_over_deduction = true
same_code rounding_variance rounding_variance = true
same_code (mismatch a) (mismatch b) = same_field a b
same_code _ _ = false

-- One row of `comparisons`.
pub record Comparison : Type 0 where
  pub field_name : Field
  pub doc_val : ℤ
  pub pay_val : Option ℤ
  pub stat_val : Option ℤ

abbrev row :
    {A B : Type 0} → Field → ℤ → (A → ℤ) → Option A → Option (B → ℤ) → Option B → Comparison
row field doc pay payroll stat statutory = record {
  field_name = field;
  doc_val = doc;
  pay_val = elim payroll [ none ↦ none | some p ↦ some (pay p) ];
  stat_val = elim stat [
    | none ↦ none
    | some f ↦ elim statutory [ none ↦ none | some s ↦ some (f s) ]
  ];
}

-- `comparisons`
unfoldable pub comparisons :
    ExtractedPayslip → Option ExpectedPayroll → Option StatutoryExpectation → List Comparison
comparisons doc payroll statutory =
    row gross_earnings doc.gross_earnings (λ p. p.gross_earnings) payroll
      (some (λ s. s.monthly_gross)) statutory
    ∷ row basic doc.basic (λ p. p.basic) payroll none statutory
    ∷ row hra doc.hra (λ p. p.hra) payroll none statutory
    ∷ row employee_epf doc.employee_epf (λ p. p.employee_epf) payroll (some (λ s. s.monthly_epf))
        statutory
    ∷ row professional_tax doc.professional_tax (λ p. p.professional_tax) payroll
        (some (λ s. s.monthly_pt)) statutory
    ∷ row tds doc.tds (λ p. p.tds) payroll (some (λ s. s.monthly_tds_projected)) statutory
    ∷ row total_deductions doc.total_deductions (λ p. p.total_deductions) payroll none statutory
    ∷ row net_pay doc.net_pay (λ p. p.net_pay) payroll none statutory
    ∷ []

unfoldable pub compare_payroll : Field → ℤ → Option ℤ → Finding
compare_payroll field doc none = record {
  status = matched;
  code = none;
  criticals = 0;
  warnings = 0;
}
compare_payroll field doc (some pay) =
    against_payroll field doc pay (evaluate_difference field doc pay).0

unfoldable pub compare_statutory : Field → ℤ → Finding → Option ℤ → Finding
compare_statutory field doc f none = f
compare_statutory field doc f (some stat) =
    against_statutory field f (evaluate_difference field doc stat).0

-- Both comparisons of a field, in the order of the loop's body.
unfoldable pub find_difference : Comparison → Finding
find_difference c =
    compare_statutory c.field_name c.doc_val (compare_payroll c.field_name c.doc_val c.pay_val)
      c.stat_val

unfoldable pub item_of : Comparison → FieldReconciliationItem
item_of c = record {
  field_name = c.field_name;
  document_value = c.doc_val;
  payroll_value = c.pay_val;
  statutory_value = c.stat_val;
  delta_document_vs_payroll = elim c.pay_val [
    | none ↦ 0
    | some pay ↦ (evaluate_difference c.field_name c.doc_val pay).1
  ];
  delta_document_vs_statutory = elim c.stat_val [
    | none ↦ none
    | some stat ↦ some (evaluate_difference c.field_name c.doc_val stat).1
  ];
  status = (find_difference c).status;
  discrepancy_code = (find_difference c).code;
}

-- `if assigned_code and assigned_code not in codes: codes.append(assigned_code)`
unfoldable pub add_code : Option Code → List Code → List Code
add_code none codes = codes
add_code (some c) codes = if any (same_code c) codes then codes else codes ++ (c ∷ [])

-- The loop's variables.
pub record Progress : Type 0 where
  pub items : List FieldReconciliationItem
  pub codes : List Code
  pub critical_count : ℕ
  pub warning_count : ℕ

unfoldable pub loop : List Comparison → Progress → Progress
loop [] p = p
loop (c ∷ cs) p = loop cs (record {
  items = p.items ++ (item_of c ∷ []);
  codes = add_code (find_difference c).code p.codes;
  critical_count = p.critical_count + (find_difference c).criticals;
  warning_count = p.warning_count + (find_difference c).warnings;
})

abbrev pub is_some {ℓ} : {A : Type ℓ} → Option A → Bool
is_some none = false
is_some (some _) = true

abbrev pub code_unless : Bool → Code → List Code
code_unless true c = []
code_unless false c = c ∷ []

abbrev pub overall : ℕ → ℕ → Bool → Bool → Bool → OverallStatus
overall criticals warnings formula_verified has_payroll has_statutory =
    if ltb 0 criticals || not formula_verified
    then discrepancy_critical
    else if ltb 0 warnings
    then discrepancy_warning
    else if not has_payroll && not has_statutory
    then unreconciled
    else all_matched

-- The codes before the loop.
unfoldable pub first_codes : Bool → Bool → Bool → List Code
first_codes has_payroll has_statutory formula_verified =
    code_unless has_payroll payroll_reference_missing
    ++ code_unless has_statutory statutory_reference_missing
    ++ code_unless formula_verified document_formula_mismatch

-- `reconcile`
unfoldable pub reconcile :
    ExtractedPayslip → Option ExpectedPayroll → Option StatutoryExpectation → ReconciliationResult
reconcile doc payroll statutory =
    let p = loop (comparisons doc payroll statutory) (record {
      items = [];
      codes = first_codes (is_some payroll) (is_some statutory) doc.formula_verified;
      critical_count = 0;
      warning_count = 0;
    }) in
    record {
      reconciliation_status =
          overall p.critical_count p.warning_count doc.formula_verified (is_some payroll)
            (is_some statutory);
      total_discrepancies = p.critical_count + p.warning_count;
      critical_discrepancies = p.critical_count;
      warning_discrepancies = p.warning_count;
      has_payroll_reference = is_some payroll;
      has_statutory_reference = is_some statutory;
      formula_verified = doc.formula_verified;
      items = p.items;
      discrepancy_codes = p.codes;
    }
