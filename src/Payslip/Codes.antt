-- ===== src/Payslip/Codes.antt =====
-- The discrepancy codes and the verdict of backend/app/engine/payslip/reconciliation_engine.py.
use smart_salary_india.Base.{
  ℕ, ◌+◌, ◌≤◌, ◌≡◌, ◌≢◌, refl, ◌∙◌, any-append, Bool, true, false, ◌&&◌, ◌||◌, ◌==◌, Option, none,
  some, List, [], ◌∷◌, ◌++◌, arith, any, Bool-cases, inl, inr,
}
use smart_salary_india.Payslip.Tolerance.{Field}
use smart_salary_india.Payslip.Difference.{
  FieldReconciliationItem, Code, payroll_reference_missing, statutory_reference_missing,
  document_formula_mismatch, pf_under_deduction, pf_over_deduction, rounding_variance, mismatch,
  ExtractedPayslip, ExpectedPayroll, StatutoryExpectation, OverallStatus, all_matched,
}
use smart_salary_india.Payslip.Reconciliation.{
  Comparison, comparisons, find_difference, loop, Progress, reconcile, overall, is_some, same_field,
  same_code, add_code, first_codes,
}
use smart_salary_india.Payslip.Counts.{count, different_item, upgraded_item, reconcile-counts}

abbrev pub is_all_matched : OverallStatus → Bool
is_all_matched all_matched = true
is_all_matched _ = false

upgraded-le-different :
    (items : List FieldReconciliationItem) → count upgraded_item items ≤ count different_item items
upgraded-le-different [] = omega arith
upgraded-le-different (i ∷ items) = ground (arith, upgraded-le-different items)

overall-is_all_matched :
    (c w d u : ℕ) (f p s : Bool)
    → c + w ≡ d + u
    → u ≤ d
    → is_all_matched (overall c w f p s) ≡ (f && (p || s) && (d == 0))
overall-is_all_matched c w d u f p s e h = ground arith

-- The verdict is that all matches exactly if the payslip's formula is verified, a payroll or a
-- statutory reference is there, and no item differs.
pub reconcile-is_all_matched :
    (doc : ExtractedPayslip) (payroll : Option ExpectedPayroll)
    (statutory : Option StatutoryExpectation)
    → let r = reconcile doc payroll statutory in
      is_all_matched r.reconciliation_status ≡ (
        doc.formula_verified
        && (is_some payroll || is_some statutory)
        && (count different_item r.items == 0))
unfolding reconcile
reconcile-is_all_matched doc payroll statutory =
    overall-is_all_matched _ _ _ _ doc.formula_verified (is_some payroll) (is_some statutory)
      (reconcile-counts doc payroll statutory).2
      (upgraded-le-different (reconcile doc payroll statutory).items)

-- No code occurs twice.
abbrev pub IsDistinct : List Code → Type 0
IsDistinct [] = Unit
IsDistinct (c ∷ cs) = (any (same_code c) cs ≡ false) × IsDistinct cs

same_field_refl : (a : Field) → same_field a a ≡ true
same_field_refl a = ground arith

same_field-sym : (a b : Field) → same_field a b ≡ same_field b a
same_field-sym a b = ground arith

same_code_refl : (a : Code) → same_code a a ≡ true
same_code_refl (mismatch f) = same_field_refl f
same_code_refl payroll_reference_missing = refl
same_code_refl statutory_reference_missing = refl
same_code_refl document_formula_mismatch = refl
same_code_refl pf_under_deduction = refl
same_code_refl pf_over_deduction = refl
same_code_refl rounding_variance = refl

same_code-sym : (a b : Code) → same_code a b ≡ same_code b a
same_code-sym (mismatch f) (mismatch g) = same_field-sym f g
same_code-sym (mismatch f) b = ground arith
same_code-sym payroll_reference_missing b = ground arith
same_code-sym statutory_reference_missing b = ground arith
same_code-sym document_formula_mismatch b = ground arith
same_code-sym pf_under_deduction b = ground arith
same_code-sym pf_over_deduction b = ground arith
same_code-sym rounding_variance b = ground arith

true-false : true ≢ false
true-false e = cc

append-IsDistinct :
    (c : Code) (cs : List Code)
    → any (same_code c) cs ≡ false
    → IsDistinct cs
    → IsDistinct (cs ++ (c ∷ []))
append-IsDistinct c [] h d = (refl, tt)
append-IsDistinct c (x ∷ cs) h d = elim (Bool-cases (same_code c x)) [
  | inl e ↦ absurd (true-false (rw e at h))
  | inr e ↦
      let rest : any (same_code c) cs ≡ false = rw e at h in
      (
        any-append (same_code x) cs c ∙ rw (d.0, same_code-sym x c) e,
        append-IsDistinct c cs rest d.1,
      )
]

add_code-IsDistinct :
    (o : Option Code) (cs : List Code) → IsDistinct cs → IsDistinct (add_code o cs)
unfolding add_code
add_code-IsDistinct none cs d = d
add_code-IsDistinct (some c) cs d = elim (Bool-cases (any (same_code c) cs)) [
  | inl e ↦ rw e d
  | inr e ↦ rw e (append-IsDistinct c cs e d)
]

loop-IsDistinct :
    (cs : List Comparison) (p : Progress) → IsDistinct p.codes → IsDistinct (loop cs p).codes
unfolding loop
loop-IsDistinct [] p d = d
loop-IsDistinct (c ∷ cs) p d =
    loop-IsDistinct cs _ (add_code-IsDistinct (find_difference c).code p.codes d)

first_codes-IsDistinct : (p s f : Bool) → IsDistinct (first_codes p s f)
unfolding first_codes
first_codes-IsDistinct p s f = ground arith

-- A result lists no discrepancy code twice.
pub reconcile-IsDistinct :
    (doc : ExtractedPayslip) (payroll : Option ExpectedPayroll)
    (statutory : Option StatutoryExpectation)
    → IsDistinct (reconcile doc payroll statutory).discrepancy_codes
unfolding reconcile
reconcile-IsDistinct doc payroll statutory =
    loop-IsDistinct (comparisons doc payroll statutory) _ (first_codes-IsDistinct _ _ _)
