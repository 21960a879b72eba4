-- ===== src/Payslip/Counts.antt =====
-- What the counts and the status of backend/app/engine/payslip/reconciliation_engine.py say of the items.
use smart_salary_india.Base.{
  ℕ, ◌+◌, ◌≡◌, refl, Bool, true, false, not, ◌&&◌, Option, none, some, List, [], ◌∷◌, ◌++◌, arith,
  filter, length,
}
use smart_salary_india.Base.Int.{ℤ}
use smart_salary_india.Payslip.Tolerance.{
  Field, Evaluation, exact, tolerable_rounding, critical_mismatch,
}
use smart_salary_india.Payslip.Difference.{
  FieldReconciliationItem, FieldStatus, matched, warning, critical, Code, rounding_variance,
  Finding, against_payroll, against_statutory, ExtractedPayslip, ExpectedPayroll,
  StatutoryExpectation,
}
use smart_salary_india.Payslip.Reconciliation.{
  compare_payroll, compare_statutory, Comparison, comparisons, find_difference, item_of, loop,
  Progress, reconcile, is_some,
}

abbrev pub is_critical : FieldStatus → Bool
is_critical critical = true
is_critical _ = false

abbrev pub is_warning : FieldStatus → Bool
is_warning warning = true
is_warning _ = false

abbrev pub is_matched : FieldStatus → Bool
is_matched matched = true
is_matched _ = false

abbrev pub is_rounding : Option Code → Bool
is_rounding (some rounding_variance) = true
is_rounding _ = false

abbrev pub one_if : Bool → ℕ
one_if true = 1
one_if false = 0

-- A finding's counts are told by its status and code.
abbrev Told : Finding → Type 0
Told f =
    (f.criticals ≡ one_if (is_critical f.status))
    × (f.warnings ≡ one_if (is_rounding f.code))
    × (is_matched f.status ≡ not (is_some f.code))
    × ((is_warning f.status && not (is_rounding f.code)) ≡ false)

against_payroll-Told :
    (field : Field) (doc pay : ℤ) (e : Evaluation) → Told (against_payroll field doc pay e)
unfolding against_payroll
against_payroll-Told field doc pay exact = (refl, refl, refl, refl)
against_payroll-Told field doc pay tolerable_rounding = (refl, refl, refl, refl)
against_payroll-Told field doc pay critical_mismatch = ground arith

against_statutory-Told :
    (field : Field) (f : Finding) (e : Evaluation) → Told f → Told (against_statutory field f e)
unfolding against_statutory
against_statutory-Told field f exact h = h
against_statutory-Told field f tolerable_rounding h = ground arith
against_statutory-Told field f critical_mismatch h = ground arith

compare_payroll-Told :
    (field : Field) (doc : ℤ) (pay : Option ℤ) → Told (compare_payroll field doc pay)
unfolding compare_payroll
compare_payroll-Told field doc none = (refl, refl, refl, refl)
compare_payroll-Told field doc (some pay) = against_payroll-Told field doc pay _

compare_statutory-Told :
    (field : Field) (doc : ℤ) (f : Finding) (stat : Option ℤ)
    → Told f
    → Told (compare_statutory field doc f stat)
unfolding compare_statutory
compare_statutory-Told field doc f none h = h
compare_statutory-Told field doc f (some stat) h = against_statutory-Told field f _ h

find_difference-Told : (c : Comparison) → Told (find_difference c)
unfolding find_difference
find_difference-Told c =
    compare_statutory-Told c.field_name c.doc_val _ c.stat_val
      (compare_payroll-Told c.field_name c.doc_val c.pay_val)

-- The number of items that pass a test.
abbrev pub count : (FieldReconciliationItem → Bool) → List FieldReconciliationItem → ℕ
count p items = length (filter p items)

count-append :
    (p : FieldReconciliationItem → Bool) (items : List FieldReconciliationItem)
    (i : FieldReconciliationItem)
    → count p (items ++ (i ∷ [])) ≡ count p items + one_if (p i)
count-append p [] i = ground arith
count-append p (x ∷ items) i = ground (arith, count-append p items i)

abbrev pub critical_item : FieldReconciliationItem → Bool
critical_item i = is_critical i.status

abbrev pub rounding_item : FieldReconciliationItem → Bool
rounding_item i = is_rounding i.discrepancy_code

abbrev pub different_item : FieldReconciliationItem → Bool
different_item i = not (is_matched i.status)

-- Counted twice: critical, with the code of a rounding.
abbrev pub upgraded_item : FieldReconciliationItem → Bool
upgraded_item i = critical_item i && rounding_item i

-- The counts of the loop are those of its items.
abbrev Counted : Progress → Type 0
Counted p =
    (p.critical_count ≡ count critical_item p.items)
    × (p.warning_count ≡ count rounding_item p.items)
    × (p.critical_count + p.warning_count
        ≡ count different_item p.items + count upgraded_item p.items)

different-upgraded :
    (f : Finding)
    → Told f
    → one_if (not (is_matched f.status)) + one_if (is_critical f.status && is_rounding f.code)
      ≡ f.criticals + f.warnings
different-upgraded f h = ground arith

loop-Counted : (cs : List Comparison) (p : Progress) → Counted p → Counted (loop cs p)
unfolding loop item_of
loop-Counted [] p h = h
loop-Counted (c ∷ cs) p h =
    let told = find_difference-Told c in
    let all_four = different-upgraded (find_difference c) told in
    loop-Counted cs _ (
      rw (count-append critical_item p.items (item_of c)) (omega (arith, told.0)),
      rw (count-append rounding_item p.items (item_of c)) (omega (arith, told.1)),
      rw
          (
            count-append different_item p.items (item_of c),
            count-append upgraded_item p.items (item_of c),
          )
          (omega (arith, all_four)),
    )

-- The critical count is the number of critical items and the warning count that of the items with
-- the code of a rounding. Their total is the number of items that differ, plus one for every item
-- that was a rounding against the payroll and is critical against the statutory engine.
pub reconcile-counts :
    (doc : ExtractedPayslip) (payroll : Option ExpectedPayroll)
    (statutory : Option StatutoryExpectation)
    → let r = reconcile doc payroll statutory in
      (r.critical_discrepancies ≡ count critical_item r.items)
      × (r.warning_discrepancies ≡ count rounding_item r.items)
      × (r.total_discrepancies ≡ count different_item r.items + count upgraded_item r.items)
unfolding reconcile
reconcile-counts doc payroll statutory =
    loop-Counted (comparisons doc payroll statutory) _ (refl, refl, refl)
