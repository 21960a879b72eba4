-- ===== src/Payroll/Sums.antt =====
-- The totals of a payroll run of backend/app/services/payroll_service.py as sums over its items,
-- and what one item keeps.
use smart_salary_india.Base.{ℕ, ◌+◌, ◌-◌, ◌*◌, ◌≤◌, ◌≡◌, refl, List, [], ◌∷◌, ◌++◌, arith, sum}
use smart_salary_india.Base.Int.{
  ℤ, pos, ◌+ℤ◌, ◌-ℤ◌, int_laws, eq_of_parts, parts_of_eq, +ℤ_zero, zero_+ℤ, +ℤ_assoc,
}
use smart_salary_india.Salary.Service.{VerifiedCalculation}
use smart_salary_india.Payroll.{
  PayrollTotals, PayrollRunItem, no_totals, add_to, item_for, half_even,
}

module _ {ℓ} {A : Type ℓ} where
  abbrev pub sum_ℤ : (A → ℤ) → List A → ℤ
  sum_ℤ f [] = pos 0
  sum_ℤ f (x ∷ xs) = f x +ℤ sum_ℤ f xs

  sum-append : (f : A → ℕ) (xs : List A) (y : A) → sum f (xs ++ (y ∷ [])) ≡ sum f xs + f y
  sum-append f [] y = omega arith
  sum-append f (x ∷ xs) y = omega (arith, sum-append f xs y)

  sum_ℤ-append : (f : A → ℤ) (xs : List A) (y : A) → sum_ℤ f (xs ++ (y ∷ [])) ≡ sum_ℤ f xs +ℤ f y
  sum_ℤ-append f [] y = rw (+ℤ_zero (f y), zero_+ℤ (f y)) refl
  sum_ℤ-append f (x ∷ xs) y = rw (sum_ℤ-append f xs y, +ℤ_assoc (f x) (sum_ℤ f xs) (f y)) refl

-- Each total is the sum of a column of the items.
abbrev pub IsSummed : PayrollTotals → List PayrollRunItem → Type 0
IsSummed t items =
    (t.gross_earnings ≡ sum (λ i. i.monthly_gross) items)
    × (t.employee_deductions ≡ sum (λ i. i.total_employee_deductions) items)
    × (t.tax_tds ≡ sum (λ i. i.tds_deducted) items)
    × (t.employee_pf ≡ sum (λ i. i.employee_pf) items)
    × (t.employer_pf ≡ sum (λ i. i.employer_pf) items)
    × (t.pt ≡ sum (λ i. i.professional_tax) items)
    × (t.net_pay ≡ sum_ℤ (λ i. i.net_pay) items)
    × (t.employer_cost ≡ sum (λ i. i.employer_cost) items)

pub add_to-IsSummed :
    (t : PayrollTotals) (items : List PayrollRunItem) (i : PayrollRunItem)
    → IsSummed t items
    → IsSummed (add_to t i) (items ++ (i ∷ []))
unfolding add_to
add_to-IsSummed t items i (g, d, x, e, r, p, n, c) = (
  rw (sum-append (λ j. j.monthly_gross) items i, g) refl,
  rw (sum-append (λ j. j.total_employee_deductions) items i, d) refl,
  rw (sum-append (λ j. j.tds_deducted) items i, x) refl,
  rw (sum-append (λ j. j.employee_pf) items i, e) refl,
  rw (sum-append (λ j. j.employer_pf) items i, r) refl,
  rw (sum-append (λ j. j.professional_tax) items i, p) refl,
  rw (sum_ℤ-append (λ j. j.net_pay) items i, n) refl,
  rw (sum-append (λ j. j.employer_cost) items i, c) refl,
)

-- Deductions are PF, PT and TDS, net pay and deductions make the gross, and the employer's cost is
-- the gross with the employer's contribution.
abbrev pub IsBalanced : ℕ → ℕ → ℕ → ℕ → ℕ → ℕ → ℤ → ℕ → Type 0
IsBalanced gross ded tds pf employer_pf pt net cost =
    (ded ≡ pf + pt + tds) × (net +ℤ pos ded ≡ pos gross) × (cost ≡ gross + employer_pf)

abbrev pub TotalsBalanced : PayrollTotals → Type 0
TotalsBalanced t =
    IsBalanced t.gross_earnings t.employee_deductions t.tax_tds t.employee_pf t.employer_pf t.pt
      t.net_pay t.employer_cost

-- The canonical formulas of an item, whose allowances make the gross exactly.
abbrev pub IsCanonical : ℕ → PayrollRunItem → Type 0
IsCanonical run_id i =
    (i.payroll_run_id ≡ run_id)
    × IsBalanced i.monthly_gross i.total_employee_deductions i.tds_deducted i.employee_pf
        i.employer_pf i.professional_tax i.net_pay i.employer_cost
    × (special : ℕ) × (i.special_allowance ≡ pos special)
    × (i.basic_salary + i.hra + special ≡ i.monthly_gross)

pub no_totals-TotalsBalanced : TotalsBalanced no_totals
unfolding ◌+ℤ◌
no_totals-TotalsBalanced = (refl, refl, refl)

add_balanced :
    (a b g h : ℕ) (m n : ℤ)
    → m +ℤ pos a ≡ pos g
    → n +ℤ pos b ≡ pos h
    → m +ℤ n +ℤ pos (a + b) ≡ pos (g + h)
add_balanced a b g h m n e f =
    let e' = parts_of_eq _ _ e in let f' = parts_of_eq _ _ f in eq_of_parts _ _ (omega int_laws)

pub add_to-TotalsBalanced :
    (run_id : ℕ) (t : PayrollTotals) (i : PayrollRunItem)
    → IsCanonical run_id i
    → TotalsBalanced t
    → TotalsBalanced (add_to t i)
unfolding add_to
add_to-TotalsBalanced run_id t i (own, (d, n, c), special, exact, whole) (td, tn, tc) =
    (omega arith, add_balanced _ _ _ _ t.net_pay i.net_pay tn n, omega arith)

half_even_2 : (n : ℕ) → 2 * half_even n 2 ≤ n + 1
unfolding half_even
half_even_2 n = ground arith

half_even_4 : (n : ℕ) → 4 * half_even n 4 ≤ n + 2
unfolding half_even
half_even_4 n = ground arith

-- Half and a quarter of the gross, rounded, leave a special allowance that is not negative.
allowances : (n : ℕ) → half_even n 2 + half_even n 4 ≤ n
allowances n = let a = half_even_2 n in let b = half_even_4 n in omega arith

sub_add : (g d : ℕ) → pos g -ℤ pos d +ℤ pos d ≡ pos g
sub_add g d = eq_of_parts _ _ (omega int_laws)

sub_sub : (g b h : ℕ) → b + h ≤ g → pos g -ℤ pos b -ℤ pos h ≡ pos (g - b - h)
sub_sub g b h le = eq_of_parts _ _ (omega int_laws)

pub item_for-IsCanonical :
    (run_id employee_id gross : ℕ) (c : VerifiedCalculation)
    → IsCanonical run_id (item_for run_id employee_id gross c)
unfolding item_for
item_for-IsCanonical run_id employee_id gross c = (
  refl,
  (refl, sub_add _ _, refl),
  gross - half_even gross 2 - half_even gross 4,
  sub_sub _ _ _ (allowances gross),
  omega (arith, allowances gross),
)
