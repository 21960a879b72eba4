-- ===== src/Analytics/Cashflow/Sums.antt =====
-- The loops of backend/app/engine/analytics/expense_savings_engine.py as sums over the items, and
-- what the summary says of them.
use mathlib.Core.List.{Perm}
use smart_salary_india.Base.{
  ℕ, suc, ◌+◌, ◌≤◌, min, ◌≡◌, refl, sym, false, List, [], ◌∷◌, ltb, if◌then◌else◌, sum, Bool-cases,
  inl, inr, sum-le, sum-perm, arith,
}
use smart_salary_india.Base.Int.{ℤ, pos, negsuc, ◌+ℤ◌, ◌-ℤ◌, ltb_ℤ, int_laws, eq_of_parts}
use smart_salary_india.Money.{quantize_ℤ}
use smart_salary_india.Money.Nearest.{quantize-whole}
use smart_salary_india.Analytics.Cashflow.{
  ExpenseNature, essential, discretionary, one_off, ExpenseItemInput, SavingsItemInput,
  NormalizedExpenseSummary, CashflowResult, evaluated, invalid_salary_input, annualize_amount,
  ExpenseTotals, add_nature, is_deduction, add_expense, SavingsTotals, add_saving, accumulate,
  no_expenses, no_savings, limit_80c, limit_80ccd, summarize, evaluate,
}

-- A quantity that each round raises by a weight of the item is a sum in the end.
accumulate-sum {ℓ ℓ'} :
    {A : Type ℓ} {B : Type ℓ'} (f : B → A → B) (g : B → ℕ) (w : A → ℕ)
    → ((t : B) (x : A) → g (f t x) ≡ g t + w x)
    → (xs : List A) (t : B) → g (accumulate f t xs) ≡ g t + sum w xs
unfolding accumulate
accumulate-sum f g w h [] t = omega arith
accumulate-sum f g w h (x ∷ xs) t = omega (arith, accumulate-sum f g w h xs (f t x), h t x)

from_nothing {ℓ ℓ'} :
    {A : Type ℓ} {B : Type ℓ'} (f : B → A → B) (g : B → ℕ) (w : A → ℕ)
    → ((t : B) (x : A) → g (f t x) ≡ g t + w x)
    → (xs : List A) (t : B) → g t ≡ 0
    → g (accumulate f t xs) ≡ sum w xs
from_nothing f g w h xs t z = omega (arith, accumulate-sum f g w h xs t)

abbrev pub annual_expense : ExpenseItemInput → ℕ
annual_expense e = annualize_amount e.amount e.frequency

abbrev pub annual_saving : SavingsItemInput → ℕ
annual_saving s = annualize_amount s.amount s.frequency

abbrev essential_part : ExpenseNature → ℕ → ℕ
essential_part essential a = a
essential_part _ a = 0

abbrev discretionary_part : ExpenseNature → ℕ → ℕ
discretionary_part discretionary a = a
discretionary_part _ a = 0

abbrev one_off_part : ExpenseNature → ℕ → ℕ
one_off_part one_off a = a
one_off_part _ a = 0

abbrev pub deduction_part : ExpenseItemInput → ℕ
deduction_part e = if is_deduction e then annual_expense e else 0

abbrev pub part_80c : SavingsItemInput → ℕ
part_80c s = if s.qualifies_section_80c then annual_saving s else 0

abbrev pub part_80ccd : SavingsItemInput → ℕ
part_80ccd s = if s.qualifies_section_80ccd_1b then annual_saving s else 0

-- What the loop over the expenses computes, as sums.
abbrev expense_sums : List ExpenseItemInput → ExpenseTotals
expense_sums es = record {
  essentials = sum (λ e. essential_part e.nature (annual_expense e)) es;
  discretionaries = sum (λ e. discretionary_part e.nature (annual_expense e)) es;
  one_offs = sum (λ e. one_off_part e.nature (annual_expense e)) es;
  statutory_deductions = sum deduction_part es;
}

abbrev savings_sums : List SavingsItemInput → SavingsTotals
savings_sums ss = record {
  total_savings = sum annual_saving ss;
  claim_80c = sum part_80c ss;
  claim_80ccd = sum part_80ccd ss;
}

add_nature_parts :
    (n : ExpenseNature) (a : ℕ) (t : ExpenseTotals)
    → ((add_nature n a t).essentials ≡ t.essentials + essential_part n a)
      × ((add_nature n a t).discretionaries ≡ t.discretionaries + discretionary_part n a)
      × ((add_nature n a t).one_offs ≡ t.one_offs + one_off_part n a)
      × ((add_nature n a t).statutory_deductions ≡ t.statutory_deductions)
add_nature_parts essential a t = (omega arith, omega arith, omega arith, refl)
add_nature_parts discretionary a t = (omega arith, omega arith, omega arith, refl)
add_nature_parts one_off a t = (omega arith, omega arith, omega arith, refl)

add_expense_parts :
    (t : ExpenseTotals) (e : ExpenseItemInput)
    → ((add_expense t e).essentials ≡ t.essentials + essential_part e.nature (annual_expense e))
      × ((add_expense t e).discretionaries
          ≡ t.discretionaries + discretionary_part e.nature (annual_expense e))
      × ((add_expense t e).one_offs ≡ t.one_offs + one_off_part e.nature (annual_expense e))
      × ((add_expense t e).statutory_deductions ≡ t.statutory_deductions + deduction_part e)
unfolding add_expense
add_expense_parts t e =
    let (a, b, c, d) = add_nature_parts e.nature (annual_expense e) t in
    elim (Bool-cases (is_deduction e)) [
      | inl claimed ↦ rw claimed (a, b, c, omega (arith, d))
      | inr personal ↦ rw personal (a, b, c, omega (arith, d))
    ]

expense_totals_ext :
    (t : ExpenseTotals) {a b c d : ℕ}
    → t.essentials ≡ a
    → t.discretionaries ≡ b
    → t.one_offs ≡ c
    → t.statutory_deductions ≡ d
    → t ≡ record { essentials = a; discretionaries = b; one_offs = c; statutory_deductions = d }
expense_totals_ext t a b c d = rw (sym a, sym b, sym c, sym d) refl

accumulate-expense_sums :
    (es : List ExpenseItemInput) → accumulate add_expense no_expenses es ≡ expense_sums es
accumulate-expense_sums es =
    let a =
      from_nothing add_expense (λ t. t.essentials) _ (λ t e. (add_expense_parts t e).0) es
        no_expenses refl in
    let b =
      from_nothing add_expense (λ t. t.discretionaries) _ (λ t e. (add_expense_parts t e).1) es
        no_expenses refl in
    let c =
      from_nothing add_expense (λ t. t.one_offs) _ (λ t e. (add_expense_parts t e).2) es no_expenses
        refl in
    let d =
      from_nothing add_expense (λ t. t.statutory_deductions) _ (λ t e. (add_expense_parts t e).3) es
        no_expenses refl in
    expense_totals_ext _ a b c d

add_saving_parts :
    (t : SavingsTotals) (s : SavingsItemInput)
    → ((add_saving t s).total_savings ≡ t.total_savings + annual_saving s)
      × ((add_saving t s).claim_80c ≡ t.claim_80c + part_80c s)
      × ((add_saving t s).claim_80ccd ≡ t.claim_80ccd + part_80ccd s)
unfolding add_saving
add_saving_parts t s = (refl, ground arith, ground arith)

savings_totals_ext :
    (t : SavingsTotals) {a b c : ℕ}
    → t.total_savings ≡ a
    → t.claim_80c ≡ b
    → t.claim_80ccd ≡ c
    → t ≡ record { total_savings = a; claim_80c = b; claim_80ccd = c }
savings_totals_ext t a b c = rw (sym a, sym b, sym c) refl

accumulate-savings_sums :
    (ss : List SavingsItemInput) → accumulate add_saving no_savings ss ≡ savings_sums ss
accumulate-savings_sums ss =
    let a =
      from_nothing add_saving (λ t. t.total_savings) _ (λ t s. (add_saving_parts t s).0) ss
        no_savings refl in
    let b =
      from_nothing add_saving (λ t. t.claim_80c) _ (λ t s. (add_saving_parts t s).1) ss no_savings
        refl in
    let c =
      from_nothing add_saving (λ t. t.claim_80ccd) _ (λ t s. (add_saving_parts t s).2) ss no_savings
        refl in
    savings_totals_ext _ a b c

-- The order of the expenses and the order of the savings do not matter.
pub evaluate-perm :
    (net_income : ℤ) {es es' : List ExpenseItemInput} {ss ss' : List SavingsItemInput}
    → Perm es es'
    → Perm ss ss'
    → evaluate net_income es ss ≡ evaluate net_income es' ss'
unfolding evaluate
evaluate-perm net_income {es} {es'} {ss} {ss'} p q =
    let expenses : accumulate add_expense no_expenses es ≡ accumulate add_expense no_expenses es' =
      rw
        (
          accumulate-expense_sums es,
          accumulate-expense_sums es',
          sum-perm _ p,
          sum-perm _ p,
          sum-perm _ p,
          sum-perm _ p,
        )
        refl in
    let savings : accumulate add_saving no_savings ss ≡ accumulate add_saving no_savings ss' =
      rw
        (
          accumulate-savings_sums ss,
          accumulate-savings_sums ss',
          sum-perm _ q,
          sum-perm _ q,
          sum-perm _ q,
        )
        refl in
    rw (expenses, savings) refl

-- What a summary says: the classes make the expenses, expenses, savings and surplus make the income,
-- the cash flow is negative exactly if expenses and savings are above the income, no more than the
-- expenses is deducted, and the two claims are bounded by the savings and by their limits.
abbrev pub IsConsistent :
    ℕ → List ExpenseItemInput → List SavingsItemInput → NormalizedExpenseSummary → Type 0
IsConsistent net es ss r =
    (r.total_annual_expenses ≡ sum annual_expense es)
    × (r.annual_essential_expenses + r.annual_discretionary_expenses + r.annual_one_time_expenses
        ≡ r.total_annual_expenses)
    × (r.annual_total_savings ≡ sum annual_saving ss)
    × (r.annual_cash_surplus +ℤ pos (r.total_annual_expenses + r.annual_total_savings) ≡ pos net)
    × (r.is_negative_cash_flow ≡ ltb net (r.total_annual_expenses + r.annual_total_savings))
    × (r.statutory_tax_deductions_from_expenses ≤ r.total_annual_expenses)
    × (r.statutory_80c_from_savings ≡ min (sum part_80c ss) limit_80c)
    × (r.statutory_80c_from_savings ≤ r.annual_total_savings)
    × (r.statutory_80ccd_from_savings ≡ min (sum part_80ccd ss) limit_80ccd)
    × (r.statutory_80ccd_from_savings ≤ r.annual_total_savings)

abbrev pub IsConsistentEvaluation :
    ℤ → List ExpenseItemInput → List SavingsItemInput → CashflowResult → Type 0
IsConsistentEvaluation (pos net) es ss (evaluated r) = IsConsistent net es ss r
IsConsistentEvaluation (pos net) es ss invalid_salary_input = ⊥
IsConsistentEvaluation (negsuc n) es ss (evaluated r) = ⊥
IsConsistentEvaluation (negsuc n) es ss invalid_salary_input = Unit

quantize_ℤ-whole : (a : ℤ) → quantize_ℤ a 1 ≡ a
unfolding quantize_ℤ
quantize_ℤ-whole (pos n) = rw (quantize-whole n) refl
quantize_ℤ-whole (negsuc n) = rw (quantize-whole (suc n)) (ground arith)

nature_parts :
    (n : ExpenseNature) (a : ℕ) → essential_part n a + discretionary_part n a + one_off_part n a ≡ a
nature_parts essential a = omega arith
nature_parts discretionary a = omega arith
nature_parts one_off a = omega arith

sum-natures :
    (es : List ExpenseItemInput)
    → sum (λ e. essential_part e.nature (annual_expense e)) es
        + sum (λ e. discretionary_part e.nature (annual_expense e)) es
        + sum (λ e. one_off_part e.nature (annual_expense e)) es
      ≡ sum annual_expense es
sum-natures [] = omega arith
sum-natures (e ∷ es) = omega (arith, sum-natures es, nature_parts e.nature (annual_expense e))

deduction_part-le : (e : ExpenseItemInput) → deduction_part e ≤ annual_expense e
deduction_part-le e = ground arith

part_80c-le : (s : SavingsItemInput) → part_80c s ≤ annual_saving s
part_80c-le s = ground arith

part_80ccd-le : (s : SavingsItemInput) → part_80ccd s ≤ annual_saving s
part_80ccd-le s = ground arith

surplus_and_spent : (n k : ℕ) → pos n -ℤ pos k +ℤ pos k ≡ pos n
surplus_and_spent n k = eq_of_parts _ _ (omega int_laws)

negative_surplus : (n k : ℕ) → ltb_ℤ (pos n -ℤ pos k) (pos 0) ≡ ltb n k
unfolding ◌-ℤ◌
negative_surplus n k = ground arith

not_negative : (n : ℕ) → ltb_ℤ (pos n) (pos 0) ≡ false
not_negative n = ground arith

summarize-IsConsistent :
    (net : ℕ) (es : List ExpenseItemInput) (ss : List SavingsItemInput)
    → IsConsistent net es ss (summarize (pos net) (expense_sums es) (savings_sums ss))
unfolding summarize
summarize-IsConsistent net es ss =
    let natures = sum-natures es in
    let deductions = sum-le deduction_part annual_expense deduction_part-le es in
    let c = sum-le part_80c annual_saving part_80c-le ss in
    let ccd = sum-le part_80ccd annual_saving part_80ccd-le ss in
    (
      rw (quantize-whole, natures) refl,
      omega (arith, quantize-whole),
      quantize-whole _,
      rw (quantize_ℤ-whole, quantize-whole, quantize-whole) (surplus_and_spent net _),
      rw (quantize-whole, quantize-whole) (negative_surplus net _),
      omega (arith, quantize-whole),
      quantize-whole _,
      omega (arith, quantize-whole),
      quantize-whole _,
      omega (arith, quantize-whole),
    )

-- The summary of a take-home salary that is not negative is consistent with the items, and a
-- negative one is refused.
pub evaluate-IsConsistentEvaluation :
    (net_income : ℤ) (es : List ExpenseItemInput) (ss : List SavingsItemInput)
    → IsConsistentEvaluation net_income es ss (evaluate net_income es ss)
unfolding evaluate
evaluate-IsConsistentEvaluation (negsuc n) es ss = ground arith
evaluate-IsConsistentEvaluation (pos net) es ss =
    rw (not_negative net, accumulate-expense_sums es, accumulate-savings_sums ss)
      (summarize-IsConsistent net es ss)
