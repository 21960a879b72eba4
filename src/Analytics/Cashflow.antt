-- ===== src/Analytics/Cashflow.antt =====
-- backend/app/engine/analytics/expense_savings_engine.py: expenses and savings against a take-home
-- salary. The amounts of the items are paise, not negative; percentages are in hundredths of a
-- percent, which a quotient of Decimal's 28 digits rounds exactly for amounts below 10^18 paise.
pub mod Sums
use Prim.Native.String.{String}
use text.Mathlib.Text.{◌==◌ as str_eq}
use smart_salary_india.Base.{
  ℕ, ◌+◌, ◌*◌, min, Bool, false, true, not, ◌&&◌, Option, none, some, List, [], ◌∷◌, ltb,
  if◌then◌else◌,
}
use smart_salary_india.Base.Int.{ℤ, pos, pos_part, ◌-ℤ◌, ltb_ℤ}
use smart_salary_india.Money.{quantize, quantize_ℤ}

pub data ExpenseFrequency : Type 0 where
  monthly quarterly semi_annual annual one_time : ExpenseFrequency

-- `one_off` is ONE_TIME.
pub data ExpenseNature : Type 0 where
  essential discretionary one_off : ExpenseNature

pub data SavingsVehicle : Type 0 where
  epf ppf nps elss direct_equity mutual_funds fixed_deposit gold savings_account other :
      SavingsVehicle

pub record ExpenseItemInput : Type 0 where
  pub category : String
  pub amount : ℕ
  pub frequency : ExpenseFrequency
  pub nature : ExpenseNature
  pub is_statutory_deduction_claim : Bool
  pub statutory_section : Option String

pub record SavingsItemInput : Type 0 where
  pub vehicle : SavingsVehicle
  pub amount : ℕ
  pub frequency : ExpenseFrequency
  pub qualifies_section_80c : Bool
  pub qualifies_section_80ccd_1b : Bool

pub record NormalizedExpenseSummary : Type 0 where
  pub annual_essential_expenses : ℕ
  pub annual_discretionary_expenses : ℕ
  pub annual_one_time_expenses : ℕ
  pub total_annual_expenses : ℕ
  pub monthly_average_expenses : ℕ
  pub annual_net_take_home : ℤ
  pub annual_total_savings : ℕ
  pub annual_cash_surplus : ℤ
  pub monthly_cash_surplus : ℤ
  pub savings_rate_pct : ℕ
  pub expense_to_income_ratio_pct : ℕ
  pub essential_to_income_ratio_pct : ℕ
  pub is_negative_cash_flow : Bool
  pub statutory_tax_deductions_from_expenses : ℕ
  pub statutory_80c_from_savings : ℕ
  pub statutory_80ccd_from_savings : ℕ

-- The summary, or InvalidSalaryInputError.
pub data CashflowResult : Type 0 where
  evaluated : NormalizedExpenseSummary → CashflowResult
  invalid_salary_input : CashflowResult

abbrev pub times_a_year : ExpenseFrequency → ℕ
times_a_year monthly = 12
times_a_year quarterly = 4
times_a_year semi_annual = 2
times_a_year annual = 1
times_a_year one_time = 1

-- `annualize_amount`
unfoldable pub annualize_amount : ℕ → ExpenseFrequency → ℕ
annualize_amount amount freq = quantize (amount * times_a_year freq) 1

-- The sums of the loop over the expenses.
pub record ExpenseTotals : Type 0 where
  pub essentials : ℕ
  pub discretionaries : ℕ
  pub one_offs : ℕ
  pub statutory_deductions : ℕ

abbrev pub add_nature : ExpenseNature → ℕ → ExpenseTotals → ExpenseTotals
add_nature essential a t = record t { essentials = t.essentials + a }
add_nature discretionary a t = record t { discretionaries = t.discretionaries + a }
add_nature one_off a t = record t { one_offs = t.one_offs + a }

-- `exp.statutory_section`, as a condition.
abbrev pub has_section : Option String → Bool
has_section none = false
has_section (some s) = not (str_eq s "")

abbrev pub is_deduction : ExpenseItemInput → Bool
is_deduction e = e.is_statutory_deduction_claim && has_section e.statutory_section

-- One round of the loop over the expenses.
unfoldable pub add_expense : ExpenseTotals → ExpenseItemInput → ExpenseTotals
add_expense t e =
    let ann_amt = annualize_amount e.amount e.frequency in
    let u = add_nature e.nature ann_amt t in
    if is_deduction e
    then record u { statutory_deductions = u.statutory_deductions + ann_amt }
    else u

pub record SavingsTotals : Type 0 where
  pub total_savings : ℕ
  pub claim_80c : ℕ
  pub claim_80ccd : ℕ

-- One round of the loop over the savings.
unfoldable pub add_saving : SavingsTotals → SavingsItemInput → SavingsTotals
add_saving t s =
    let ann_sav = annualize_amount s.amount s.frequency in
    record {
      total_savings = t.total_savings + ann_sav;
      claim_80c = if s.qualifies_section_80c then t.claim_80c + ann_sav else t.claim_80c;
      claim_80ccd = if s.qualifies_section_80ccd_1b then t.claim_80ccd + ann_sav else t.claim_80ccd;
    }

unfoldable pub accumulate {ℓ ℓ'} : {A : Type ℓ} {B : Type ℓ'} → (B → A → B) → B → List A → B
accumulate f t [] = t
accumulate f t (x ∷ xs) = accumulate f (f t x) xs

abbrev pub no_expenses : ExpenseTotals
no_expenses = record { essentials = 0; discretionaries = 0; one_offs = 0; statutory_deductions = 0 }

abbrev pub no_savings : SavingsTotals
no_savings = record { total_savings = 0; claim_80c = 0; claim_80ccd = 0 }

-- `quantize_currency((part / net_income) * 100)` of a positive income, else 0.
unfoldable pub percentage : ℕ → ℤ → ℕ
percentage part net_income =
    if ltb_ℤ (pos 0) net_income then quantize (part * 10_000) (pos_part net_income) else 0

-- The limits of 150,000 and 50,000 rupees.
abbrev pub limit_80c : ℕ
limit_80c = 15_000_000

abbrev pub limit_80ccd : ℕ
limit_80ccd = 5_000_000

unfoldable pub summarize : ℤ → ExpenseTotals → SavingsTotals → NormalizedExpenseSummary
summarize net_income e s =
    let total_expenses = e.essentials + e.discretionaries + e.one_offs in
    let cash_surplus = net_income -ℤ pos (total_expenses + s.total_savings) in
    record {
      annual_essential_expenses = quantize e.essentials 1;
      annual_discretionary_expenses = quantize e.discretionaries 1;
      annual_one_time_expenses = quantize e.one_offs 1;
      total_annual_expenses = quantize total_expenses 1;
      monthly_average_expenses = quantize total_expenses 12;
      annual_net_take_home = quantize_ℤ net_income 1;
      annual_total_savings = quantize s.total_savings 1;
      annual_cash_surplus = quantize_ℤ cash_surplus 1;
      monthly_cash_surplus = quantize_ℤ cash_surplus 12;
      savings_rate_pct = percentage s.total_savings net_income;
      expense_to_income_ratio_pct = percentage total_expenses net_income;
      essential_to_income_ratio_pct = percentage e.essentials net_income;
      is_negative_cash_flow = ltb_ℤ cash_surplus (pos 0);
      statutory_tax_deductions_from_expenses = quantize e.statutory_deductions 1;
      statutory_80c_from_savings = quantize (min s.claim_80c limit_80c) 1;
      statutory_80ccd_from_savings = quantize (min s.claim_80ccd limit_80ccd) 1;
    }

-- `evaluate`
unfoldable pub evaluate : ℤ → List ExpenseItemInput → List SavingsItemInput → CashflowResult
evaluate net_income expenses savings =
    if ltb_ℤ net_income (pos 0)
    then invalid_salary_input
    else evaluated (
        summarize net_income (accumulate add_expense no_expenses expenses)
          (accumulate add_saving no_savings savings))
