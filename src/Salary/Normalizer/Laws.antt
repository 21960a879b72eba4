-- ===== src/Salary/Normalizer/Laws.antt =====
-- What the normalizer of backend/app/engine/normalizer/salary_normalizer.py guarantees.
use smart_salary_india.Base.{
  ℕ, ◌+◌, ◌-◌, ◌*◌, ◌≤◌, ◌<◌, ◌≡◌, Bool, true, false, ◌&&◌, ◌||◌, Option, none, some, arith, ltb,
  Option-cases, inl, inr, refl,
}
use smart_salary_india.Money.{quantize, rate_unit}
use smart_salary_india.Salary.Normalizer.{
  SalaryInput, NormalizedSalary, Normalized, ok, err, fields, first_negative, to_amount, is_given,
  stated_gross, without_special, sum_components, balanced_special, finish, from_components,
  from_default, normalize,
}
use smart_salary_india.Money.Nearest.{quantize-whole}

-- The default split never takes more than the gross salary.
pub default_split_fits : (g : ℕ) → quantize (g * 5000) rate_unit + quantize (g * 2000) rate_unit ≤ g
unfolding quantize
default_split_fits g = omega arith

-- The components of a normalized salary together.
abbrev pub component_total : NormalizedSalary → ℕ
component_total n =
    n.basic_salary + n.da + n.hra + n.special_allowance + n.bonus + n.other_allowances

abbrev pub is_ok : Normalized → Bool
is_ok (ok _) = true
is_ok (err _) = false

-- No field is below zero.
abbrev pub no_negative : SalaryInput → Bool
no_negative inp = elim (first_negative (fields inp)) [ none ↦ true | some _ ↦ false ]

-- Some component or some gross or CTC amount is positive.
abbrev pub has_amount : SalaryInput → Bool
has_amount inp =
    ltb 0 (sum_components inp)
    || (is_given inp.annual_gross || (is_given inp.monthly_gross || is_given inp.annual_ctc))

stated_gross-positive : (inp : SalaryInput) (g : ℕ) → stated_gross inp ≡ some g → 0 < g
unfolding stated_gross is_given quantize to_amount
stated_gross-positive inp g e = ground arith

stated_gross-none :
    (inp : SalaryInput)
    → stated_gross inp ≡ none
    → (is_given inp.annual_gross || (is_given inp.monthly_gross || is_given inp.annual_ctc)) ≡ false
unfolding stated_gross
stated_gross-none inp e = ground arith

stated_gross-some :
    (inp : SalaryInput) (g : ℕ)
    → stated_gross inp ≡ some g
    → (is_given inp.annual_gross || (is_given inp.monthly_gross || is_given inp.annual_ctc)) ≡ true
unfolding stated_gross
stated_gross-some inp g e = ground arith

from_components-is_ok :
    (inp : SalaryInput) (o : Option ℕ)
    → 0 < sum_components inp
    → is_ok (from_components inp o) ≡ true
unfolding from_components finish quantize
from_components-is_ok inp none h = ground arith
from_components-is_ok inp (some g) h = ground arith

from_default-is_ok : (inp : SalaryInput) (g : ℕ) → 0 < g → is_ok (from_default inp (some g)) ≡ true
unfolding from_default finish
from_default-is_ok inp g h = ground arith

given : SalaryInput → Bool
given inp = is_given inp.annual_gross || (is_given inp.monthly_gross || is_given inp.annual_ctc)

default-is_ok : (inp : SalaryInput) → is_ok (from_default inp (stated_gross inp)) ≡ given inp
unfolding given from_default
default-is_ok inp = elim (Option-cases (stated_gross inp)) [
  | inl e ↦ rw (e, stated_gross-none inp e) refl
  | inr (g, e) ↦
      rw (e, stated_gross-some inp g e) (from_default-is_ok inp g (stated_gross-positive inp g e))
]

-- An input is normalized exactly if no field is negative and some amount is positive.
pub normalize-is_ok :
    (inp : SalaryInput) → is_ok (normalize inp) ≡ (no_negative inp && has_amount inp)
unfolding normalize given
normalize-is_ok inp =
    ground (arith, default-is_ok inp, from_components-is_ok inp (stated_gross inp))

-- The gross salary of the result, by what is stated.
abbrev pub gross_or : ℕ → Option ℕ → ℕ
gross_or sum none = sum
gross_or sum (some g) = g

-- What is shown of a result: its gross, and its components if no special allowance was given.
Meets : SalaryInput → Option ℕ → NormalizedSalary → Type 0
Meets inp o n =
    (0 < n.annual_gross)
    × (n.annual_gross ≡ gross_or (sum_components inp) o)
    × (to_amount inp.special_allowance ≡ 0 → n.annual_gross ≤ component_total n + 100)

total-balanced :
    (inp : SalaryInput) (g : ℕ)
    → to_amount inp.special_allowance ≡ 0
    → g ≤ without_special inp + balanced_special inp g + 100
unfolding balanced_special sum_components
total-balanced inp g h = ground arith

finish-parts :
    (inp : SalaryInput) (gross basic hra special : ℕ) {n : NormalizedSalary}
    → finish inp gross basic hra special ≡ ok n
    → (0 < gross)
      × (n.annual_gross ≡ gross)
      × (component_total n
          ≡ basic
            + to_amount inp.da
            + hra
            + special
            + to_amount inp.bonus
            + to_amount inp.other_allowances)
unfolding finish
finish-parts inp gross basic hra special e = ground arith

from_components-Meets :
    (inp : SalaryInput) (o : Option ℕ) {n : NormalizedSalary}
    → 0 < gross_or 1 o
    → from_components inp o ≡ ok n
    → Meets inp o n
unfolding Meets from_components quantize sum_components without_special
from_components-Meets inp none p e = let parts = finish-parts inp _ _ _ _ e in ground arith
from_components-Meets inp (some g) p e =
    let test : ltb 0 g ≡ true = ground arith in
    let parts = finish-parts inp _ _ _ _ (rw test at e) in ground (arith, total-balanced inp g)

from_default-Meets :
    (inp : SalaryInput) (o : Option ℕ) {n : NormalizedSalary}
    → 0 < gross_or 1 o
    → from_default inp o ≡ ok n
    → Meets inp o n
unfolding Meets from_default
from_default-Meets inp none p e = cc
from_default-Meets inp (some g) p e =
    let test : ltb 0 g ≡ true = ground arith in
    let parts = finish-parts inp _ _ _ _ (rw test at e) in
    ground (
      arith,
      default_split_fits g,
      quantize-whole (g - (quantize (g * 5000) rate_unit + quantize (g * 2000) rate_unit)),
    )

stated-positive : (inp : SalaryInput) (o : Option ℕ) → stated_gross inp ≡ o → 0 < gross_or 1 o
stated-positive inp none e = omega arith
stated-positive inp (some g) e = stated_gross-positive inp g e

-- A normalized salary has a positive gross, which is the stated one if there is one, and otherwise
-- the sum of the components.
pub normalize-gross :
    (inp : SalaryInput) {n : NormalizedSalary}
    → normalize inp ≡ ok n
    → (0 < n.annual_gross) × (n.annual_gross ≡ gross_or (sum_components inp) (stated_gross inp))
unfolding normalize Meets
normalize-gross inp {n} e =
    let p = stated-positive inp (stated_gross inp) refl in
    ground (
      arith,
      from_components-Meets inp (stated_gross inp) {n = n} p,
      from_default-Meets inp (stated_gross inp) {n = n} p,
    )

-- If no special allowance was given, the components of a normalized salary fall short of its gross
-- by at most one rupee: the special allowance is filled up to the stated gross.
pub normalize-balanced :
    (inp : SalaryInput) {n : NormalizedSalary}
    → normalize inp ≡ ok n
    → to_amount inp.special_allowance ≡ 0
    → n.annual_gross ≤ component_total n + 100
unfolding normalize Meets
normalize-balanced inp {n} e none_given =
    let p = stated-positive inp (stated_gross inp) refl in
    ground (
      arith,
      from_components-Meets inp (stated_gross inp) {n = n} p,
      from_default-Meets inp (stated_gross inp) {n = n} p,
    )
