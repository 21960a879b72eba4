-- ===== src/Salary/Normalizer.antt =====
-- backend/app/engine/normalizer/salary_normalizer.py, over backend/app/engine/dto/salary_dto.py.
-- Amounts are whole paise, and may be negative on the way in. The dict of custom components is
-- never read by the normalizer.
pub mod Laws
use Prim.Native.String.{String}
use smart_salary_india.Base.{
  ℕ, ◌+◌, ◌-◌, ◌*◌, ◌==◌, Bool, true, false, ◌&&◌, Option, none, some, List, [], ◌∷◌, leb, ltb,
  if◌then◌else◌,
}
use smart_salary_india.Base.Int.{ℤ, pos, pos_part, ltb_ℤ}
use smart_salary_india.Money.{quantize, rate_unit}

pub record SalaryInput : Type 0 where
  pub financial_year : String
  pub annual_ctc : Option ℤ
  pub annual_gross : Option ℤ
  pub monthly_gross : Option ℤ
  pub basic_salary : Option ℤ
  pub da : Option ℤ
  pub hra : Option ℤ
  pub special_allowance : Option ℤ
  pub bonus : Option ℤ
  pub other_allowances : Option ℤ
  pub other_employee_deductions : Option ℤ
  pub pf_opt_in_higher_wage : Bool

pub record NormalizedSalary : Type 0 where
  pub annual_gross : ℕ
  pub basic_salary : ℕ
  pub da : ℕ
  pub hra : ℕ
  pub special_allowance : ℕ
  pub bonus : ℕ
  pub other_allowances : ℕ
  pub other_employee_deductions : ℕ
  pub monthly_gross : ℕ
  pub pf_wage_base_monthly : ℕ
  pub annual_ctc : Option ℕ

-- InvalidSalaryInputError: a negative field, with its name, or no positive amount.
pub data InputError : Type 0 where
  negative : String → InputError
  missing : InputError
  not_positive : InputError

pub data Normalized : Type 0 where
  ok : NormalizedSalary → Normalized
  err : InputError → Normalized

-- The Decimal fields in the order of the dataclass.
abbrev pub fields : SalaryInput → List (String × Option ℤ)
fields inp =
    ("annual_ctc", inp.annual_ctc)
    ∷ ("annual_gross", inp.annual_gross)
    ∷ ("monthly_gross", inp.monthly_gross)
    ∷ ("basic_salary", inp.basic_salary)
    ∷ ("da", inp.da)
    ∷ ("hra", inp.hra)
    ∷ ("special_allowance", inp.special_allowance)
    ∷ ("bonus", inp.bonus)
    ∷ ("other_allowances", inp.other_allowances)
    ∷ ("other_employee_deductions", inp.other_employee_deductions)
    ∷ []

abbrev pub is_negative : Option ℤ → Bool
is_negative none = false
is_negative (some a) = ltb_ℤ a (pos 0)

-- The name of the first negative field.
unfoldable pub first_negative : List (String × Option ℤ) → Option String
first_negative [] = none
first_negative ((name, value) ∷ rest) = if is_negative value then some name else first_negative rest

-- `to_decimal`, of a value that is not negative
unfoldable pub to_amount : Option ℤ → ℕ
to_amount none = 0
to_amount (some a) = pos_part a

-- `val is not None and val > 0`
unfoldable pub is_given : Option ℤ → Bool
is_given none = false
is_given (some a) = ltb_ℤ (pos 0) a

-- The gross salary that the input states, if it states one.
unfoldable pub stated_gross : SalaryInput → Option ℕ
stated_gross inp =
    if is_given inp.annual_gross
    then some (quantize (to_amount inp.annual_gross) 1)
    else if is_given inp.monthly_gross
    then some (quantize (to_amount inp.monthly_gross * 12) 1)
    else if is_given inp.annual_ctc
    then some (quantize (to_amount inp.annual_ctc) 1)
    else none

-- `basic + da + hra + bonus + other_allowances`
unfoldable pub without_special : SalaryInput → ℕ
without_special inp =
    to_amount inp.basic_salary
    + to_amount inp.da
    + to_amount inp.hra
    + to_amount inp.bonus
    + to_amount inp.other_allowances

unfoldable pub sum_components : SalaryInput → ℕ
sum_components inp = without_special inp + to_amount inp.special_allowance

-- |a - b|
abbrev pub distance : ℕ → ℕ → ℕ
distance a b = a - b + (b - a)

-- The special allowance beside a stated gross: it fills the gap if it is zero and the components
-- fall short by more than one rupee.
unfoldable pub balanced_special : SalaryInput → ℕ → ℕ
balanced_special inp gross =
    let special = to_amount inp.special_allowance in
    if ltb 100 (distance (sum_components inp) gross)
      && (special == 0 && ltb (sum_components inp) gross)
    then gross - without_special inp
    else special

-- The end of `normalize`, from the gross salary, basic, HRA and special allowance on.
unfoldable pub finish : SalaryInput → ℕ → ℕ → ℕ → ℕ → Normalized
finish inp gross basic hra special =
    if leb gross 0
    then err not_positive
    else ok (record {
      annual_gross = gross;
      basic_salary = basic;
      da = to_amount inp.da;
      hra = hra;
      special_allowance = special;
      bonus = to_amount inp.bonus;
      other_allowances = to_amount inp.other_allowances;
      other_employee_deductions = to_amount inp.other_employee_deductions;
      monthly_gross = quantize gross 12;
      pf_wage_base_monthly = quantize (basic + to_amount inp.da) 12;
      annual_ctc = elim inp.annual_ctc [ none ↦ none | some a ↦ some (pos_part a) ];
    })

-- With components: they are the gross salary unless one is stated.
unfoldable pub from_components : SalaryInput → Option ℕ → Normalized
from_components inp gross =
    let basic = to_amount inp.basic_salary in
    let hra = to_amount inp.hra in
    elim gross [
      | none ↦
          finish inp (quantize (sum_components inp) 1) basic hra (to_amount inp.special_allowance)
      | some g ↦
          if ltb 0 g
          then finish inp g basic hra (balanced_special inp g)
          else finish inp (quantize (sum_components inp) 1) basic hra
              (to_amount inp.special_allowance)
    ]

-- Without: 50% basic and 20% HRA, and the rest.
unfoldable pub from_default : SalaryInput → Option ℕ → Normalized
from_default inp gross = elim gross [
  | none ↦ err missing
  | some g ↦
      let basic = quantize (g * 5000) rate_unit in
      let hra = quantize (g * 2000) rate_unit in
      if ltb 0 g then finish inp g basic hra (quantize (g - (basic + hra)) 1) else err missing
]

-- `SalaryNormalizer.normalize`
unfoldable pub normalize : SalaryInput → Normalized
normalize inp = elim (first_negative (fields inp)) [
  | some name ↦ err (negative name)
  | none ↦
      if ltb 0 (sum_components inp)
      then from_components inp (stated_gross inp)
      else from_default inp (stated_gross inp)
]
