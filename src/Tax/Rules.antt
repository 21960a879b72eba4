-- ===== src/Tax/Rules.antt =====
-- backend/app/engine/dto/tax_dto.py: the inputs and the rule sets of the tax engine.
-- The provenance fields of `TaxRuleSet` (citation and hashes) do not enter the calculation.
use Prim.Native.String.{String}
use text.Mathlib.Text.{find? as find_text}
use smart_salary_india.Base.{ℕ, Bool, true, false, Option, none, some, List}

pub data TaxRegime : Type 0 where
  old new : TaxRegime

pub data ResidentialStatus : Type 0 where
  resident non_resident not_ordinarily_resident : ResidentialStatus

pub record TaxCalculationInput : Type 0 where
  pub financial_year : String
  pub regime : TaxRegime
  pub annual_gross_salary : ℕ
  pub age : ℕ
  pub residential_status : ResidentialStatus
  pub standard_deduction_override : Option ℕ
  pub section_80c : ℕ
  pub section_80d : ℕ
  pub other_exemptions : ℕ
  pub other_deductions : ℕ
  pub tds_already_deducted : Option ℕ

pub record TaxSlabRule : Type 0 where
  pub slab_order : ℕ
  pub from_amount : ℕ
  pub to_amount : Option ℕ
  pub tax_rate : ℕ

pub record TaxRebateRule : Type 0 where
  pub section_code : String
  pub taxable_income_threshold : ℕ
  pub max_rebate_amount : ℕ
  pub marginal_relief_applicable : Bool

pub record TaxDeductionRule : Type 0 where
  pub deduction_code : String
  pub deduction_name : String
  pub max_limit : Option ℕ
  pub regime_applicable : String
  pub is_standard_deduction : Bool

pub record TaxSurchargeRule : Type 0 where
  pub from_income : ℕ
  pub to_income : Option ℕ
  pub surcharge_rate : ℕ
  pub marginal_relief_applicable : Bool

pub record TaxCessRule : Type 0 where
  pub cess_name : String
  pub cess_rate : ℕ

pub record TaxRuleSet : Type 0 where
  pub rule_version_code : String
  pub financial_year : String
  pub regime : TaxRegime
  pub slabs : List TaxSlabRule
  pub rebates : List TaxRebateRule
  pub deductions : List TaxDeductionRule
  pub surcharges : List TaxSurchargeRule
  pub cess_rules : List TaxCessRule

-- Python's `needle in text`
abbrev pub contains : String → String → Bool
contains text needle = elim (find_text text needle) [ none ↦ false | some _ ↦ true ]

-- The input with the dataclass' defaults beside the given fields.
abbrev pub tax_input : String → TaxRegime → ℕ → ℕ → ℕ → TaxCalculationInput
tax_input financial_year regime gross sec_80c sec_80d = record {
  financial_year = financial_year;
  regime = regime;
  annual_gross_salary = gross;
  age = 25;
  residential_status = resident;
  standard_deduction_override = none;
  section_80c = sec_80c;
  section_80d = sec_80d;
  other_exemptions = 0;
  other_deductions = 0;
  tds_already_deducted = none;
}
