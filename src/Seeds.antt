-- ===== src/Seeds.antt =====
-- The statutory tax rules that backend/app/seeds/seed_reference_data.py puts into the database, and
-- backend/app/repositories/tax_rule_repository.py, which reads them back as rule sets.
-- The rows of a rule version are taken in the order in which they were added.
pub mod TaxRules
use Prim.Native.String.{String}
use text.Mathlib.Text.{◌==◌ as str_eq}
use smart_salary_india.Base.{
  ℕ, ◌*◌, Bool, true, false, ◌&&◌, ◌||◌, Option, none, some, List, map, find?, sorted,
  if◌then◌else◌,
}
use smart_salary_india.Tax.Rules.{
  TaxRegime, old, new, TaxSlabRule, TaxRebateRule, TaxDeductionRule, TaxSurchargeRule, TaxCessRule,
  TaxRuleSet, contains,
}

pub record RebateRow : Type 0 where
  pub section : String
  pub threshold_taxable_income : ℕ
  pub max_rebate_amount : ℕ

pub record DeductionRow : Type 0 where
  pub section : String
  pub name : String
  pub max_limit : Option ℕ

-- A row of tax_rule_versions with the rows that belong to it; the rows of slabs, surcharges and
-- cess have the fields of their DTOs.
pub record TaxRuleVersion : Type 0 where
  pub version_code : String
  pub financial_year : String
  pub regime : String
  pub status : String
  pub slabs : List TaxSlabRule
  pub rebates : List RebateRow
  pub deductions : List DeductionRow
  pub surcharges : List TaxSurchargeRule
  pub cess_rules : List TaxCessRule

abbrev pub regime_value : TaxRegime → String
regime_value old = "OLD"
regime_value new = "NEW"

abbrev pub rebate_dto : RebateRow → TaxRebateRule
rebate_dto r = record {
  section_code = r.section;
  taxable_income_threshold = r.threshold_taxable_income;
  max_rebate_amount = r.max_rebate_amount;
  marginal_relief_applicable = true;
}

abbrev pub deduction_dto : String → DeductionRow → TaxDeductionRule
deduction_dto regime d = record {
  deduction_code = d.section;
  deduction_name = d.name;
  max_limit = d.max_limit;
  regime_applicable = regime;
  is_standard_deduction = contains d.section "16(ia)" || contains d.name "Standard";
}

-- The query: the version's financial year, regime and status.
abbrev pub is_active_version : String → TaxRegime → TaxRuleVersion → Bool
is_active_version financial_year regime v =
    str_eq v.financial_year financial_year
    && str_eq v.regime (regime_value regime)
    && str_eq v.status "ACTIVE"

-- The rule set that a version is read as.
abbrev pub rule_set : String → TaxRegime → TaxRuleVersion → TaxRuleSet
rule_set financial_year regime v = record {
  rule_version_code = v.version_code;
  financial_year = financial_year;
  regime = regime;
  slabs = sorted (λ s. s.slab_order) v.slabs;
  rebates = map rebate_dto v.rebates;
  deductions = map (deduction_dto v.regime) v.deductions;
  surcharges = v.surcharges;
  cess_rules = v.cess_rules;
}

-- `get_tax_rule_set`; `none` is RuleNotFoundError.
unfoldable pub get_tax_rule_set : List TaxRuleVersion → String → TaxRegime → Option TaxRuleSet
get_tax_rule_set db financial_year regime =
    elim (find? (is_active_version financial_year regime) db) [
      | none ↦ none
      | some v ↦ some (rule_set financial_year regime v)
    ]
