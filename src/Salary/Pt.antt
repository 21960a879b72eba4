-- ===== src/Salary/Pt.antt =====
-- backend/app/engine/professional_tax/pt_calculator.py, over backend/app/engine/dto/pt_dto.py.
pub mod Seeds
pub mod Laws
use Prim.Native.String.{String}
use smart_salary_india.Base.{
  ℕ, ◌+◌, ◌*◌, Bool, true, false, ◌&&◌, ◌||◌, Option, none, some, List, leb, find?, sorted,
}
use smart_salary_india.Money.{quantize}

pub data Gender : Type 0 where
  all male female : Gender

pub record PtCalculationInput : Type 0 where
  pub state_code : String
  pub monthly_gross_salary : ℕ
  pub gender : Gender

pub record PtSlabRule : Type 0 where
  pub slab_order : ℕ
  pub from_monthly_salary : ℕ
  pub to_monthly_salary : Option ℕ
  pub monthly_tax_amount : ℕ
  pub february_tax_amount : Option ℕ
  pub gender_applicable : Gender

pub record PtRuleSet : Type 0 where
  pub state_code : String
  pub state_name : String
  pub rule_version_code : String
  pub slabs : List PtSlabRule

pub record PtCalculationResult : Type 0 where
  pub state_code : String
  pub monthly_pt : ℕ
  pub february_pt : ℕ
  pub annual_pt : ℕ
  pub rule_version_code : String

abbrev pub same_gender : Gender → Gender → Bool
same_gender all all = true
same_gender male male = true
same_gender female female = true
same_gender _ _ = false

-- The tests of the loop over the slabs.
abbrev pub fits : ℕ → Gender → PtSlabRule → Bool
fits monthly_gross gender slab =
    leb slab.from_monthly_salary monthly_gross
    && elim slab.to_monthly_salary [ none ↦ true | some to ↦ leb monthly_gross to ]
    && (same_gender slab.gender_applicable all || same_gender slab.gender_applicable gender)

-- The monthly tax and February's tax of the slab that was found.
abbrev pub amounts : Option PtSlabRule → ℕ × ℕ
amounts none = (0, 0)
amounts (some slab) = (
  slab.monthly_tax_amount,
  elim slab.february_tax_amount [ none ↦ slab.monthly_tax_amount | some february ↦ february ],
)

-- `PtCalculator.calculate_pt`
unfoldable pub calculate_pt : PtCalculationInput → PtRuleSet → PtCalculationResult
calculate_pt inp rules =
    let (monthly, february) =
      amounts (
        find? (fits inp.monthly_gross_salary inp.gender)
          (sorted (λ s. s.slab_order) rules.slabs)) in
    record {
      state_code = rules.state_code;
      monthly_pt = monthly;
      february_pt = february;
      annual_pt = quantize (monthly * 11 + february) 1;
      rule_version_code = rules.rule_version_code;
    }
