-- ===== src/Salary/Pt/Seeds.antt =====
-- The professional tax slabs of backend/app/seeds/seed_reference_data.py, by state, and
-- backend/app/repositories/pt_rule_repository.py, which reads them back.
use Prim.Native.String.{String}
use text.Mathlib.Text.{◌==◌ as str_eq}
use smart_salary_india.Base.{
  ℕ, ◌&&◌, Option, none, some, List, [], ◌∷◌, find?, sorted, if◌then◌else◌,
}
use smart_salary_india.Salary.Pt.{all, PtSlabRule, PtRuleSet}

-- An active or inactive professional tax version with its state and slabs.
pub record PtRuleVersion : Type 0 where
  pub state_code : String
  pub version_code : String
  pub status : String
  pub slabs : List PtSlabRule

-- A row of the states table.
pub record State : Type 0 where
  pub code : String
  pub name : String

pub data PtRuleResult : Type 0 where
  found : PtRuleSet → PtRuleResult
  unknown_state not_configured : PtRuleResult

abbrev slab : ℕ → ℕ → Option ℕ → ℕ → ℕ → PtSlabRule
slab order from to monthly february = record {
  slab_order = order;
  from_monthly_salary = from;
  to_monthly_salary = to;
  monthly_tax_amount = monthly;
  february_tax_amount = some february;
  gender_applicable = all;
}

-- Delhi levies no professional tax.
abbrev pub delhi : PtRuleSet
delhi = record {
  state_code = "DL";
  state_name = "Delhi";
  rule_version_code = "PTRV-DL-EXEMPT";
  slabs = slab 1 0 none 0 0 ∷ [];
}

-- The end of `get_pt_rule_set`: a version without slabs is not configured.
abbrev pub hydrate : State → PtRuleVersion → PtRuleResult
hydrate state v = elim v.slabs [
  | [] ↦ not_configured
  | _ ∷ _ ↦ found (record {
    state_code = state.code;
    state_name = state.name;
    rule_version_code = v.version_code;
    slabs = sorted (λ s. s.slab_order) v.slabs;
  })
]

-- `get_pt_rule_set`
unfoldable pub get_pt_rule_set : List State → List PtRuleVersion → String → PtRuleResult
get_pt_rule_set states versions state_code = elim (find? (λ s. str_eq s.code state_code) states) [
  | none ↦ unknown_state
  | some state ↦
      if str_eq state_code "DL"
      then found delhi
      else elim (find? (λ v. str_eq v.state_code state_code && str_eq v.status "ACTIVE") versions) [
        | none ↦ not_configured
        | some v ↦ hydrate state v
      ]
]

abbrev version : String → String → List PtSlabRule → PtRuleVersion
version state code slabs = record {
  state_code = state;
  version_code = code;
  status = "ACTIVE";
  slabs = slabs;
}

abbrev pub karnataka : PtRuleVersion
karnataka =
    version "KA" "PTRV-KA-v1"
      (slab 1 0 (some 1_499_999) 0 0 ∷ slab 2 1_500_000 none 20_000 20_000 ∷ [])

abbrev pub maharashtra : PtRuleVersion
maharashtra = version "MH" "PTRV-MH-v1" (
    slab 1 0 (some 750_000) 0 0
    ∷ slab 2 750_100 (some 1_000_000) 17_500 17_500
    ∷ slab 3 1_000_100 none 20_000 30_000
    ∷ [])

abbrev pub telangana : PtRuleVersion
telangana = version "TS" "PTRV-TS-v1" (
    slab 1 0 (some 1_500_000) 0 0
    ∷ slab 2 1_500_100 (some 2_000_000) 15_000 15_000
    ∷ slab 3 2_000_100 none 20_000 20_000
    ∷ [])

abbrev pub west_bengal : PtRuleVersion
west_bengal = version "WB" "PTRV-WB-v1" (
    slab 1 0 (some 1_000_000) 0 0
    ∷ slab 2 1_000_100 (some 1_500_000) 11_000 11_000
    ∷ slab 3 1_500_100 (some 2_500_000) 13_000 13_000
    ∷ slab 4 2_500_100 (some 4_000_000) 15_000 15_000
    ∷ slab 5 4_000_100 none 20_000 20_000
    ∷ [])

abbrev pub gujarat : PtRuleVersion
gujarat =
    version "GJ" "PTRV-GJ-v1"
      (slab 1 0 (some 1_200_000) 0 0 ∷ slab 2 1_200_100 none 20_000 20_000 ∷ [])

abbrev pub tamil_nadu : PtRuleVersion
tamil_nadu = version "TN" "PTRV-TN-v1" (
    slab 1 0 (some 2_100_000) 0 0
    ∷ slab 2 2_100_100 (some 5_000_000) 10_417 10_413
    ∷ slab 3 5_000_100 none 20_833 20_837
    ∷ [])

-- The versions in the order in which the seed adds them.
abbrev pub seeded_pt : List PtRuleVersion
seeded_pt = karnataka ∷ maharashtra ∷ telangana ∷ west_bengal ∷ gujarat ∷ tamil_nadu ∷ []
