-- ===== src/Seeds/TaxRules.antt =====
-- The tax rule versions of backend/app/seeds/seed_reference_data.py, amounts in paise.
use Prim.Native.String.{String}
use smart_salary_india.Base.{ℕ, ◌*◌, true, Option, none, some, List, [], ◌∷◌}
use smart_salary_india.Seeds.{TaxRuleVersion, RebateRow, DeductionRow}
use smart_salary_india.Tax.Rules.{TaxSlabRule, TaxSurchargeRule, TaxCessRule}

abbrev pub rupees : ℕ → ℕ
rupees n = n * 100

abbrev slab : ℕ → ℕ → Option ℕ → ℕ → TaxSlabRule
slab order from_amt to_amt rate = record {
  slab_order = order;
  from_amount = from_amt;
  to_amount = to_amt;
  tax_rate = rate;
}

abbrev pub surcharge_row : ℕ → Option ℕ → ℕ → TaxSurchargeRule
surcharge_row from_inc to_inc rate = record {
  from_income = from_inc;
  to_income = to_inc;
  surcharge_rate = rate;
  marginal_relief_applicable = true;
}

abbrev deduction : String → String → ℕ → DeductionRow
deduction section name limit = record { section = section; name = name; max_limit = some limit }

abbrev pub rebate_87a : ℕ → ℕ → RebateRow
rebate_87a threshold amount = record {
  section = "87A";
  threshold_taxable_income = threshold;
  max_rebate_amount = amount;
}

abbrev pub cess : List TaxCessRule
cess = record { cess_name = "Health and Education Cess"; cess_rate = 400 } ∷ []

abbrev pub new_slabs : List TaxSlabRule
new_slabs =
    slab 1 0 (some (rupees 400_000)) 0
    ∷ slab 2 (rupees 400_000) (some (rupees 800_000)) 500
    ∷ slab 3 (rupees 800_000) (some (rupees 1_200_000)) 1000
    ∷ slab 4 (rupees 1_200_000) (some (rupees 1_600_000)) 1500
    ∷ slab 5 (rupees 1_600_000) (some (rupees 2_000_000)) 2000
    ∷ slab 6 (rupees 2_000_000) (some (rupees 2_400_000)) 2500
    ∷ slab 7 (rupees 2_400_000) none 3000
    ∷ []

abbrev pub new_slabs_2024 : List TaxSlabRule
new_slabs_2024 =
    slab 1 0 (some (rupees 300_000)) 0
    ∷ slab 2 (rupees 300_000) (some (rupees 700_000)) 500
    ∷ slab 3 (rupees 700_000) (some (rupees 1_000_000)) 1000
    ∷ slab 4 (rupees 1_000_000) (some (rupees 1_200_000)) 1500
    ∷ slab 5 (rupees 1_200_000) (some (rupees 1_500_000)) 2000
    ∷ slab 6 (rupees 1_500_000) none 3000
    ∷ []

abbrev pub old_slabs : List TaxSlabRule
old_slabs =
    slab 1 0 (some (rupees 250_000)) 0
    ∷ slab 2 (rupees 250_000) (some (rupees 500_000)) 500
    ∷ slab 3 (rupees 500_000) (some (rupees 1_000_000)) 2000
    ∷ slab 4 (rupees 1_000_000) none 3000
    ∷ []

abbrev pub new_surcharges : List TaxSurchargeRule
new_surcharges =
    surcharge_row (rupees 5_000_000) (some (rupees 10_000_000)) 1000
    ∷ surcharge_row (rupees 10_000_000) (some (rupees 20_000_000)) 1500
    ∷ surcharge_row (rupees 20_000_000) none 2500
    ∷ []

abbrev pub old_surcharges : List TaxSurchargeRule
old_surcharges =
    surcharge_row (rupees 5_000_000) (some (rupees 10_000_000)) 1000
    ∷ surcharge_row (rupees 10_000_000) (some (rupees 20_000_000)) 1500
    ∷ surcharge_row (rupees 20_000_000) (some (rupees 50_000_000)) 2500
    ∷ surcharge_row (rupees 50_000_000) none 3700
    ∷ []

-- Part A of the seed: the new regime of 2025-26 and 2026-27.
abbrev pub new_version : String → String → TaxRuleVersion
new_version code financial_year = record {
  version_code = code;
  financial_year = financial_year;
  regime = "NEW";
  status = "ACTIVE";
  slabs = new_slabs;
  rebates = rebate_87a (rupees 1_200_000) (rupees 60_000) ∷ [];
  deductions = deduction "16(ia)" "Standard Deduction" (rupees 75_000) ∷ [];
  surcharges = new_surcharges;
  cess_rules = cess;
}

-- Part B: the new regime of 2024-25.
abbrev pub new_version_2024 : TaxRuleVersion
new_version_2024 = record {
  version_code = "TRV-2024-25-NEW-v1";
  financial_year = "2024-25";
  regime = "NEW";
  status = "ACTIVE";
  slabs = new_slabs_2024;
  rebates = rebate_87a (rupees 700_000) (rupees 25_000) ∷ [];
  deductions = deduction "16(ia)" "Standard Deduction" (rupees 75_000) ∷ [];
  surcharges = new_surcharges;
  cess_rules = cess;
}

-- Part C: the old regime of all years.
abbrev pub old_version : String → String → TaxRuleVersion
old_version code financial_year = record {
  version_code = code;
  financial_year = financial_year;
  regime = "OLD";
  status = "ACTIVE";
  slabs = old_slabs;
  rebates = rebate_87a (rupees 500_000) (rupees 12_500) ∷ [];
  deductions =
      deduction "16(ia)" "Standard Deduction" (rupees 50_000)
      ∷ deduction "80C" "Section 80C" (rupees 150_000)
      ∷ deduction "80D" "Section 80D Health Insurance" (rupees 25_000)
      ∷ [];
  surcharges = old_surcharges;
  cess_rules = cess;
}

-- The rule versions in the order in which the seed adds them.
abbrev pub seeded : List TaxRuleVersion
seeded =
    new_version "TRV-2025-26-NEW-v1" "2025-26"
    ∷ new_version "TRV-2026-27-NEW-v1" "2026-27"
    ∷ new_version_2024
    ∷ old_version "TRV-2024-25-OLD-v1" "2024-25"
    ∷ old_version "TRV-2025-26-OLD-v1" "2025-26"
    ∷ old_version "TRV-2026-27-OLD-v1" "2026-27"
    ∷ []
