-- ===== src/Salary/Service/Comparison.antt =====
-- What the two calculations of a regime comparison in backend/app/services/calculation_service.py share.
use Prim.Native.String.{String}
use smart_salary_india.Base.{ℕ, ◌+◌, ◌-◌, ◌≤◌, ◌≡◌, refl, true, Option, none, some, arith}
use smart_salary_india.Base.Int.{ℤ, pos, ◌+ℤ◌, ◌-ℤ◌, ◌≤ℤ◌, abs, int_laws, parts_of_eq, one_part}
use smart_salary_india.Tax.Rules.{TaxRegime, old, new, TaxRuleSet}
use smart_salary_india.Salary.Normalizer.{
  SalaryInput, NormalizedSalary, normalize, Normalized, ok, err,
}
use smart_salary_india.Salary.Pf.{PfRuleSet, calculate_pf}
use smart_salary_india.Salary.Pt.{PtRuleSet, calculate_pt, all}
use smart_salary_india.Salary.Invariants.{Violation}
use smart_salary_india.Salary.Service.{
  Database, Outcome, VerifiedCalculation, RegimeComparison, done, compute, calculate_salary,
  conclude, with_rules, with_normalized, compare_regimes, comparison, compared, get_pf_rule_set,
  calculation,
}
use smart_salary_india.Salary.Service.Laws.{Accounts, IsSound, calculate_salary-IsSound}
use smart_salary_india.Salary.Pt.Seeds.{
  PtRuleResult, found, unknown_state, not_configured, get_pt_rule_set,
}

-- What a result takes from the database and the input, whatever the regime.
abbrev pub Shares : Database → SalaryInput → String → VerifiedCalculation → Type 0
Shares db inp state c =
    (normalize inp ≡ ok c.normalized)
    × ((p : PfRuleSet) × (get_pf_rule_set db.pf_versions inp.financial_year ≡ some p)
        × (c.pf
            ≡ calculate_pf
                (record {
                  pf_wage_base_monthly = c.normalized.pf_wage_base_monthly;
                  is_pf_applicable = true;
                  opt_in_higher_wage = inp.pf_opt_in_higher_wage;
                })
                p))
    × ((q : PtRuleSet) × (get_pt_rule_set db.states db.pt_versions state ≡ found q)
        × (c.pt
            ≡ calculate_pt
                (record {
                  state_code = state;
                  monthly_gross_salary = c.normalized.monthly_gross;
                  gender = all;
                })
                q))

-- An outcome whose result, if it is one, has a property.
abbrev Holds : (VerifiedCalculation → Type 0) → Outcome → Type 0
Holds P (done c) = P c
Holds P _ = Unit

with_rules-Holds :
    (P : VerifiedCalculation → Type 0) (t : Option TaxRuleSet) (p : Option PfRuleSet)
    (q : PtRuleResult) (next : TaxRuleSet → PfRuleSet → PtRuleSet → Outcome)
    → ((t' : TaxRuleSet) (p' : PfRuleSet) (q' : PtRuleSet)
        → p ≡ some p'
        → q ≡ found q'
        → Holds P (next t' p' q'))
    → Holds P (with_rules t p q next)
unfolding with_rules
with_rules-Holds P none p q next h = tt
with_rules-Holds P (some t) none q next h = tt
with_rules-Holds P (some t) (some p) unknown_state next h = tt
with_rules-Holds P (some t) (some p) not_configured next h = tt
with_rules-Holds P (some t) (some p) (found q) next h = h t p q refl refl

with_normalized-Holds :
    (P : VerifiedCalculation → Type 0) (r : Normalized) (next : NormalizedSalary → Outcome)
    → ((n : NormalizedSalary) → r ≡ ok n → Holds P (next n))
    → Holds P (with_normalized r next)
unfolding with_normalized
with_normalized-Holds P (err e) next h = tt
with_normalized-Holds P (ok n) next h = h n refl

conclude-Holds :
    (P : VerifiedCalculation → Type 0) (o : Option Violation) (c : VerifiedCalculation)
    → P c
    → Holds P (conclude o c)
unfolding conclude
conclude-Holds P none c h = h
conclude-Holds P (some v) c h = tt

calculate_salary-Shares :
    (db : Database) (inp : SalaryInput) (regime : TaxRegime) (state : String) (age : ℕ)
    → Holds (Shares db inp state) (calculate_salary db inp regime state age)
unfolding calculate_salary compute calculation
calculate_salary-Shares db inp regime state age =
    with_normalized-Holds (Shares db inp state) (normalize inp) _ λ n en.
      with_rules-Holds (Shares db inp state) _ _ _ _
        λ t p q ep eq. conclude-Holds (Shares db inp state) _ _ (en, (p, ep, refl), (q, eq, refl))

-- The result for a regime in a comparison.
abbrev pub result_of : TaxRegime → RegimeComparison → VerifiedCalculation
result_of old c = c.old_regime
result_of new c = c.new_regime

found_once : (q q' : PtRuleSet) (r : PtRuleResult) → r ≡ found q → r ≡ found q' → q ≡ q'
found_once q q' r e e' = cc

Shares-same :
    (db : Database) (inp : SalaryInput) (state : String) (a b : VerifiedCalculation)
    → Shares db inp state a
    → Shares db inp state b
    → (a.normalized ≡ b.normalized) × (a.pf ≡ b.pf) × (a.pt ≡ b.pt)
Shares-same db inp state a b (na, (p, ep, pa), (q, eq, qa)) (nb, (p', ep', pb), (q', eq', qb)) =
    let n : a.normalized ≡ b.normalized = cc in
    let pp : p ≡ p' = cc in let qq : q ≡ q' = cc in (n, cc, cc)

-- The results of a comparison share all but the tax, and the recommended regime has the larger
-- take-home pay, by the tax difference.
abbrev pub IsFair : RegimeComparison → Type 0
IsFair c =
    (c.old_regime.normalized ≡ c.new_regime.normalized)
    × (c.old_regime.pf ≡ c.new_regime.pf)
    × (c.old_regime.pt ≡ c.new_regime.pt)
    × (c.old_regime.take_home_annual ≤ℤ (result_of c.recommended_regime c).take_home_annual)
    × (c.new_regime.take_home_annual ≤ℤ (result_of c.recommended_regime c).take_home_annual)
    × (abs (c.old_regime.take_home_annual -ℤ c.new_regime.take_home_annual) ≡ c.tax_difference)

less_tax :
    (s t : ℤ) (x y p q o g : ℕ)
    → s +ℤ pos x +ℤ pos p +ℤ pos q +ℤ pos o ≡ pos g
    → t +ℤ pos y +ℤ pos p +ℤ pos q +ℤ pos o ≡ pos g
    → (y ≤ x → s ≤ℤ t) × (x ≤ y → t ≤ℤ s) × (abs (s -ℤ t) ≡ x - y + (y - x))
less_tax s t x y p q o g hs ht =
    let a = parts_of_eq _ _ hs in
    let b = parts_of_eq _ _ ht in
    (
      λ h. omega (int_laws, a, b),
      λ h. omega (int_laws, a, b),
      omega (int_laws, a, b, one_part s, one_part t, one_part (s -ℤ t)),
    )

comparison-IsFair :
    (a b : VerifiedCalculation)
    → (a.normalized ≡ b.normalized) × (a.pf ≡ b.pf) × (a.pt ≡ b.pt)
    → Accounts a
    → Accounts b
    → IsFair (comparison a b)
unfolding comparison
comparison-IsFair a b (n, p, q) sa sb =
    let sb' : b.take_home_annual
          +ℤ pos b.tax.total_annual_tax_liability
          +ℤ pos a.pf.annual_employee_epf
          +ℤ pos a.pt.annual_pt
          +ℤ pos a.normalized.other_employee_deductions
        ≡ pos a.normalized.annual_gross =
      rw (n, p, q) sb in
    let less = less_tax a.take_home_annual b.take_home_annual _ _ _ _ _ _ sa sb' in
    (n, p, q, ground (arith, less), ground (arith, less), less.2)

compared-IsFair :
    (db : Database) (inp : SalaryInput) (state : String) (o₁ o₂ : Outcome) {c : RegimeComparison}
    → compared o₁ o₂ ≡ some c
    → Holds (Shares db inp state) o₁
    → Holds (Shares db inp state) o₂
    → IsSound o₁
    → IsSound o₂
    → IsFair c
unfolding compared
compared-IsFair db inp state (done a) (done b) {c} e ha hb sa sb =
    let same : comparison a b ≡ c = cc in
    rw (← same) (comparison-IsFair a b (Shares-same db inp state a b ha hb) sa sb)
compared-IsFair db inp state (done a) _ e ha hb sa sb = cc
compared-IsFair db inp state _ o₂ e ha hb sa sb = cc

-- In every comparison the two results share the normalized salary, the provident fund and the
-- professional tax, the recommended regime has the larger take-home pay, and the take-home pays
-- differ by the tax difference.
pub compare_regimes-IsFair :
    (db : Database) (inp : SalaryInput) (state : String) (age : ℕ) {c : RegimeComparison}
    → compare_regimes db inp state age ≡ some c
    → IsFair c
unfolding compare_regimes
compare_regimes-IsFair db inp state age e =
    compared-IsFair db inp state _ _ e (calculate_salary-Shares db inp old state age)
      (calculate_salary-Shares db inp new state age) (calculate_salary-IsSound db inp old state age)
      (calculate_salary-IsSound db inp new state age)
