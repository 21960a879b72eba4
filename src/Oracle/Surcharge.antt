-- ===== src/Oracle/Surcharge.antt =====
-- The engine's surcharge, relief, cess and final rounding give the oracle's total.
use native.Mathlib.Decide.{dec_lt, ℕ_discrete}
use smart_salary_india.Base.{
  Option, zero, suc, sym, ap, List, [], ◌∷◌, min, find?, some, none, true, ◌∙◌, ◌||◌, ℕ, ◌+◌, ◌-◌,
  ◌*◌, ◌≤◌, ◌<◌, ◌≡◌, refl, arith, leb,
}
use smart_salary_india.Money.{quantize, rate_unit}
use smart_salary_india.Tax.Relief.{
  in_bracket, calculate_surcharge, max_allowed_total, tax_on_threshold, prev_surcharge_rate,
  calculate_surcharge_marginal_relief,
}
use smart_salary_india.Tax.Relief.Bounds.{tax-le-max_allowed_total, surcharge_relief-min}
use smart_salary_india.Tax.Calculator.{net_tax}
use smart_salary_india.Tax.Rules.{TaxSurchargeRule}
use smart_salary_india.Seeds.TaxRules.{surcharge_row, new_surcharges, old_surcharges}
use smart_salary_india.Oracle.{paise, quantize_inr, bracket, prev_rate, allowed, compute_surcharge}

-- An oracle amount that is whole in paise is rounded as the engine rounds it.
pub quantize_inr-quantize :
    (n percent : ℕ)
    → quantize_inr (n * 100) percent ≡ quantize (n * (percent * 100)) rate_unit * 100
unfolding quantize_inr
quantize_inr-quantize n percent =
    let same : n * 100 * percent ≡ n * (percent * 100) = grind arith in rw same refl

prev_rate-percent : (threshold : ℕ) → prev_rate threshold * 100 ≡ prev_surcharge_rate threshold
unfolding prev_rate prev_surcharge_rate
prev_rate-percent threshold = ground arith

allowed-max_allowed_total :
    (x tax threshold : ℕ)
    → allowed x (tax * 100) threshold ≡ max_allowed_total tax threshold (x - threshold) * 100
unfolding allowed max_allowed_total tax_on_threshold
allowed-max_allowed_total x tax threshold =
    let q = quantize ((x - threshold) * 3000) rate_unit in
    let base : tax * 100 - q * 100 ≡ (tax - q) * 100 = omega arith in
    rw (quantize_inr-quantize (x - threshold) 30) (
      rw base (
        rw (quantize_inr-quantize (tax - q) (prev_rate threshold))
          (rw (prev_rate-percent threshold) (omega arith))))

-- The engine's tax and surcharge less the relief, under surcharge rules.
abbrev pub net : ℕ → ℕ → List TaxSurchargeRule → ℕ
net x tax rules =
    let surcharge = calculate_surcharge x tax rules in
    net_tax tax surcharge (calculate_surcharge_marginal_relief x tax surcharge rules)

-- The same for a bracket that has been found.
net_in : ℕ → ℕ → ℕ → ℕ → ℕ
net_in x tax rate threshold =
    min (tax + quantize (tax * rate) rate_unit) (max_allowed_total tax threshold (x - threshold))

calculate_surcharge-found :
    (x tax : ℕ) {r : TaxSurchargeRule} (rules : List TaxSurchargeRule)
    → find? (in_bracket x) rules ≡ some r
    → 0 < tax
    → calculate_surcharge x tax rules ≡ quantize (tax * r.surcharge_rate) rate_unit
unfolding calculate_surcharge
calculate_surcharge-found x tax [] e h = cc
calculate_surcharge-found x tax (q ∷ rules) e h = rw e (ground arith)

net-found :
    (x tax : ℕ) {r : TaxSurchargeRule} (rules : List TaxSurchargeRule)
    → find? (in_bracket x) rules ≡ some r
    → r.marginal_relief_applicable ≡ true
    → 0 < tax
    → net x tax rules ≡ net_in x tax r.surcharge_rate r.from_income
unfolding net_in
net-found x tax {r} rules e a h =
    surcharge_relief-min x tax (calculate_surcharge x tax rules) rules e a
    ∙ rw (calculate_surcharge-found x tax rules e h) refl

-- Without a bracket, or without a tax, there is no surcharge.
net-none :
    (x tax : ℕ) (rules : List TaxSurchargeRule)
    → find? (in_bracket x) rules ≡ none
    → net x tax rules ≡ tax
unfolding calculate_surcharge calculate_surcharge_marginal_relief
net-none x tax rules e = rw e (ground arith)

net-zero : (x : ℕ) (rules : List TaxSurchargeRule) → net x 0 rules ≡ 0
unfolding calculate_surcharge calculate_surcharge_marginal_relief
net-zero x rules = refl

-- At the lower end of the first bracket the relief takes the surcharge back.
net_in-start : (tax rate : ℕ) → net_in (paise 5_000_000) tax rate (paise 5_000_000) ≡ tax
unfolding net_in max_allowed_total tax_on_threshold prev_surcharge_rate quantize
net_in-start tax rate = omega arith

-- The oracle's tax and surcharge, for a bracket that applies.
oracle-bracket :
    (x tax percent threshold : ℕ)
    → bracket x ≡ (percent, threshold)
    → 0 < tax
    → paise 5_000_000 < x
    → tax * 100 + (compute_surcharge x (tax * 100)).0 ≡ net_in x tax (percent * 100) threshold * 100
unfolding compute_surcharge net_in
oracle-bracket x tax percent threshold e h k =
    let most = max_allowed_total tax threshold (x - threshold) in
    rw e (
      rw (quantize_inr-quantize tax percent) (
        rw (allowed-max_allowed_total x tax threshold)
          (ground (arith, tax-le-max_allowed_total tax threshold (x - threshold)))))

oracle-none :
    (x tax : ℕ)
    → leb tax 0 || leb x (paise 5_000_000) ≡ true
    → tax * 100 + (compute_surcharge x (tax * 100)).0 ≡ tax * 100
unfolding compute_surcharge
oracle-none x tax h = ground arith

-- One bracket of the rules and of the oracle.
bracket-same :
    (x tax percent : ℕ) {r : TaxSurchargeRule} (rules : List TaxSurchargeRule)
    → find? (in_bracket x) rules ≡ some r
    → r.marginal_relief_applicable ≡ true
    → bracket x ≡ (percent, r.from_income)
    → r.surcharge_rate ≡ percent * 100
    → paise 5_000_000 < x
    → net x tax rules * 100 ≡ tax * 100 + (compute_surcharge x (tax * 100)).0
bracket-same x zero percent rules e a b rate h =
    rw (net-zero x rules) (omega (arith, oracle-none x 0 refl))
bracket-same x (suc t) percent {r} rules e a b rate h =
    ap (λ n. n * 100) (net-found x (suc t) rules e a (omega arith))
    ∙ rw rate (sym (oracle-bracket x (suc t) percent r.from_income b (omega arith) h))

below-same :
    (x tax : ℕ) (rules : List TaxSurchargeRule)
    → find? (in_bracket x) rules ≡ none
    → x ≤ paise 5_000_000
    → net x tax rules * 100 ≡ tax * 100 + (compute_surcharge x (tax * 100)).0
below-same x tax rules e h =
    rw (net-none x tax rules e) (omega (arith, oracle-none x tax (ground arith)))

start-same :
    (tax : ℕ) {r : TaxSurchargeRule} (rules : List TaxSurchargeRule)
    → find? (in_bracket (paise 5_000_000)) rules ≡ some r
    → r.marginal_relief_applicable ≡ true
    → r.from_income ≡ paise 5_000_000
    → net (paise 5_000_000) tax rules * 100
      ≡ tax * 100 + (compute_surcharge (paise 5_000_000) (tax * 100)).0
start-same zero rules e a f =
    rw (net-zero (paise 5_000_000) rules) (omega (arith, oracle-none (paise 5_000_000) 0 refl))
start-same (suc t) {r} rules e a f =
    ap (λ n. n * 100)
      (net-found (paise 5_000_000) (suc t) rules e a (omega arith)
        ∙ rw f (net_in-start (suc t) r.surcharge_rate))
    ∙ sym (oracle-none (paise 5_000_000) (suc t) (ground arith))

-- Where an income lies among the brackets.
pub data Level (x : ℕ) : Type 0 where
  below : x < paise 5_000_000 → Level x
  start : x ≡ paise 5_000_000 → Level x
  first : paise 5_000_000 < x → x ≤ paise 10_000_000 → Level x
  second : paise 10_000_000 < x → x ≤ paise 20_000_000 → Level x
  third : paise 20_000_000 < x → Level x

pub level : (x : ℕ) → Level x
level x = elim (dec_lt x (paise 5_000_000)) [
  | yes h ↦ below h
  | no h ↦ elim (ℕ_discrete x (paise 5_000_000)) [
    | yes e ↦ start e
    | no ne ↦ elim (dec_lt (paise 10_000_000) x) [
      | no le ↦ first (omega arith) (omega arith)
      | yes h1 ↦ elim (dec_lt (paise 20_000_000) x) [
        | no le ↦ second h1 (omega arith)
        | yes h2 ↦ third h2
      ]
    ]
  ]
]

abbrev first_row : TaxSurchargeRule
first_row = surcharge_row (paise 5_000_000) (some (paise 10_000_000)) 1000

abbrev second_row : TaxSurchargeRule
second_row = surcharge_row (paise 10_000_000) (some (paise 20_000_000)) 1500

abbrev third_row : Option ℕ → TaxSurchargeRule
third_row to_income = surcharge_row (paise 20_000_000) to_income 2500

pub net_new-Level :
    (x tax : ℕ)
    → Level x
    → net x tax new_surcharges * 100 ≡ tax * 100 + (compute_surcharge x (tax * 100)).0
unfolding bracket
net_new-Level x tax (below h) = below-same x tax new_surcharges (ground arith) (omega arith)
net_new-Level x tax (start e) = rw e (start-same tax new_surcharges refl refl refl)
net_new-Level x tax (first h k) =
    bracket-same x tax 10 {r = first_row} new_surcharges (ground arith) refl (ground arith) refl h
net_new-Level x tax (second h k) =
    bracket-same x tax 15 {r = second_row} new_surcharges (ground arith) refl (ground arith) refl
      (omega arith)
net_new-Level x tax (third h) =
    bracket-same x tax 25 {r = third_row none} new_surcharges (ground arith) refl (ground arith)
      refl (omega arith)

pub net_old-Level :
    (x tax : ℕ)
    → x ≤ paise 50_000_000
    → Level x
    → net x tax old_surcharges * 100 ≡ tax * 100 + (compute_surcharge x (tax * 100)).0
unfolding bracket
net_old-Level x tax w (below h) = below-same x tax old_surcharges (ground arith) (omega arith)
net_old-Level x tax w (start e) = rw e (start-same tax old_surcharges refl refl refl)
net_old-Level x tax w (first h k) =
    bracket-same x tax 10 {r = first_row} old_surcharges (ground arith) refl (ground arith) refl h
net_old-Level x tax w (second h k) =
    bracket-same x tax 15 {r = second_row} old_surcharges (ground arith) refl (ground arith) refl
      (omega arith)
net_old-Level x tax w (third h) =
    bracket-same x tax 25 {r = third_row (some (paise 50_000_000))} old_surcharges (ground arith)
      refl (ground arith) refl (omega arith)
