-- ===== src/Analytics/Anomaly.antt =====
-- backend/app/engine/analytics/anomaly_engine.py. Amounts are in paise, ratios in ten-thousandths.
-- The texts of a report, which repeat its numbers, are left out.
use Prim.Native.String.{String}
use smart_salary_india.Base.{
  ℕ, ◌*◌, ◌≤◌, ◌≡◌, refl, ◌&&◌, Bool, true, false, Option, none, some, leb, if◌then◌else◌,
  Bool-cases, inl, inr, arith,
}
use smart_salary_india.Base.Int.{
  ℤ, pos, negsuc, pos_part, ◌+ℤ◌, ◌-ℤ◌, abs, ltb_ℤ, eq_of_parts, int_laws,
}
use smart_salary_india.Payroll.{half_even}

pub data AnomalySeverity : Type 0 where
  info warning high critical : AnomalySeverity

pub record AnomalyPolicy : Type 0 where
  pub percentage_threshold : ℕ
  pub absolute_threshold_rupees : ℕ
  pub lookback_periods : ℕ
  pub severity : AnomalySeverity

abbrev pub default_policy : AnomalyPolicy
default_policy = record {
  percentage_threshold = 2500;
  absolute_threshold_rupees = 2_500_000;
  lookback_periods = 3;
  severity = warning;
}

pub record AnomalyReport : Type 0 where
  pub is_anomaly : Bool
  pub severity : AnomalySeverity
  pub field_name : String
  pub previous_value : ℤ
  pub current_value : ℤ
  pub percentage_delta : ℕ
  pub absolute_delta : ℕ

abbrev pub policy_or_default : Option AnomalyPolicy → AnomalyPolicy
policy_or_default none = default_policy
policy_or_default (some p) = p

-- `(abs_delta / previous_value).quantize(Decimal("0.0001"))` of a positive value, else 0.
unfoldable pub percentage_of : ℕ → ℤ → ℕ
percentage_of abs_delta previous_value =
    if ltb_ℤ (pos 0) previous_value
    then half_even (abs_delta * 10_000) (pos_part previous_value)
    else 0

-- `evaluate_variance`
unfoldable pub evaluate_variance : String → ℤ → ℤ → Option AnomalyPolicy → Option AnomalyReport
evaluate_variance field_name previous_value current_value policy =
    let pol = policy_or_default policy in
    let abs_delta = abs (current_value -ℤ previous_value) in
    let pct_delta = percentage_of abs_delta previous_value in
    if leb pol.percentage_threshold pct_delta && leb pol.absolute_threshold_rupees abs_delta
    then some record {
      is_anomaly = true;
      severity = if leb 5000 pct_delta then high else pol.severity;
      field_name = field_name;
      previous_value = previous_value;
      current_value = current_value;
      percentage_delta = pct_delta;
      absolute_delta = abs_delta;
    }
    else none

abbrev pub is_reported {ℓ} : {A : Type ℓ} → Option A → Bool
is_reported none = false
is_reported (some _) = true

up_and_back : (p d : ℤ) → p +ℤ d -ℤ p ≡ d
up_and_back p d = eq_of_parts _ _ (omega int_laws)

down_and_back : (p d : ℤ) → p -ℤ d -ℤ p ≡ pos 0 -ℤ d
down_and_back p d = eq_of_parts _ _ (omega int_laws)

abs-opposite : (d : ℤ) → abs (pos 0 -ℤ d) ≡ abs d
unfolding ◌-ℤ◌
abs-opposite (pos n) = ground arith
abs-opposite (negsuc n) = ground arith

-- A rise is reported exactly if a fall by the same amount is.
pub evaluate_variance-opposite :
    (field_name : String) (previous d : ℤ) (policy : Option AnomalyPolicy)
    → is_reported (evaluate_variance field_name previous (previous +ℤ d) policy)
      ≡ is_reported (evaluate_variance field_name previous (previous -ℤ d) policy)
unfolding evaluate_variance
evaluate_variance-opposite field_name previous d policy =
    let pol = policy_or_default policy in
    let pct = percentage_of (abs d) previous in
    rw (up_and_back previous d, down_and_back previous d, abs-opposite d)
      elim (Bool-cases
        (leb pol.percentage_threshold pct && leb pol.absolute_threshold_rupees (abs d))) [
          | inl t ↦ rw t refl
          | inr f ↦ rw f refl
        ]

-- From nothing, or from a negative value, no rise is reported, if the policy asks for a percentage.
pub evaluate_variance-baseline :
    (field_name : String) (previous current : ℤ) (policy : Option AnomalyPolicy)
    → ltb_ℤ (pos 0) previous ≡ false
    → 1 ≤ (policy_or_default policy).percentage_threshold
    → evaluate_variance field_name previous current policy ≡ none
unfolding evaluate_variance percentage_of
evaluate_variance-baseline field_name previous current policy h p =
    let below : leb (policy_or_default policy).percentage_threshold 0 ≡ false = ground arith in
    rw (h, below) refl
