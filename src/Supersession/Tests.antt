-- ===== src/Supersession/Tests.antt =====
-- Runs of backend/app/core/compliance/rule_supersession_service.py on the income tax rules of two
-- years.
use Prim.Native.String.{String}
use smart_salary_india.Base.{ℕ, ◌≡◌, ◌⊎◌, refl, true, false, Option, none, some, List, [], ◌∷◌}
use smart_salary_india.Supersession.{
  RuleDefinition, active, ComplianceState, SupersessionRequest, rate_change, blocked,
  separation_of_duties_violation, get_rule, execute_supersession, resolved, analyzed, unless,
  verification_reason, once, commit, new_rule, new_rule_temp, updated_old_rule,
  register_or_update_rule, idempotency_key,
}
use smart_salary_india.Supersession.Conditions.{IsAuthorized}
use smart_salary_india.Supersession.Gates.{is_executed, execute_supersession-IsAuthorized}
use smart_salary_india.Supersession.Lineage.{
  IsLinked, content, execute_supersession-IsLinked, execute_supersession-content,
}
use smart_salary_india.Supersession.Replay.{execute_supersession-again}

abbrev bundle_hash : RuleDefinition → String
bundle_hash r = r.formula_expression

abbrev evidence_hash : String → String → String
evidence_hash evidence document = evidence

abbrev event_hash : List (Option String) → String
event_hash payload = "event"

abbrev isoformat : ℕ → String
isoformat day = "2026-04-01"

abbrev upper : String → String
upper s = s

abbrev rule_of : String → String → RuleDefinition
rule_of i year = record {
  rule_id = i;
  rule_code = "SLABS";
  domain = "TAX";
  jurisdiction = "INDIA";
  tax_year = year;
  version = "1.0";
  status = active;
  effective_from = 20_250_401;
  effective_to = none;
  formula_expression = "0.30";
  condition_expression = "regime == 'NEW'";
  evidence_document_id = "act.pdf";
  evidence_page = some 15;
  official_url = "https://incometax.gov.in";
  verified_at = "2025-07-23";
  supersedes_rule_id = none;
  supersedes_rule_version = none;
  superseded_by_rule_id = none;
  superseded_by_rule_version = none;
  superseded_at = none;
  supersession_reason = none;
  rule_bundle_id = none;
  rule_bundle_hash = none;
  evidence_bundle_id = none;
  evidence_bundle_hash = none;
}

abbrev registries : ComplianceState
registries = record {
  rules = rule_of "TAX-2025" "2025-26" ∷ rule_of "TAX-OLD" "ALL" ∷ [];
  sources =
      record {
        source_id = "ACT-2025";
        authority_tier = 1;
        official_url = "https://incometaxindia.gov.in";
      }
      ∷ [];
  events = [];
  seen_keys = [];
}

abbrev amendment : SupersessionRequest
amendment = record {
  old_rule_id = "TAX-2025";
  new_rule_id = "TAX-2026";
  new_rule_version = "1.0";
  new_source_id = "ACT-2025";
  new_document_id = "act-2025.pdf";
  new_evidence_id = "EV-1";
  effective_from = 20_260_401;
  effective_to = none;
  new_formula = "0.25";
  new_condition = "regime == 'NEW'";
  reason = "amendment";
  detector_id = "d";
  reviewer_id = "r";
  approver_id = "a";
  diff_text = "rates";
  change_type = rate_change;
}

amendment_executed :
    is_executed
      (execute_supersession bundle_hash evidence_hash event_hash isoformat upper "E1" "now"
        20_260_402 amendment registries).0
    ≡ true
unfolding execute_supersession resolved analyzed unless verification_reason once commit
amendment_executed = refl

-- Two roles in one hand are refused.
one_hand :
    (execute_supersession bundle_hash evidence_hash event_hash isoformat upper "E1" "now" 20_260_402
      (record amendment { approver_id = "d" })
      registries).0
    ≡ blocked separation_of_duties_violation
unfolding execute_supersession
one_hand = refl

-- A new id that a rule has already overwrites the formula of that rule.
abbrev formula_of : Option RuleDefinition → String
formula_of none = ""
formula_of (some r) = r.formula_expression

overwritten :
    formula_of (
      get_rule "TAX-OLD"
        (execute_supersession bundle_hash evidence_hash event_hash isoformat upper "E1" "now"
          20_260_402
          (record amendment { new_rule_id = "TAX-OLD" })
          registries).1.rules)
    ≡ "0.25"
unfolding execute_supersession resolved analyzed unless verification_reason once commit new_rule
    new_rule_temp updated_old_rule register_or_update_rule idempotency_key
overwritten = refl

execute_supersession-IsAuthorized_example :
    ((is_executed
          (execute_supersession bundle_hash evidence_hash event_hash isoformat upper "E1" "now"
            20_260_402 amendment registries).0
        ≡ true)
      × IsAuthorized upper amendment registries)
    ⊎ ((is_executed
            (execute_supersession bundle_hash evidence_hash event_hash isoformat upper "E1" "now"
              20_260_402 amendment registries).0
          ≡ false)
        × ((execute_supersession bundle_hash evidence_hash event_hash isoformat upper "E1" "now"
              20_260_402 amendment registries).1
            ≡ registries)
        × (¬ (IsAuthorized upper amendment registries)))
execute_supersession-IsAuthorized_example =
    execute_supersession-IsAuthorized bundle_hash evidence_hash event_hash isoformat upper "E1"
      "now" 20_260_402 amendment registries

execute_supersession-IsLinked_example :
    IsLinked 20_260_402 amendment registries.rules
      (execute_supersession bundle_hash evidence_hash event_hash isoformat upper "E1" "now"
        20_260_402 amendment registries).1.rules
execute_supersession-IsLinked_example =
    execute_supersession-IsLinked bundle_hash evidence_hash event_hash isoformat upper "E1" "now"
      20_260_402 amendment registries refl refl amendment_executed

execute_supersession-content_example :
    content (
      get_rule "TAX-2025"
        (execute_supersession bundle_hash evidence_hash event_hash isoformat upper "E1" "now"
          20_260_402 amendment registries).1.rules)
    ≡ content (get_rule "TAX-2025" registries.rules)
execute_supersession-content_example =
    execute_supersession-content bundle_hash evidence_hash event_hash isoformat upper "E1" "now"
      20_260_402 amendment registries "TAX-2025" refl

execute_supersession-again_example :
    (execute_supersession bundle_hash evidence_hash event_hash isoformat upper "E2" "later"
      20_260_403 amendment
      (execute_supersession bundle_hash evidence_hash event_hash isoformat upper "E1" "now"
        20_260_402 amendment registries).1).1
    ≡ (execute_supersession bundle_hash evidence_hash event_hash isoformat upper "E1" "now"
        20_260_402 amendment registries).1
execute_supersession-again_example =
    execute_supersession-again bundle_hash evidence_hash event_hash isoformat upper "E1" "now" "E2"
      "later" 20_260_402 20_260_403 amendment registries amendment_executed
