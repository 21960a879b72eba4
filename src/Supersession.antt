-- ===== src/Supersession.antt =====
-- backend/app/core/compliance/rule_supersession_service.py over rule_registry.py and the lookups of
-- source_registry.py, with the verification gate of rule_impact_analyzer.py. The hashes, the text of
-- a date, the upper case of a text and the random event id are parameters; the rest of the impact
-- report, which the service does not read, is left out.
pub mod Registry
pub mod Conditions
pub mod Gates
pub mod Lineage
pub mod Replay
pub mod Tests
use Prim.Native.String
use Prim.Native.String.{String}
use text.Mathlib.Text.{◌==◌ as str_eq}
use smart_salary_india.Base.{
  ℕ, Bool, true, false, not, ◌&&◌, ◌||◌, Option, none, some, List, [], ◌∷◌, ◌++◌, leb, ltb,
  if◌then◌else◌, find?, update, any,
}
use smart_salary_india.Tax.Rules.{contains}

pub data RuleStatus : Type 0 where
  draft proposed supersession_detected pending_verification requires_verification verified approved
        future_officially_notified active superseded historical rejected :
      RuleStatus

pub record RuleDefinition : Type 0 where
  pub rule_id : String
  pub rule_code : String
  pub domain : String
  pub jurisdiction : String
  pub tax_year : String
  pub version : String
  pub status : RuleStatus
  pub effective_from : ℕ
  pub effective_to : Option ℕ
  pub formula_expression : String
  pub condition_expression : String
  pub evidence_document_id : String
  pub evidence_page : Option ℕ
  pub official_url : String
  pub verified_at : String
  pub supersedes_rule_id : Option String
  pub supersedes_rule_version : Option String
  pub superseded_by_rule_id : Option String
  pub superseded_by_rule_version : Option String
  pub superseded_at : Option String
  pub supersession_reason : Option String
  pub rule_bundle_id : Option String
  pub rule_bundle_hash : Option String
  pub evidence_bundle_id : Option String
  pub evidence_bundle_hash : Option String

pub record SourceMetadata : Type 0 where
  pub source_id : String
  pub authority_tier : ℕ
  pub official_url : String

pub record SupersessionEvent : Type 0 where
  pub event_id : String
  pub old_rule_id : String
  pub new_rule_id : String
  pub old_rule_version : String
  pub new_rule_version : String
  pub domain : String
  pub jurisdiction : String
  pub financial_year : String
  pub effective_from : String
  pub superseded_at : String
  pub reason : String
  pub detector_id : String
  pub reviewer_id : String
  pub approver_id : String
  pub old_rule_bundle_hash : String
  pub new_rule_bundle_hash : String
  pub evidence_bundle_hash : String
  pub event_hash : String

pub data ChangeDimensionType : Type 0 where
  rate_change threshold_change ceiling_change floor_change exemption_change deduction_change
        formula_change applicability_change jurisdiction_change effective_date_change expiry_change
        salary_component_change contribution_change employment_type_change employee_category_change
        employer_category_change industry_change document_change wording_change guidance_change
        supersession conflict unknown :
      ChangeDimensionType

-- The registries and the class variables `_EVENTS` and `_SEEN_KEYS`.
pub record ComplianceState : Type 0 where
  pub rules : List RuleDefinition
  pub sources : List SourceMetadata
  pub events : List SupersessionEvent
  pub seen_keys : List String

pub record SupersessionRequest : Type 0 where
  pub old_rule_id : String
  pub new_rule_id : String
  pub new_rule_version : String
  pub new_source_id : String
  pub new_document_id : String
  pub new_evidence_id : String
  pub effective_from : ℕ
  pub effective_to : Option ℕ
  pub new_formula : String
  pub new_condition : String
  pub reason : String
  pub detector_id : String
  pub reviewer_id : String
  pub approver_id : String
  pub diff_text : String
  pub change_type : ChangeDimensionType

pub data SupersessionError : Type 0 where
  separation_of_duties_violation old_rule_not_found source_trust_violation
        supersession_conflict_blocked insufficient_evidence missing_jurisdiction overlapping_rules :
      SupersessionError

-- The triple that the service returns, whose parts a replay may miss; or its exception.
pub data Supersession : Type 0 where
  executed : RuleDefinition → Option RuleDefinition → Option SupersessionEvent → Supersession
  blocked : SupersessionError → Supersession

abbrev pub has_rule_id : String → RuleDefinition → Bool
has_rule_id i r = str_eq r.rule_id i

-- `ComplianceRuleRegistry.get_rule`
abbrev pub get_rule : String → List RuleDefinition → Option RuleDefinition
get_rule i = find? (has_rule_id i)

-- `register_or_update_rule`: a key that is there keeps its place.
unfoldable pub register_or_update_rule : RuleDefinition → List RuleDefinition → List RuleDefinition
register_or_update_rule r rules =
    if any (has_rule_id r.rule_id) rules
    then update (has_rule_id r.rule_id) (λ _. r) rules
    else rules ++ (r ∷ [])

-- `OfficialSourceRegistry.get_source`
abbrev pub get_source : String → List SourceMetadata → Option SourceMetadata
get_source i = find? λ s. str_eq s.source_id i

-- `AuthorityTier.TIER_3_OFFICIAL_CIRCULAR`
abbrev pub tier_3 : ℕ
tier_3 = 3

-- `len({detector_id, reviewer_id, approver_id}) < 3`
abbrev pub are_distinct : String → String → String → Bool
are_distinct a b c = not (str_eq a b) && not (str_eq b c) && not (str_eq a c)

abbrev pub is_conflict : ChangeDimensionType → Bool
is_conflict conflict = true
is_conflict _ = false

-- The gates of `analyze_change` that require a verification: evidence, jurisdiction, conflict.
unfoldable pub verification_reason :
    String → String → String → String → ChangeDimensionType → Option SupersessionError
verification_reason source_id document_hash evidence_id jurisdiction change_type =
    if str_eq source_id "" || str_eq document_hash "" || str_eq evidence_id ""
    then some insufficient_evidence
    else if str_eq jurisdiction "" || str_eq jurisdiction "UNKNOWN"
    then some missing_jurisdiction
    else if is_conflict change_type
    then some overlapping_rules
    else none

-- The result goes on only without a reason to stop.
unfoldable pub unless {ℓ} :
    {A : Type ℓ} → Option SupersessionError → A → (SupersessionError → A) → A
unless none go stop = go
unless (some e) go stop = stop e

-- `new_rule.rule_id if new_status == RuleStatus.ACTIVE else None`
abbrev pub if_active : Bool → String → Option String
if_active true s = some s
if_active false s = none

abbrev pub text_or_empty : Option String → String
text_or_empty none = ""
text_or_empty (some s) = s

-- `SHA-256`, `isoformat` and `upper` are parameters, and so are the readings of a request: the
-- clock as a text, today's date and the random id.
module _ (bundle_hash : RuleDefinition → String) (evidence_hash : String → String → String)
    (event_hash : List (Option String) → String) (isoformat : ℕ → String)
    (upper : String → String) where
  -- The new rule with its lineage pointers, without its hash.
  unfoldable pub new_rule_temp :
      ℕ → SupersessionRequest → SourceMetadata → RuleDefinition → RuleDefinition
  new_rule_temp today q src old_rule = record {
    rule_id = q.new_rule_id;
    rule_code = q.new_rule_id;
    domain = old_rule.domain;
    jurisdiction = old_rule.jurisdiction;
    tax_year = old_rule.tax_year;
    version = q.new_rule_version;
    status = if ltb today q.effective_from then future_officially_notified else active;
    effective_from = q.effective_from;
    effective_to = q.effective_to;
    formula_expression = q.new_formula;
    condition_expression = q.new_condition;
    evidence_document_id = q.new_document_id;
    evidence_page = some 1;
    official_url = src.official_url;
    verified_at = isoformat today;
    supersedes_rule_id = some old_rule.rule_id;
    supersedes_rule_version = some old_rule.version;
    superseded_by_rule_id = none;
    superseded_by_rule_version = none;
    superseded_at = none;
    supersession_reason = some q.reason;
    rule_bundle_id =
        some (String.◌++◌ "RB-" (String.◌++◌ q.new_rule_id (String.◌++◌ "-" q.new_rule_version)));
    rule_bundle_hash = none;
    evidence_bundle_id =
        some (String.◌++◌ "EB-" (String.◌++◌ q.new_rule_id (String.◌++◌ "-" q.new_rule_version)));
    evidence_bundle_hash = some (evidence_hash q.new_evidence_id q.new_document_id);
  }

  unfoldable pub new_rule :
      ℕ → SupersessionRequest → SourceMetadata → RuleDefinition → RuleDefinition
  new_rule today q src old_rule =
      let temp = new_rule_temp today q src old_rule in
      record temp { rule_bundle_hash = some (bundle_hash temp) }

  -- The old rule, which is superseded unless the new one starts later.
  unfoldable pub updated_old_rule :
      String → ℕ → SupersessionRequest → RuleDefinition → RuleDefinition
  updated_old_rule now today q old_rule =
      let is_active = leb q.effective_from today in
      record old_rule {
        status = if ltb today q.effective_from then old_rule.status else superseded;
        superseded_by_rule_id = if_active is_active q.new_rule_id;
        superseded_by_rule_version = if_active is_active q.new_rule_version;
        superseded_at = if_active is_active now;
        supersession_reason = if_active is_active q.reason;
      }

  unfoldable pub supersession_event :
      String → String → SupersessionRequest → RuleDefinition → RuleDefinition → SupersessionEvent
  supersession_event event_id now q old_rule rule =
      let payload =
        some event_id
        ∷ some old_rule.rule_id
        ∷ some rule.rule_id
        ∷ some old_rule.version
        ∷ some rule.version
        ∷ some q.reason
        ∷ some q.detector_id
        ∷ some q.reviewer_id
        ∷ some q.approver_id
        ∷ old_rule.rule_bundle_hash
        ∷ rule.rule_bundle_hash
        ∷ some now
        ∷ [] in
      record {
        event_id = event_id;
        old_rule_id = old_rule.rule_id;
        new_rule_id = rule.rule_id;
        old_rule_version = old_rule.version;
        new_rule_version = rule.version;
        domain = old_rule.domain;
        jurisdiction = old_rule.jurisdiction;
        financial_year = old_rule.tax_year;
        effective_from = isoformat q.effective_from;
        superseded_at = now;
        reason = q.reason;
        detector_id = q.detector_id;
        reviewer_id = q.reviewer_id;
        approver_id = q.approver_id;
        old_rule_bundle_hash = text_or_empty old_rule.rule_bundle_hash;
        new_rule_bundle_hash = text_or_empty rule.rule_bundle_hash;
        evidence_bundle_hash = text_or_empty rule.evidence_bundle_hash;
        event_hash = event_hash payload;
      }

  unfoldable pub idempotency_key : SupersessionRequest → String
  idempotency_key q = String.◌++◌ q.old_rule_id (
      String.◌++◌ ":" (
        String.◌++◌ q.new_rule_id (
          String.◌++◌ ":"
            (String.◌++◌ q.new_rule_version (String.◌++◌ ":" (isoformat q.effective_from))))))

  -- Steps 7 to 11: both rules are registered, the old one first.
  unfoldable pub commit :
      String
      → String
      → ℕ
      → SupersessionRequest
      → SourceMetadata
      → RuleDefinition
      → ComplianceState
      → Supersession × ComplianceState
  commit event_id now today q src old_rule st =
      let old_rule' = updated_old_rule now today q old_rule in
      let rule = new_rule today q src old_rule in
      let event = supersession_event event_id now q old_rule rule in
      (
        executed old_rule' (some rule) (some event),
        record st {
          rules = register_or_update_rule rule (register_or_update_rule old_rule' st.rules);
          events = st.events ++ (event ∷ []);
          seen_keys = idempotency_key q ∷ st.seen_keys;
        },
      )

  -- Step 6: a key that was seen is answered from the registries.
  unfoldable pub once :
      String
      → String
      → ℕ
      → SupersessionRequest
      → SourceMetadata
      → RuleDefinition
      → ComplianceState
      → Supersession × ComplianceState
  once event_id now today q src old_rule st =
      if any (str_eq (idempotency_key q)) st.seen_keys
      then (
        executed old_rule (get_rule q.new_rule_id st.rules) (
            find? (λ e. str_eq e.old_rule_id q.old_rule_id && str_eq e.new_rule_id q.new_rule_id)
              st.events),
        st,
      )
      else commit event_id now today q src old_rule st

  -- Steps 4 and 5: the conflict and the gates of the impact analysis.
  unfoldable pub analyzed :
      String
      → String
      → ℕ
      → SupersessionRequest
      → SourceMetadata
      → RuleDefinition
      → ComplianceState
      → Supersession × ComplianceState
  analyzed event_id now today q src old_rule st =
      if is_conflict q.change_type || contains (upper q.diff_text) "CONFLICT"
      then (blocked supersession_conflict_blocked, st)
      else unless
          (verification_reason q.new_source_id "doc_hash_new" q.new_evidence_id
            old_rule.jurisdiction q.change_type)
          (once event_id now today q src old_rule st) (λ e. (blocked e, st))

  -- Steps 2 and 3: the old rule and a source of the first three tiers.
  unfoldable pub resolved :
      String
      → String
      → ℕ
      → SupersessionRequest
      → Option RuleDefinition
      → Option SourceMetadata
      → ComplianceState
      → Supersession × ComplianceState
  resolved event_id now today q none src st = (blocked old_rule_not_found, st)
  resolved event_id now today q (some old_rule) none st = (blocked source_trust_violation, st)
  resolved event_id now today q (some old_rule) (some src) st =
      if ltb tier_3 src.authority_tier
      then (blocked source_trust_violation, st)
      else analyzed event_id now today q src old_rule st

  -- `execute_supersession`
  unfoldable pub execute_supersession :
      String → String → ℕ → SupersessionRequest → ComplianceState → Supersession × ComplianceState
  execute_supersession event_id now today q st =
      if are_distinct q.detector_id q.reviewer_id q.approver_id
      then resolved event_id now today q (get_rule q.old_rule_id st.rules)
          (get_source q.new_source_id st.sources) st
      else (blocked separation_of_duties_violation, st)
