-- ===== src/Pipeline.antt =====
-- backend/app/core/compliance/verification_service.py: from a changed document to a rule candidate,
-- its review and its approval, with what it asks of rule_impact_analyzer.py. The case of a text, the
-- text of a date, the random id and the clock are parameters or arguments; the parts of the impact
-- report that the service does not read are left out.
pub mod Duties
pub mod Tests
use Prim.Native.String
use Prim.Native.String.{String}
use text.Mathlib.Text.{◌==◌ as str_eq}
use smart_salary_india.Base.{
  ℕ, Bool, true, false, not, ◌&&◌, ◌||◌, Option, none, some, List, [], ◌∷◌, ◌++◌, ltb, find?, any,
  update, if◌then◌else◌,
}
use smart_salary_india.Tax.Rules.{contains}
use smart_salary_india.Supersession.{
  SourceMetadata, get_source, tier_3, RuleDefinition, active, future_officially_notified,
  ChangeDimensionType, document_change, ceiling_change, rate_change, verification_reason,
}

pub data ChangeType : Type 0 where
  new_document content_modified metadata_only formatting_only ocr_difference
        typographical_correction clarification legal_amendment superseding withdrawal :
      ChangeType

pub data CandidateStatus : Type 0 where
  detected pending_verification evidence_verified impact_analyzed regression_passed approval_pending
        approved notified active_rule rejected superseded :
      CandidateStatus

pub record RuleCandidate : Type 0 where
  pub candidate_id : String
  pub rule_id : String
  pub rule_version : String
  pub domain : String
  pub jurisdiction : String
  pub financial_year : String
  pub effective_from : ℕ
  pub effective_to : Option ℕ
  pub formula_expression : String
  pub condition_expression : String
  pub source_id : String
  pub document_id : String
  pub evidence_id : String
  pub change_type : ChangeType
  pub lifecycle_status : CandidateStatus
  pub created_at : String
  pub detector_id : String
  pub reviewer_id : Option String
  pub approver_id : Option String
  pub regression_score : ℕ

-- `_SEEN_DOCUMENTS` and `_CANDIDATES`, with the registry of sources.
pub record PipelineState : Type 0 where
  pub sources : List SourceMetadata
  pub seen_documents : List (String × String)
  pub candidates : List RuleCandidate

pub record DocumentChange : Type 0 where
  pub source_id : String
  pub document_id : String
  pub content_hash : String
  pub diff_text : String
  pub change_type : ChangeType
  pub domain : String
  pub effective_from : ℕ
  pub effective_to : Option ℕ
  pub jurisdiction : String
  pub financial_year : String
  pub rule_id : String
  pub rule_version : String
  pub formula_expr : String
  pub condition_expr : String
  pub evidence_id : String
  pub detector_id : String

pub data PipelineError : Type 0 where
  source_violation candidate_not_found duties_violation activation_gate_error : PipelineError

-- A candidate, or None, or the exception.
pub data Ingested : Type 0 where
  candidate : RuleCandidate → Ingested
  no_candidate : Ingested
  refused : PipelineError → Ingested

pub data Approval : Type 0 where
  activated : RuleDefinition → Approval
  denied : PipelineError → Approval

abbrev pub has_candidate_id : String → RuleCandidate → Bool
has_candidate_id i c = str_eq c.candidate_id i

-- `_CANDIDATES[candidate_id] = candidate`
unfoldable pub store : RuleCandidate → List RuleCandidate → List RuleCandidate
store c cs =
    if any (has_candidate_id c.candidate_id) cs
    then update (has_candidate_id c.candidate_id) (λ _. c) cs
    else cs ++ (c ∷ [])

abbrev pub is_amendment : ChangeType → Bool
is_amendment legal_amendment = true
is_amendment _ = false

abbrev pub pt_states : List String
pt_states = "KA" ∷ "MH" ∷ "DL" ∷ "TN" ∷ "TS" ∷ "WB" ∷ "GJ" ∷ "KL" ∷ "AP" ∷ []

-- `inp.change_type == ChangeDimensionType.CEILING_CHANGE`, for the three types that are passed.
abbrev pub is_ceiling : ChangeDimensionType → Bool
is_ceiling ceiling_change = true
is_ceiling _ = false

abbrev pub is_document : ChangeDimensionType → Bool
is_document document_change = true
is_document _ = false

abbrev pub document_key : DocumentChange → String
document_key d = String.◌++◌ d.source_id (String.◌++◌ ":" d.content_hash)

abbrev pub has_no_reason {ℓ} : {A : Type ℓ} → Option A → Bool
has_no_reason none = true
has_no_reason (some _) = false

-- `run_regression_and_verify` of the candidate found.
unfoldable pub reviewed : String → RuleCandidate → RuleCandidate
reviewed reviewer_id c = record c {
  lifecycle_status = regression_passed;
  reviewer_id = some reviewer_id;
  approver_id = none;
  regression_score = 100;
}

unfoldable pub review_found :
    String → Option RuleCandidate → PipelineState → Ingested × PipelineState
review_found reviewer_id none st = (refused candidate_not_found, st)
review_found reviewer_id (some c) st =
    if str_eq reviewer_id c.detector_id then (refused duties_violation, st) else (
      candidate (reviewed reviewer_id c),
      record st { candidates = store (reviewed reviewer_id c) st.candidates },
    )

-- `run_regression_and_verify`
unfoldable pub run_regression_and_verify :
    String → String → PipelineState → Ingested × PipelineState
run_regression_and_verify candidate_id reviewer_id st =
    review_found reviewer_id (find? (has_candidate_id candidate_id) st.candidates) st

-- `approver_id in (candidate.detector_id, candidate.reviewer_id)`
abbrev pub is_involved : String → RuleCandidate → Bool
is_involved approver_id c =
    str_eq approver_id c.detector_id
    || elim c.reviewer_id [ none ↦ false | some r ↦ str_eq approver_id r ]

abbrev pub has_passed : CandidateStatus → Bool
has_passed regression_passed = true
has_passed _ = false

module _ (upper lower : String → String) (isoformat : ℕ → String) where
  -- The dimension of the change that the analysis is asked about.
  unfoldable pub dimension : DocumentChange → ChangeDimensionType
  dimension d =
      if is_amendment d.change_type
      then if contains (lower d.diff_text) "ceiling" then ceiling_change else rate_change
      else document_change

  -- The domains of `analyze_change` with an impact on calculations: professional tax, provident
  -- fund and income tax.
  unfoldable pub is_calc_impact : DocumentChange → Bool
  is_calc_impact d =
      (contains d.rule_id "PT"
        || contains (upper d.diff_text) "PROFESSIONAL"
        || any (str_eq d.jurisdiction) pt_states)
      || (contains d.rule_id "PF" || contains (upper d.diff_text) "EPF" || is_ceiling (dimension d))
      || (contains d.rule_id "TAX" || contains (upper d.diff_text) "SLAB")

  -- `impact.requires_rule_candidate`
  unfoldable pub requires_rule_candidate : DocumentChange → Bool
  requires_rule_candidate d =
      has_no_reason
        (verification_reason d.source_id d.content_hash d.evidence_id d.jurisdiction (dimension d))
      && not (is_document (dimension d))
      && is_calc_impact d

  unfoldable pub new_candidate : String → String → DocumentChange → RuleCandidate
  new_candidate candidate_id now d = record {
    candidate_id = candidate_id;
    rule_id = d.rule_id;
    rule_version = d.rule_version;
    domain = d.domain;
    jurisdiction = d.jurisdiction;
    financial_year = d.financial_year;
    effective_from = d.effective_from;
    effective_to = d.effective_to;
    formula_expression = d.formula_expr;
    condition_expression = d.condition_expr;
    source_id = d.source_id;
    document_id = d.document_id;
    evidence_id = d.evidence_id;
    change_type = d.change_type;
    lifecycle_status = detected;
    created_at = now;
    detector_id = d.detector_id;
    reviewer_id = none;
    approver_id = none;
    regression_score = 0;
  }

  -- Steps 2 to 5, for a source that is trusted.
  unfoldable pub ingest_trusted :
      String → String → DocumentChange → PipelineState → Ingested × PipelineState
  ingest_trusted candidate_id now d st =
      if any (λ s. str_eq (document_key d) s.0) st.seen_documents
      then (no_candidate, st)
      else let noted = record st {
        seen_documents = (document_key d, d.document_id) ∷ st.seen_documents;
      } in
        if requires_rule_candidate d
        then (
          candidate (new_candidate candidate_id now d),
          record noted { candidates = store (new_candidate candidate_id now d) st.candidates },
        )
        else (no_candidate, noted)

  unfoldable pub ingest_from :
      String
      → String
      → DocumentChange
      → Option SourceMetadata
      → PipelineState
      → Ingested × PipelineState
  ingest_from candidate_id now d none st = (refused source_violation, st)
  ingest_from candidate_id now d (some src) st =
      if ltb tier_3 src.authority_tier
      then (refused source_violation, st)
      else ingest_trusted candidate_id now d st

  -- `ingest_document_change`
  unfoldable pub ingest_document_change :
      String → String → DocumentChange → PipelineState → Ingested × PipelineState
  ingest_document_change candidate_id now d st =
      ingest_from candidate_id now d (get_source d.source_id st.sources) st

  -- The rule of an approved candidate.
  unfoldable pub rule_from : ℕ → RuleCandidate → RuleDefinition
  rule_from today c = record {
    rule_id = c.rule_id;
    rule_code = c.rule_id;
    domain = c.domain;
    jurisdiction = c.jurisdiction;
    tax_year = c.financial_year;
    version = c.rule_version;
    status = if ltb today c.effective_from then future_officially_notified else active;
    effective_from = c.effective_from;
    effective_to = c.effective_to;
    formula_expression = c.formula_expression;
    condition_expression = c.condition_expression;
    evidence_document_id = c.document_id;
    evidence_page = some 1;
    official_url = "https://incometaxindia.gov.in";
    verified_at = isoformat today;
    supersedes_rule_id = none;
    supersedes_rule_version = none;
    superseded_by_rule_id = none;
    superseded_by_rule_version = none;
    superseded_at = none;
    supersession_reason = none;
    rule_bundle_id = none;
    rule_bundle_hash = none;
    evidence_bundle_id = none;
    evidence_bundle_hash = none;
  }

  unfoldable pub approve_found : String → ℕ → Option RuleCandidate → Approval
  approve_found approver_id today none = denied candidate_not_found
  approve_found approver_id today (some c) =
      if is_involved approver_id c
      then denied duties_violation
      else if not (has_passed c.lifecycle_status)
      then denied activation_gate_error
      else activated (rule_from today c)

  -- `approve_and_activate`, which changes no state.
  unfoldable pub approve_and_activate : String → String → ℕ → PipelineState → Approval
  approve_and_activate candidate_id approver_id today st =
      approve_found approver_id today (find? (has_candidate_id candidate_id) st.candidates)
