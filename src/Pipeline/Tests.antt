-- ===== src/Pipeline/Tests.antt =====
-- Runs of backend/app/core/compliance/verification_service.py on an amendment of the slabs.
use Prim.Native.String.{String}
use smart_salary_india.Base.{ℕ, ◌≡◌, refl, none, List, [], ◌∷◌}
use smart_salary_india.Supersession.{verification_reason}
use smart_salary_india.Pipeline.{
  RuleCandidate, legal_amendment, superseding, PipelineState, DocumentChange, denied,
  duties_violation, no_candidate, approve_and_activate, approve_found, ingest_document_change,
  ingest_from, ingest_trusted, requires_rule_candidate, is_calc_impact, dimension, new_candidate,
  store, run_regression_and_verify, review_found, reviewed, rule_from,
}
use smart_salary_india.Pipeline.Duties.{
  PipelineRequest, ingest, review, serve, serve_all, IsTripleKeyed,
  approve_and_activate-IsTripleKeyed,
}

abbrev same_case : String → String
same_case s = s

abbrev isoformat : ℕ → String
isoformat day = "2026-04-01"

abbrev empty_pipeline : PipelineState
empty_pipeline = record {
  sources =
      record {
        source_id = "ACT-2025";
        authority_tier = 1;
        official_url = "https://incometaxindia.gov.in";
      }
      ∷ [];
  seen_documents = [];
  candidates = [];
}

abbrev amendment : DocumentChange
amendment = record {
  source_id = "ACT-2025";
  document_id = "act-2025.pdf";
  content_hash = "h";
  diff_text = "rates";
  change_type = legal_amendment;
  domain = "TAX";
  effective_from = 20_260_401;
  effective_to = none;
  jurisdiction = "INDIA";
  financial_year = "2026-27";
  rule_id = "TAX-2026";
  rule_version = "v2.0";
  formula_expr = "0.25";
  condition_expr = "True";
  evidence_id = "EV-1";
  detector_id = "d";
}

abbrev requests : List PipelineRequest
requests = ingest "C1" "now" amendment ∷ review "C1" "r" ∷ []

abbrev candidate_of_amendment : RuleCandidate
candidate_of_amendment =
    reviewed "r" (new_candidate same_case same_case isoformat "C1" "now" amendment)

approve_and_activate-IsTripleKeyed_example :
    IsTripleKeyed same_case same_case isoformat "C1" "a" 20_260_402
      (rule_from same_case same_case isoformat 20_260_402 candidate_of_amendment)
      (serve_all same_case same_case isoformat requests empty_pipeline)
unfolding serve_all serve ingest_document_change ingest_from ingest_trusted requires_rule_candidate
    is_calc_impact dimension new_candidate store run_regression_and_verify review_found reviewed
    approve_and_activate approve_found verification_reason
approve_and_activate-IsTripleKeyed_example =
    approve_and_activate-IsTripleKeyed same_case same_case isoformat requests empty_pipeline "C1"
      "a" 20_260_402 tt refl

-- The reviewer cannot approve.
approval_by_reviewer :
    approve_and_activate same_case same_case isoformat "C1" "r" 20_260_402
      (serve_all same_case same_case isoformat requests empty_pipeline)
    ≡ denied duties_violation
unfolding serve_all serve ingest_document_change ingest_from ingest_trusted requires_rule_candidate
    is_calc_impact dimension new_candidate store run_regression_and_verify review_found reviewed
    approve_and_activate approve_found verification_reason
approval_by_reviewer = refl

-- A document that supersedes another one makes no candidate and is remembered.
superseding_lost :
    (ingest_document_change same_case same_case isoformat "C1" "now"
      (record amendment { change_type = superseding })
      empty_pipeline)
    ≡ (no_candidate, record empty_pipeline { seen_documents = ("ACT-2025:h", "act-2025.pdf") ∷ [] })
unfolding ingest_document_change ingest_from ingest_trusted requires_rule_candidate is_calc_impact
    dimension verification_reason
superseding_lost = refl
