-- ===== src/Pipeline/Duties.antt =====
-- The three keys of backend/app/core/compliance/verification_service.py over any sequence of
-- documents and reviews.
use Prim.Native.String.{String}
use text.Mathlib.Text.{◌==◌ as str_eq}
use text.Mathlib.TextPositions.{eq_refl}
use smart_salary_india.Base.{
  ℕ, ◌≡◌, refl, sym, ap, subst, ◌∙◌, Bool, true, false, not, ◌||◌, Option, none, some, List, [],
  ◌∷◌, ltb, find?, any, update, All, append-All, find-All, Bool-cases, inl, inr, arith,
}
use smart_salary_india.Supersession.{RuleDefinition, SourceMetadata, are_distinct, tier_3}
use smart_salary_india.Supersession.Registry.{same_id}
use smart_salary_india.Pipeline.{
  CandidateStatus, detected, pending_verification, evidence_verified, impact_analyzed,
  regression_passed, approval_pending, approved, notified, active_rule, rejected, superseded,
  RuleCandidate, PipelineState, DocumentChange, Approval, activated, denied, candidate_not_found,
  duties_violation, activation_gate_error, has_candidate_id, store, document_key, reviewed,
  review_found, run_regression_and_verify, is_involved, has_passed, requires_rule_candidate,
  new_candidate, ingest_trusted, ingest_from, ingest_document_change, rule_from, approve_found,
  approve_and_activate,
}

-- A candidate is detected and has no reviewer, or it has passed under a reviewer who is not its
-- detector.
abbrev pub is_clean : CandidateStatus → Option String → String → Bool
is_clean detected none detector = true
is_clean regression_passed (some reviewer) detector = not (str_eq reviewer detector)
is_clean _ _ detector = false

abbrev pub IsClean : RuleCandidate → Type 0
IsClean c = is_clean c.lifecycle_status c.reviewer_id c.detector_id ≡ true

pub data PipelineRequest : Type 0 where
  ingest : String → String → DocumentChange → PipelineRequest
  review : String → String → PipelineRequest

update-IsClean :
    (c : RuleCandidate) (cs : List RuleCandidate)
    → IsClean c
    → All IsClean cs
    → All IsClean (update (has_candidate_id c.candidate_id) (λ _. c) cs)
update-IsClean c [] h a = tt
update-IsClean c (x ∷ cs) h a =
    let rest = update-IsClean c cs h a.1 in
    elim (Bool-cases (has_candidate_id c.candidate_id x)) [
      | inl t ↦ rw t (h, rest)
      | inr f ↦ rw f (a.0, rest)
    ]

store-IsClean :
    (c : RuleCandidate) (cs : List RuleCandidate)
    → IsClean c
    → All IsClean cs
    → All IsClean (store c cs)
unfolding store
store-IsClean c cs h a = elim (Bool-cases (any (has_candidate_id c.candidate_id) cs)) [
  | inl t ↦ rw t (update-IsClean c cs h a)
  | inr f ↦ rw f (append-All IsClean cs c a h)
]

review_found-IsClean :
    (reviewer : String) (o : Option RuleCandidate) (st : PipelineState)
    → All IsClean st.candidates
    → All IsClean (review_found reviewer o st).1.candidates
unfolding review_found reviewed
review_found-IsClean reviewer none st a = a
review_found-IsClean reviewer (some c) st a = elim (Bool-cases (str_eq reviewer c.detector_id)) [
  | inl t ↦ rw t a
  | inr f ↦ rw f (store-IsClean _ st.candidates (rw f refl) a)
]

clean_passed :
    (s : CandidateStatus) (o : Option String) (detector : String)
    → is_clean s o detector ≡ true
    → has_passed s ≡ true
    → (r : String) × (o ≡ some r) × (str_eq r detector ≡ false)
clean_passed detected o d h p = cc
clean_passed pending_verification o d h p = cc
clean_passed evidence_verified o d h p = cc
clean_passed impact_analyzed o d h p = cc
clean_passed regression_passed none d h p = cc
clean_passed regression_passed (some r) d h p = (r, refl, ground arith)
clean_passed approval_pending o d h p = cc
clean_passed approved o d h p = cc
clean_passed notified o d h p = cc
clean_passed active_rule o d h p = cc
clean_passed rejected o d h p = cc
clean_passed superseded o d h p = cc

distinct_sym : (a b : String) → str_eq a b ≡ false → str_eq b a ≡ false
distinct_sym a b h = elim (Bool-cases (str_eq b a)) [
  | inl t ↦
      let same : str_eq a b ≡ true =
        subst (λ x. str_eq a x ≡ true) (sym (same_id b a t)) (eq_refl a) in
      let wrong : true ≡ false = sym same ∙ h in cc
  | inr f ↦ f
]

-- The rule of an approval, or else the given one.
abbrev rule_or : RuleDefinition → Approval → RuleDefinition
rule_or x (activated r) = r
rule_or x (denied e) = x

module _ (upper lower : String → String) (isoformat : ℕ → String) where
  unfoldable pub serve : PipelineRequest → PipelineState → PipelineState
  serve (ingest i now d) st = (ingest_document_change upper lower isoformat i now d st).1
  serve (review i reviewer) st = (run_regression_and_verify i reviewer st).1

  -- The state after a sequence of requests, the first one first.
  unfoldable pub serve_all : List PipelineRequest → PipelineState → PipelineState
  serve_all [] st = st
  serve_all (r ∷ rs) st = serve_all rs (serve r st)

  ingest_from-IsClean :
      (i now : String) (d : DocumentChange) (o : Option SourceMetadata) (st : PipelineState)
      → All IsClean st.candidates
      → All IsClean (ingest_from upper lower isoformat i now d o st).1.candidates
  unfolding ingest_from ingest_trusted new_candidate
  ingest_from-IsClean i now d none st a = a
  ingest_from-IsClean i now d (some src) st a = elim (Bool-cases (ltb tier_3 src.authority_tier)) [
    | inl low ↦ rw low a
    | inr trusted ↦ elim (Bool-cases (any (λ s. str_eq (document_key d) s.0) st.seen_documents)) [
      | inl seen ↦ rw (trusted, seen) a
      | inr fresh ↦ elim (Bool-cases (requires_rule_candidate upper lower isoformat d)) [
        | inl t ↦ rw (trusted, fresh, t) (store-IsClean _ st.candidates refl a)
        | inr f ↦ rw (trusted, fresh, f) a
      ]
    ]
  ]

  serve-IsClean :
      (r : PipelineRequest) (st : PipelineState)
      → All IsClean st.candidates
      → All IsClean (serve r st).candidates
  unfolding serve ingest_document_change run_regression_and_verify
  serve-IsClean (ingest i now d) st a = ingest_from-IsClean i now d _ st a
  serve-IsClean (review i reviewer) st a = review_found-IsClean reviewer _ st a

  serve_all-IsClean :
      (rs : List PipelineRequest) (st : PipelineState)
      → All IsClean st.candidates
      → All IsClean (serve_all rs st).candidates
  unfolding serve_all
  serve_all-IsClean [] st a = a
  serve_all-IsClean (r ∷ rs) st a = serve_all-IsClean rs _ (serve-IsClean r st a)

  -- The candidate is there and was reviewed, and its detector, its reviewer and the approver are
  -- three distinct actors.
  abbrev pub IsTripleKeyed : String → String → ℕ → RuleDefinition → PipelineState → Type 0
  IsTripleKeyed i approver today rule st =
      (c : RuleCandidate) × (r : String) × (find? (has_candidate_id i) st.candidates ≡ some c)
      × (c.reviewer_id ≡ some r)
      × (are_distinct c.detector_id r approver ≡ true)
      × (rule ≡ rule_from upper lower isoformat today c)

  approve-IsTripleKeyed :
      (i approver : String) (today : ℕ) (o : Option RuleCandidate) (st : PipelineState)
      {rule : RuleDefinition}
      → All IsClean st.candidates
      → find? (has_candidate_id i) st.candidates ≡ o
      → approve_found upper lower isoformat approver today o ≡ activated rule
      → IsTripleKeyed i approver today rule st
  unfolding approve_found
  approve-IsTripleKeyed i approver today none st {rule} a found e =
      let wrong : denied candidate_not_found ≡ activated rule = e in cc
  approve-IsTripleKeyed i approver today (some c) st {rule} a found e =
      elim (Bool-cases (is_involved approver c)) [
        | inl t ↦ let wrong : denied duties_violation ≡ activated rule = rw t at e in cc
        | inr free ↦ elim (Bool-cases (has_passed c.lifecycle_status)) [
          | inr f ↦
              let wrong : denied activation_gate_error ≡ activated rule = rw (free, f) at e in cc
          | inl passed ↦
              let clean = find-All IsClean (has_candidate_id i) st.candidates a found in
              let (r, reviewer, differs) =
                clean_passed c.lifecycle_status c.reviewer_id c.detector_id clean passed in
              let others : (str_eq approver c.detector_id || str_eq approver r) ≡ false =
                rw reviewer at free in
              let first = distinct_sym r c.detector_id differs in
              let second : str_eq approver r ≡ false = ground arith in
              let third : str_eq approver c.detector_id ≡ false = ground arith in
              let made : activated (rule_from upper lower isoformat today c) ≡ activated rule =
                rw (free, passed) at e in
              (
                c,
                r,
                found,
                reviewer,
                rw
                    (
                      first,
                      distinct_sym approver r second,
                      distinct_sym approver c.detector_id third,
                    )
                    refl,
                sym (ap (rule_or rule) made),
              )
        ]
      ]

  -- A rule that is activated after any sequence of documents and reviews comes from a candidate
  -- whose detector, reviewer and approver are three distinct actors. Every candidate at the start is
  -- detected without a reviewer, or has passed under a reviewer who is not its detector.
  pub approve_and_activate-IsTripleKeyed :
      (rs : List PipelineRequest) (st : PipelineState) (i approver : String) (today : ℕ)
      {rule : RuleDefinition}
      → All IsClean st.candidates
      → approve_and_activate upper lower isoformat i approver today (serve_all rs st)
        ≡ activated rule
      → IsTripleKeyed i approver today rule (serve_all rs st)
  unfolding approve_and_activate
  approve_and_activate-IsTripleKeyed rs st i approver today a e =
      approve-IsTripleKeyed i approver today _ (serve_all rs st) (serve_all-IsClean rs st a) refl e
