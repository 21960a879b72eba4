-- ===== src/Supersession/Conditions.antt =====
-- What a request to backend/app/core/compliance/rule_supersession_service.py has to satisfy, apart
-- from the tests of the code, and what each test says of it.
use Prim.Native.String.{String}
use text.Mathlib.Text.{◌==◌ as str_eq}
use text.Mathlib.TextEquality.{eq_iff}
use smart_salary_india.Base.{
  ◌≡◌, ◌≢◌, ◌≤◌, refl, sym, ◌∙◌, true, false, none, some, arith, Bool-cases, inl, inr,
}
use smart_salary_india.Tax.Rules.{contains}
use smart_salary_india.Supersession.{
  RuleDefinition, SourceMetadata, ComplianceState, SupersessionRequest, ChangeDimensionType,
  rate_change, threshold_change, ceiling_change, floor_change, exemption_change, deduction_change,
  formula_change, applicability_change, jurisdiction_change, effective_date_change, expiry_change,
  salary_component_change, contribution_change, employment_type_change, employee_category_change,
  employer_category_change, industry_change, document_change, wording_change, guidance_change,
  supersession, conflict, unknown, get_rule, get_source, are_distinct, is_conflict,
  verification_reason,
}

-- Detector, reviewer and approver are three actors; the old rule is registered, under a jurisdiction
-- that is given and known; the source is registered in one of the tiers 1 to 3; source and evidence
-- are named; and the change is no conflict, by its type or by its text.
abbrev pub IsAuthorized : (String → String) → SupersessionRequest → ComplianceState → Type 0
IsAuthorized upper q st =
    (q.detector_id ≢ q.reviewer_id)
    × (q.reviewer_id ≢ q.approver_id)
    × (q.detector_id ≢ q.approver_id)
    × (old_rule : RuleDefinition) × (src : SourceMetadata) × (get_rule q.old_rule_id st.rules
        ≡ some old_rule)
    × (get_source q.new_source_id st.sources ≡ some src)
    × (src.authority_tier ≤ 3)
    × (q.change_type ≢ conflict)
    × (contains (upper q.diff_text) "CONFLICT" ≡ false)
    × (q.new_source_id ≢ "")
    × (q.new_evidence_id ≢ "")
    × (old_rule.jurisdiction ≢ "")
    × (old_rule.jurisdiction ≢ "UNKNOWN")

str_eq-ne : (a b : String) → str_eq a b ≡ false → a ≢ b
str_eq-ne a b f e = let wrong : true ≡ false = sym ((eq_iff a b).1 e) ∙ f in cc

ne-str_eq : (a b : String) → a ≢ b → str_eq a b ≡ false
ne-str_eq a b n = elim (Bool-cases (str_eq a b)) [
  | inl t ↦ absurd (n ((eq_iff a b).0 t))
  | inr f ↦ f
]

pub is_conflict-ne : (t : ChangeDimensionType) → is_conflict t ≡ false → t ≢ conflict
is_conflict-ne t f e = let wrong : is_conflict conflict ≡ false = rw e at f in cc

conflict_only : (t : ChangeDimensionType) → is_conflict t ≡ true → t ≡ conflict
conflict_only rate_change h = cc
conflict_only threshold_change h = cc
conflict_only ceiling_change h = cc
conflict_only floor_change h = cc
conflict_only exemption_change h = cc
conflict_only deduction_change h = cc
conflict_only formula_change h = cc
conflict_only applicability_change h = cc
conflict_only jurisdiction_change h = cc
conflict_only effective_date_change h = cc
conflict_only expiry_change h = cc
conflict_only salary_component_change h = cc
conflict_only contribution_change h = cc
conflict_only employment_type_change h = cc
conflict_only employee_category_change h = cc
conflict_only employer_category_change h = cc
conflict_only industry_change h = cc
conflict_only document_change h = cc
conflict_only wording_change h = cc
conflict_only guidance_change h = cc
conflict_only supersession h = cc
conflict_only conflict h = refl
conflict_only unknown h = cc

pub ne-is_conflict : (t : ChangeDimensionType) → t ≢ conflict → is_conflict t ≡ false
ne-is_conflict t n = elim (Bool-cases (is_conflict t)) [
  | inl h ↦ absurd (n (conflict_only t h))
  | inr f ↦ f
]

pub are_distinct-ne : (a b c : String) → are_distinct a b c ≡ true → (a ≢ b) × (b ≢ c) × (a ≢ c)
are_distinct-ne a b c h =
    (str_eq-ne a b (ground arith), str_eq-ne b c (ground arith), str_eq-ne a c (ground arith))

pub ne-are_distinct : (a b c : String) → a ≢ b → b ≢ c → a ≢ c → are_distinct a b c ≡ true
ne-are_distinct a b c x y z = rw (ne-str_eq a b x, ne-str_eq b c y, ne-str_eq a c z) refl

pub reason-ne :
    (source evidence jurisdiction : String) (t : ChangeDimensionType)
    → verification_reason source "doc_hash_new" evidence jurisdiction t ≡ none
    → (source ≢ "") × (evidence ≢ "") × (jurisdiction ≢ "") × (jurisdiction ≢ "UNKNOWN")
unfolding verification_reason
reason-ne source evidence jurisdiction t h = (
  str_eq-ne source "" (ground arith),
  str_eq-ne evidence "" (ground arith),
  str_eq-ne jurisdiction "" (ground arith),
  str_eq-ne jurisdiction "UNKNOWN" (ground arith),
)

pub ne-reason :
    (source evidence jurisdiction : String) (t : ChangeDimensionType)
    → source ≢ ""
    → evidence ≢ ""
    → jurisdiction ≢ ""
    → jurisdiction ≢ "UNKNOWN"
    → t ≢ conflict
    → verification_reason source "doc_hash_new" evidence jurisdiction t ≡ none
unfolding verification_reason
ne-reason source evidence jurisdiction t s e j u n =
    rw
      (
        ne-str_eq source "" s,
        ne-str_eq evidence "" e,
        ne-str_eq jurisdiction "" j,
        ne-str_eq jurisdiction "UNKNOWN" u,
        ne-is_conflict t n,
      )
      refl
