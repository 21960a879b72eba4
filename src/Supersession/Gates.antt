-- ===== src/Supersession/Gates.antt =====
-- The guards of backend/app/core/compliance/rule_supersession_service.py.
use Prim.Native.String.{String}
use text.Mathlib.Text.{◌==◌ as str_eq}
use smart_salary_india.Base.{
  ℕ, ◌≡◌, ◌⊎◌, ◌≤◌, refl, sym, ◌∙◌, Bool, true, false, ◌||◌, Option, none, some, List, arith, ltb,
  any, Bool-cases, Option-cases, inl, inr,
}
use smart_salary_india.Tax.Rules.{contains}
use smart_salary_india.Supersession.{
  RuleDefinition, SourceMetadata, ComplianceState, SupersessionRequest, Supersession, executed,
  blocked, get_rule, get_source, tier_3, are_distinct, is_conflict, verification_reason, unless,
  once, commit, idempotency_key, analyzed, resolved, execute_supersession,
}
use smart_salary_india.Supersession.Conditions.{
  IsAuthorized, is_conflict-ne, ne-is_conflict, are_distinct-ne, ne-are_distinct, reason-ne,
  ne-reason,
}

abbrev pub is_executed : Supersession → Bool
is_executed (executed o n e) = true
is_executed (blocked e) = false

-- The change is no conflict and passes the gates of the impact analysis.
abbrev pub IsSettledChange : (String → String) → SupersessionRequest → RuleDefinition → Type 0
IsSettledChange upper q old_rule =
    ((is_conflict q.change_type || contains (upper q.diff_text) "CONFLICT") ≡ false)
    × (verification_reason q.new_source_id "doc_hash_new" q.new_evidence_id old_rule.jurisdiction
          q.change_type
        ≡ none)

-- The guards of the code have passed.
abbrev pub IsPassed : (String → String) → SupersessionRequest → ComplianceState → Type 0
IsPassed upper q st =
    (are_distinct q.detector_id q.reviewer_id q.approver_id ≡ true)
    × (old_rule : RuleDefinition) × (src : SourceMetadata) × (get_rule q.old_rule_id st.rules
        ≡ some old_rule)
    × (get_source q.new_source_id st.sources ≡ some src)
    × (src.authority_tier ≤ 3)
    × IsSettledChange upper q old_rule

module _ (bundle_hash : RuleDefinition → String) (evidence_hash : String → String → String)
    (event_hash : List (Option String) → String) (isoformat : ℕ → String)
    (upper : String → String) where
  abbrev pub execute_of :
      String → String → ℕ → SupersessionRequest → ComplianceState → Supersession × ComplianceState
  execute_of = execute_supersession bundle_hash evidence_hash event_hash isoformat upper

  abbrev pub once_of :
      String
      → String
      → ℕ
      → SupersessionRequest
      → SourceMetadata
      → RuleDefinition
      → ComplianceState
      → Supersession × ComplianceState
  once_of = once bundle_hash evidence_hash event_hash isoformat upper

  -- With the guards passed the request is carried out once.
  pub authorized_once :
      (event_id now : String) (today : ℕ) (q : SupersessionRequest) (src : SourceMetadata)
      (old_rule : RuleDefinition) (st : ComplianceState)
      → are_distinct q.detector_id q.reviewer_id q.approver_id ≡ true
      → get_rule q.old_rule_id st.rules ≡ some old_rule
      → get_source q.new_source_id st.sources ≡ some src
      → src.authority_tier ≤ 3
      → IsSettledChange upper q old_rule
      → execute_of event_id now today q st ≡ once_of event_id now today q src old_rule st
  unfolding execute_supersession resolved analyzed unless
  authorized_once event_id now today q src old_rule st d o s tier (c, v) =
      let low : ltb tier_3 src.authority_tier ≡ false = ground arith in rw (d, o, s, low, c, v) refl

  analyzed-settled :
      (event_id now : String) (today : ℕ) (q : SupersessionRequest) (src : SourceMetadata)
      (old_rule : RuleDefinition) (st : ComplianceState)
      → is_executed
          (analyzed bundle_hash evidence_hash event_hash isoformat upper event_id now today q src
            old_rule st).0
        ≡ true
      → IsSettledChange upper q old_rule
  unfolding analyzed unless
  analyzed-settled event_id now today q src old_rule st e =
      elim (Bool-cases (is_conflict q.change_type || contains (upper q.diff_text) "CONFLICT")) [
        | inl t ↦ let wrong : false ≡ true = rw t at e in cc
        | inr f ↦
            elim (Option-cases (
              verification_reason q.new_source_id "doc_hash_new" q.new_evidence_id
                old_rule.jurisdiction q.change_type)) [
                  | inl v ↦ (f, v)
                  | inr (x, v) ↦ let wrong : false ≡ true = rw (f, v) at e in cc
                ]
      ]

  resolved-IsPassed :
      (event_id now : String) (today : ℕ) (q : SupersessionRequest) (o : Option RuleDefinition)
      (s : Option SourceMetadata) (st : ComplianceState)
      → is_executed
          (resolved bundle_hash evidence_hash event_hash isoformat upper event_id now today q o s
            st).0
        ≡ true
      → (old_rule : RuleDefinition) × (src : SourceMetadata) × (o ≡ some old_rule)
        × (s ≡ some src)
        × (src.authority_tier ≤ 3)
        × IsSettledChange upper q old_rule
  unfolding resolved
  resolved-IsPassed event_id now today q none s st e = cc
  resolved-IsPassed event_id now today q (some old_rule) none st e = cc
  resolved-IsPassed event_id now today q (some old_rule) (some src) st e =
      elim (Bool-cases (ltb tier_3 src.authority_tier)) [
        | inl t ↦ let wrong : false ≡ true = rw t at e in cc
        | inr f ↦ (
          old_rule,
          src,
          refl,
          refl,
          ground arith,
          analyzed-settled event_id now today q src old_rule st (rw f at e),
        )
      ]

  pub execute_supersession-IsPassed :
      (event_id now : String) (today : ℕ) (q : SupersessionRequest) (st : ComplianceState)
      → is_executed
          (execute_supersession bundle_hash evidence_hash event_hash isoformat upper event_id now
            today q st).0
        ≡ true
      → IsPassed upper q st
  unfolding execute_supersession
  execute_supersession-IsPassed event_id now today q st e =
      elim (Bool-cases (are_distinct q.detector_id q.reviewer_id q.approver_id)) [
        | inl d ↦
            let (old_rule, src, o, s, tier, settled) =
              resolved-IsPassed event_id now today q _ _ st (rw d at e) in
            (d, old_rule, src, o, s, tier, settled)
        | inr f ↦ let wrong : false ≡ true = rw f at e in cc
      ]

  once-is_executed :
      (event_id now : String) (today : ℕ) (q : SupersessionRequest) (src : SourceMetadata)
      (old_rule : RuleDefinition) (st : ComplianceState)
      → is_executed (once_of event_id now today q src old_rule st).0 ≡ true
  unfolding once commit
  once-is_executed event_id now today q src old_rule st =
      elim (Bool-cases (
        any (str_eq (idempotency_key bundle_hash evidence_hash event_hash isoformat upper q))
          st.seen_keys)) [ inl t ↦ rw t refl | inr f ↦ rw f refl ]

  analyzed-blocked :
      (event_id now : String) (today : ℕ) (q : SupersessionRequest) (src : SourceMetadata)
      (old_rule : RuleDefinition) (st : ComplianceState)
      → is_executed
          (analyzed bundle_hash evidence_hash event_hash isoformat upper event_id now today q src
            old_rule st).0
        ≡ false
      → (analyzed bundle_hash evidence_hash event_hash isoformat upper event_id now today q src
          old_rule st).1
        ≡ st
  unfolding analyzed unless
  analyzed-blocked event_id now today q src old_rule st e =
      elim (Bool-cases (is_conflict q.change_type || contains (upper q.diff_text) "CONFLICT")) [
        | inl t ↦ rw t refl
        | inr f ↦
            elim (Option-cases (
              verification_reason q.new_source_id "doc_hash_new" q.new_evidence_id
                old_rule.jurisdiction q.change_type)) [
                  | inl v ↦
                      let wrong : true ≡ false =
                        sym (once-is_executed event_id now today q src old_rule st)
                        ∙ rw (f, v) at e in
                      cc
                  | inr (x, v) ↦ rw (f, v) refl
                ]
      ]

  resolved-blocked :
      (event_id now : String) (today : ℕ) (q : SupersessionRequest) (o : Option RuleDefinition)
      (s : Option SourceMetadata) (st : ComplianceState)
      → is_executed
          (resolved bundle_hash evidence_hash event_hash isoformat upper event_id now today q o s
            st).0
        ≡ false
      → (resolved bundle_hash evidence_hash event_hash isoformat upper event_id now today q o s
          st).1
        ≡ st
  unfolding resolved
  resolved-blocked event_id now today q none s st e = refl
  resolved-blocked event_id now today q (some old_rule) none st e = refl
  resolved-blocked event_id now today q (some old_rule) (some src) st e =
      elim (Bool-cases (ltb tier_3 src.authority_tier)) [
        | inl t ↦ rw t refl
        | inr f ↦ rw f (analyzed-blocked event_id now today q src old_rule st (rw f at e))
      ]

  -- A request that is blocked changes nothing.
  pub execute-blocked :
      (event_id now : String) (today : ℕ) (q : SupersessionRequest) (st : ComplianceState)
      → is_executed (execute_of event_id now today q st).0 ≡ false
      → (execute_of event_id now today q st).1 ≡ st
  unfolding execute_supersession
  execute-blocked event_id now today q st e =
      elim (Bool-cases (are_distinct q.detector_id q.reviewer_id q.approver_id)) [
        | inl d ↦ rw d (resolved-blocked event_id now today q _ _ st (rw d at e))
        | inr f ↦ rw f refl
      ]

  passed-IsAuthorized :
      (q : SupersessionRequest) (st : ComplianceState)
      → IsPassed upper q st
      → IsAuthorized upper q st
  passed-IsAuthorized q st (d, old_rule, src, o, s, tier, (c, v)) =
      let (x, y, z) = are_distinct-ne q.detector_id q.reviewer_id q.approver_id d in
      let (a, b, j, u) = reason-ne q.new_source_id q.new_evidence_id old_rule.jurisdiction _ v in
      (
        x,
        y,
        z,
        old_rule,
        src,
        o,
        s,
        tier,
        is_conflict-ne q.change_type (ground arith),
        ground arith,
        a,
        b,
        j,
        u,
      )

  authorized-is_executed :
      (event_id now : String) (today : ℕ) (q : SupersessionRequest) (st : ComplianceState)
      → IsAuthorized upper q st
      → is_executed (execute_of event_id now today q st).0 ≡ true
  authorized-is_executed event_id now today q st
        (x, y, z, old_rule, src, o, s, tier, n, text, a, b, j, u) =
      let kind = ne-is_conflict q.change_type n in
      let settled : IsSettledChange upper q old_rule = (
        rw (kind, text) refl,
        ne-reason q.new_source_id q.new_evidence_id old_rule.jurisdiction q.change_type a b j u n,
      ) in
      rw
        (authorized_once event_id now today q src old_rule st
          (ne-are_distinct q.detector_id q.reviewer_id q.approver_id x y z) o s tier settled)
        (once-is_executed event_id now today q src old_rule st)

  -- A request that is authorized is executed, and one that is not is blocked and changes nothing:
  -- detector, reviewer and approver are to be three actors, the old rule to be registered under a
  -- jurisdiction that is given and known, the source to be registered in one of the tiers 1 to 3,
  -- source and evidence to be named, and the change to be no conflict, by its type or by its text.
  pub execute_supersession-IsAuthorized :
      (event_id now : String) (today : ℕ) (q : SupersessionRequest) (st : ComplianceState)
      → ((is_executed (execute_of event_id now today q st).0 ≡ true) × IsAuthorized upper q st)
        ⊎ ((is_executed (execute_of event_id now today q st).0 ≡ false)
            × ((execute_of event_id now today q st).1 ≡ st)
            × (¬ (IsAuthorized upper q st)))
  execute_supersession-IsAuthorized event_id now today q st =
      elim (Bool-cases (is_executed (execute_of event_id now today q st).0)) [
        | inl t ↦
            inl (
              t,
              passed-IsAuthorized q st (execute_supersession-IsPassed event_id now today q st t),
            )
        | inr f ↦ inr (
          f,
          execute-blocked event_id now today q st f,
          λ h.
              let wrong : true ≡ false =
                sym (authorized-is_executed event_id now today q st h) ∙ f in
              cc,
        )
      ]
