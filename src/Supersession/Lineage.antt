-- ===== src/Supersession/Lineage.antt =====
-- What backend/app/core/compliance/rule_supersession_service.py makes of the old and the new rule,
-- and what it leaves of all the others.
use Prim.Native.String.{String}
use text.Mathlib.Text.{◌==◌ as str_eq}
use smart_salary_india.Base.{
  ℕ, ◌≡◌, refl, sym, ap, subst, ◌∙◌, true, false, Option, none, some, List, leb, ltb, if◌then◌else◌,
  any, Bool-cases, inl, inr, find-pass,
}
use smart_salary_india.Supersession.{
  RuleDefinition, active, superseded, future_officially_notified, SourceMetadata, ComplianceState,
  SupersessionRequest, has_rule_id, get_rule, register_or_update_rule, if_active, new_rule_temp,
  new_rule, updated_old_rule, idempotency_key, commit, once, execute_supersession,
}
use smart_salary_india.Supersession.Registry.{register-own, register-others, same_id}
use smart_salary_india.Supersession.Gates.{
  is_executed, execute_of, once_of, authorized_once, execute_supersession-IsPassed, execute-blocked,
}

-- Pointers in both directions between the old and the new rule, with the states that the start of
-- the new rule asks for.
abbrev pub IsLinked : ℕ → SupersessionRequest → List RuleDefinition → List RuleDefinition → Type 0
IsLinked today q before after =
    (old_rule : RuleDefinition) × (kept : RuleDefinition) × (rule : RuleDefinition) × (get_rule
        q.old_rule_id before
      ≡ some old_rule)
    × (get_rule q.old_rule_id after ≡ some kept)
    × (get_rule q.new_rule_id after ≡ some rule)
    × (rule.supersedes_rule_id ≡ some q.old_rule_id)
    × (rule.supersedes_rule_version ≡ some old_rule.version)
    × (kept.superseded_by_rule_id ≡ if_active (leb q.effective_from today) q.new_rule_id)
    × (kept.superseded_by_rule_version ≡ if_active (leb q.effective_from today) rule.version)
    × (kept.status ≡ (if ltb today q.effective_from then old_rule.status else superseded))
    × (rule.status ≡ (if ltb today q.effective_from then future_officially_notified else active))

-- What a calculation reads of a rule: everything but its state and the pointers to its successor.
abbrev pub content : Option RuleDefinition → Option RuleDefinition
content none = none
content (some r) = some (record r {
  status = active;
  superseded_by_rule_id = none;
  superseded_by_rule_version = none;
  superseded_at = none;
  supersession_reason = none;
})

module _ (bundle_hash : RuleDefinition → String) (evidence_hash : String → String → String)
    (event_hash : List (Option String) → String) (isoformat : ℕ → String)
    (upper : String → String) where
  once-IsLinked :
      (event_id now : String) (today : ℕ) (q : SupersessionRequest) (src : SourceMetadata)
      (old_rule : RuleDefinition) (st : ComplianceState)
      → str_eq q.new_rule_id q.old_rule_id ≡ false
      → any
          (str_eq (idempotency_key bundle_hash evidence_hash event_hash isoformat upper q))
          st.seen_keys
        ≡ false
      → get_rule q.old_rule_id st.rules ≡ some old_rule
      → IsLinked today q st.rules
          (once_of bundle_hash evidence_hash event_hash isoformat upper event_id now today q src
            old_rule st).1.rules
  unfolding once commit new_rule new_rule_temp updated_old_rule
  once-IsLinked event_id now today q src old_rule st other fresh found =
      let id : old_rule.rule_id ≡ q.old_rule_id =
        same_id _ _ (find-pass (has_rule_id q.old_rule_id) st.rules found) in
      let kept =
        updated_old_rule bundle_hash evidence_hash event_hash isoformat upper now today q
          old_rule in
      let rule =
        new_rule bundle_hash evidence_hash event_hash isoformat upper today q src old_rule in
      let first = register_or_update_rule kept st.rules in
      let stays : get_rule q.old_rule_id (register_or_update_rule rule first) ≡ some kept =
        register-others rule q.old_rule_id first other
        ∙ subst (λ i. get_rule i first ≡ some kept) id (register-own kept st.rules) in
      rw fresh (
        old_rule,
        kept,
        rule,
        found,
        stays,
        register-own rule first,
        ap {B = Option String} (λ i. some i) id,
        refl,
        refl,
        refl,
        refl,
        refl,
      )

  -- A supersession that is executed for the first time and names two rules leaves both in the
  -- registry, linked in both directions: the new rule points to the old one and its version; if it
  -- has started, it is active, and the old rule is superseded and points to it; if it starts later,
  -- the old rule keeps its state and has no pointer.
  pub execute_supersession-IsLinked :
      (event_id now : String) (today : ℕ) (q : SupersessionRequest) (st : ComplianceState)
      → str_eq q.new_rule_id q.old_rule_id ≡ false
      → any
          (str_eq (idempotency_key bundle_hash evidence_hash event_hash isoformat upper q))
          st.seen_keys
        ≡ false
      → is_executed
          (execute_supersession bundle_hash evidence_hash event_hash isoformat upper event_id now
            today q st).0
        ≡ true
      → IsLinked today q st.rules
          (execute_supersession bundle_hash evidence_hash event_hash isoformat upper event_id now
            today q st).1.rules
  execute_supersession-IsLinked event_id now today q st other fresh e =
      let (d, old_rule, src, o, s, tier, settled) =
        execute_supersession-IsPassed bundle_hash evidence_hash event_hash isoformat upper event_id
          now today q st e in
      rw
        (authorized_once bundle_hash evidence_hash event_hash isoformat upper event_id now today q
          src old_rule st d o s tier settled)
        (once-IsLinked event_id now today q src old_rule st other fresh o)

  once-content :
      (event_id now : String) (today : ℕ) (q : SupersessionRequest) (src : SourceMetadata)
      (old_rule : RuleDefinition) (st : ComplianceState) (i : String)
      → str_eq q.new_rule_id i ≡ false
      → get_rule q.old_rule_id st.rules ≡ some old_rule
      → content (
          get_rule i
            (once_of bundle_hash evidence_hash event_hash isoformat upper event_id now today q src
              old_rule st).1.rules)
        ≡ content (get_rule i st.rules)
  unfolding once commit new_rule new_rule_temp updated_old_rule
  once-content event_id now today q src old_rule st i other found =
      let kept =
        updated_old_rule bundle_hash evidence_hash event_hash isoformat upper now today q
          old_rule in
      let rule =
        new_rule bundle_hash evidence_hash event_hash isoformat upper today q src old_rule in
      let first = register_or_update_rule kept st.rules in
      let id : old_rule.rule_id ≡ q.old_rule_id =
        same_id _ _ (find-pass (has_rule_id q.old_rule_id) st.rules found) in
      elim (Bool-cases (
        any (str_eq (idempotency_key bundle_hash evidence_hash event_hash isoformat upper q))
          st.seen_keys)) [
            | inl t ↦ rw t refl
            | inr f ↦ elim (Bool-cases (str_eq old_rule.rule_id i)) [
              | inl own ↦
                  let at : old_rule.rule_id ≡ i = same_id _ _ own in
                  let after : get_rule i first ≡ some kept =
                    subst (λ k. get_rule k first ≡ some kept) at (register-own kept st.rules) in
                  let before : get_rule i st.rules ≡ some old_rule =
                    subst (λ k. get_rule k st.rules ≡ some old_rule) (sym id ∙ at) found in
                  rw (f, register-others rule i first other, after, before) refl
              | inr foreign ↦
                  rw
                    (f, register-others rule i first other, register-others kept i st.rules foreign)
                    refl
            ]
          ]

  -- Whatever comes of a request, every rule but the one that it names as new keeps its content:
  -- version, dates, formula, condition, evidence and hashes.
  pub execute_supersession-content :
      (event_id now : String) (today : ℕ) (q : SupersessionRequest) (st : ComplianceState)
      (i : String)
      → str_eq q.new_rule_id i ≡ false
      → content (
          get_rule i
            (execute_supersession bundle_hash evidence_hash event_hash isoformat upper event_id now
              today q st).1.rules)
        ≡ content (get_rule i st.rules)
  execute_supersession-content event_id now today q st i other =
      let result =
        execute_of bundle_hash evidence_hash event_hash isoformat upper event_id now today q st in
      elim (Bool-cases (is_executed result.0)) [
        | inl e ↦
            let (d, old_rule, src, o, s, tier, settled) =
              execute_supersession-IsPassed bundle_hash evidence_hash event_hash isoformat upper
                event_id now today q st e in
            rw
              (authorized_once bundle_hash evidence_hash event_hash isoformat upper event_id now
                today q src old_rule st d o s tier settled)
              (once-content event_id now today q src old_rule st i other o)
        | inr e ↦
            rw
              (execute-blocked bundle_hash evidence_hash event_hash isoformat upper event_id now
                today q st e)
              refl
      ]
