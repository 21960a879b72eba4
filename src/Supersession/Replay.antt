-- ===== src/Supersession/Replay.antt =====
-- A request to backend/app/core/compliance/rule_supersession_service.py that comes a second time.
use Prim.Native.String.{String}
use text.Mathlib.Text.{◌==◌ as str_eq}
use text.Mathlib.TextPositions.{eq_refl}
use smart_salary_india.Base.{
  ℕ, ◌≡◌, refl, sym, ap, subst, ◌∙◌, true, Option, none, some, List, any, Bool-cases, inl, inr,
  find-pass,
}
use smart_salary_india.Supersession.{
  RuleDefinition, SourceMetadata, ComplianceState, SupersessionRequest, has_rule_id, get_rule,
  register_or_update_rule, get_source, new_rule_temp, new_rule, updated_old_rule, idempotency_key,
  commit, once, execute_supersession, verification_reason,
}
use smart_salary_india.Supersession.Registry.{register-own, register-others, same_id}
use smart_salary_india.Supersession.Gates.{
  is_executed, once_of, authorized_once, IsSettledChange, execute_supersession-IsPassed,
}

module _ (bundle_hash : RuleDefinition → String) (evidence_hash : String → String → String)
    (event_hash : List (Option String) → String) (isoformat : ℕ → String)
    (upper : String → String) where
  abbrev key_of : SupersessionRequest → String
  key_of = idempotency_key bundle_hash evidence_hash event_hash isoformat upper

  -- After the first time the old rule is there, in its jurisdiction, and the key was seen.
  abbrev IsReady : SupersessionRequest → RuleDefinition → ComplianceState → Type 0
  IsReady q old_rule st =
      (kept : RuleDefinition) × (get_rule q.old_rule_id st.rules ≡ some kept)
      × (kept.jurisdiction ≡ old_rule.jurisdiction)
      × (any (str_eq (key_of q)) st.seen_keys ≡ true)

  once-IsReady :
      (event_id now : String) (today : ℕ) (q : SupersessionRequest) (src : SourceMetadata)
      (old_rule : RuleDefinition) (st : ComplianceState)
      → get_rule q.old_rule_id st.rules ≡ some old_rule
      → IsReady q old_rule
          (once_of bundle_hash evidence_hash event_hash isoformat upper event_id now today q src
            old_rule st).1
  unfolding once commit new_rule new_rule_temp updated_old_rule
  once-IsReady event_id now today q src old_rule st found =
      let id : old_rule.rule_id ≡ q.old_rule_id =
        same_id _ _ (find-pass (has_rule_id q.old_rule_id) st.rules found) in
      let kept =
        updated_old_rule bundle_hash evidence_hash event_hash isoformat upper now today q
          old_rule in
      let rule =
        new_rule bundle_hash evidence_hash event_hash isoformat upper today q src old_rule in
      let first = register_or_update_rule kept st.rules in
      elim (Bool-cases (any (str_eq (key_of q)) st.seen_keys)) [
        | inl t ↦ rw t (old_rule, found, refl, t)
        | inr f ↦ elim (Bool-cases (str_eq q.new_rule_id q.old_rule_id)) [
          | inl same ↦
              let at : get_rule q.old_rule_id (register_or_update_rule rule first) ≡ some rule =
                subst (λ i. get_rule i (register_or_update_rule rule first) ≡ some rule)
                  (same_id _ _ same) (register-own rule first) in
              rw f (rule, at, refl, rw (eq_refl (key_of q)) refl)
          | inr other ↦
              let at : get_rule q.old_rule_id (register_or_update_rule rule first) ≡ some kept =
                register-others rule q.old_rule_id first other
                ∙ subst (λ i. get_rule i first ≡ some kept) id (register-own kept st.rules) in
              rw f (kept, at, refl, rw (eq_refl (key_of q)) refl)
        ]
      ]

  once-sources :
      (event_id now : String) (today : ℕ) (q : SupersessionRequest) (src : SourceMetadata)
      (old_rule : RuleDefinition) (st : ComplianceState)
      → (once_of bundle_hash evidence_hash event_hash isoformat upper event_id now today q src
          old_rule st).1.sources
        ≡ st.sources
  unfolding once commit
  once-sources event_id now today q src old_rule st =
      elim (Bool-cases (any (str_eq (key_of q)) st.seen_keys)) [
        | inl t ↦ rw t refl
        | inr f ↦ rw f refl
      ]

  once-seen :
      (event_id now : String) (today : ℕ) (q : SupersessionRequest) (src : SourceMetadata)
      (old_rule : RuleDefinition) (st : ComplianceState)
      → any (str_eq (key_of q)) st.seen_keys ≡ true
      → (once_of bundle_hash evidence_hash event_hash isoformat upper event_id now today q src
          old_rule st).1
        ≡ st
  unfolding once
  once-seen event_id now today q src old_rule st seen = rw seen refl

  -- A request that comes again after it was executed, at whatever time, changes nothing.
  pub execute_supersession-again :
      (event_id now again_id later : String) (today day : ℕ) (q : SupersessionRequest)
      (st : ComplianceState)
      → is_executed
          (execute_supersession bundle_hash evidence_hash event_hash isoformat upper event_id now
            today q st).0
        ≡ true
      → (execute_supersession bundle_hash evidence_hash event_hash isoformat upper again_id later
          day q
          (execute_supersession bundle_hash evidence_hash event_hash isoformat upper event_id now
            today q st).1).1
        ≡ (execute_supersession bundle_hash evidence_hash event_hash isoformat upper event_id now
            today q st).1
  execute_supersession-again event_id now again_id later today day q st e =
      let (d, old_rule, src, o, s, tier, settled) =
        execute_supersession-IsPassed bundle_hash evidence_hash event_hash isoformat upper event_id
          now today q st e in
      let first =
        once_of bundle_hash evidence_hash event_hash isoformat upper event_id now today q src
          old_rule st in
      let (kept, found, jurisdiction, seen) = once-IsReady event_id now today q src old_rule st o in
      let source : get_source q.new_source_id first.1.sources ≡ some src =
        ap (get_source q.new_source_id) (once-sources event_id now today q src old_rule st) ∙ s in
      let still : IsSettledChange upper q kept = (
        settled.0,
        subst
            (λ j.
              verification_reason q.new_source_id "doc_hash_new" q.new_evidence_id j q.change_type
              ≡ none)
            (sym jurisdiction) settled.1,
      ) in
      rw
        (
          authorized_once bundle_hash evidence_hash event_hash isoformat upper event_id now today q
              src old_rule st d o s tier settled,
          authorized_once bundle_hash evidence_hash event_hash isoformat upper again_id later day q
              src kept first.1 d found source tier still,
        )
        (once-seen again_id later day q src kept first.1 seen)
