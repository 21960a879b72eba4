-- ===== src/Supersession/Registry.antt =====
-- Lemmas on the registry of backend/app/core/compliance/rule_registry.py.
use Prim.Native.String.{String}
use text.Mathlib.Text.{◌==◌ as str_eq}
use text.Mathlib.TextPositions.{eq_refl}
use text.Mathlib.TextEquality.{eq_iff}
use smart_salary_india.Base.{
  ◌≡◌, refl, sym, subst, true, false, some, List, [], ◌∷◌, ◌++◌, update, any, Bool-cases, inl, inr,
}
use smart_salary_india.Supersession.{RuleDefinition, has_rule_id, get_rule, register_or_update_rule}

find-written :
    (r : RuleDefinition) (rules : List RuleDefinition)
    → any (has_rule_id r.rule_id) rules ≡ true
    → get_rule r.rule_id (update (has_rule_id r.rule_id) (λ _. r) rules) ≡ some r
find-written r [] h = cc
find-written r (x ∷ rules) h = elim (Bool-cases (has_rule_id r.rule_id x)) [
  | inl t ↦ rw (t, eq_refl r.rule_id) refl
  | inr f ↦ rw (f, f) (find-written r rules (rw f at h))
]

find-appended :
    (r : RuleDefinition) (rules : List RuleDefinition)
    → any (has_rule_id r.rule_id) rules ≡ false
    → get_rule r.rule_id (rules ++ (r ∷ [])) ≡ some r
find-appended r [] h = rw (eq_refl r.rule_id) refl
find-appended r (x ∷ rules) h = elim (Bool-cases (has_rule_id r.rule_id x)) [
  | inl t ↦ let wrong : true ≡ false = rw t at h in cc
  | inr f ↦ rw f (find-appended r rules (rw f at h))
]

-- A rule that is registered is the one found.
pub register-own :
    (r : RuleDefinition) (rules : List RuleDefinition)
    → get_rule r.rule_id (register_or_update_rule r rules) ≡ some r
unfolding register_or_update_rule
register-own r rules = elim (Bool-cases (any (has_rule_id r.rule_id) rules)) [
  | inl t ↦ rw t (find-written r rules t)
  | inr f ↦ rw f (find-appended r rules f)
]

pub same_id : (a b : String) → str_eq a b ≡ true → a ≡ b
same_id a b h = (eq_iff a b).0 h

find-unwritten :
    (r : RuleDefinition) (i : String) (rules : List RuleDefinition)
    → has_rule_id i r ≡ false
    → get_rule i (update (has_rule_id r.rule_id) (λ _. r) rules) ≡ get_rule i rules
find-unwritten r i [] h = refl
find-unwritten r i (x ∷ rules) h = elim (Bool-cases (has_rule_id r.rule_id x)) [
  | inl t ↦
      let same = same_id x.rule_id r.rule_id t in
      let other : has_rule_id i x ≡ false = subst (λ s. str_eq s i ≡ false) (sym same) h in
      rw (t, h, other) (find-unwritten r i rules h)
  | inr f ↦ rw (f, find-unwritten r i rules h) refl
]

find-unappended :
    (r : RuleDefinition) (i : String) (rules : List RuleDefinition)
    → has_rule_id i r ≡ false
    → get_rule i (rules ++ (r ∷ [])) ≡ get_rule i rules
find-unappended r i [] h = rw h refl
find-unappended r i (x ∷ rules) h = rw (find-unappended r i rules h) refl

-- Registering a rule leaves the others.
pub register-others :
    (r : RuleDefinition) (i : String) (rules : List RuleDefinition)
    → has_rule_id i r ≡ false
    → get_rule i (register_or_update_rule r rules) ≡ get_rule i rules
unfolding register_or_update_rule
register-others r i rules h = elim (Bool-cases (any (has_rule_id r.rule_id) rules)) [
  | inl t ↦ rw t (find-unwritten r i rules h)
  | inr f ↦ rw f (find-unappended r i rules h)
]
