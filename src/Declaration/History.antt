-- ===== src/Declaration/History.antt =====
-- Sequences of requests to backend/app/services/tax_declaration_service.py and to the approval
-- endpoint of backend/app/api/v1/endpoints/enterprise.py: what becomes of one declaration.
use Prim.Native.String.{String}
use smart_salary_india.Base.{
  ℕ, ◌≡◌, refl, subst, ◌==◌, true, false, Option, if◌then◌else◌, some, List, arith, Bool-cases, inl,
  inr,
}
use smart_salary_india.Base.Int.{ℤ}
use smart_salary_india.Declaration.{
  Stage, draft, submitted, under_review, verified, rejected, frozen, is_transition, TaxDeclaration,
  DeclaredItem, Tables, Transition, stamp, moved, move, put,
}
use smart_salary_india.Declaration.Rows.{lookup, lookup-put}
use smart_salary_india.Declaration.Stages.{stage_of, stage, Operation, declare}

-- Writing a row of the id changes its stage, and no other one.
pub put-stage :
    (d d' : TaxDeclaration) (i : ℕ) (rows : List TaxDeclaration)
    → lookup d.id rows ≡ some d
    → d'.id ≡ d.id
    → stage_of (lookup i (put d' rows))
      ≡ (if d.id == i then some d'.status else stage_of (lookup i rows))
put-stage d d' i rows e same = elim (Bool-cases (d.id == i)) [
  | inl t ↦
      let own : (d'.id == i) ≡ true = ground arith in
      let at : lookup i rows ≡ some d =
        let id : d.id ≡ i = ground arith in subst (λ n. lookup n rows ≡ some d) id e in
      rw (lookup-put d' i rows, own, t, at) refl
  | inr f ↦
      let other : (d'.id == i) ≡ false = ground arith in rw (lookup-put d' i rows, other, f) refl
]

module _ (employee_id organization_id : ℕ) (year regime : String)
    (entries : List DeclaredItem) where
  abbrev request : Operation
  request = declare employee_id organization_id year regime entries

pub stamp-id :
    (now : ℕ) (actor : Option ℕ) (reason : Option String) (total : ℤ) (s : Stage)
    (d : TaxDeclaration)
    → (stamp now actor reason total s d).id ≡ d.id
unfolding stamp
stamp-id now actor reason total draft d = refl
stamp-id now actor reason total submitted d = refl
stamp-id now actor reason total under_review d = refl
stamp-id now actor reason total verified d = refl
stamp-id now actor reason total rejected d = refl
stamp-id now actor reason total frozen d = refl

pub move-stage :
    (now : ℕ) (t : Transition) (d : TaxDeclaration) (db : Tables) (i : ℕ)
    → lookup d.id db.declarations ≡ some d
    → is_transition d.status t.target_stage ≡ true
    → stage i (move now t d db).1 ≡ (if d.id == i then some t.target_stage else stage i db)
unfolding move moved
move-stage now t d db i e v = rw v (
    put-stage d _ i db.declarations e
      (stamp-id now t.actor_id t.rejection_reason _ t.target_stage d))
