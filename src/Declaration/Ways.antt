-- ===== src/Declaration/Ways.antt =====
-- backend/app/services/tax_declaration_service.py: no stage of a declaration is a dead end.
use smart_salary_india.Base.{
  ℕ, ◌≡◌, refl, sym, subst, ◌∙◌, ◌==◌, true, Option, none, some, List, [], ◌∷◌, ◌++◌, map, arith,
  Option-cases, inl, inr, find-pass, some_injective, All,
}
use smart_salary_india.Declaration.{
  Stage, draft, submitted, under_review, verified, rejected, frozen, is_transition, TaxDeclaration,
  Tables, Transition, moved, move, move_found, transition_stage, is_row,
}
use smart_salary_india.Declaration.Rows.{lookup}
use smart_salary_india.Declaration.Stages.{
  stage, Operation, transition, perform, run, answers, is_done,
}
use smart_salary_india.Declaration.History.{move-stage}

-- Stages that follow each other by `VALID_TRANSITIONS`, from the first to the last.
abbrev pub IsWay : Stage → List Stage → Stage → Type 0
IsWay a [] b = a ≡ b
IsWay a (s ∷ way) b = (is_transition a s ≡ true) × IsWay s way b

-- The way to the review.
abbrev pub to_review : Stage → List Stage
to_review draft = submitted ∷ under_review ∷ []
to_review submitted = under_review ∷ []
to_review under_review = []
to_review verified = under_review ∷ []
to_review rejected = submitted ∷ under_review ∷ []
to_review frozen = under_review ∷ []

-- The way from the review.
abbrev pub from_review : Stage → List Stage
from_review draft = rejected ∷ draft ∷ []
from_review submitted = rejected ∷ submitted ∷ []
from_review under_review = []
from_review verified = verified ∷ []
from_review rejected = rejected ∷ []
from_review frozen = verified ∷ frozen ∷ []

abbrev pub way : Stage → Stage → List Stage
way a b = to_review a ++ from_review b

to_review-IsWay : (a : Stage) → IsWay a (to_review a) under_review
to_review-IsWay draft = (refl, (refl, refl))
to_review-IsWay submitted = (refl, refl)
to_review-IsWay under_review = refl
to_review-IsWay verified = (refl, refl)
to_review-IsWay rejected = (refl, (refl, refl))
to_review-IsWay frozen = (refl, refl)

from_review-IsWay : (b : Stage) → IsWay under_review (from_review b) b
from_review-IsWay draft = (refl, (refl, refl))
from_review-IsWay submitted = (refl, (refl, refl))
from_review-IsWay under_review = refl
from_review-IsWay verified = (refl, refl)
from_review-IsWay rejected = (refl, refl)
from_review-IsWay frozen = (refl, (refl, refl))

append-IsWay : (a b c : Stage) (v w : List Stage) → IsWay a v b → IsWay b w c → IsWay a (v ++ w) c
append-IsWay a b c [] w e h = subst (λ s. IsWay s w c) (sym e) h
append-IsWay a b c (s ∷ v) w h k = (h.0, append-IsWay s b c v w h.1 k)

-- A request that names a stage and nothing else.
abbrev pub request : Stage → Transition
request s = record {
  target_stage = s;
  actor_id = none;
  verified_items = [];
  rejection_reason = none;
}

abbrev pub requests : ℕ → ℕ → List Stage → List Operation
requests now i = map λ s. transition now i (request s)

-- A valid transition is carried out.
move-done :
    (now i : ℕ) (s : Stage) (d : TaxDeclaration) (db : Tables)
    → lookup i db.declarations ≡ some d
    → is_transition d.status s ≡ true
    → (is_done (move now (request s) d db).0 ≡ true)
      × (stage i (move now (request s) d db).1 ≡ some s)
unfolding move moved
move-done now i s d db e v =
    let passed = find-pass (is_row i) db.declarations e in
    let id : d.id ≡ i = ground arith in
    let own : (d.id == i) ≡ true = ground arith in
    let at : lookup d.id db.declarations ≡ some d =
      subst (λ n. lookup n db.declarations ≡ some d) (sym id) e in
    (rw v refl, move-stage now (request s) d db i at v ∙ rw own refl)

transition-done :
    (now i : ℕ) (a s : Stage) (db : Tables)
    → stage i db ≡ some a
    → is_transition a s ≡ true
    → (is_done (transition_stage now i (request s) db).0 ≡ true)
      × (stage i (transition_stage now i (request s) db).1 ≡ some s)
unfolding transition_stage move_found
transition-done now i a s db e v = elim (Option-cases (lookup i db.declarations)) [
  | inl missing ↦ let wrong : none ≡ some a = rw missing at e in cc
  | inr (d, found) ↦
      let same : d.status ≡ a = some_injective (rw found at e) in
      rw found (move-done now i s d db found (subst (λ x. is_transition x s ≡ true) (sym same) v))
]

run-IsWay :
    (user_of : ℕ → Option ℕ) (now i : ℕ) (a b : Stage) (path : List Stage) (db : Tables)
    → IsWay a path b
    → stage i db ≡ some a
    → All (λ r. is_done r ≡ true) (answers user_of (requests now i path) db)
      × (stage i (run user_of (requests now i path) db) ≡ some b)
unfolding run perform answers
run-IsWay user_of now i a b [] db w e = (tt, rw (sym w) e)
run-IsWay user_of now i a b (s ∷ path) db w e =
    let (now_done, then_at) = transition-done now i a s db e w.0 in
    let (rest, at) = run-IsWay user_of now i s b path _ w.1 then_at in ((now_done, rest), at)

-- A declaration at any stage, a frozen one too, can be brought to any stage by requests to
-- `transition_stage` that name no actor: each of them is carried out, and the last one leaves the
-- declaration at the stage asked for.
pub run-way :
    (user_of : ℕ → Option ℕ) (now i : ℕ) (a b : Stage) (db : Tables)
    → stage i db ≡ some a
    → All (λ r. is_done r ≡ true) (answers user_of (requests now i (way a b)) db)
      × (stage i (run user_of (requests now i (way a b)) db) ≡ some b)
run-way user_of now i a b db e =
    run-IsWay user_of now i a b (way a b) db
      (append-IsWay a under_review b (to_review a) (from_review b) (to_review-IsWay a)
        (from_review-IsWay b))
      e
