-- ===== src/Declaration/Keys.antt =====
-- The primary key and the time stamps of tax_declarations under the requests to
-- backend/app/services/tax_declaration_service.py and to the approval endpoint of
-- backend/app/api/v1/endpoints/enterprise.py.
use Prim.Native.String.{String}
use smart_salary_india.Base.{
  ℕ, ◌≡◌, refl, ◌||◌, ◌&&◌, Bool, true, false, not, Option, none, some, List, [], ◌∷◌, find-All,
  Bool-cases, inl, inr, All, append-All,
}
use smart_salary_india.Base.Int.{ℤ}
use smart_salary_india.Declaration.{
  Stage, draft, submitted, under_review, verified, rejected, frozen, same_stage, is_transition,
  is_closed, TaxDeclaration, DeclaredItem, Tables, Transition, ApprovalRequest, ApprovalAction,
  Caller, new_declaration, fill, write, stamp, moved, move, move_found, is_user, is_approval,
  approve, reject, clarification_required, create_or_update_declaration, transition_stage,
  process_approval_action, apply_action, act, act_found, carried_out,
}
use smart_salary_india.Declaration.Rows.{Ids, put-Ids, append-Ids, put-All}
use smart_salary_india.Declaration.Stages.{Operation, declare, transition, approval, perform, run}

-- The primary key: ids ascend, below the value that the sequence gives next.
abbrev pub IsKeyed : Tables → Type 0
IsKeyed db = Ids 0 db.declarations db.next_declaration

write-IsKeyed :
    (o : Option TaxDeclaration) (fresh : TaxDeclaration) (entries : List DeclaredItem) (db : Tables)
    → fresh.id ≡ db.next_declaration
    → IsKeyed db
    → IsKeyed (write o fresh entries db).1
unfolding write fill
write-IsKeyed none fresh entries db e h = put-Ids _ 0 _ _ (append-Ids fresh 0 _ _ e h)
write-IsKeyed (some d) fresh entries db e h = elim (Bool-cases (same_stage d.status frozen)) [
  | inl t ↦ rw t h
  | inr f ↦ rw f (put-Ids _ 0 _ _ h)
]

move_found-IsKeyed :
    (now : ℕ) (t : Transition) (o : Option TaxDeclaration) (db : Tables)
    → IsKeyed db
    → IsKeyed (move_found now t o db).1
unfolding move_found move moved
move_found-IsKeyed now t none db h = h
move_found-IsKeyed now t (some d) db h = elim (Bool-cases (is_transition d.status t.target_stage)) [
  | inl v ↦ rw v (put-Ids _ 0 _ _ h)
  | inr f ↦ rw f h
]

act_found-IsKeyed :
    (user_of : ℕ → Option ℕ) (now : ℕ) (c : Caller) (r : ApprovalRequest)
    (o : Option TaxDeclaration) (db : Tables)
    → IsKeyed db
    → IsKeyed (act_found user_of now c r o db).1
unfolding act_found act carried_out
act_found-IsKeyed user_of now c r none db h = h
act_found-IsKeyed user_of now c r (some d) db h =
    elim (Bool-cases (is_user c.user_id (user_of d.employee_id))) [
      | inl own ↦ rw own h
      | inr other ↦ elim (Bool-cases (is_closed d.status && is_approval r.action)) [
        | inl closed ↦ rw (other, closed) h
        | inr free ↦ rw (other, free) (put-Ids _ 0 _ _ h)
      ]
    ]

pub perform-IsKeyed :
    (user_of : ℕ → Option ℕ) (op : Operation) (db : Tables)
    → IsKeyed db
    → IsKeyed (perform user_of op db).1
unfolding perform create_or_update_declaration transition_stage process_approval_action
    new_declaration
perform-IsKeyed user_of (declare e o y g es) db h = write-IsKeyed _ _ es db refl h
perform-IsKeyed user_of (transition now j t) db h = move_found-IsKeyed now t _ db h
perform-IsKeyed user_of (approval now c j r) db h = act_found-IsKeyed user_of now c r _ db h

-- A verified or frozen declaration carries the time of a verification.
abbrev pub has_time {ℓ} : {A : Type ℓ} → Option A → Bool
has_time none = false
has_time (some _) = true

abbrev pub is_stamped : TaxDeclaration → Bool
is_stamped d = not (is_closed d.status) || has_time d.verified_at

abbrev pub AllStamped : Tables → Type 0
AllStamped db = All (λ d. is_stamped d ≡ true) db.declarations

write-AllStamped :
    (o : Option TaxDeclaration) (fresh : TaxDeclaration) (entries : List DeclaredItem) (db : Tables)
    → is_stamped fresh ≡ true
    → ((d : TaxDeclaration) → o ≡ some d → is_stamped d ≡ true)
    → AllStamped db
    → AllStamped (write o fresh entries db).1
unfolding write fill
write-AllStamped none fresh entries db e g h =
    put-All (λ d. is_stamped d ≡ true) _ _ e (append-All (λ d. is_stamped d ≡ true) _ fresh h e)
write-AllStamped (some d) fresh entries db e g h = elim (Bool-cases (same_stage d.status frozen)) [
  | inl t ↦ rw t h
  | inr f ↦ rw f (put-All (λ x. is_stamped x ≡ true) _ _ (g d refl) h)
]

-- The stages from which `VALID_TRANSITIONS` leads to FROZEN: VERIFIED alone.
frozen_only : (s : Stage) → is_transition s frozen ≡ true → s ≡ verified
frozen_only draft h = cc
frozen_only submitted h = cc
frozen_only under_review h = cc
frozen_only verified h = refl
frozen_only rejected h = cc
frozen_only frozen h = cc

stamp-is_stamped :
    (now : ℕ) (actor : Option ℕ) (reason : Option String) (total : ℤ) (s : Stage)
    (d : TaxDeclaration)
    → is_transition d.status s ≡ true
    → is_stamped d ≡ true
    → is_stamped (record (stamp now actor reason total s d) { status = s }) ≡ true
unfolding stamp
stamp-is_stamped now actor reason total draft d v h = refl
stamp-is_stamped now actor reason total submitted d v h = refl
stamp-is_stamped now actor reason total under_review d v h = refl
stamp-is_stamped now actor reason total verified d v h = refl
stamp-is_stamped now actor reason total rejected d v h = refl
stamp-is_stamped now actor reason total frozen d v h = rw (frozen_only d.status v) at h

move_found-AllStamped :
    (now : ℕ) (t : Transition) (o : Option TaxDeclaration) (db : Tables)
    → ((d : TaxDeclaration) → o ≡ some d → is_stamped d ≡ true)
    → AllStamped db
    → AllStamped (move_found now t o db).1
unfolding move_found move moved
move_found-AllStamped now t none db g h = h
move_found-AllStamped now t (some d) db g h =
    elim (Bool-cases (is_transition d.status t.target_stage)) [
      | inl v ↦ rw v (
          put-All (λ x. is_stamped x ≡ true) _ _
            (stamp-is_stamped now t.actor_id t.rejection_reason _ t.target_stage d v (g d refl)) h)
      | inr f ↦ rw f h
    ]

apply_action-is_stamped :
    (a : ApprovalAction) (now user_id : ℕ) (r : ApprovalRequest) (d : TaxDeclaration)
    → is_stamped (apply_action a now user_id r d) ≡ true
unfolding apply_action
apply_action-is_stamped approve now user_id r d = refl
apply_action-is_stamped reject now user_id r d = refl
apply_action-is_stamped clarification_required now user_id r d = refl

act_found-AllStamped :
    (user_of : ℕ → Option ℕ) (now : ℕ) (c : Caller) (r : ApprovalRequest)
    (o : Option TaxDeclaration) (db : Tables)
    → AllStamped db
    → AllStamped (act_found user_of now c r o db).1
unfolding act_found act carried_out
act_found-AllStamped user_of now c r none db h = h
act_found-AllStamped user_of now c r (some d) db h =
    elim (Bool-cases (is_user c.user_id (user_of d.employee_id))) [
      | inl own ↦ rw own h
      | inr other ↦ elim (Bool-cases (is_closed d.status && is_approval r.action)) [
        | inl closed ↦ rw (other, closed) h
        | inr free ↦
            rw (other, free)
              (put-All (λ x. is_stamped x ≡ true) _ _
                (apply_action-is_stamped r.action now c.user_id r d) h)
      ]
    ]

perform-AllStamped :
    (user_of : ℕ → Option ℕ) (op : Operation) (db : Tables)
    → AllStamped db
    → AllStamped (perform user_of op db).1
unfolding perform create_or_update_declaration transition_stage process_approval_action
    new_declaration
perform-AllStamped user_of (declare e o y g es) db h =
    write-AllStamped _ _ es db refl
      (λ d found. find-All (λ x. is_stamped x ≡ true) _ db.declarations h found) h
perform-AllStamped user_of (transition now j t) db h =
    move_found-AllStamped now t _ db
      (λ d found. find-All (λ x. is_stamped x ≡ true) _ db.declarations h found) h
perform-AllStamped user_of (approval now c j r) db h = act_found-AllStamped user_of now c r _ db h

-- Every declaration that is VERIFIED or FROZEN after a sequence of requests carries the time of
-- a verification, if those at the start do.
pub run-AllStamped :
    (user_of : ℕ → Option ℕ) (ops : List Operation) (db : Tables)
    → AllStamped db
    → AllStamped (run user_of ops db)
unfolding run
run-AllStamped user_of [] db h = h
run-AllStamped user_of (op ∷ ops) db h =
    run-AllStamped user_of ops _ (perform-AllStamped user_of op db h)
