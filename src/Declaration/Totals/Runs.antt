-- ===== src/Declaration/Totals/Runs.antt =====
-- The declared totals of backend/app/services/tax_declaration_service.py over sequences of requests
-- to it and to the approval endpoint of backend/app/api/v1/endpoints/enterprise.py.
use Prim.Native.String.{String}
use smart_salary_india.Base.{
  ℕ, ◌≡◌, refl, sym, ◌∙◌, ◌<◌, ◌==◌, ◌&&◌, false, ◌++◌, Option, none, some, List, [], ◌∷◌, arith,
  Bool-cases, find-All, inl, inr, All, append-All,
}
use smart_salary_india.Base.Int.{ℤ, pos}
use smart_salary_india.Declaration.{
  TaxDeclaration, TaxDeclarationItem, DeclaredItem, put, has_key, is_own_row, Tables, fill, write,
  frozen, same_stage, Transition, move_found, move, moved, stamp, is_transition, Stage, draft,
  submitted, under_review, verified, rejected, Caller, ApprovalRequest, ApprovalAction, approve,
  reject, clarification_required, act, act_found, carried_out, apply_action, is_user, is_approval,
  is_closed, new_declaration, create_or_update_declaration, transition_stage,
  process_approval_action, verification,
}
use smart_salary_india.Declaration.Keys.{IsKeyed, perform-IsKeyed}
use smart_salary_india.Declaration.Stages.{Operation, declare, transition, approval, perform, run}
use smart_salary_india.Declaration.Totals.{
  declared, map-IsWithin, add_items-declared, add_items-others, add_items-IsWithin, map-IsWithin,
  declared-delete_own, declared-delete_others, delete-IsWithin, map-IsWithin, declared-fresh,
  verification-declared, verification-IsWithin,
}
use smart_salary_india.Declaration.Totals.Owners.{
  HasRow, IsOwned, put-HasRow, append-HasRow, last-HasRow, found-HasRow, HasRow-lt,
}

-- The declared total of a row is the sum of its items' declared amounts.
abbrev pub IsTotal : List TaxDeclarationItem → TaxDeclaration → Type 0
IsTotal items d = declared d.id items ≡ d.total_declared_deductions

-- Ids ascend, every item belongs to a declaration, and every declared total is the sum.
abbrev pub IsTotalled : Tables → Type 0
IsTotalled db =
    IsKeyed db × IsOwned db.declarations db.items × All (IsTotal db.items) db.declarations

-- A row is written while the sums of the others stay.
put-IsTotal :
    (d : TaxDeclaration) (items items' : List TaxDeclarationItem) (rows : List TaxDeclaration)
    → ((j : ℕ) → (d.id == j) ≡ false → declared j items' ≡ declared j items)
    → IsTotal items' d
    → All (IsTotal items) rows
    → All (IsTotal items') (put d rows)
put-IsTotal d items items' [] same h a = tt
put-IsTotal d items items' (x ∷ rows) same h a =
    let rest = put-IsTotal d items items' rows same h a.1 in
    elim (Bool-cases (x.id == d.id)) [
      | inl t ↦ rw t (h, rest)
      | inr f ↦ rw f (same x.id (ground arith) ∙ a.0, rest)
    ]

-- The fill of a declaration whose old items are gone.
fill-IsTotal :
    (d : TaxDeclaration) (entries : List DeclaredItem) (items : List TaxDeclarationItem)
    (db : Tables)
    → ((j : ℕ) → (d.id == j) ≡ false → declared j db.items ≡ declared j items)
    → declared d.id db.items ≡ pos 0
    → All (IsTotal items) db.declarations
    → All (IsTotal (fill d entries db).1.items) (fill d entries db).1.declarations
unfolding fill
fill-IsTotal d entries items db same clean a =
    put-IsTotal _ items _ db.declarations
      (λ j f. add_items-others j d.id entries (pos 0) db.items db.next_item f ∙ same j f)
      (sym (add_items-declared d.id entries (pos 0) db.items db.next_item (sym clean))) a

-- A row with a fresh id and no items has the total zero.
write-IsTotal :
    (o : Option TaxDeclaration) (fresh : TaxDeclaration) (entries : List DeclaredItem) (db : Tables)
    → fresh.id ≡ db.next_declaration
    → fresh.total_declared_deductions ≡ pos 0
    → IsTotalled db
    → All (IsTotal (write o fresh entries db).1.items) (write o fresh entries db).1.declarations
unfolding write
write-IsTotal none fresh entries db e z h =
    let clean : declared fresh.id db.items ≡ pos 0 = rw e (
      declared-fresh _ db.items (
        map-IsWithin (HasRow db.declarations) (λ k. k < db.next_declaration) db.items
          (λ k. HasRow-lt 0 _ db.declarations k h.0) h.1)) in
    fill-IsTotal fresh entries db.items _ (λ j f. refl) clean
      (append-All (IsTotal db.items) db.declarations fresh h.2 (clean ∙ sym z))
write-IsTotal (some d) fresh entries db e z h = elim (Bool-cases (same_stage d.status frozen)) [
  | inl t ↦ rw t h.2
  | inr f ↦ rw f (
      fill-IsTotal d entries db.items _ (λ j g. declared-delete_others j d.id db.items g)
        (declared-delete_own d.id db.items) h.2)
]

write-IsOwned :
    (o : Option TaxDeclaration) (fresh : TaxDeclaration) (entries : List DeclaredItem) (db : Tables)
    → ((d : TaxDeclaration) → o ≡ some d → HasRow db.declarations d.id)
    → IsOwned db.declarations db.items
    → IsOwned (write o fresh entries db).1.declarations (write o fresh entries db).1.items
unfolding write fill
write-IsOwned none fresh entries db row b =
    let rows = db.declarations ++ (fresh ∷ []) in
    add_items-IsWithin _ fresh.id entries (pos 0) db.items db.next_item
      (put-HasRow _ rows fresh.id (last-HasRow fresh db.declarations))
      (map-IsWithin (HasRow db.declarations) _ db.items
        (λ k h. put-HasRow _ rows k (append-HasRow fresh db.declarations k h)) b)
write-IsOwned (some d) fresh entries db row b = elim (Bool-cases (same_stage d.status frozen)) [
  | inl t ↦ rw t b
  | inr f ↦ rw f (
      add_items-IsWithin _ d.id entries (pos 0) _ db.next_item
        (put-HasRow _ db.declarations d.id (row d refl))
        (map-IsWithin (HasRow db.declarations) _ _ (λ k. put-HasRow _ db.declarations k)
          (delete-IsWithin _ d.id db.items b)))
]

stamp-IsTotal :
    (now : ℕ) (actor : Option ℕ) (reason : Option String) (total : ℤ) (s : Stage)
    (items : List TaxDeclarationItem) (d : TaxDeclaration)
    → IsTotal items d
    → IsTotal items (record (stamp now actor reason total s d) { status = s })
unfolding stamp
stamp-IsTotal now actor reason total draft items d h = h
stamp-IsTotal now actor reason total submitted items d h = h
stamp-IsTotal now actor reason total under_review items d h = h
stamp-IsTotal now actor reason total verified items d h = h
stamp-IsTotal now actor reason total rejected items d h = h
stamp-IsTotal now actor reason total frozen items d h = h

-- Items whose declared amounts are the same.
same-IsTotal :
    (items items' : List TaxDeclarationItem) (rows : List TaxDeclaration)
    → ((j : ℕ) → declared j items' ≡ declared j items)
    → All (IsTotal items) rows
    → All (IsTotal items') rows
same-IsTotal items items' [] same a = tt
same-IsTotal items items' (x ∷ rows) same a =
    (same x.id ∙ a.0, same-IsTotal items items' rows same a.1)

move_found-IsTotal :
    (now : ℕ) (t : Transition) (o : Option TaxDeclaration) (db : Tables)
    → ((d : TaxDeclaration) → o ≡ some d → IsTotal db.items d)
    → All (IsTotal db.items) db.declarations
    → All (IsTotal (move_found now t o db).1.items) (move_found now t o db).1.declarations
unfolding move_found move moved
move_found-IsTotal now t none db g h = h
move_found-IsTotal now t (some d) db g h =
    let same : (j : ℕ)
        → declared j
            (verification t.target_stage t.verified_items d.total_verified_deductions db.items).1
          ≡ declared j db.items =
      λ j.
        verification-declared j t.target_stage t.verified_items d.total_verified_deductions
          db.items in
    elim (Bool-cases (is_transition d.status t.target_stage)) [
      | inl v ↦ rw v (
          put-IsTotal _ db.items _ db.declarations (λ j f. same j)
            (stamp-IsTotal now t.actor_id t.rejection_reason _ t.target_stage _ d
              (same d.id ∙ g d refl))
            h)
      | inr f ↦ rw f h
    ]

move_found-IsOwned :
    (now : ℕ) (t : Transition) (o : Option TaxDeclaration) (db : Tables)
    → IsOwned db.declarations db.items
    → IsOwned (move_found now t o db).1.declarations (move_found now t o db).1.items
unfolding move_found move moved
move_found-IsOwned now t none db b = b
move_found-IsOwned now t (some d) db b = elim (Bool-cases (is_transition d.status t.target_stage)) [
  | inl v ↦ rw v (
      map-IsWithin (HasRow db.declarations) _ _ (λ k. put-HasRow _ db.declarations k)
        (verification-IsWithin _ t.target_stage t.verified_items _ db.items b))
  | inr f ↦ rw f b
]

apply_action-IsTotal :
    (a : ApprovalAction) (now user_id : ℕ) (r : ApprovalRequest) (items : List TaxDeclarationItem)
    (d : TaxDeclaration)
    → IsTotal items d
    → IsTotal items (apply_action a now user_id r d)
unfolding apply_action
apply_action-IsTotal approve now user_id r items d h = h
apply_action-IsTotal reject now user_id r items d h = h
apply_action-IsTotal clarification_required now user_id r items d h = h

act_found-IsTotalled :
    (user_of : ℕ → Option ℕ) (now : ℕ) (c : Caller) (r : ApprovalRequest)
    (o : Option TaxDeclaration) (db : Tables)
    → ((d : TaxDeclaration) → o ≡ some d → IsTotal db.items d)
    → IsOwned db.declarations db.items × All (IsTotal db.items) db.declarations
    → IsOwned
        (act_found user_of now c r o db).1.declarations
        (act_found user_of now c r o db).1.items
      × All
          (IsTotal (act_found user_of now c r o db).1.items)
          (act_found user_of now c r o db).1.declarations
unfolding act_found act carried_out
act_found-IsTotalled user_of now c r none db g h = h
act_found-IsTotalled user_of now c r (some d) db g h =
    elim (Bool-cases (is_user c.user_id (user_of d.employee_id))) [
      | inl own ↦ rw own h
      | inr other ↦ elim (Bool-cases (is_closed d.status && is_approval r.action)) [
        | inl closed ↦ rw (other, closed) h
        | inr free ↦
            rw (other, free)
              (
                map-IsWithin (HasRow db.declarations) _ db.items
                    (λ k. put-HasRow _ db.declarations k) h.0,
                put-IsTotal _ db.items db.items db.declarations (λ j f. refl)
                    (apply_action-IsTotal r.action now c.user_id r db.items d (g d refl)) h.1,
              )
      ]
    ]

perform-IsTotalled :
    (user_of : ℕ → Option ℕ) (op : Operation) (db : Tables)
    → IsTotalled db
    → IsTotalled (perform user_of op db).1
unfolding perform create_or_update_declaration transition_stage process_approval_action
    new_declaration
perform-IsTotalled user_of (declare e o y g es) db h = (
  perform-IsKeyed user_of (declare e o y g es) db h.0,
  write-IsOwned _ _ es db (λ d found. found-HasRow (has_key e y g) db.declarations found) h.1,
  write-IsTotal _ _ es db refl refl h,
)
perform-IsTotalled user_of (transition now j t) db h = (
  perform-IsKeyed user_of (transition now j t) db h.0,
  move_found-IsOwned now t _ db h.1,
  move_found-IsTotal now t _ db (λ d found. find-All (IsTotal db.items) _ db.declarations h.2 found)
      h.2,
)
perform-IsTotalled user_of (approval now c j r) db h =
    let rest =
      act_found-IsTotalled user_of now c r _ db
        (λ d found. find-All (IsTotal db.items) (is_own_row c j) db.declarations h.2 found)
        (h.1, h.2) in
    (perform-IsKeyed user_of (approval now c j r) db h.0, rest.0, rest.1)

-- Over any sequence of requests ids ascend, every item belongs to a declaration, and the declared
-- total of each declaration stays the sum of the declared amounts of its items, if all of this
-- holds at the start.
pub run-IsTotalled :
    (user_of : ℕ → Option ℕ) (ops : List Operation) (db : Tables)
    → IsTotalled db
    → IsTotalled (run user_of ops db)
unfolding run
run-IsTotalled user_of [] db h = h
run-IsTotalled user_of (op ∷ ops) db h =
    run-IsTotalled user_of ops _ (perform-IsTotalled user_of op db h)
