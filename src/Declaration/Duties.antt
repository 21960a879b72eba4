-- ===== src/Declaration/Duties.antt =====
-- The approval endpoint of backend/app/api/v1/endpoints/enterprise.py on every branch: the tenants,
-- the separation of duties and the tables.
use smart_salary_india.Base.{
  ℕ, ◌≡◌, ◌≢◌, ◌⊎◌, refl, sym, subst, ◌==◌, ◌&&◌, true, false, Option, none, some, List, [], ◌∷◌,
  ◌∙◌, arith, Bool-cases, Option-cases, inl, inr, find?, find-pass, if◌then◌else◌,
}
use smart_salary_india.Declaration.{
  Stage, verified, frozen, TaxDeclaration, Tables, Response, done, refused, Caller, ApprovalRequest,
  ApprovalAction, approve, reject, clarification_required, apply_action, act, act_found,
  carried_out, is_user, is_closed, is_approval, maker_is_checker, already_verified, not_found,
  is_own_row, is_row, put, process_approval_action,
}
use smart_salary_india.Declaration.Rows.{lookup, lookup-put, find-lookup}
use smart_salary_india.Declaration.Keys.{IsKeyed}
use smart_salary_india.Declaration.Stages.{
  Ruling, approves, rejects, asks, stage, Follows, answered, unanswered, approval,
}

-- The declaration with the id, if it belongs to another organization or is not there.
abbrev pub IsForeign : Caller → Option TaxDeclaration → Type 0
IsForeign c none = Unit
IsForeign c (some d) = d.organization_id ≢ c.organization_id

-- Who verified a declaration last.
abbrev pub verifier : ApprovalAction → ℕ → Option ℕ → Option ℕ
verifier approve user before = some user
verifier _ user before = before

-- What becomes of a request: the answer to the caller with the tables after it.
pub data Decision (user_of : ℕ → Option ℕ) (c : Caller) (i : ℕ) (r : ApprovalRequest) (db : Tables)
    : Response × Tables → Type 0 where
  foreign :
      IsForeign c (lookup i db.declarations) → Decision user_of c i r db (refused not_found, db)
  own :
      {d : TaxDeclaration}
      → lookup i db.declarations ≡ some d
      → d.organization_id ≡ c.organization_id
      → user_of d.employee_id ≡ some c.user_id
      → Decision user_of c i r db (refused maker_is_checker, db)
  closed :
      {d : TaxDeclaration}
      → lookup i db.declarations ≡ some d
      → d.organization_id ≡ c.organization_id
      → user_of d.employee_id ≢ some c.user_id
      → r.action ≡ approve
      → (d.status ≡ verified) ⊎ (d.status ≡ frozen)
      → Decision user_of c i r db (refused already_verified, db)
  decided :
      {d d' : TaxDeclaration} {db' : Tables}
      → lookup i db.declarations ≡ some d
      → d.organization_id ≡ c.organization_id
      → user_of d.employee_id ≢ some c.user_id
      → Ruling r.action d.status d'.status
      → d'.verified_by ≡ verifier r.action c.user_id d.verified_by
      → ((j : ℕ)
          → lookup j db'.declarations ≡ (if i == j then some d' else lookup j db.declarations))
      → db'.items ≡ db.items
      → Decision user_of c i r db (done d', db')

is_user-some : (u : ℕ) (o : Option ℕ) → is_user u o ≡ true → o ≡ some u
is_user-some u none h = cc
is_user-some u (some v) h = let same : v ≡ u = ground arith in rw same refl

is_user-other : (u : ℕ) (o : Option ℕ) → is_user u o ≡ false → o ≢ some u
is_user-other u o f e =
    let own : is_user u (some u) ≡ true = ground arith in
    let wrong : is_user u (some u) ≡ false = rw e at f in cc

is_closed-cases : (s : Stage) → is_closed s ≡ true → (s ≡ verified) ⊎ (s ≡ frozen)
is_closed-cases s h = ground arith

is_approval-approve : (a : ApprovalAction) → is_approval a ≡ true → a ≡ approve
is_approval-approve approve h = refl
is_approval-approve reject h = cc
is_approval-approve clarification_required h = cc

open_stage : (s : Stage) → is_closed s ≡ false → (s ≢ verified) × (s ≢ frozen)
open_stage s h = (
  λ e. let wrong : is_closed verified ≡ false = rw e at h in cc,
  λ e. let wrong : is_closed frozen ≡ false = rw e at h in cc,
)

apply_action-Ruling :
    (a : ApprovalAction) (now user_id : ℕ) (r : ApprovalRequest) (d : TaxDeclaration)
    → (is_closed d.status && is_approval a) ≡ false
    → Ruling a d.status (apply_action a now user_id r d).status
unfolding apply_action
apply_action-Ruling approve now user_id r d f =
    let (v, z) = open_stage d.status (ground arith) in approves v z
apply_action-Ruling reject now user_id r d f = rejects
apply_action-Ruling clarification_required now user_id r d f = asks

pub apply_action-id :
    (a : ApprovalAction) (now user_id : ℕ) (r : ApprovalRequest) (d : TaxDeclaration)
    → (apply_action a now user_id r d).id ≡ d.id
unfolding apply_action
apply_action-id approve now user_id r d = refl
apply_action-id reject now user_id r d = refl
apply_action-id clarification_required now user_id r d = refl

apply_action-verifier :
    (a : ApprovalAction) (now user_id : ℕ) (r : ApprovalRequest) (d : TaxDeclaration)
    → (apply_action a now user_id r d).verified_by ≡ verifier a user_id d.verified_by
unfolding apply_action
apply_action-verifier approve now user_id r d = refl
apply_action-verifier reject now user_id r d = refl
apply_action-verifier clarification_required now user_id r d = refl

-- A query that misses leaves no own declaration of the id.
missing-IsForeign :
    (c : Caller) (i : ℕ) (rows : List TaxDeclaration)
    → find? (is_own_row c i) rows ≡ none
    → IsForeign c (lookup i rows)
missing-IsForeign c i [] e = tt
missing-IsForeign c i (x ∷ rows) e = elim (Bool-cases (is_row i x)) [
  | inl t ↦ rw t λ same.
      let org : (x.organization_id == c.organization_id) ≡ true = ground arith in
      let wrong : some x ≡ none = rw (t, org) at e in cc
  | inr f ↦ rw f (missing-IsForeign c i rows (rw f at e))
]

-- A row that is there takes its new values, and every other one stays.
lookup-written :
    (i : ℕ) (d d' : TaxDeclaration) (rows : List TaxDeclaration)
    → lookup i rows ≡ some d
    → d'.id ≡ i
    → (j : ℕ) → lookup j (put d' rows) ≡ (if i == j then some d' else lookup j rows)
lookup-written i d d' rows e id j = elim (Bool-cases (i == j)) [
  | inl t ↦
      let own : (d'.id == j) ≡ true = ground arith in
      let at : lookup j rows ≡ some d =
        let same : i ≡ j = ground arith in subst (λ n. lookup n rows ≡ some d) same e in
      rw (lookup-put d' j rows, own, t, at) refl
  | inr f ↦
      let other : (d'.id == j) ≡ false = ground arith in rw (lookup-put d' j rows, other, f) refl
]

act-Decision :
    (user_of : ℕ → Option ℕ) (now : ℕ) (c : Caller) (i : ℕ) (r : ApprovalRequest)
    (d : TaxDeclaration) (db : Tables)
    → lookup i db.declarations ≡ some d
    → d.id ≡ i
    → d.organization_id ≡ c.organization_id
    → Decision user_of c i r db (act user_of now c r d db)
unfolding act carried_out
act-Decision user_of now c i r d db e id org =
    elim (Bool-cases (is_user c.user_id (user_of d.employee_id))) [
      | inl mine ↦ rw mine (own e org (is_user-some c.user_id _ mine))
      | inr other ↦
          let others = is_user-other c.user_id (user_of d.employee_id) other in
          elim (Bool-cases (is_closed d.status && is_approval r.action)) [
            | inl shut ↦
                let action = is_approval-approve r.action (ground arith) in
                let status = is_closed-cases d.status (ground arith) in
                rw (other, shut) (closed e org others action status)
            | inr free ↦
                rw (other, free)
                  (decided e org others (apply_action-Ruling r.action now c.user_id r d free)
                    (apply_action-verifier r.action now c.user_id r d)
                    (lookup-written i d _ db.declarations e
                      (apply_action-id r.action now c.user_id r d ∙ id))
                    refl)
          ]
    ]

-- A request for a declaration of another organization, or for none, is not found; the employee of
-- the declaration is refused as its maker; an approval of what is verified or frozen is refused;
-- none of these changes the tables. Any other request changes the stage as its action says, names
-- the caller as the verifier if it approves, and leaves all other declarations and all items as
-- they are. The ids ascend at the start.
pub process_approval_action-Decision :
    (user_of : ℕ → Option ℕ) (now : ℕ) (c : Caller) (i : ℕ) (r : ApprovalRequest) (db : Tables)
    → IsKeyed db
    → Decision user_of c i r db (process_approval_action user_of now c i r db)
unfolding process_approval_action act_found
process_approval_action-Decision user_of now c i r db h =
    elim (Option-cases (find? (is_own_row c i) db.declarations)) [
      | inl none_found ↦ rw none_found (foreign (missing-IsForeign c i db.declarations none_found))
      | inr (d, found) ↦
          let passed = find-pass (is_own_row c i) db.declarations found in
          let id : d.id ≡ i = ground arith in
          let at : lookup i db.declarations ≡ some d =
            subst (λ n. lookup n db.declarations ≡ some d) id
              (find-lookup (is_own_row c i) 0 _ db.declarations h found) in
          rw found (act-Decision user_of now c i r d db at id (ground arith))
    ]

-- What a decision does to the stage of a declaration.
pub Decision-Follows :
    {user_of : ℕ → Option ℕ} {now : ℕ} {c : Caller} {j : ℕ} {r : ApprovalRequest} {db : Tables}
    {after : Response × Tables} (i : ℕ)
    → Decision user_of c j r db after
    → Follows i (approval now c j r) (stage i db) (stage i after.1)
Decision-Follows i (foreign f) = unanswered
Decision-Follows i (own e org u) = unanswered
Decision-Follows i (closed e org u a s) = unanswered
Decision-Follows {now = now} {c = c} {j = j} {r = r} {db = db} i
      (decided {d} {d'} e org u answer v rows items) =
    elim (Bool-cases (j == i)) [
      | inl t ↦
          let same : j ≡ i = ground arith in
          let at : lookup i db.declarations ≡ some d =
            subst (λ n. lookup n db.declarations ≡ some d) same e in
          rw (rows i, t, at)
            (subst (λ n. Follows i (approval now c n r) (some d.status) (some d'.status)) (sym same)
              (answered answer))
      | inr f ↦ rw (rows i, f) unanswered
    ]
