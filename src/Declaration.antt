-- ===== src/Declaration.antt =====
-- backend/app/services/tax_declaration_service.py and the approval endpoint of
-- backend/app/api/v1/endpoints/enterprise.py over the rows of tax_declarations and
-- tax_declaration_items (backend/app/models/compliance.py). An amount is signed, as no code checks
-- that it is not negative; the three columns of TDS tracking, which no operation here writes, are
-- left out. One reading of the clock stands for the readings of a call.
pub mod Stages
pub mod Rows
pub mod Keys
pub mod History
pub mod Totals
pub mod Ways
pub mod Duties
pub mod Tests
use Prim.Native.String.{String}
use text.Mathlib.Text.{◌==◌ as str_eq}
use smart_salary_india.Base.{
  ℕ, suc, ◌==◌, Bool, true, false, ◌&&◌, ◌||◌, Option, none, some, List, [], ◌∷◌, ◌++◌, not,
  if◌then◌else◌, find?, filter, update, any,
}
use smart_salary_india.Base.Int.{ℤ, pos, ◌+ℤ◌, abs}

pub data Stage : Type 0 where
  draft submitted under_review verified rejected frozen : Stage

pub data ItemStatus : Type 0 where
  pending accepted : ItemStatus

pub record TaxDeclaration : Type 0 where
  pub id : ℕ
  pub employee_id : ℕ
  pub organization_id : ℕ
  pub financial_year : String
  pub regime : String
  pub status : Stage
  pub total_declared_deductions : ℤ
  pub total_verified_deductions : ℤ
  pub submitted_at : Option ℕ
  pub verified_at : Option ℕ
  pub verified_by : Option ℕ
  pub rejection_reason : Option String

pub record TaxDeclarationItem : Type 0 where
  pub id : ℕ
  pub declaration_id : ℕ
  pub section_code : String
  pub category_name : String
  pub declared_amount : ℤ
  pub verified_amount : ℤ
  pub status : ItemStatus

-- The two tables, with the ids that their sequences give next.
pub record Tables : Type 0 where
  pub declarations : List TaxDeclaration
  pub items : List TaxDeclarationItem
  pub next_declaration : ℕ
  pub next_item : ℕ

pub data DeclarationError : Type 0 where
  is_frozen not_found invalid_transition maker_is_checker already_verified : DeclarationError

pub data Response : Type 0 where
  done : TaxDeclaration → Response
  refused : DeclarationError → Response

-- An entry of the `items` that a client sends.
pub record DeclaredItem : Type 0 where
  pub section_code : String
  pub category_name : String
  pub declared_amount : ℤ

abbrev pub same_stage : Stage → Stage → Bool
same_stage draft draft = true
same_stage submitted submitted = true
same_stage under_review under_review = true
same_stage verified verified = true
same_stage rejected rejected = true
same_stage frozen frozen = true
same_stage _ _ = false

-- `target_stage in VALID_TRANSITIONS[current]`
abbrev pub valid_transitions : Stage → List Stage
valid_transitions draft = submitted ∷ []
valid_transitions submitted = under_review ∷ draft ∷ []
valid_transitions under_review = verified ∷ rejected ∷ []
valid_transitions rejected = draft ∷ submitted ∷ []
valid_transitions verified = frozen ∷ under_review ∷ []
valid_transitions frozen = under_review ∷ []

abbrev pub is_transition : Stage → Stage → Bool
is_transition current target = any (same_stage target) (valid_transitions current)

abbrev pub is_row : ℕ → TaxDeclaration → Bool
is_row i d = d.id == i

-- The key of the unique constraint.
abbrev pub has_key : ℕ → String → String → TaxDeclaration → Bool
has_key employee_id year regime d =
    d.employee_id == employee_id && str_eq d.financial_year year && str_eq d.regime regime

-- The row of a declaration takes its new values.
abbrev pub put : TaxDeclaration → List TaxDeclaration → List TaxDeclaration
put d = update (is_row d.id) λ _. d

abbrev pub is_line_of : ℕ → TaxDeclarationItem → Bool
is_line_of i item = item.declaration_id == i

-- A declaration that the service adds.
unfoldable pub new_declaration : ℕ → ℕ → ℕ → String → String → TaxDeclaration
new_declaration i employee_id organization_id year regime = record {
  id = i;
  employee_id = employee_id;
  organization_id = organization_id;
  financial_year = year;
  regime = regime;
  status = draft;
  total_declared_deductions = pos 0;
  total_verified_deductions = pos 0;
  submitted_at = none;
  verified_at = none;
  verified_by = none;
  rejection_reason = none;
}

unfoldable pub new_item : ℕ → ℕ → DeclaredItem → TaxDeclarationItem
new_item i declaration_id e = record {
  id = i;
  declaration_id = declaration_id;
  section_code = e.section_code;
  category_name = e.category_name;
  declared_amount = e.declared_amount;
  verified_amount = pos 0;
  status = pending;
}

-- The loop over the entries: the rows it adds, the running total and the next id.
unfoldable pub add_items :
    ℕ → List DeclaredItem → ℤ → List TaxDeclarationItem → ℕ → ℤ × List TaxDeclarationItem × ℕ
add_items declaration_id [] total rows next = (total, rows, next)
add_items declaration_id (e ∷ es) total rows next =
    add_items declaration_id es (total +ℤ e.declared_amount)
      (rows ++ (new_item next declaration_id e ∷ [])) (suc next)

-- The rest of the update, once the old items of the declaration are deleted.
unfoldable pub fill : TaxDeclaration → List DeclaredItem → Tables → Response × Tables
fill d entries db =
    let added = add_items d.id entries (pos 0) db.items db.next_item in
    let d' = record d { total_declared_deductions = added.0 } in
    (
      done d',
      record db { declarations = put d' db.declarations; items = added.1; next_item = added.2 },
    )

-- The declaration of the key, or none.
unfoldable pub write :
    Option TaxDeclaration → TaxDeclaration → List DeclaredItem → Tables → Response × Tables
write none fresh entries db = fill fresh entries (record db {
  declarations = db.declarations ++ (fresh ∷ []);
  next_declaration = suc db.next_declaration;
})
write (some d) fresh entries db =
    if same_stage d.status frozen
    then (refused is_frozen, db)
    else fill d entries (record db { items = filter (λ t. not (is_line_of d.id t)) db.items })

-- `create_or_update_declaration`
unfoldable pub create_or_update_declaration :
    ℕ → ℕ → String → String → List DeclaredItem → Tables → Response × Tables
create_or_update_declaration employee_id organization_id year regime entries db =
    write (find? (has_key employee_id year regime) db.declarations)
      (new_declaration db.next_declaration employee_id organization_id year regime) entries db

-- An item that the checker verifies, with the amount accepted.
pub record VerifiedItem : Type 0 where
  pub item_id : ℕ
  pub amount : ℤ

abbrev pub has_item_id : ℕ → TaxDeclarationItem → Bool
has_item_id i item = item.id == i

-- The loop over the verified items: an id that no row has is passed over.
unfoldable pub verify_items :
    List VerifiedItem → ℤ → List TaxDeclarationItem → ℤ × List TaxDeclarationItem
verify_items [] total rows = (total, rows)
verify_items (v ∷ vs) total rows =
    if any (has_item_id v.item_id) rows
    then verify_items vs (total +ℤ v.amount) (
        update (has_item_id v.item_id)
          (λ r. record r { verified_amount = v.amount; status = accepted }) rows)
    else verify_items vs total rows

-- Python's `a or b` on an optional text.
abbrev pub text_or : Option String → String → String
text_or none b = b
text_or (some a) b = if str_eq a "" then b else a

-- The columns that a target stage sets besides the status.
unfoldable pub stamp : ℕ → Option ℕ → Option String → ℤ → Stage → TaxDeclaration → TaxDeclaration
stamp now actor reason total submitted d = record d { submitted_at = some now }
stamp now actor reason total verified d = record d {
  verified_at = some now;
  verified_by = actor;
  total_verified_deductions = total;
}
stamp now actor reason total rejected d = record d {
  rejection_reason = some (text_or reason "Insufficient proof");
}
stamp now actor reason total _ d = d

-- The items and the verified total after a move to a stage: only a verification with items
-- changes them.
unfoldable pub verification :
    Stage → List VerifiedItem → ℤ → List TaxDeclarationItem → ℤ × List TaxDeclarationItem
verification verified (v ∷ vs) total rows = verify_items (v ∷ vs) (pos 0) rows
verification _ _ total rows = (total, rows)

-- A request to move a declaration.
pub record Transition : Type 0 where
  pub target_stage : Stage
  pub actor_id : Option ℕ
  pub verified_items : List VerifiedItem
  pub rejection_reason : Option String

-- The accepted move of a declaration.
unfoldable pub moved : ℕ → Transition → TaxDeclaration → Tables → Response × Tables
moved now t d db =
    let checked =
      verification t.target_stage t.verified_items d.total_verified_deductions db.items in
    let d' = record (stamp now t.actor_id t.rejection_reason checked.0 t.target_stage d) {
      status = t.target_stage;
    } in
    (done d', record db { declarations = put d' db.declarations; items = checked.1 })

-- `transition_stage` on the declaration found.
unfoldable pub move : ℕ → Transition → TaxDeclaration → Tables → Response × Tables
move now t d db =
    if is_transition d.status t.target_stage
    then moved now t d db
    else (refused invalid_transition, db)

unfoldable pub move_found : ℕ → Transition → Option TaxDeclaration → Tables → Response × Tables
move_found now t none db = (refused not_found, db)
move_found now t (some d) db = move now t d db

-- `transition_stage`
unfoldable pub transition_stage : ℕ → ℕ → Transition → Tables → Response × Tables
transition_stage now declaration_id t db =
    move_found now t (find? (is_row declaration_id) db.declarations) db

pub data ApprovalAction : Type 0 where
  approve reject clarification_required : ApprovalAction

pub record ApprovalRequest : Type 0 where
  pub action : ApprovalAction
  pub remarks : Option String
  pub verified_amount : Option ℤ

-- `req.verified_amount or decl.total_declared_deductions`, where zero counts as missing.
abbrev pub amount_or : Option ℤ → ℤ → ℤ
amount_or none b = b
amount_or (some a) b = if abs a == 0 then b else a

-- The row after an approval action.
unfoldable pub apply_action :
    ApprovalAction → ℕ → ℕ → ApprovalRequest → TaxDeclaration → TaxDeclaration
apply_action approve now user_id r d = record d {
  status = verified;
  total_verified_deductions = amount_or r.verified_amount d.total_declared_deductions;
  verified_at = some now;
  verified_by = some user_id;
  rejection_reason = none;
}
apply_action reject now user_id r d = record d {
  status = rejected;
  rejection_reason = some (text_or r.remarks "Proofs failed verification criteria");
}
apply_action clarification_required now user_id r d = record d {
  status = under_review;
  rejection_reason = some (text_or r.remarks "Additional supporting documents required");
}

-- A tenant's user: the organization and the user of the request's context.
pub record Caller : Type 0 where
  pub organization_id : ℕ
  pub user_id : ℕ

abbrev pub is_approval : ApprovalAction → Bool
is_approval approve = true
is_approval _ = false

abbrev pub is_closed : Stage → Bool
is_closed s = same_stage s verified || same_stage s frozen

-- `decl.employee and decl.employee.user_id == ctx.user_id`
abbrev pub is_user : ℕ → Option ℕ → Bool
is_user user_id none = false
is_user user_id (some u) = u == user_id

-- The query of a declaration within the caller's organization.
abbrev pub is_own_row : Caller → ℕ → TaxDeclaration → Bool
is_own_row caller i d = is_row i d && d.organization_id == caller.organization_id

-- The action on a declaration that passed the guards.
unfoldable pub carried_out :
    ℕ → Caller → ApprovalRequest → TaxDeclaration → Tables → Response × Tables
carried_out now caller r d db =
    let d' = apply_action r.action now caller.user_id r d in
    (done d', record db { declarations = put d' db.declarations })

-- The user of an employee, who may have none, is a parameter.
module _ (user_of : ℕ → Option ℕ) where
  -- `process_approval_action` on the declaration found.
  unfoldable pub act : ℕ → Caller → ApprovalRequest → TaxDeclaration → Tables → Response × Tables
  act now caller r d db =
      if is_user caller.user_id (user_of d.employee_id)
      then (refused maker_is_checker, db)
      else if is_closed d.status && is_approval r.action
      then (refused already_verified, db)
      else carried_out now caller r d db

  unfoldable pub act_found :
      ℕ → Caller → ApprovalRequest → Option TaxDeclaration → Tables → Response × Tables
  act_found now caller r none db = (refused not_found, db)
  act_found now caller r (some d) db = act now caller r d db

  -- `process_approval_action`, without the audit event.
  unfoldable pub process_approval_action :
      ℕ → Caller → ℕ → ApprovalRequest → Tables → Response × Tables
  process_approval_action now caller i r db =
      act_found now caller r (find? (is_own_row caller i) db.declarations) db
