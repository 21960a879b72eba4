-- ===== src/Declaration/Tests.antt =====
-- Runs of the declarations of backend/app/services/tax_declaration_service.py and of the approval
-- endpoint of backend/app/api/v1/endpoints/enterprise.py.
use smart_salary_india.Base.{
  ℕ, ◌+◌, ◌≡◌, refl, true, Option, none, some, List, [], ◌∷◌, map, arith, All,
}
use smart_salary_india.Base.Int.{ℤ, pos, ◌+ℤ◌}
use smart_salary_india.Declaration.{
  Stage, draft, submitted, under_review, verified, rejected, frozen, Tables, refused, is_frozen,
  maker_is_checker, VerifiedItem, DeclaredItem, Caller, ApprovalRequest, approve, reject,
  new_declaration, create_or_update_declaration, transition_stage, process_approval_action,
  add_items, fill, write, new_item, move_found, move, moved, stamp, verification, verify_items,
  act_found, act, carried_out, apply_action,
}
use smart_salary_india.Declaration.Stages.{
  stage, Operation, declare, perform, run, empty_tables, answers, is_done,
}
use smart_salary_india.Declaration.Keys.{AllStamped, run-AllStamped, IsKeyed}
use smart_salary_india.Declaration.Totals.Runs.{IsTotalled, run-IsTotalled}
use smart_salary_india.Declaration.Ways.{request, requests, way, run-way}
use smart_salary_india.Declaration.Duties.{Decision, process_approval_action-Decision}

-- Employee 7 is user 107.
abbrev user_of : ℕ → Option ℕ
user_of e = some (e + 100)

abbrev ppf_and_health : List DeclaredItem
ppf_and_health =
    record { section_code = "80C"; category_name = "PPF"; declared_amount = pos 15_000_000 }
    ∷ record { section_code = "80D"; category_name = "Mediclaim"; declared_amount = pos 2_500_000 }
    ∷ []

abbrev checker : Caller
checker = record { organization_id = 1; user_id = 9 }

abbrev approve_all : ApprovalRequest
approve_all = record { action = approve; remarks = none; verified_amount = none }

abbrev reject_it : ApprovalRequest
reject_it = record { action = reject; remarks = none; verified_amount = none }

-- Employee 7 declares, submits, and is reviewed.
abbrev to_the_review : List Operation
to_the_review =
    declare 7 1 "2025-26" "OLD" ppf_and_health ∷ requests 50 1 (submitted ∷ under_review ∷ [])

abbrev to_the_end : List Operation
to_the_end =
    declare 7 1 "2025-26" "OLD" ppf_and_health
    ∷ requests 50 1 (submitted ∷ under_review ∷ verified ∷ frozen ∷ [])

abbrev reviewed_claims : Tables
reviewed_claims = run user_of to_the_review empty_tables

abbrev finished : Tables
finished = run user_of to_the_end empty_tables

reviewed_claims-stage : stage 1 reviewed_claims ≡ some under_review
unfolding run perform create_or_update_declaration write fill add_items new_item new_declaration
    transition_stage move_found move moved stamp verification
reviewed_claims-stage = refl

finished-stage : stage 1 finished ≡ some frozen
unfolding run perform create_or_update_declaration write fill add_items new_item new_declaration
    transition_stage move_found move moved stamp verification
finished-stage = refl

-- A frozen declaration is not modified by its employee.
frozen_declare :
    (create_or_update_declaration 7 1 "2025-26" "OLD" [] finished).0 ≡ refused is_frozen
unfolding run perform create_or_update_declaration write fill add_items new_item new_declaration
    transition_stage move_found move moved stamp verification
frozen_declare = refl

-- The endpoint sends a frozen declaration back, which `VALID_TRANSITIONS` does not allow.
frozen_rejected :
    stage 1 (process_approval_action user_of 60 checker 1 reject_it finished).1 ≡ some rejected
unfolding run perform create_or_update_declaration write fill add_items new_item new_declaration
    transition_stage move_found move moved stamp verification process_approval_action act_found act
    carried_out apply_action
frozen_rejected = refl

-- The endpoint verifies a draft that was never submitted.
abbrev drafted : Tables
drafted = run user_of (declare 7 1 "2025-26" "OLD" ppf_and_health ∷ []) empty_tables

draft_verified :
    stage 1 (process_approval_action user_of 60 checker 1 approve_all drafted).1 ≡ some verified
unfolding run perform create_or_update_declaration write fill add_items new_item new_declaration
    process_approval_action act_found act carried_out apply_action
draft_verified = refl

-- The employee cannot approve their own declaration.
own_approval :
    (process_approval_action user_of 60 (record checker { user_id = 107 }) 1 approve_all drafted).0
    ≡ refused maker_is_checker
unfolding run perform create_or_update_declaration write fill add_items new_item new_declaration
    process_approval_action act_found act carried_out apply_action
own_approval = refl

-- An update of a verified declaration keeps its stage and its verified total, although all its
-- items are new.
abbrev approved_declaration : Tables
approved_declaration = (process_approval_action user_of 60 checker 1 approve_all reviewed_claims).1

stale_total :
    map {B = Stage × ℤ × ℤ}
      (λ d. (d.status, d.total_declared_deductions, d.total_verified_deductions))
      (create_or_update_declaration 7 1 "2025-26" "OLD" [] approved_declaration).1.declarations
    ≡ (verified, pos 0, pos 17_500_000) ∷ []
unfolding run perform create_or_update_declaration write fill add_items new_item new_declaration
    transition_stage move_found move moved stamp verification process_approval_action act_found act
    carried_out apply_action ◌+ℤ◌
stale_total = refl

-- Verifying another declaration changes an item of the frozen one.
abbrev foreign_item : List VerifiedItem
foreign_item = record { item_id = 1; amount = pos 1 } ∷ []

abbrev two_declarations : Tables
two_declarations =
    run user_of (declare 8 1 "2025-26" "OLD" [] ∷ requests 50 2 (submitted ∷ under_review ∷ []))
      finished

foreign_verification :
    map
      (λ t. t.verified_amount)
      (transition_stage 70 2
        (record (request verified) { verified_items = foreign_item })
        two_declarations).1.items
    ≡ pos 1 ∷ pos 0 ∷ []
unfolding run perform create_or_update_declaration write fill add_items new_item new_declaration
    transition_stage move_found move moved stamp verification verify_items
foreign_verification = refl

run-AllStamped_example : AllStamped finished
run-AllStamped_example = run-AllStamped user_of to_the_end empty_tables tt

run-IsTotalled_example : IsTotalled finished
run-IsTotalled_example = run-IsTotalled user_of to_the_end empty_tables (omega arith, tt, tt)

run-way_example :
    All (λ r. is_done r ≡ true) (answers user_of (requests 80 1 (way frozen draft)) finished)
    × (stage 1 (run user_of (requests 80 1 (way frozen draft)) finished) ≡ some draft)
run-way_example = run-way user_of 80 1 frozen draft finished finished-stage

drafted-IsKeyed : IsKeyed drafted
unfolding run perform create_or_update_declaration write fill add_items new_item new_declaration
drafted-IsKeyed = (omega arith, omega arith)

process_approval_action-Decision_example :
    Decision user_of checker 1 approve_all drafted
      (process_approval_action user_of 60 checker 1 approve_all drafted)
process_approval_action-Decision_example =
    process_approval_action-Decision user_of 60 checker 1 approve_all drafted drafted-IsKeyed
