-- ===== src/Declaration/Stages.antt =====
-- The stages of backend/app/services/tax_declaration_service.py and of the approval endpoint of
-- backend/app/api/v1/endpoints/enterprise.py as an abstract machine, and sequences of requests.
use Prim.Native.String.{String}
use smart_salary_india.Base.{
  ℕ, ◌≡◌, ◌≢◌, refl, Bool, true, false, Option, none, some, List, [], ◌∷◌,
}
use smart_salary_india.Declaration.{
  Stage, draft, submitted, under_review, verified, rejected, frozen, is_transition, TaxDeclaration,
  ApprovalAction, approve, reject, clarification_required, DeclaredItem, Tables, Response, done,
  refused, Transition, ApprovalRequest, Caller, create_or_update_declaration, transition_stage,
  process_approval_action,
}
use smart_salary_india.Declaration.Rows.{lookup}

-- The ten changes of stage that the service makes, each by its name.
pub data Edge : Stage → Stage → Type 0 where
  submit : Edge draft submitted
  take_up : Edge submitted under_review
  withdraw : Edge submitted draft
  accept : Edge under_review verified
  decline : Edge under_review rejected
  reopen : Edge rejected draft
  resubmit : Edge rejected submitted
  freeze : Edge verified frozen
  recheck : Edge verified under_review
  unfreeze : Edge frozen under_review

-- The changes that an approval action makes: what is verified or frozen is not approved again.
pub data Ruling : ApprovalAction → Stage → Stage → Type 0 where
  approves : {a : Stage} → a ≢ verified → a ≢ frozen → Ruling approve a verified
  rejects : {a : Stage} → Ruling reject a rejected
  asks : {a : Stage} → Ruling clarification_required a under_review

-- The stage of the declaration with an id, which is all that the machine knows of the tables.
abbrev pub stage_of : Option TaxDeclaration → Option Stage
stage_of none = none
stage_of (some d) = some d.status

abbrev pub stage : ℕ → Tables → Option Stage
stage i db = stage_of (lookup i db.declarations)

-- A request to the service or to the endpoint, with the reading of the clock.
pub data Operation : Type 0 where
  declare : ℕ → ℕ → String → String → List DeclaredItem → Operation
  transition : ℕ → ℕ → Transition → Operation
  approval : ℕ → Caller → ℕ → ApprovalRequest → Operation

-- What one request does to the stage of the declaration with the id i: a transition of it follows
-- its edge, and changes nothing if there is none; no request but those of the id i moves it, and
-- only a first declaration opens it.
pub data Follows (i : ℕ) : Operation → Option Stage → Option Stage → Type 0 where
  opened :
      {e o : ℕ} {y g : String} {es : List DeclaredItem}
      → Follows i (declare e o y g es) none (some draft)
  declared :
      {e o : ℕ} {y g : String} {es : List DeclaredItem} {s : Option Stage}
      → Follows i (declare e o y g es) s s
  staged :
      {now : ℕ} {t : Transition} {a : Stage}
      → Edge a t.target_stage
      → Follows i (transition now i t) (some a) (some t.target_stage)
  barred :
      {now : ℕ} {t : Transition} {a : Stage}
      → ¬ (Edge a t.target_stage)
      → Follows i (transition now i t) (some a) (some a)
  absent : {now : ℕ} {t : Transition} → Follows i (transition now i t) none none
  staged_elsewhere :
      {now j : ℕ} {t : Transition} {s : Option Stage} → j ≢ i → Follows i (transition now j t) s s
  answered :
      {now : ℕ} {c : Caller} {r : ApprovalRequest} {a b : Stage}
      → Ruling r.action a b
      → Follows i (approval now c i r) (some a) (some b)
  unanswered :
      {now j : ℕ} {c : Caller} {r : ApprovalRequest} {s : Option Stage}
      → Follows i (approval now c j r) s s

-- The stages of one declaration over a sequence of requests, a step for each request.
pub data Trace (i : ℕ) : List Operation → Option Stage → Option Stage → Type 0 where
  finished : {s : Option Stage} → Trace i [] s s
  step :
      {op : Operation} {ops : List Operation} {s t u : Option Stage}
      → Follows i op s t
      → Trace i ops t u
      → Trace i (op ∷ ops) s u

module _ (user_of : ℕ → Option ℕ) where
  unfoldable pub perform : Operation → Tables → Response × Tables
  perform (declare employee_id organization_id year regime entries) db =
      create_or_update_declaration employee_id organization_id year regime entries db
  perform (transition now i t) db = transition_stage now i t db
  perform (approval now caller i r) db = process_approval_action user_of now caller i r db

  -- The tables after a sequence of requests, the first one first.
  unfoldable pub run : List Operation → Tables → Tables
  run [] db = db
  run (op ∷ ops) db = run ops (perform op db).1

  -- The answers to the requests.
  unfoldable pub answers : List Operation → Tables → List Response
  answers [] db = []
  answers (op ∷ ops) db = (perform op db).0 ∷ answers ops (perform op db).1

abbrev pub is_done : Response → Bool
is_done (done d) = true
is_done (refused e) = false

-- The tables at the start.
abbrev pub empty_tables : Tables
empty_tables = record { declarations = []; items = []; next_declaration = 1; next_item = 1 }

-- `VALID_TRANSITIONS` lists the edges.
pub edge : (a b : Stage) → is_transition a b ≡ true → Edge a b
edge draft draft h = cc
edge draft submitted h = submit
edge draft under_review h = cc
edge draft verified h = cc
edge draft rejected h = cc
edge draft frozen h = cc
edge submitted draft h = withdraw
edge submitted submitted h = cc
edge submitted under_review h = take_up
edge submitted verified h = cc
edge submitted rejected h = cc
edge submitted frozen h = cc
edge under_review draft h = cc
edge under_review submitted h = cc
edge under_review under_review h = cc
edge under_review verified h = accept
edge under_review rejected h = decline
edge under_review frozen h = cc
edge verified draft h = cc
edge verified submitted h = cc
edge verified under_review h = recheck
edge verified verified h = cc
edge verified rejected h = cc
edge verified frozen h = freeze
edge rejected draft h = reopen
edge rejected submitted h = resubmit
edge rejected under_review h = cc
edge rejected verified h = cc
edge rejected rejected h = cc
edge rejected frozen h = cc
edge frozen draft h = cc
edge frozen submitted h = cc
edge frozen under_review h = unfreeze
edge frozen verified h = cc
edge frozen rejected h = cc
edge frozen frozen h = cc

pub is_transition-Edge : {a b : Stage} → Edge a b → is_transition a b ≡ true
is_transition-Edge submit = refl
is_transition-Edge take_up = refl
is_transition-Edge withdraw = refl
is_transition-Edge accept = refl
is_transition-Edge decline = refl
is_transition-Edge reopen = refl
is_transition-Edge resubmit = refl
is_transition-Edge freeze = refl
is_transition-Edge recheck = refl
is_transition-Edge unfreeze = refl
