-- ===== src/Audit.antt =====
-- backend/app/services/audit_service.py: the hash chain of audit events and its verification.
-- A ledger holds the rows of one chain, in the order of their sequence numbers, in which the
-- verifier reads them, with the chain's head and checkpoints. The canonical dictionary is a
-- record; the hash of its JSON is a parameter, and so is that of a checkpoint; the uuid and the
-- timestamp of an event are arguments. The columns that are not hashed are kept beside the others;
-- the parts `before` and `after` of a payload are arguments as the payload is. The resolution of
-- legacy argument names is left out, and so are the row's id and its two times of writing.
pub mod Chain
pub mod Evidence
pub mod Tests
use Prim.Native.String.{String}
use text.Mathlib.Text.{◌==◌ as str_eq}
use smart_salary_india.Base.{
  ℕ, suc, ◌+◌, ◌%◌, ◌==◌, Bool, true, false, not, ◌&&◌, Option, none, some, List, [], ◌∷◌, ◌++◌,
  if◌then◌else◌, length,
}

abbrev pub genesis_hash : String
genesis_hash = "0000000000000000000000000000000000000000000000000000000000000000"

-- What a caller logs, the payload being sanitized.
pub record Entry : Type 0 where
  pub event_uuid : String
  pub chain_id : String
  pub tenant_id : Option ℕ
  pub actor_type : String
  pub actor_id : Option ℕ
  pub resource_type : String
  pub resource_id : Option ℕ
  pub action : String
  pub timestamp : String
  pub schema_version : String
  pub correlation_id : Option String
  pub payload : Option String

-- The 14 fields of `canonical_event_dict`.
pub record Canonical : Type 0 where
  pub entry : Entry
  pub sequence_number : ℕ
  pub previous_event_hash : String

-- What a caller gives for the columns that are not hashed.
pub record Attachment : Type 0 where
  pub payload_before : Option String
  pub payload_after : Option String
  pub ip_address : Option String
  pub user_agent : Option String
  pub details : Option String

-- A call of `log_event`.
pub record LogRequest : Type 0 where
  pub entry : Entry
  pub attachment : Attachment

-- A row of audit_logs: the hashed fields, their hash, and the columns that are not hashed.
pub record AuditLog : Type 0 where
  pub canonical : Canonical
  pub event_hash : String
  pub user_id : Option ℕ
  pub entity_name : String
  pub entity_id : Option ℕ
  pub attachment : Attachment

pub record AuditChainHead : Type 0 where
  pub last_sequence : ℕ
  pub last_event_uuid : String
  pub last_event_hash : String

pub record AuditCheckpoint : Type 0 where
  pub checkpoint_sequence : ℕ
  pub checkpoint_event_hash : String
  pub checkpoint_hash : String

pub record Ledger : Type 0 where
  pub events : List AuditLog
  pub head : Option AuditChainHead
  pub checkpoints : List AuditCheckpoint

abbrev pub empty_ledger : Ledger
empty_ledger = record { events = []; head = none; checkpoints = [] }

-- The reasons of a failed verification, with `first_invalid_sequence`.
pub data Verdict : Type 0 where
  valid : ℕ → Verdict
  sequence_discontinuity broken_hash_link hash_mismatch : ℕ → Verdict
  tail_deletion head_hash_mismatch expected_head_hash_mismatch : ℕ → Verdict

-- The sequence number and the previous hash of the next event.
abbrev pub next_sequence : Option AuditChainHead → ℕ
next_sequence none = 1
next_sequence (some head) = head.last_sequence + 1

abbrev pub previous_hash : Option AuditChainHead → String
previous_hash none = genesis_hash
previous_hash (some head) = head.last_event_hash

-- The last event of a list that starts with one.
abbrev pub last_of : AuditLog → List AuditLog → AuditLog
last_of e [] = e
last_of e (f ∷ events) = last_of f events

-- The checks of the head that is stored and of the hash that is expected.
unfoldable pub check_head : Option AuditChainHead → Option String → ℕ → AuditLog → Verdict
check_head head expected count last =
    let seq = last.canonical.sequence_number in
    let supplied = elim expected as (λ _. Verdict) [
      | none ↦ valid count
      | some h ↦
          if not (str_eq h "") && not (str_eq last.event_hash h)
          then expected_head_hash_mismatch seq
          else valid count
    ] in
    elim head [
      | none ↦ supplied
      | some h ↦
          if not (h.last_sequence == seq)
          then tail_deletion h.last_sequence
          else if not (str_eq h.last_event_hash last.event_hash)
          then head_hash_mismatch seq
          else supplied
    ]

abbrev pub or_verdict : Option Verdict → Verdict → Verdict
or_verdict (some v) w = v
or_verdict none w = w

module _ (compute_event_hash : Canonical → String) (checkpoint_hash : ℕ → String → String) where
  abbrev pub event_of : LogRequest → Option AuditChainHead → AuditLog
  event_of request head =
      let canonical : Canonical = record {
        entry = request.entry;
        sequence_number = next_sequence head;
        previous_event_hash = previous_hash head;
      } in
      record {
        canonical = canonical;
        event_hash = compute_event_hash canonical;
        user_id = request.entry.actor_id;
        entity_name = request.entry.resource_type;
        entity_id = request.entry.resource_id;
        attachment = request.attachment;
      }

  -- `log_event`, under the lock
  unfoldable pub log_event : LogRequest → Ledger → Ledger
  log_event request ledger =
      let event = event_of request ledger.head in
      let sequence = next_sequence ledger.head in
      record {
        events = ledger.events ++ (event ∷ []);
        head = some (record {
          last_sequence = sequence;
          last_event_uuid = request.entry.event_uuid;
          last_event_hash = event.event_hash;
        });
        checkpoints =
            if sequence % 100 == 0
            then ledger.checkpoints
              ++ (record {
                checkpoint_sequence = sequence;
                checkpoint_event_hash = event.event_hash;
                checkpoint_hash = checkpoint_hash sequence event.event_hash;
              }
                  ∷ [])
            else ledger.checkpoints;
      }

  -- The loop of `verify_chain`: the first failure, or the last event.
  unfoldable pub walk : List AuditLog → ℕ → String → Option Verdict
  walk [] expected_sequence expected_prev_hash = none
  walk (e ∷ events) expected_sequence expected_prev_hash =
      let rest = walk events (suc expected_sequence) e.event_hash in
      let seq = e.canonical.sequence_number in
      if not (seq == expected_sequence)
      then some (sequence_discontinuity seq)
      else if not (str_eq e.canonical.previous_event_hash expected_prev_hash)
      then some (broken_hash_link seq)
      else if not (str_eq (compute_event_hash e.canonical) e.event_hash)
      then some (hash_mismatch seq)
      else rest

  -- `verify_chain`
  unfoldable pub verify_chain : Ledger → Option String → Verdict
  verify_chain ledger expected_head_hash = elim ledger.events [
    | [] ↦ valid 0
    | e ∷ events ↦
        or_verdict (walk (e ∷ events) 1 genesis_hash)
          (check_head ledger.head expected_head_hash (length (e ∷ events)) (last_of e events))
  ]
