-- ===== src/Audit/Tests.antt =====
-- Runs and examples of the audit chain.
use Prim.Native.String
use Prim.Native.String.{String}
use smart_salary_india.Base.{ℕ, ◌≡◌, refl, none, some, List, [], ◌∷◌, length, map}
use smart_salary_india.Audit.{
  Entry, LogRequest, Canonical, AuditLog, Ledger, empty_ledger, valid, hash_mismatch, verify_chain,
  walk, check_head, log_event,
}
use smart_salary_india.Audit.Chain.{log_all, log_all-verify_chain}
use smart_salary_india.Audit.Evidence.{NoCollision, hashed, verify_chain_unique}

-- A hash that only joins the action with the previous hash.
abbrev join : Canonical → String
join c = String.◌++◌ c.entry.action c.previous_event_hash

abbrev checkpoint : ℕ → String → String
checkpoint sequence event_hash = event_hash

abbrev entry : String → Entry
entry action = record {
  event_uuid = "uuid";
  chain_id = "TENANT_1";
  tenant_id = some 1;
  actor_type = "USER";
  actor_id = some 7;
  resource_type = "GENERIC";
  resource_id = none;
  action = action;
  timestamp = "2026-01-01T00:00:00.000000Z";
  schema_version = "v1.0.0";
  correlation_id = none;
  payload = none;
}

abbrev request : String → LogRequest
request action = record {
  entry = entry action;
  attachment = record {
    payload_before = none;
    payload_after = none;
    ip_address = some "10.0.0.7";
    user_agent = none;
    details = some "as reported";
  };
}

abbrev requests : List LogRequest
requests = request "LOGIN_SUCCESS" ∷ request "LOGOUT" ∷ []

abbrev ledger : Ledger
ledger = log_all join checkpoint requests empty_ledger

-- The action of an event is changed, and its hash is not.
abbrev tamper : AuditLog → AuditLog
tamper e = record e { canonical = record e.canonical { entry = entry "LOGIN_FAILURE" } }

abbrev tampered : Ledger → Ledger
tampered l = record l { events = elim l.events [ [] ↦ [] | e ∷ events ↦ tamper e ∷ events ] }

verify_chain-tampered : verify_chain join checkpoint (tampered ledger) none ≡ hash_mismatch 1
unfolding verify_chain walk log_all log_event
verify_chain-tampered = refl

-- The columns that are not hashed are changed: the chain verifies.
abbrev disguise : AuditLog → AuditLog
disguise e = record e {
  user_id = some 8;
  attachment = record e.attachment { ip_address = none; details = some "nothing happened" };
}

verify_chain-disguised :
    verify_chain join checkpoint (record ledger { events = map disguise ledger.events }) none
    ≡ valid 2
unfolding verify_chain walk check_head log_all log_event
verify_chain-disguised = refl

-- All events are deleted, and the head is not: the chain verifies.
verify_chain-emptied : verify_chain join checkpoint (record ledger { events = [] }) none ≡ valid 0
unfolding verify_chain
verify_chain-emptied = refl

log_all-verify_chain_example : verify_chain join checkpoint ledger none ≡ valid (length requests)
log_all-verify_chain_example = log_all-verify_chain join checkpoint requests

abbrev head_hash : String
head_hash = "LOGOUTLOGIN_SUCCESS0000000000000000000000000000000000000000000000000000000000000000"

verify_chain-ledger : verify_chain join checkpoint ledger (some head_hash) ≡ valid 2
unfolding verify_chain walk check_head log_all log_event
verify_chain-ledger = refl

abbrev disguised : Ledger
disguised = record ledger { events = map disguise ledger.events }

verify_chain-disguised_head : verify_chain join checkpoint disguised (some head_hash) ≡ valid 2
unfolding verify_chain walk check_head log_all log_event
verify_chain-disguised_head = refl

ledger-NoCollision : NoCollision join checkpoint ledger.events disguised.events
unfolding log_all log_event
ledger-NoCollision = (λ h. refl, (λ h. refl, tt))

verify_chain_unique_example : map hashed ledger.events ≡ map hashed disguised.events
verify_chain_unique_example =
    verify_chain_unique join checkpoint ledger disguised head_hash 1 refl ledger-NoCollision
      verify_chain-ledger verify_chain-disguised_head
