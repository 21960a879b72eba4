-- ===== src/Audit/Chain.antt =====
-- What backend/app/services/audit_service.py builds and what its verifier detects.
use Prim.Native.String.{String}
use text.Mathlib.Text.{◌==◌ as str_eq}
use text.Mathlib.TextEquality.{eq_iff}
use smart_salary_india.Base.{
  ℕ, suc, ◌+◌, ◌≡◌, refl, sym, ap, ◌∙◌, true, Option, none, some, List, [], ◌∷◌, ◌++◌, arith,
  length,
}
use smart_salary_india.Audit.{
  genesis_hash, LogRequest, Canonical, AuditLog, AuditChainHead, AuditCheckpoint, Ledger,
  empty_ledger, valid, next_sequence, previous_hash, last_of, check_head, event_of, log_event, walk,
  verify_chain,
}

-- The hash that an event after these has to name.
abbrev pub last_hash : String → List AuditLog → String
last_hash p [] = p
last_hash p (e ∷ events) = last_hash e.event_hash events

pub last_of-last_hash :
    (p : String) (e : AuditLog) (events : List AuditLog)
    → (last_of e events).event_hash ≡ last_hash p (e ∷ events)
last_of-last_hash p e [] = refl
last_of-last_hash p e (f ∷ events) = last_of-last_hash e.event_hash f events

module _ (hash : Canonical → String) (checkpoint : ℕ → String → String) where
  -- What the verifier found of an event that it passed.
  pub walk-cons :
      (e : AuditLog) (events : List AuditLog) (n : ℕ) (p : String)
      → walk hash checkpoint (e ∷ events) n p ≡ none
      → (e.canonical.sequence_number ≡ n)
        × (str_eq e.canonical.previous_event_hash p ≡ true)
        × (str_eq (hash e.canonical) e.event_hash ≡ true)
        × (walk hash checkpoint events (suc n) e.event_hash ≡ none)
  unfolding walk
  walk-cons e events n p h = ground arith

  walk-step :
      (e : AuditLog) (events : List AuditLog) (n : ℕ) (p : String)
      → e.canonical.sequence_number ≡ n
      → str_eq e.canonical.previous_event_hash p ≡ true
      → str_eq (hash e.canonical) e.event_hash ≡ true
      → walk hash checkpoint events (suc n) e.event_hash ≡ none
      → walk hash checkpoint (e ∷ events) n p ≡ none
  unfolding walk
  walk-step e events n p a b c d = ground arith

  walk-append :
      (es : List AuditLog) (e : AuditLog) (n : ℕ) (p : String)
      → walk hash checkpoint es n p ≡ none
      → e.canonical.sequence_number ≡ n + length es
      → e.canonical.previous_event_hash ≡ last_hash p es
      → hash e.canonical ≡ e.event_hash
      → walk hash checkpoint (es ++ (e ∷ [])) n p ≡ none
  unfolding walk
  walk-append [] e n p w s l h =
      walk-step e [] n p (omega arith) ((eq_iff _ _).1 l) ((eq_iff _ _).1 h) refl
  walk-append (x ∷ es) e n p w s l h =
      let (a, b, c, d) = walk-cons x es n p w in
      walk-step x (es ++ (e ∷ [])) n p a b c
        (walk-append es e (suc n) x.event_hash d (omega arith) l h)

  walk-last_of :
      (e : AuditLog) (es : List AuditLog) (n : ℕ) (p : String)
      → walk hash checkpoint (e ∷ es) n p ≡ none
      → (last_of e es).canonical.sequence_number ≡ n + length es
  walk-last_of e [] n p w = let (a, b, c, d) = walk-cons e [] n p w in omega arith
  walk-last_of e (f ∷ es) n p w =
      let (a, b, c, d) = walk-cons e (f ∷ es) n p w in
      walk-last_of f es (suc n) e.event_hash d ∙ omega arith

  -- The rows are linked, and the head stands for the last of them.
  Sound : Ledger → Type 0
  Sound l =
      (walk hash checkpoint l.events 1 genesis_hash ≡ none)
      × (next_sequence l.head ≡ suc (length l.events))
      × (previous_hash l.head ≡ last_hash genesis_hash l.events)

  last_hash-append :
      (p : String) (es : List AuditLog) (e : AuditLog) → last_hash p (es ++ (e ∷ [])) ≡ e.event_hash
  last_hash-append p [] e = refl
  last_hash-append p (x ∷ es) e = last_hash-append x.event_hash es e

  length-snoc : (es : List AuditLog) (e : AuditLog) → length (es ++ (e ∷ [])) ≡ suc (length es)
  length-snoc [] e = refl
  length-snoc (x ∷ es) e = ap suc (length-snoc es e)

  log_event-Sound :
      (request : LogRequest) (l : Ledger) → Sound l → Sound (log_event hash checkpoint request l)
  unfolding Sound log_event
  log_event-Sound request l (w, n, p) =
      let e = event_of hash checkpoint request l.head in
      (
        walk-append l.events e 1 genesis_hash w (n ∙ omega arith) p refl,
        omega (arith, n, length-snoc l.events e),
        sym (last_hash-append genesis_hash l.events e),
      )

  -- Requests logged one after another into an empty ledger.
  unfoldable pub log_all : List LogRequest → Ledger → Ledger
  log_all [] l = l
  log_all (request ∷ requests) l = log_all requests (log_event hash checkpoint request l)

  log_all-Sound : (requests : List LogRequest) (l : Ledger) → Sound l → Sound (log_all requests l)
  unfolding log_all
  log_all-Sound [] l s = s
  log_all-Sound (request ∷ requests) l s = log_all-Sound requests _ (log_event-Sound request l s)

  log_all-length :
      (requests : List LogRequest) (l : Ledger)
      → length (log_all requests l).events ≡ length l.events + length requests
  unfolding log_all log_event
  log_all-length [] l = omega arith
  log_all-length (request ∷ requests) l =
      let one = length-snoc l.events (event_of hash checkpoint request l.head) in
      log_all-length requests (log_event hash checkpoint request l) ∙ omega (arith, one)

  check_head-valid :
      (h : AuditChainHead) (count : ℕ) (last : AuditLog)
      → h.last_sequence ≡ last.canonical.sequence_number
      → str_eq h.last_event_hash last.event_hash ≡ true
      → check_head (some h) none count last ≡ valid count
  unfolding check_head
  check_head-valid h count last a b = ground arith

  verify_chain-parts :
      (es : List AuditLog) (head : Option AuditChainHead) (cs : List AuditCheckpoint)
      → walk hash checkpoint es 1 genesis_hash ≡ none
      → next_sequence head ≡ suc (length es)
      → previous_hash head ≡ last_hash genesis_hash es
      → verify_chain hash checkpoint (record { events = es; head = head; checkpoints = cs }) none
        ≡ valid (length es)
  unfolding verify_chain
  verify_chain-parts [] head cs w n p = refl
  verify_chain-parts (e ∷ es) none cs w n p = absurd (omega arith)
  verify_chain-parts (e ∷ es) (some h) cs w n p =
      let seq = walk-last_of e es 1 genesis_hash w in
      let same : h.last_event_hash ≡ (last_of e es).event_hash =
        p ∙ sym (last_of-last_hash genesis_hash e es) in
      rw w (check_head-valid h (suc (length es)) (last_of e es) (omega arith) ((eq_iff _ _).1 same))

  -- A chain that was built by logging requests one after another verifies, with as many events as
  -- there were requests.
  pub log_all-verify_chain :
      (requests : List LogRequest)
      → verify_chain hash checkpoint (log_all requests empty_ledger) none ≡ valid (length requests)
  unfolding Sound walk
  log_all-verify_chain requests =
      let l = log_all requests empty_ledger in
      let (w, n, p) = log_all-Sound requests empty_ledger (refl, refl, refl) in
      verify_chain-parts l.events l.head l.checkpoints w n p
      ∙ ap valid (log_all-length requests empty_ledger ∙ omega arith)
