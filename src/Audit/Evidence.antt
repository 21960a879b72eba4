-- ===== src/Audit/Evidence.antt =====
-- Tampering is evident to the verifier of backend/app/services/audit_service.py.
use Prim.Native.String.{String}
use text.Mathlib.Text.{◌==◌ as str_eq}
use text.Mathlib.TextEquality.{eq_iff}
use smart_salary_india.Base.{
  ℕ, suc, ◌≡◌, ◌≢◌, refl, sym, ap, ap₂, ◌∙◌, Bool, true, false, Option, none, some, List, [], ◌∷◌,
  map, arith, length, Option-cases, inl, inr,
}
use smart_salary_india.Audit.{
  genesis_hash, Canonical, AuditLog, AuditChainHead, AuditCheckpoint, Ledger, Verdict, valid,
  last_of, check_head, walk, verify_chain,
}
use smart_salary_india.Audit.Chain.{last_hash, last_of-last_hash, walk-cons}

abbrev pub is_valid : Verdict → Bool
is_valid (valid _) = true
is_valid _ = false

-- The hashed fields of an event, and their hash.
abbrev pub hashed : AuditLog → Canonical × String
hashed e = (e.canonical, e.event_hash)

module _ (hash : Canonical → String) (checkpoint : ℕ → String → String) where
  -- No two events at the same place of two chains are different and have the same hash.
  abbrev pub NoCollision : List AuditLog → List AuditLog → Type 0
  NoCollision [] fs = Unit
  NoCollision (e ∷ es) [] = Unit
  NoCollision (e ∷ es) (f ∷ fs) =
      (hash e.canonical ≡ hash f.canonical → e.canonical ≡ f.canonical) × NoCollision es fs

  walk_unique :
      (es fs : List AuditLog) (n : ℕ) (p q : String)
      → walk hash checkpoint es n p ≡ none
      → walk hash checkpoint fs n q ≡ none
      → length es ≡ length fs
      → last_hash p es ≡ last_hash q fs
      → NoCollision es fs
      → (map hashed es ≡ map hashed fs) × (p ≡ q)
  walk_unique [] [] n p q u v len l c = (refl, l)
  walk_unique [] (f ∷ fs) n p q u v len l c = absurd (omega arith)
  walk_unique (e ∷ es) [] n p q u v len l c = absurd (omega arith)
  walk_unique (e ∷ es) (f ∷ fs) n p q u v len l c =
      let (a, b, h, w) = walk-cons hash checkpoint e es n p u in
      let (a', b', h', w') = walk-cons hash checkpoint f fs n q v in
      let (rest, same) =
        walk_unique es fs (suc n) e.event_hash f.event_hash w w' (omega arith) l c.1 in
      let he = (eq_iff _ _).0 h in
      let hf = (eq_iff _ _).0 h' in
      let body : e.canonical ≡ f.canonical = c.0 (he ∙ same ∙ sym hf) in
      let link : p ≡ q =
        sym ((eq_iff _ _).0 b) ∙ ap (λ d. d.previous_event_hash) body ∙ (eq_iff _ _).0 b' in
      (ap₂ (λ d t. (d, t) ∷ map hashed es) body same ∙ ap (λ xs. hashed f ∷ xs) rest, link)

  walk-not_valid :
      (es : List AuditLog) (n k : ℕ) (p : String) → walk hash checkpoint es n p ≢ some (valid k)
  unfolding walk
  walk-not_valid [] n k p h = cc
  walk-not_valid (e ∷ es) n k p h = ground (arith, walk-not_valid es (suc n) k e.event_hash)

  check_head-expected :
      (head : Option AuditChainHead) (h : String) (count k : ℕ) (last : AuditLog)
      → str_eq h "" ≡ false
      → check_head head (some h) count last ≡ valid k
      → (count ≡ k) × (str_eq last.event_hash h ≡ true)
  unfolding check_head
  check_head-expected none h count k last named e = ground arith
  check_head-expected (some x) h count k last named e = ground arith

  -- What a verification against an expected head hash has found.
  verify_chain-found :
      (es : List AuditLog) (head : Option AuditChainHead) (cs : List AuditCheckpoint) (h : String)
      (k : ℕ)
      → str_eq h "" ≡ false
      → verify_chain hash checkpoint
          (record { events = es; head = head; checkpoints = cs })
          (some h)
        ≡ valid (suc k)
      → (walk hash checkpoint es 1 genesis_hash ≡ none)
        × (length es ≡ suc k)
        × (last_hash genesis_hash es ≡ h)
  unfolding verify_chain
  verify_chain-found [] head cs h k named v =
      let zero_count : 0 ≡ suc k = cc in absurd (omega arith)
  verify_chain-found (e ∷ es) head cs h k named v =
      elim (Option-cases (walk hash checkpoint (e ∷ es) 1 genesis_hash)) [
        | inr (w, x) ↦
            let bad : w ≡ valid (suc k) = rw x at v in
            absurd (walk-not_valid (e ∷ es) 1 (suc k) genesis_hash (x ∙ ap some bad))
        | inl x ↦
            let checked : check_head head (some h) (length (e ∷ es)) (last_of e es)
                ≡ valid (suc k) =
              rw x at v in
            let (count, same) = check_head-expected head h _ (suc k) _ named checked in
            (x, count, sym (last_of-last_hash genesis_hash e es) ∙ (eq_iff _ _).0 same)
      ]

  -- Two chains that verify against the same expected head hash, not the empty one, with the same
  -- positive number of events have the same fourteen hashed fields and the same hash at each place,
  -- if no hash collides there: none of these can be changed. It says nothing of the columns that are
  -- not hashed.
  pub verify_chain_unique :
      (l m : Ledger) (h : String) (k : ℕ)
      → str_eq h "" ≡ false
      → NoCollision l.events m.events
      → verify_chain hash checkpoint l (some h) ≡ valid (suc k)
      → verify_chain hash checkpoint m (some h) ≡ valid (suc k)
      → map hashed l.events ≡ map hashed m.events
  verify_chain_unique l m h k named c u v =
      let (w, len, last) = verify_chain-found l.events l.head l.checkpoints h k named u in
      let (w', len', last') = verify_chain-found m.events m.head m.checkpoints h k named v in
      (walk_unique l.events m.events 1 genesis_hash genesis_hash w w' (omega arith)
        (last ∙ sym last') c).0
