-- ===== src/Auth/Session/History.antt =====
-- What every sequence of operations of backend/app/repositories/session_repository.py keeps.
use Prim.Native.String.{String}
use smart_salary_india.Base.{
  ℕ, ◌≡◌, Bool, true, Option, List, [], ◌∷◌, find?, update, any, Bool-cases, Option-cases, inl, inr,
  leb,
}
use smart_salary_india.Auth.Session.{
  UserSession, has_jti, is_revoked, revoke, replaced, insert, create_session, rotate_session,
  rotate_found, revoke_session, revoke_all_user_sessions, Request,
}
use smart_salary_india.Auth.Session.Rows.{
  IsUnique, is_revoked_jti, Keeps, revoke-Keeps, replaced-Keeps, update-IsUnique, append-IsUnique,
  update-is_revoked_jti, append-is_revoked_jti,
}

-- An operation of the repository, each with the time of its call.
pub data Op : Type 0 where
  create : ℕ → ℕ → Request → Op
  rotate : ℕ → String → Request → Op
  revoke_one : ℕ → String → Op
  revoke_all : ℕ → ℕ → Op

-- The rows are unique and a revoked jti stays revoked.
abbrev Safe : List UserSession → List UserSession → Type 0
Safe db db' = IsUnique db' × ((j : ℕ) → is_revoked_jti j db ≡ true → is_revoked_jti j db' ≡ true)

Safe-refl : (db : List UserSession) → IsUnique db → Safe db db
Safe-refl db u = (u, λ j r. r)

Safe-update :
    (p : UserSession → Bool) (f : UserSession → UserSession) (db : List UserSession)
    → Keeps f
    → IsUnique db
    → Safe db (update p f db)
Safe-update p f db h u = (update-IsUnique p f db h u, λ j r. update-is_revoked_jti j p f db h r)

Safe-insert :
    (before db : List UserSession) (s : UserSession)
    → IsUnique before
    → Safe before db
    → Safe before (insert before db s).1
unfolding insert
Safe-insert before db s u w = elim (Bool-cases (any (has_jti s.jti) db)) [
  | inl e ↦ rw e (Safe-refl before u)
  | inr e ↦ rw e (append-IsUnique db s e w.0, λ j r. append-is_revoked_jti j db _ (w.1 j r))
]

Safe-revoke_all :
    (now user_id : ℕ) (db : List UserSession)
    → IsUnique db
    → Safe db (revoke_all_user_sessions now user_id db).1
unfolding revoke_all_user_sessions
Safe-revoke_all now user_id db u = Safe-update _ (revoke now) db (revoke-Keeps now) u

module _ (uuid : String → Option ℕ) (compute_token_hash : String → String) where
  -- The rows after an operation.
  unfoldable pub apply : Op → List UserSession → List UserSession
  apply (create now user_id r) db = (create_session uuid compute_token_hash now user_id r db).1
  apply (rotate now jti r) db = (rotate_session uuid compute_token_hash now jti r db).1
  apply (revoke_one now jti) db = revoke_session uuid compute_token_hash now jti db
  apply (revoke_all now user_id) db = (revoke_all_user_sessions now user_id db).1

  unfoldable pub run : List Op → List UserSession → List UserSession
  run [] db = db
  run (op ∷ ops) db = run ops (apply op db)

  Safe-rotate_found :
      (now : ℕ) (s : UserSession) (r : Request) (db : List UserSession)
      → IsUnique db
      → Safe db (rotate_found uuid compute_token_hash now s r db).1
  unfolding rotate_found
  Safe-rotate_found now s r db u = elim (Bool-cases (is_revoked s)) [
    | inl e ↦ rw e (Safe-revoke_all now s.user_id db u)
    | inr e ↦ elim (Bool-cases (leb s.expires_at now)) [
      | inl x ↦ rw (e, x) (Safe-update _ (revoke now) db (revoke-Keeps now) u)
      | inr x ↦ elim (Option-cases (uuid r.jti)) [
        | inl y ↦ rw (e, x, y) (Safe-refl db u)
        | inr (j, y) ↦
            rw (e, x, y)
              (Safe-insert db _ _ u (Safe-update _ (replaced now j) db (replaced-Keeps now j) u))
      ]
    ]
  ]

  Safe-apply : (op : Op) (db : List UserSession) → IsUnique db → Safe db (apply op db)
  unfolding apply create_session rotate_session revoke_session
  Safe-apply (create now user_id r) db u = elim (Option-cases (uuid r.jti)) [
    | inl e ↦ rw (e, apply, create_session) (Safe-refl db u)
    | inr (j, e) ↦ rw (e, apply, create_session) (Safe-insert db db _ u (Safe-refl db u))
  ]
  Safe-apply (rotate now jti r) db u = elim (Option-cases (uuid jti)) [
    | inl e ↦ rw (e, apply, rotate_session) (Safe-refl db u)
    | inr (j, e) ↦ elim (Option-cases (find? (has_jti j) db)) [
      | inl x ↦ rw (e, x, apply, rotate_session) (Safe-refl db u)
      | inr (s, x) ↦ rw (e, x, apply, rotate_session) (Safe-rotate_found now s r db u)
    ]
  ]
  Safe-apply (revoke_one now jti) db u = elim (Option-cases (uuid jti)) [
    | inl e ↦ rw (e, apply, revoke_session) (Safe-refl db u)
    | inr (j, e) ↦
        rw (e, apply, revoke_session) (Safe-update _ (revoke now) db (revoke-Keeps now) u)
  ]
  Safe-apply (revoke_all now user_id) db u = Safe-revoke_all now user_id db u

  Safe-run : (ops : List Op) (db : List UserSession) → IsUnique db → Safe db (run ops db)
  unfolding run
  Safe-run [] db u = Safe-refl db u
  Safe-run (op ∷ ops) db u =
      let one = Safe-apply op db u in
      let rest = Safe-run ops (apply op db) one.0 in (rest.0, λ j r. rest.1 j (one.1 j r))

  -- Whatever operations are run on a table with unique jtis, the jtis stay unique.
  pub run-IsUnique : (ops : List Op) (db : List UserSession) → IsUnique db → IsUnique (run ops db)
  run-IsUnique ops db u = (Safe-run ops db u).0

  -- Whatever operations are run, a revoked session is never active again.
  pub run-is_revoked_jti :
      (ops : List Op) (db : List UserSession) (j : ℕ)
      → IsUnique db
      → is_revoked_jti j db ≡ true
      → is_revoked_jti j (run ops db) ≡ true
  run-is_revoked_jti ops db j u r = (Safe-run ops db u).1 j r
