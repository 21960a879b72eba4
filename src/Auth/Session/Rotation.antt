-- ===== src/Auth/Session/Rotation.antt =====
-- Rotation and the detection of a replayed token in backend/app/repositories/session_repository.py.
use Prim.Native.String.{String}
use smart_salary_india.Base.{
  ℕ, ◌≡◌, ◌≢◌, ◌<◌, refl, sym, ap, ◌∙◌, ◌==◌, true, false, not, ◌&&◌, Option, none, some, List, [],
  ◌∷◌, ◌++◌, arith, find?, filter, update, any, Bool-cases, Option-cases, inl, inr, leb, subst,
}
use smart_salary_india.Auth.Session.{
  UserSession, opened, refused, SessionError, reuse, has_jti, is_revoked, is_active, revoke,
  replaced, insert, new_session, replacement, rotate_session, rotate_found,
  revoke_all_user_sessions, get_user_active_sessions, get_active_session_by_jti, Request,
}
use smart_salary_india.Auth.Session.Rows.{
  IsUnique, is_revoked_jti, replaced-Keeps, find-jti, find-update, revoked-none, find-last,
  update-IsUnique, append-IsUnique,
}

none_active :
    (now later u : ℕ) (db : List UserSession)
    → filter
        (λ s. s.user_id == u && is_active later s)
        (update (λ s. s.user_id == u && not (is_revoked s)) (revoke now) db)
      ≡ []
none_active now later u [] = refl
none_active now later u (x ∷ db) = ground (arith, none_active now later u db)

-- After a revocation of all of a user's sessions, none is active.
revoke_all-none :
    (now later u : ℕ) (db : List UserSession)
    → get_user_active_sessions later u (revoke_all_user_sessions now u db).1 ≡ []
unfolding get_user_active_sessions revoke_all_user_sessions
revoke_all-none now later u db = rw (none_active now later u db) refl

refused_opened : {e : SessionError} {s : UserSession} → refused e ≢ opened s
refused_opened h = cc

module _ (uuid : String → Option ℕ) (compute_token_hash : String → String) where
  -- A token whose session is revoked is refused as reused, and from then on its user has no active session.
  pub rotate_session-reuse :
      (now later : ℕ) (old_jti : String) (r : Request) (db : List UserSession) {j : ℕ}
      {s : UserSession}
      → uuid old_jti ≡ some j
      → find? (has_jti j) db ≡ some s
      → is_revoked s ≡ true
      → let result = rotate_session uuid compute_token_hash now old_jti r db in
        (result.0 ≡ refused reuse) × (get_user_active_sessions later s.user_id result.1 ≡ [])
  unfolding rotate_session rotate_found
  rotate_session-reuse now later old_jti r db {s = s} e f h =
      rw (e, f, h, rotate_session, rotate_found) (refl, revoke_all-none now later s.user_id db)

  -- What a rotation that opens a session has done to the rows.
  Opens : ℕ → UserSession → Request → List UserSession → UserSession → List UserSession → Type 0
  Opens now o r db s db' =
      (k : ℕ) × (uuid r.jti ≡ some k)
      × (is_revoked o ≡ false)
      × (any (has_jti k) (update (has_jti o.jti) (replaced now k) db) ≡ false)
      × (s ≡ replacement uuid compute_token_hash now o k r)
      × (db' ≡ update (has_jti o.jti) (replaced now k) db ++ (s ∷ []))

  insert-Opens :
      (now : ℕ) (o : UserSession) (r : Request) (db : List UserSession) (k : ℕ) {s : UserSession}
      → uuid r.jti ≡ some k
      → is_revoked o ≡ false
      → let rows = update (has_jti o.jti) (replaced now k) db in
        let result = insert db rows (replacement uuid compute_token_hash now o k r) in
        result.0 ≡ opened s → Opens now o r db s result.1
  unfolding Opens insert replacement new_session
  insert-Opens now o r db k {s} y live h =
      let rows = update (has_jti o.jti) (replaced now k) db in
      elim (Bool-cases (any (has_jti k) rows)) [
        | inl e ↦ absurd (refused_opened (rw e at h))
        | inr e ↦
            let new : opened _ ≡ opened s = rw e at h in
            let same : replacement uuid compute_token_hash now o k r ≡ s = cc in
            rw e (k, y, live, e, sym same, ap (λ t. rows ++ (t ∷ [])) same)
      ]

  rotate_found-Opens :
      (now : ℕ) (o : UserSession) (r : Request) (db : List UserSession) {s : UserSession}
      → (rotate_found uuid compute_token_hash now o r db).0 ≡ opened s
      → Opens now o r db s (rotate_found uuid compute_token_hash now o r db).1
  unfolding rotate_found
  rotate_found-Opens now o r db {s} h = elim (Bool-cases (is_revoked o)) [
    | inl e ↦ absurd (refused_opened (rw e at h))
    | inr e ↦ elim (Bool-cases (leb o.expires_at now)) [
      | inl x ↦ absurd (refused_opened (rw (e, x) at h))
      | inr x ↦ elim (Option-cases (uuid r.jti)) [
        | inl y ↦ absurd (refused_opened (rw (e, x, y) at h))
        | inr (k, y) ↦ rw (e, x, y) (insert-Opens now o r db k y e (rw (e, x, y) at h))
      ]
    ]
  ]

  -- A rotation that opens a session has found the old one.
  rotate_session-Opens :
      (now : ℕ) (old_jti : String) (r : Request) (db : List UserSession) {s : UserSession}
      → let result = rotate_session uuid compute_token_hash now old_jti r db in
        result.0 ≡ opened s
        → (j : ℕ) × (o : UserSession) × (uuid old_jti ≡ some j)
          × (find? (has_jti j) db ≡ some o)
          × Opens now o r db s result.1
  unfolding rotate_session
  rotate_session-Opens now old_jti r db {s} h = elim (Option-cases (uuid old_jti)) [
    | inl e ↦ absurd (refused_opened (rw (e, rotate_session) at h))
    | inr (j, e) ↦ elim (Option-cases (find? (has_jti j) db)) [
      | inl f ↦ absurd (refused_opened (rw (e, f, rotate_session) at h))
      | inr (o, f) ↦
          let h' : (rotate_found uuid compute_token_hash now o r db).0 ≡ opened s =
            rw (e, f, rotate_session) at h in
          rw (e, f, rotate_session) (j, o, refl, f, rotate_found-Opens now o r db h')
    ]
  ]

  replacement-fields :
      (now later : ℕ) (o : UserSession) (k : ℕ) (r : Request) (s : UserSession)
      → s ≡ replacement uuid compute_token_hash now o k r
      → later < r.expires_at
      → (s.jti ≡ k) × (is_active later s ≡ true)
  unfolding replacement new_session
  replacement-fields now later o k r s made live = rw made (refl, ground arith)

  replacement-user_id :
      (now : ℕ) (o : UserSession) (k : ℕ) (r : Request) (s : UserSession)
      → s ≡ replacement uuid compute_token_hash now o k r
      → s.user_id ≡ o.user_id
  unfolding replacement new_session
  replacement-user_id now o k r s made = rw made refl

  -- The old session, found again after the rotation.
  found_replaced :
      (now i j k : ℕ) (o : UserSession) (db ys : List UserSession)
      → i ≡ j
      → find? (has_jti j) db ≡ some o
      → find? (has_jti j) (update (has_jti i) (replaced now k) db ++ ys) ≡ some (replaced now k o)
  found_replaced now i j k o db ys same f =
      rw same (find-update j (replaced now k) db ys (replaced-Keeps now k) f)

  revoked_found :
      (j : ℕ) (db : List UserSession) {s : UserSession}
      → find? (has_jti j) db ≡ some s
      → is_revoked s ≡ true
      → is_revoked_jti j db ≡ true
  revoked_found j db f h = rw (f, is_revoked_jti) h

  replaced-is_revoked :
      (now k : ℕ) (o : UserSession)
      → (is_revoked (replaced now k o) ≡ true) × ((replaced now k o).user_id ≡ o.user_id)
  unfolding replaced
  replaced-is_revoked now k o = (refl, refl)

  get_active_session_by_jti-find? :
      (now : ℕ) (jti : String) (k : ℕ) (db : List UserSession) {x : Option UserSession}
      → uuid jti ≡ some k
      → find? (λ t. has_jti k t && is_active now t) db ≡ x
      → get_active_session_by_jti uuid compute_token_hash now jti db ≡ x
  unfolding get_active_session_by_jti
  get_active_session_by_jti-find? now jti k db e f = rw (e, get_active_session_by_jti) f

  -- If the jtis are unique and a rotation opens a session, then until its expiry that session is
  -- the active one of the new token, and the old token has no active session.
  pub rotate_session-opened :
      (now later : ℕ) (old_jti : String) (r : Request) (db : List UserSession) {s : UserSession}
      → IsUnique db
      → later < r.expires_at
      → (rotate_session uuid compute_token_hash now old_jti r db).0 ≡ opened s
      → let after = (rotate_session uuid compute_token_hash now old_jti r db).1 in
        (get_active_session_by_jti uuid compute_token_hash later r.jti after ≡ some s)
        × (get_active_session_by_jti uuid compute_token_hash later old_jti after ≡ none)
  unfolding Opens
  rotate_session-opened now later old_jti r db {s} u live h =
      let (j, o, e, f, opens) = rotate_session-Opens now old_jti r db h in
      let (k, y, fresh_o, absent, made, rows) = opens in
      let old_rows = update (has_jti o.jti) (replaced now k) db in
      let (jti, active) = replacement-fields now later o k r s made live in
      let absent_s : any (has_jti s.jti) old_rows ≡ false = rw jti absent in
      let unique =
        append-IsUnique old_rows s absent_s
          (update-IsUnique (has_jti o.jti) (replaced now k) db (replaced-Keeps now k) u) in
      let revoked =
        revoked_found j _ (found_replaced now o.jti j k o db (s ∷ []) (find-jti j db f) f)
          (replaced-is_revoked now k o).0 in
      subst
        (λ d.
          (get_active_session_by_jti uuid compute_token_hash later r.jti d ≡ some s)
          × (get_active_session_by_jti uuid compute_token_hash later old_jti d ≡ none))
        (sym rows)
        (
          get_active_session_by_jti-find? later r.jti k _ y
              (find-last k later old_rows s absent jti active),
          get_active_session_by_jti-find? later old_jti j _ e
              (revoked-none j later (old_rows ++ (s ∷ [])) unique revoked),
        )

  -- A refresh token that is presented again after its rotation is refused as reused, and its
  -- user has no active session from then on, the one that the rotation opened included.
  pub rotate_session-replay :
      (now later after : ℕ) (old_jti : String) (r r' : Request) (db : List UserSession)
      {s : UserSession}
      → (rotate_session uuid compute_token_hash now old_jti r db).0 ≡ opened s
      → let first = rotate_session uuid compute_token_hash now old_jti r db in
        let second = rotate_session uuid compute_token_hash later old_jti r' first.1 in
        (second.0 ≡ refused reuse) × (get_user_active_sessions after s.user_id second.1 ≡ [])
  unfolding Opens
  rotate_session-replay now later after old_jti r r' db {s} h =
      let (j, o, e, f, opens) = rotate_session-Opens now old_jti r db h in
      let (k, y, fresh_o, absent, made, rows) = opens in
      let found = found_replaced now o.jti j k o db (s ∷ []) (find-jti j db f) f in
      let user = (replaced-is_revoked now k o).1 ∙ sym (replacement-user_id now o k r s made) in
      let db' = update (has_jti o.jti) (replaced now k) db ++ (s ∷ []) in
      let again =
        rotate_session-reuse later after old_jti r' _ e found (replaced-is_revoked now k o).0 in
      subst
        (λ d.
          let second = rotate_session uuid compute_token_hash later old_jti r' d in
          (second.0 ≡ refused reuse) × (get_user_active_sessions after s.user_id second.1 ≡ []))
        (sym rows)
        (
          again.0,
          ap
                (λ u.
                  get_user_active_sessions after u
                    (rotate_session uuid compute_token_hash later old_jti r' db').1)
                (sym user)
              ∙ again.1,
        )
