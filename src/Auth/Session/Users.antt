-- ===== src/Auth/Session/Users.antt =====
-- Which users a rotation in backend/app/repositories/session_repository.py touches.
use Prim.Native.String.{String}
use smart_salary_india.Base.{
  ℕ, ◌≡◌, ◌≢◌, refl, ◌∙◌, ◌==◌, not, ◌&&◌, Option, some, List, [], ◌∷◌, ◌++◌, arith, find?, update,
  any, Bool-cases, Option-cases, inl, inr, leb, ap,
}
use smart_salary_india.Auth.Session.{
  UserSession, has_jti, is_revoked, revoke, replaced, insert, new_session, replacement,
  rotate_session, rotate_found, revoke_all_user_sessions, Request,
}
use smart_salary_india.Auth.Session.Rows.{IsUnique, sessions_of, sessions_of-update, find-jti}

revoke_all-others :
    (now v u : ℕ) (db : List UserSession)
    → v ≢ u
    → sessions_of u (update (λ s. s.user_id == v && not (is_revoked s)) (revoke now) db)
      ≡ sessions_of u db
revoke_all-others now v u [] n = refl
revoke_all-others now v u (x ∷ db) n = ground (arith, revoke_all-others now v u db)

sessions_of-append :
    (u : ℕ) (db : List UserSession) (s : UserSession)
    → s.user_id ≢ u
    → sessions_of u (db ++ (s ∷ [])) ≡ sessions_of u db
sessions_of-append u [] s n = ground arith
sessions_of-append u (x ∷ db) s n = ground (arith, sessions_of-append u db s n)

insert-others :
    (u : ℕ) (before rows : List UserSession) (s : UserSession)
    → s.user_id ≢ u
    → sessions_of u rows ≡ sessions_of u before
    → sessions_of u (insert before rows s).1 ≡ sessions_of u before
unfolding insert
insert-others u before rows s n e = elim (Bool-cases (any (has_jti s.jti) rows)) [
  | inl h ↦ rw h refl
  | inr h ↦ rw h (sessions_of-append u rows s n ∙ e)
]

module _ (uuid : String → Option ℕ) (compute_token_hash : String → String) where
  rotate_found-others :
      (now u j : ℕ) (o : UserSession) (r : Request) (db : List UserSession)
      → IsUnique db
      → find? (has_jti o.jti) db ≡ some o
      → o.user_id ≢ u
      → sessions_of u (rotate_found uuid compute_token_hash now o r db).1 ≡ sessions_of u db
  unfolding rotate_found revoke_all_user_sessions replacement new_session replaced
  rotate_found-others now u j o r db w f n = elim (Bool-cases (is_revoked o)) [
    | inl e ↦ rw e (revoke_all-others now o.user_id u db n)
    | inr e ↦ elim (Bool-cases (leb o.expires_at now)) [
      | inl x ↦ rw (e, x) (sessions_of-update u o.jti (revoke now) db w f n n)
      | inr x ↦ elim (Option-cases (uuid r.jti)) [
        | inl y ↦ rw (e, x, y) refl
        | inr (k, y) ↦
            rw (e, x, y)
              (insert-others u db _ _ n (sessions_of-update u o.jti (replaced now k) db w f n n))
      ]
    ]
  ]

  -- If the jtis are unique, a rotation leaves the sessions of every user but that of the old
  -- session as they were, whether it opens a session, finds the old one expired or detects a reuse.
  pub rotate_session-others :
      (now u : ℕ) (old_jti : String) (r : Request) (db : List UserSession) {j : ℕ} {o : UserSession}
      → IsUnique db
      → uuid old_jti ≡ some j
      → find? (has_jti j) db ≡ some o
      → o.user_id ≢ u
      → sessions_of u (rotate_session uuid compute_token_hash now old_jti r db).1 ≡ sessions_of u db
  unfolding rotate_session
  rotate_session-others now u old_jti r db {j} {o} w e f n =
      let own : find? (has_jti o.jti) db ≡ some o =
        ap (λ i. find? (has_jti i) db) (find-jti j db f) ∙ f in
      rw (e, f, rotate_session) (rotate_found-others now u j o r db w own n)
