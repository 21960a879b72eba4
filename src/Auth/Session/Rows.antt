-- ===== src/Auth/Session/Rows.antt =====
-- Lemmas on the rows of user_sessions for backend/app/repositories/session_repository.py.
use smart_salary_india.Base.{
  ℕ, ◌≡◌, ◌≢◌, refl, ap, ◌∙◌, ◌==◌, Bool, true, false, ◌&&◌, ◌||◌, none, some, List, [], ◌∷◌, ◌++◌,
  arith, find?, filter, update, any, Bool-cases, inl, inr,
}
use smart_salary_india.Auth.Session.{UserSession, has_jti, is_revoked, revoke, replaced, is_active}

-- No two rows have the same jti, as the unique constraint demands.
abbrev pub IsUnique : List UserSession → Type 0
IsUnique [] = Unit
IsUnique (s ∷ db) = (any (has_jti s.jti) db ≡ false) × IsUnique db

-- A row with this jti is there, and the first one is revoked.
abbrev pub is_revoked_jti : ℕ → List UserSession → Bool
is_revoked_jti j db = elim (find? (has_jti j) db) [ none ↦ false | some s ↦ is_revoked s ]

abbrev pub sessions_of : ℕ → List UserSession → List UserSession
sessions_of u db = filter (λ s. s.user_id == u) db

-- An update that leaves jti alone and revokes or keeps a revocation.
abbrev pub Keeps : (UserSession → UserSession) → Type 0
Keeps f = (s : UserSession) → ((f s).jti ≡ s.jti) × (is_revoked s ≡ true → is_revoked (f s) ≡ true)

pub revoke-Keeps : (now : ℕ) → Keeps (revoke now)
revoke-Keeps now s = (refl, λ h. refl)

pub replaced-Keeps : (now j : ℕ) → Keeps (replaced now j)
unfolding replaced
replaced-Keeps now j s = (refl, λ h. refl)

pub find-jti :
    (j : ℕ) (db : List UserSession) {s : UserSession} → find? (has_jti j) db ≡ some s → s.jti ≡ j
find-jti j [] e = cc
find-jti j (x ∷ db) e = elim (Bool-cases (has_jti j x)) [
  | inl h ↦ ground arith
  | inr h ↦ find-jti j db (rw h at e)
]

pub update-absent :
    (j : ℕ) (f : UserSession → UserSession) (db : List UserSession)
    → any (has_jti j) db ≡ false
    → update (has_jti j) f db ≡ db
update-absent j f [] h = refl
update-absent j f (x ∷ db) h = ground (arith, update-absent j f db)

pub any-update :
    (k : ℕ) (p : UserSession → Bool) (f : UserSession → UserSession) (db : List UserSession)
    → Keeps f
    → any (has_jti k) (update p f db) ≡ any (has_jti k) db
any-update k p f [] h = refl
any-update k p f (x ∷ db) h = elim (Bool-cases (p x)) [
  | inl e ↦ rw (e, (h x).0, any-update k p f db h) refl
  | inr e ↦ rw (e, any-update k p f db h) refl
]

pub update-IsUnique :
    (p : UserSession → Bool) (f : UserSession → UserSession) (db : List UserSession)
    → Keeps f
    → IsUnique db
    → IsUnique (update p f db)
update-IsUnique p f [] h u = tt
update-IsUnique p f (x ∷ db) h u = elim (Bool-cases (p x)) [
  | inl e ↦ rw (e, (h x).0, any-update x.jti p f db h) (u.0, update-IsUnique p f db h u.1)
  | inr e ↦ rw (e, any-update x.jti p f db h) (u.0, update-IsUnique p f db h u.1)
]

pub any-append :
    (k : ℕ) (db : List UserSession) (s : UserSession)
    → any (has_jti k) (db ++ (s ∷ [])) ≡ (any (has_jti k) db || has_jti k s)
any-append k [] s = ground arith
any-append k (x ∷ db) s = ground (arith, any-append k db s)

pub append-IsUnique :
    (db : List UserSession) (s : UserSession)
    → any (has_jti s.jti) db ≡ false
    → IsUnique db
    → IsUnique (db ++ (s ∷ []))
append-IsUnique [] s h u = (refl, tt)
append-IsUnique (x ∷ db) s h u =
    let rest = append-IsUnique db s (ground arith) u.1 in
    (ground (arith, any-append x.jti db s, u.0), rest)

pub update-is_revoked_jti :
    (j : ℕ) (p : UserSession → Bool) (f : UserSession → UserSession) (db : List UserSession)
    → Keeps f
    → is_revoked_jti j db ≡ true
    → is_revoked_jti j (update p f db) ≡ true
update-is_revoked_jti j p f [] h r = r
update-is_revoked_jti j p f (x ∷ db) h r = elim (Bool-cases (p x)) [
  | inl e ↦ rw (e, (h x).0) (ground (arith, (h x).1, update-is_revoked_jti j p f db h))
  | inr e ↦ rw e (ground (arith, update-is_revoked_jti j p f db h))
]

pub append-is_revoked_jti :
    (j : ℕ) (db ys : List UserSession)
    → is_revoked_jti j db ≡ true
    → is_revoked_jti j (db ++ ys) ≡ true
append-is_revoked_jti j [] ys r = cc
append-is_revoked_jti j (x ∷ db) ys r = ground (arith, append-is_revoked_jti j db ys)

-- The row that an update by jti reaches is found again.
pub find-update :
    (j : ℕ) (f : UserSession → UserSession) (db ys : List UserSession) {s : UserSession}
    → Keeps f
    → find? (has_jti j) db ≡ some s
    → find? (has_jti j) (update (has_jti j) f db ++ ys) ≡ some (f s)
find-update j f [] ys h e = cc
find-update j f (x ∷ db) ys {s} h e = elim (Bool-cases (has_jti j x)) [
  | inl t ↦
      let found : some x ≡ some s = rw t at e in
      let same : x ≡ s = cc in
      let t' : has_jti j (f x) ≡ true = ap (λ k. k == j) (h x).0 ∙ t in
      rw (t, t') (ap some (ap f same))
  | inr t ↦ rw (t, t) (find-update j f db ys h (rw t at e))
]

pub find-absent :
    (j now : ℕ) (db : List UserSession)
    → any (has_jti j) db ≡ false
    → find? (λ s. has_jti j s && is_active now s) db ≡ none
find-absent j now [] h = refl
find-absent j now (x ∷ db) h = ground (arith, find-absent j now db)

-- A revoked jti has no active row.
pub revoked-none :
    (j now : ℕ) (db : List UserSession)
    → IsUnique db
    → is_revoked_jti j db ≡ true
    → find? (λ s. has_jti j s && is_active now s) db ≡ none
revoked-none j now [] u r = refl
revoked-none j now (x ∷ db) u r = elim (Bool-cases (has_jti j x)) [
  | inl t ↦
      let same : x.jti ≡ j = ground arith in
      let gone = find-absent j now db (rw (← same) u.0) in ground (arith, gone)
  | inr t ↦ rw t (revoked-none j now db u.1 (ground arith))
]

pub find-last :
    (j now : ℕ) (db : List UserSession) (s : UserSession)
    → any (has_jti j) db ≡ false
    → s.jti ≡ j
    → is_active now s ≡ true
    → find? (λ t. has_jti j t && is_active now t) (db ++ (s ∷ [])) ≡ some s
find-last j now [] s h e a = ground arith
find-last j now (x ∷ db) s h e a = ground (arith, find-last j now db s)

-- The sessions of other users.
pub sessions_of-update :
    (u j : ℕ) (f : UserSession → UserSession) (db : List UserSession) {s : UserSession}
    → IsUnique db
    → find? (has_jti j) db ≡ some s
    → s.user_id ≢ u
    → (f s).user_id ≢ u
    → sessions_of u (update (has_jti j) f db) ≡ sessions_of u db
sessions_of-update u j f [] w e n n' = refl
sessions_of-update u j f (x ∷ db) {s} w e n n' = elim (Bool-cases (has_jti j x)) [
  | inl t ↦
      let found : some x ≡ some s = rw t at e in
      let same : x ≡ s = cc in
      let k : x.jti ≡ j = ground arith in
      let rest = update-absent j f db (rw (← k) w.0) in rw (t, same, rest) (ground arith)
  | inr t ↦ let rest = sessions_of-update u j f db w.1 (rw t at e) n n' in rw (t, rest) refl
]
