-- ===== src/Auth/Otp/Issue.antt =====
-- What `create_verification_token` of backend/app/services/otp_service.py leaves pending.
use Prim.Native.String.{String}
use text.Mathlib.TextPositions.{eq_refl}
use smart_salary_india.Base.{
  ℕ, ◌+◌, ◌≤◌, ◌≡◌, ◌≢◌, refl, ap, ◌∙◌, Bool, true, false, Option, some, List, [], ◌∷◌, ◌++◌, arith,
  find?, filter, update, any, Bool-cases, inl, inr,
}
use smart_salary_india.Auth.Otp.{
  pending, VerificationToken, Issued, issued, cooling_down, pending_for, is_recent, cancel, issue,
  replace_pending, with_check, create_verification_token, rate_key, expire_after, has_id, decide,
  compare_code, verify_otp, success,
}
use smart_salary_india.Auth.Limiter.{
  Requests, Check, allowed, exceeded, index_error, check_rate_limit,
}

none_pending :
    (email purpose : String) (db : List VerificationToken)
    → filter (pending_for email purpose) (update (pending_for email purpose) cancel db) ≡ []
none_pending email purpose [] = refl
none_pending email purpose (t ∷ db) = ground (arith, none_pending email purpose db)

filter-append :
    (p : VerificationToken → Bool) (xs : List VerificationToken) (t : VerificationToken)
    → filter p xs ≡ []
    → p t ≡ true
    → filter p (xs ++ (t ∷ [])) ≡ t ∷ []
filter-append p [] t e h = ground arith
filter-append p (x ∷ xs) t e h = ground (arith, filter-append p xs t)

cooling_down_issued : {t : VerificationToken} → cooling_down ≢ issued t
cooling_down_issued h = cc

with_check-issued :
    (c : Check) (requests : Requests) (db : List VerificationToken)
    (x : Issued × List VerificationToken) {t : VerificationToken}
    → (with_check c requests db x).0 ≡ issued t
    → (x.0 ≡ issued t) × ((with_check c requests db x).2 ≡ x.1)
unfolding with_check
with_check-issued allowed requests db x h = (h, refl)
with_check-issued (exceeded n) requests db x h = cc
with_check-issued index_error requests db x h = cc

find-last :
    (i : ℕ) (email purpose : String) (db : List VerificationToken) (t : VerificationToken)
    → any (has_id i) db ≡ false
    → t.verification_id ≡ i
    → find? (has_id i) (update (pending_for email purpose) cancel db ++ (t ∷ [])) ≡ some t
find-last i email purpose [] t absent h = ground arith
find-last i email purpose (x ∷ db) t absent h =
    let rest = find-last i email purpose db t (ground arith) h in
    elim (Bool-cases (pending_for email purpose x)) [
      | inl e ↦ rw e (ground (arith, rest))
      | inr e ↦ rw e (ground (arith, rest))
    ]

verify_otp-found :
    (strip : String → String) (compute_hmac : String → String → String → String) (now i : ℕ)
    (otp purpose : String) (db : List VerificationToken) {t : VerificationToken}
    → find? (has_id i) db ≡ some t
    → (verify_otp strip compute_hmac now i otp purpose db).0
      ≡ (decide strip compute_hmac now otp purpose t).0
unfolding verify_otp
verify_otp-found strip compute_hmac now i otp purpose db f = rw (f, verify_otp) refl

module _ (normalize : String → String) (compute_hmac : String → String → String → String) where
  issue-pending_for :
      (now i : ℕ) (otp email purpose : String) (user_id : Option ℕ)
      → pending_for email purpose (issue normalize compute_hmac now i otp email purpose user_id)
        ≡ true
  unfolding issue
  issue-pending_for now i otp email purpose user_id = rw (eq_refl email, eq_refl purpose) refl

  -- The rows after a token is issued.
  replace_pending-issued :
      (now i : ℕ) (otp email purpose : String) (user_id : Option ℕ) (db : List VerificationToken)
      {t : VerificationToken}
      → (replace_pending normalize compute_hmac now i otp email purpose user_id db).0 ≡ issued t
      → (issue normalize compute_hmac now i otp email purpose user_id ≡ t)
        × ((replace_pending normalize compute_hmac now i otp email purpose user_id db).1
            ≡ update (pending_for email purpose) cancel db
              ++ (issue normalize compute_hmac now i otp email purpose user_id ∷ []))
  unfolding replace_pending
  replace_pending-issued now i otp email purpose user_id db {t} h =
      elim (Bool-cases (any (is_recent now) (filter (pending_for email purpose) db))) [
        | inl e ↦ absurd (cooling_down_issued (rw e at h))
        | inr e ↦
            let same : issued (issue normalize compute_hmac now i otp email purpose user_id)
                ≡ issued t =
              rw e at h in
            rw e (cc, refl)
      ]

  -- The rows after `create_verification_token` has issued a token.
  create-issued :
      (now i : ℕ) (otp email purpose : String) (user_id : Option ℕ) (requests : Requests)
      (db : List VerificationToken) {t : VerificationToken}
      → let result =
          create_verification_token normalize compute_hmac now i otp email purpose user_id requests
            db in
        let new = issue normalize compute_hmac now i otp (normalize email) purpose user_id in
        result.0 ≡ issued t
        → (new ≡ t)
          × (result.2 ≡ update (pending_for (normalize email) purpose) cancel db ++ (new ∷ []))
  unfolding create_verification_token
  create-issued now i otp email purpose user_id requests db h =
      let check =
        check_rate_limit 5 3600 now (rate_key normalize compute_hmac (normalize email) purpose)
          requests in
      let (answer, rows) = with_check-issued check.0 check.1 db _ h in
      let (made, after) =
        replace_pending-issued now i otp (normalize email) purpose user_id db answer in
      (made, rows ∙ after)

  -- After a token is issued it is the only pending one of its email address and purpose.
  pub create-one_pending :
      (now i : ℕ) (otp email purpose : String) (user_id : Option ℕ) (requests : Requests)
      (db : List VerificationToken) {t : VerificationToken}
      → (create_verification_token normalize compute_hmac now i otp email purpose user_id requests
          db).0
        ≡ issued t
      → filter
          (pending_for (normalize email) purpose)
          (create_verification_token normalize compute_hmac now i otp email purpose user_id requests
            db).2
        ≡ t ∷ []
  create-one_pending now i otp email purpose user_id requests db h =
      let (made, rows) = create-issued now i otp email purpose user_id requests db h in
      let address = normalize email in
      let alone =
        filter-append (pending_for address purpose) _
          (issue normalize compute_hmac now i otp address purpose user_id)
          (none_pending address purpose db) (issue-pending_for now i otp address purpose user_id) in
      ap (filter (pending_for address purpose)) rows ∙ alone ∙ ap (λ u. u ∷ []) made

  issue-fields :
      (now i : ℕ) (otp email purpose : String) (user_id : Option ℕ)
      → let t = issue normalize compute_hmac now i otp email purpose user_id in
        (t.verification_id ≡ i)
        × (t.purpose ≡ purpose)
        × (t.status ≡ pending)
        × (t.expires_at ≡ now + expire_after)
        × (t.attempt_count ≡ 0)
        × (t.token_hash ≡ compute_hmac email purpose otp)
        × (t.email ≡ email)
  unfolding issue
  issue-fields now i otp email purpose user_id = (refl, refl, refl, refl, refl, refl, refl)

  -- A fresh token accepts its code until it expires.
  issue-decide :
      (strip : String → String) (now later i : ℕ) (otp email purpose : String) (user_id : Option ℕ)
      → strip otp ≡ otp
      → later ≤ now + expire_after
      → (decide strip compute_hmac later otp purpose
          (issue normalize compute_hmac now i otp email purpose user_id)).0
        ≡ success
  unfolding issue decide compare_code
  issue-decide strip now later i otp email purpose user_id s h =
      rw (eq_refl purpose, s, eq_refl (compute_hmac email purpose otp)) (ground arith)

  -- A code that is submitted for its fresh verification id until five minutes after it was issued is accepted,
  -- if it has no surrounding whitespace and the id was not in use.
  pub create-verify_otp :
      (strip : String → String) (now later i : ℕ) (otp email purpose : String) (user_id : Option ℕ)
      (requests : Requests) (db : List VerificationToken) {t : VerificationToken}
      → any (has_id i) db ≡ false
      → strip otp ≡ otp
      → later ≤ now + expire_after
      → (create_verification_token normalize compute_hmac now i otp email purpose user_id requests
          db).0
        ≡ issued t
      → (verify_otp strip compute_hmac later i otp purpose
          (create_verification_token normalize compute_hmac now i otp email purpose user_id requests
            db).2).0
        ≡ success
  create-verify_otp strip now later i otp email purpose user_id requests db absent s in_time h =
      let (made, rows) = create-issued now i otp email purpose user_id requests db h in
      let address = normalize email in
      let new = issue normalize compute_hmac now i otp address purpose user_id in
      let found =
        find-last i address purpose db new absent
          (issue-fields now i otp address purpose user_id).0 in
      ap (λ d. (verify_otp strip compute_hmac later i otp purpose d).0) rows
      ∙ verify_otp-found strip compute_hmac later i otp purpose _ found
      ∙ issue-decide strip now later i otp address purpose user_id s in_time
