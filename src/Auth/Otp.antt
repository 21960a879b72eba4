-- ===== src/Auth/Otp.antt =====
-- backend/app/services/otp_service.py over the rows of verification_tokens
-- (backend/app/models/verification_token.py), with the limits of backend/app/core/config.py.
-- Times are in microseconds. `email.strip().lower()`, `str.strip` and the HMAC digest are
-- parameters; the fresh verification_id and the random code are arguments. The column id and the
-- log lines are left out.
pub mod Verify
pub mod Issue
pub mod Tests
use Prim.Native.String
use Prim.Native.String.{String}
use text.Mathlib.Text.{◌==◌ as str_eq}
use smart_salary_india.Base.{
  ℕ, suc, ◌+◌, ◌-◌, ◌*◌, ◌==◌, Bool, true, false, not, ◌&&◌, Option, none, some, List, [], ◌∷◌,
  ◌++◌, leb, ltb, if◌then◌else◌, find?, filter, update, any, sorted_desc,
}
use smart_salary_india.Auth.Limiter.{
  Requests, Check, allowed, exceeded, index_error, check_rate_limit,
}

-- OTP_MAX_ATTEMPTS, OTP_EXPIRE_MINUTES and OTP_RESEND_COOLDOWN_SECONDS, the times in microseconds
abbrev pub max_attempts : ℕ
max_attempts = 5

abbrev pub expire_after : ℕ
expire_after = 300_000_000

abbrev pub cooldown : ℕ
cooldown = 60_000_000

pub data OtpStatus : Type 0 where
  pending verified expired locked cancelled : OtpStatus

pub record VerificationToken : Type 0 where
  pub verification_id : ℕ
  pub user_id : Option ℕ
  pub email : String
  pub purpose : String
  pub token_hash : String
  pub expires_at : ℕ
  pub attempt_count : ℕ
  pub status : OtpStatus
  pub created_at : ℕ
  pub verified_at : Option ℕ
  pub last_resend_at : Option ℕ

-- The answers of `verify_otp`, by their messages.
pub data Answer : Type 0 where
  not_found wrong_purpose already_used is_locked superseded has_expired : Answer
  attempts_exceeded incorrect_locked success : Answer
  incorrect : ℕ → Answer

abbrev pub has_id : ℕ → VerificationToken → Bool
has_id i t = t.verification_id == i

abbrev pub is_pending : VerificationToken → Bool
is_pending t = elim t.status [ pending ↦ true | _ ↦ false ]

-- The tokens of an email address and a purpose that are pending.
abbrev pub pending_for : String → String → VerificationToken → Bool
pending_for email purpose t = str_eq t.email email && str_eq t.purpose purpose && is_pending t

module _ (strip : String → String) (compute_hmac : String → String → String → String) where
  -- A comparison of the digests, from the limits on.
  unfoldable pub compare_code : ℕ → String → VerificationToken → Answer × VerificationToken
  compare_code now raw_otp t =
      let failed = record t { attempt_count = suc t.attempt_count } in
      if leb max_attempts t.attempt_count
      then (attempts_exceeded, record t { status = locked })
      else if str_eq t.token_hash (compute_hmac t.email t.purpose (strip raw_otp))
      then (success, record t { status = verified; verified_at = some now })
      else if leb max_attempts failed.attempt_count
      then (incorrect_locked, record failed { status = locked })
      else (incorrect (max_attempts - failed.attempt_count), failed)

  -- `verify_otp` on the token that is found: the answer and the token afterwards.
  unfoldable pub decide : ℕ → String → String → VerificationToken → Answer × VerificationToken
  decide now raw_otp expected_purpose t =
      let rest =
        if ltb t.expires_at now
        then (has_expired, record t { status = expired })
        else compare_code now raw_otp t in
      if not (str_eq t.purpose expected_purpose) then (wrong_purpose, t) else elim t.status [
        | verified ↦ (already_used, t)
        | locked ↦ (is_locked, t)
        | cancelled ↦ (superseded, t)
        | pending ↦ rest
        | expired ↦ rest
      ]

  -- `verify_otp`
  unfoldable pub verify_otp :
      ℕ → ℕ → String → String → List VerificationToken → Answer × List VerificationToken
  verify_otp now verification_id raw_otp expected_purpose db =
      elim (find? (has_id verification_id) db) [
        | none ↦ (not_found, db)
        | some t ↦
            let (answer, t') = decide now raw_otp expected_purpose t in
            (answer, update (has_id verification_id) (λ _. t') db)
      ]

-- `get_latest_active_token`
unfoldable pub get_latest_active_token :
    (String → String) → ℕ → String → String → List VerificationToken → Option VerificationToken
get_latest_active_token normalize now email purpose db =
    elim (sorted_desc (λ t. t.created_at) (filter (pending_for (normalize email) purpose) db)) [
      | [] ↦ none
      | t ∷ _ ↦ if ltb t.expires_at now then none else some t
    ]

-- `tok.last_resend_at or tok.created_at`
abbrev pub last_activity : VerificationToken → ℕ
last_activity t = elim t.last_resend_at [ none ↦ t.created_at | some at ↦ at ]

-- `now - last_activity` is below the cooldown, as it also is for an activity in the future.
abbrev pub is_recent : ℕ → VerificationToken → Bool
is_recent now t = ltb now (last_activity t + cooldown)

abbrev pub cancel : VerificationToken → VerificationToken
cancel t = record t { status = cancelled }

-- How `create_verification_token` ends.
pub data Issued : Type 0 where
  issued : VerificationToken → Issued
  rate_limited : Check → Issued
  cooling_down : Issued

-- The end of `create_verification_token`, unless the rate limiter raised.
unfoldable pub with_check :
    Check
    → Requests
    → List VerificationToken
    → Issued × List VerificationToken
    → Issued × Requests × List VerificationToken
with_check allowed requests db (answer, db') = (answer, requests, db')
with_check (exceeded n) requests db _ = (rate_limited (exceeded n), requests, db)
with_check index_error requests db _ = (rate_limited index_error, requests, db)

module _ (normalize : String → String) (compute_hmac : String → String → String → String) where
  -- The fresh token.
  unfoldable pub issue : ℕ → ℕ → String → String → String → Option ℕ → VerificationToken
  issue now verification_id raw_otp email purpose user_id = record {
    verification_id = verification_id;
    user_id = user_id;
    email = email;
    purpose = purpose;
    token_hash = compute_hmac email purpose raw_otp;
    expires_at = now + expire_after;
    attempt_count = 0;
    status = pending;
    created_at = now;
    verified_at = none;
    last_resend_at = some now;
  }

  abbrev pub rate_key : String → String → String
  rate_key email purpose = String.◌++◌ "otp_resend:" (String.◌++◌ email (String.◌++◌ ":" purpose))

  -- The rest of `create_verification_token`, after the rate limit. The cancellations before the
  -- exception of a cooldown are not committed.
  unfoldable pub replace_pending :
      ℕ
      → ℕ
      → String
      → String
      → String
      → Option ℕ
      → List VerificationToken
      → Issued × List VerificationToken
  replace_pending now verification_id raw_otp email purpose user_id db =
      let t = issue now verification_id raw_otp email purpose user_id in
      if any (is_recent now) (filter (pending_for email purpose) db)
      then (cooling_down, db)
      else (issued t, update (pending_for email purpose) cancel db ++ (t ∷ []))

  -- `create_verification_token`, with the requests of the rate limiter.
  unfoldable pub create_verification_token :
      ℕ
      → ℕ
      → String
      → String
      → String
      → Option ℕ
      → Requests
      → List VerificationToken
      → Issued × Requests × List VerificationToken
  create_verification_token now verification_id raw_otp email purpose user_id requests db =
      let address = normalize email in
      let (check, requests') = check_rate_limit 5 3600 now (rate_key address purpose) requests in
      with_check check requests' db
        (replace_pending now verification_id raw_otp address purpose user_id db)
