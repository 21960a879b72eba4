-- ===== src/Auth/Otp/Verify.antt =====
-- What `verify_otp` of backend/app/services/otp_service.py accepts, and how often it compares.
use Prim.Native.String.{String}
use text.Mathlib.Text.{◌==◌ as str_eq}
use smart_salary_india.Base.{
  ℕ, ◌+◌, ◌-◌, ◌≤◌, ◌≡◌, Bool, true, false, ◌&&◌, List, [], ◌∷◌, arith, leb, ltb, if◌then◌else◌,
}
use smart_salary_india.Auth.Otp.{
  OtpStatus, pending, expired, VerificationToken, Answer, incorrect_locked, success, incorrect,
  max_attempts, compare_code, decide,
}

abbrev pub is_success : Answer → Bool
is_success success = true
is_success _ = false

-- The digests were compared.
abbrev pub is_compared : Answer → Bool
is_compared success = true
is_compared incorrect_locked = true
is_compared (incorrect _) = true
is_compared _ = false

-- A code may still be tried: pending, or expired by an earlier call.
abbrev pub is_open : OtpStatus → Bool
is_open pending = true
is_open expired = true
is_open _ = false

-- The comparisons that are left to a token.
abbrev pub attempts_left : VerificationToken → ℕ
attempts_left t = if is_open t.status then max_attempts - t.attempt_count else 0

abbrev pub one_if : Bool → ℕ
one_if true = 1
one_if false = 0

module _ (strip : String → String) (compute_hmac : String → String → String → String) where
  -- A code is accepted exactly if the token has the expected purpose, is open and not past its
  -- expiry, has had fewer than five failures, and stores the digest of the code.
  pub decide-is_success :
      (now : ℕ) (raw_otp expected_purpose : String) (t : VerificationToken)
      → is_success (decide strip compute_hmac now raw_otp expected_purpose t).0 ≡ (
          str_eq t.purpose expected_purpose
          && is_open t.status
          && leb now t.expires_at
          && ltb t.attempt_count max_attempts
          && str_eq t.token_hash (compute_hmac t.email t.purpose (strip raw_otp)))
  unfolding decide compare_code
  decide-is_success now raw_otp expected_purpose t = ground arith

  decide-attempts_left :
      (now : ℕ) (raw_otp expected_purpose : String) (t : VerificationToken)
      → let result = decide strip compute_hmac now raw_otp expected_purpose t in
        one_if (is_compared result.0) + attempts_left result.1 ≤ attempts_left t
  unfolding decide compare_code
  decide-attempts_left now raw_otp expected_purpose t = ground arith

  -- Guesses at one token, each with its time, code and purpose: how many were compared.
  unfoldable pub comparisons : List (ℕ × String × String) → VerificationToken → ℕ
  comparisons [] t = 0
  comparisons ((now, raw_otp, purpose) ∷ guesses) t =
      let (answer, t') = decide strip compute_hmac now raw_otp purpose t in
      one_if (is_compared answer) + comparisons guesses t'

  comparisons-le :
      (guesses : List (ℕ × String × String)) (t : VerificationToken)
      → comparisons guesses t ≤ attempts_left t
  unfolding comparisons
  comparisons-le [] t = omega arith
  comparisons-le ((now, raw_otp, purpose) ∷ guesses) t = omega (
    arith,
    comparisons-le guesses (decide strip compute_hmac now raw_otp purpose t).1,
    decide-attempts_left now raw_otp purpose t,
  )

  -- However many codes are submitted for a token, at whatever times, at most five of them, less
  -- the failures it has had, are ever compared with its digest.
  pub comparisons-max_attempts :
      (guesses : List (ℕ × String × String)) (t : VerificationToken)
      → comparisons guesses t ≤ max_attempts - t.attempt_count
  comparisons-max_attempts guesses t = let bound = comparisons-le guesses t in ground arith

  -- A token that is used, locked or superseded answers every later code without success and stays
  -- as it is.
  pub decide-closed :
      (now : ℕ) (raw_otp expected_purpose : String) (t : VerificationToken)
      → is_open t.status ≡ false
      → let result = decide strip compute_hmac now raw_otp expected_purpose t in
        (is_success result.0 ≡ false) × (result.1 ≡ t)
  unfolding decide
  decide-closed now raw_otp expected_purpose t h = ground arith
