-- ===== src/Auth/Otp/Tests.antt =====
-- Runs and examples of the one-time passwords.
use Prim.Native.String
use Prim.Native.String.{String}
use text.Mathlib.Text.{◌==◌ as str_eq}
use smart_salary_india.Base.{
  ℕ, ◌-◌, ◌≤◌, ◌≡◌, refl, ◌&&◌, none, some, List, [], ◌∷◌, arith, leb, ltb, filter,
}
use smart_salary_india.Auth.Otp.{
  VerificationToken, verified, pending, success, issued, decide, compare_code, verify_otp,
  create_verification_token, replace_pending, with_check, issue, pending_for, max_attempts,
}
use smart_salary_india.Auth.Limiter.{check_rate_limit}
use smart_salary_india.Auth.Otp.Verify.{
  is_success, is_open, comparisons, decide-is_success, comparisons-max_attempts,
}
use smart_salary_india.Auth.Otp.Issue.{create-one_pending, create-verify_otp}

abbrev same_text : String → String
same_text text = text

-- A digest that keeps its three parts apart.
abbrev digest : String → String → String → String
digest email purpose otp = String.◌++◌ email (String.◌++◌ ":" (String.◌++◌ purpose otp))

abbrev token : VerificationToken
token = record {
  verification_id = 1;
  user_id = some 7;
  email = "a@b.in";
  purpose = "PASSWORD_RESET";
  token_hash = "a@b.in:PASSWORD_RESET048291";
  expires_at = 300_000_000;
  attempt_count = 3;
  status = pending;
  created_at = 0;
  verified_at = none;
  last_resend_at = some 0;
}

abbrev used_token : VerificationToken
used_token = record token { status = verified; verified_at = some 5 }

abbrev guesses : List (ℕ × String × String)
guesses =
    (1, "000000", "PASSWORD_RESET")
    ∷ (2, "048291", "EMAIL_VERIFICATION")
    ∷ (3, "111111", "PASSWORD_RESET")
    ∷ (4, "048291", "PASSWORD_RESET")
    ∷ []

comparisons-guesses : comparisons same_text digest guesses token ≡ 2
unfolding comparisons decide compare_code
comparisons-guesses = refl

decide-is_success_example :
    is_success (decide same_text digest 5 "048291" "PASSWORD_RESET" token).0 ≡ (
      str_eq token.purpose "PASSWORD_RESET"
      && is_open token.status
      && leb 5 token.expires_at
      && ltb token.attempt_count max_attempts
      && str_eq token.token_hash (digest token.email token.purpose "048291"))
decide-is_success_example = decide-is_success same_text digest 5 "048291" "PASSWORD_RESET" token

comparisons-max_attempts_example :
    comparisons same_text digest guesses token ≤ max_attempts - token.attempt_count
comparisons-max_attempts_example = comparisons-max_attempts same_text digest guesses token

abbrev fresh_token : VerificationToken
fresh_token = record {
  verification_id = 2;
  user_id = some 7;
  email = "a@b.in";
  purpose = "PASSWORD_RESET";
  token_hash = "a@b.in:PASSWORD_RESET123456";
  expires_at = 400_000_000;
  attempt_count = 0;
  status = pending;
  created_at = 100_000_000;
  verified_at = none;
  last_resend_at = some 100_000_000;
}

create-token :
    (create_verification_token same_text digest 100_000_000 2 "123456" "a@b.in" "PASSWORD_RESET"
      (some 7)
      (λ k. [])
      (token ∷ [])).0
    ≡ issued fresh_token
unfolding create_verification_token check_rate_limit with_check replace_pending issue
create-token = refl

create-one_pending_example :
    filter
      (pending_for "a@b.in" "PASSWORD_RESET")
      (create_verification_token same_text digest 100_000_000 2 "123456" "a@b.in" "PASSWORD_RESET"
        (some 7)
        (λ k. [])
        (token ∷ [])).2
    ≡ fresh_token ∷ []
create-one_pending_example =
    create-one_pending same_text digest 100_000_000 2 "123456" "a@b.in" "PASSWORD_RESET" (some 7)
      (λ k. []) (token ∷ []) create-token

create-verify_otp_example :
    (verify_otp same_text digest 390_000_000 2 "123456" "PASSWORD_RESET"
      (create_verification_token same_text digest 100_000_000 2 "123456" "a@b.in" "PASSWORD_RESET"
        (some 7)
        (λ k. [])
        (token ∷ [])).2).0
    ≡ success
create-verify_otp_example =
    create-verify_otp same_text digest same_text 100_000_000 390_000_000 2 "123456" "a@b.in"
      "PASSWORD_RESET" (some 7) (λ k. []) (token ∷ []) refl refl (omega arith) create-token
