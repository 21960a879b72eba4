-- ===== src/Auth/Session/Tests.antt =====
-- Runs and examples of the session repository.
use Prim.Native.String.{String}
use text.Mathlib.Text.{◌==◌ as str_eq}
use smart_salary_india.Base.{
  ℕ, ◌≡◌, refl, true, Option, none, some, List, [], ◌∷◌, arith, if◌then◌else◌,
}
use smart_salary_india.Auth.Session.{
  UserSession, Request, opened, refused, reuse, rotate_session, rotate_found, replacement,
  new_session, replaced, insert, get_active_session_by_jti, get_user_active_sessions,
}
use smart_salary_india.Auth.Session.Rows.{IsUnique, is_revoked_jti}
use smart_salary_india.Auth.Session.History.{
  Op, create, rotate, revoke_all, run, run-is_revoked_jti,
}
use smart_salary_india.Auth.Session.Rotation.{rotate_session-opened, rotate_session-replay}

abbrev uuid : String → Option ℕ
uuid text =
    if str_eq text "one"
    then some 1
    else if str_eq text "two"
    then some 2
    else if str_eq text "three"
    then some 3
    else none

abbrev token_hash : String → String
token_hash raw = raw

abbrev request : String → Request
request jti = record {
  raw_refresh_token = "token";
  jti = jti;
  expires_at = 1000;
  ip_address = none;
  user_agent = some "browser";
}

abbrev first_session : UserSession
first_session = record {
  user_id = 7;
  jti = 1;
  token_hash = "token";
  issued_at = 10;
  expires_at = 1000;
  last_used_at = 10;
  revoked_at = none;
  replaced_by_jti = none;
  ip_address = some "127.0.0.1";
  user_agent = none;
}

abbrev second_session : UserSession
second_session = record first_session {
  jti = 2;
  issued_at = 20;
  last_used_at = 20;
  user_agent = some "browser";
}

abbrev revoked_session : UserSession
revoked_session = record first_session { jti = 3; revoked_at = some 15 }

abbrev table : List UserSession
table = first_session ∷ revoked_session ∷ []

table-IsUnique : IsUnique table
table-IsUnique = (refl, (refl, tt))

rotate_session-table :
    (rotate_session uuid token_hash 20 "one" (request "two") table).0 ≡ opened second_session
unfolding rotate_session rotate_found insert replacement new_session replaced
rotate_session-table = refl

rotate_session-opened_example :
    let after = (rotate_session uuid token_hash 20 "one" (request "two") table).1 in
    (get_active_session_by_jti uuid token_hash 30 "two" after ≡ some second_session)
    × (get_active_session_by_jti uuid token_hash 30 "one" after ≡ none)
rotate_session-opened_example =
    rotate_session-opened uuid token_hash 20 30 "one" (request "two") table table-IsUnique
      (omega arith) rotate_session-table

rotate_session-replay_example :
    let first = rotate_session uuid token_hash 20 "one" (request "two") table in
    let second = rotate_session uuid token_hash 40 "one" (request "three") first.1 in
    (second.0 ≡ refused reuse) × (get_user_active_sessions 50 7 second.1 ≡ [])
rotate_session-replay_example =
    rotate_session-replay uuid token_hash 20 40 50 "one" (request "two") (request "three") table
      rotate_session-table

abbrev history : List Op
history = rotate 20 "one" (request "two") ∷ create 25 8 (request "one") ∷ revoke_all 30 7 ∷ []

run-is_revoked_jti_example : is_revoked_jti 3 (run uuid token_hash history table) ≡ true
run-is_revoked_jti_example = run-is_revoked_jti uuid token_hash history table 3 table-IsUnique refl
