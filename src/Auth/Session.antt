-- ===== src/Auth/Session.antt =====
-- backend/app/repositories/session_repository.py over the rows of user_sessions
-- (backend/app/models/session.py), in the order in which they were added.
-- `uuid.UUID` and `JWTProvider.compute_token_hash` are parameters, a UUID being a number; one
-- reading of the clock stands for the readings of a call; the column id, which no operation
-- reads, is left out. The unique constraint on jti refuses an insertion, and the rest of its
-- transaction with it.
pub mod Rows
pub mod History
pub mod Rotation
pub mod Users
pub mod Tests
use Prim.Native.String.{String}
use text.Mathlib.Text.{◌==◌ as str_eq}
use smart_salary_india.Base.{
  ℕ, ◌==◌, Bool, true, false, not, ◌&&◌, Option, none, some, List, [], ◌∷◌, ◌++◌, leb, ltb,
  if◌then◌else◌, find?, length, filter, update, any, sorted_desc,
}

pub record UserSession : Type 0 where
  pub user_id : ℕ
  pub jti : ℕ
  pub token_hash : String
  pub issued_at : ℕ
  pub expires_at : ℕ
  pub last_used_at : ℕ
  pub revoked_at : Option ℕ
  pub replaced_by_jti : Option ℕ
  pub ip_address : Option String
  pub user_agent : Option String

-- The ValueErrors of the repository, and the database's error on a jti that is there already.
pub data SessionError : Type 0 where
  bad_uuid missing reuse expired conflict : SessionError

pub data Outcome : Type 0 where
  opened : UserSession → Outcome
  refused : SessionError → Outcome

abbrev pub has_jti : ℕ → UserSession → Bool
has_jti j s = s.jti == j

abbrev pub is_revoked : UserSession → Bool
is_revoked s = elim s.revoked_at [ none ↦ false | some _ ↦ true ]

-- Python's `a or b` on optional texts.
abbrev pub or_text : Option String → Option String → Option String
or_text none b = b
or_text (some a) b = if str_eq a "" then b else some a

-- `revoked_at=datetime.now(UTC)`
abbrev pub revoke : ℕ → UserSession → UserSession
revoke now s = record s { revoked_at = some now }

-- The condition that the queries share: not revoked, and not expired.
abbrev pub is_active : ℕ → UserSession → Bool
is_active now s = not (is_revoked s) && ltb now s.expires_at

-- `revoke_all_user_sessions`, with the number of rows.
unfoldable pub revoke_all_user_sessions : ℕ → ℕ → List UserSession → ℕ × List UserSession
revoke_all_user_sessions now user_id db =
    let selected = λ (s : UserSession). s.user_id == user_id && not (is_revoked s) in
    (length (filter selected db), update selected (revoke now) db)

-- `get_user_active_sessions`, the last used first.
unfoldable pub get_user_active_sessions : ℕ → ℕ → List UserSession → List UserSession
get_user_active_sessions now user_id db =
    sorted_desc (λ s. s.last_used_at) (filter (λ s. s.user_id == user_id && is_active now s) db)

-- The insertion at a commit.
unfoldable pub insert :
    List UserSession → List UserSession → UserSession → Outcome × List UserSession
insert before db s =
    if any (has_jti s.jti) db then (refused conflict, before) else (opened s, db ++ (s ∷ []))

-- What a request brings along: the refresh token, its jti and expiry, and the client.
pub record Request : Type 0 where
  pub raw_refresh_token : String
  pub jti : String
  pub expires_at : ℕ
  pub ip_address : Option String
  pub user_agent : Option String

-- The old session after its rotation.
unfoldable pub replaced : ℕ → ℕ → UserSession → UserSession
replaced now j s = record s { revoked_at = some now; replaced_by_jti = some j; last_used_at = now }

module _ (uuid : String → Option ℕ) (compute_token_hash : String → String) where
  unfoldable pub new_session : ℕ → ℕ → ℕ → Request → UserSession
  new_session now user_id jti r = record {
    user_id = user_id;
    jti = jti;
    token_hash = compute_token_hash r.raw_refresh_token;
    issued_at = now;
    expires_at = r.expires_at;
    last_used_at = now;
    revoked_at = none;
    replaced_by_jti = none;
    ip_address = r.ip_address;
    user_agent = r.user_agent;
  }

  -- `create_session`
  unfoldable pub create_session : ℕ → ℕ → Request → List UserSession → Outcome × List UserSession
  create_session now user_id r db = elim (uuid r.jti) [
    | none ↦ (refused bad_uuid, db)
    | some j ↦ insert db db (new_session now user_id j r)
  ]

  -- `get_active_session_by_jti`
  unfoldable pub get_active_session_by_jti : ℕ → String → List UserSession → Option UserSession
  get_active_session_by_jti now jti db = elim (uuid jti) [
    | none ↦ none
    | some j ↦ find? (λ s. has_jti j s && is_active now s) db
  ]

  -- The session that replaces another one.
  unfoldable pub replacement : ℕ → UserSession → ℕ → Request → UserSession
  replacement now s j r = record (new_session now s.user_id j r) {
    ip_address = or_text r.ip_address s.ip_address;
    user_agent = or_text r.user_agent s.user_agent;
  }

  -- `rotate_session`, from the found session on.
  unfoldable pub rotate_found :
      ℕ → UserSession → Request → List UserSession → Outcome × List UserSession
  rotate_found now s r db =
      if is_revoked s
      then (refused reuse, (revoke_all_user_sessions now s.user_id db).1)
      else if leb s.expires_at now
      then (refused expired, update (has_jti s.jti) (revoke now) db)
      else elim (uuid r.jti) [
        | none ↦ (refused bad_uuid, db)
        | some j ↦ insert db (update (has_jti s.jti) (replaced now j) db) (replacement now s j r)
      ]

  -- `rotate_session`
  unfoldable pub rotate_session :
      ℕ → String → Request → List UserSession → Outcome × List UserSession
  rotate_session now old_jti r db = elim (uuid old_jti) [
    | none ↦ (refused bad_uuid, db)
    | some j ↦ elim (find? (has_jti j) db) [
      | none ↦ (refused missing, db)
      | some s ↦ rotate_found now s r db
    ]
  ]

  -- `revoke_session`
  unfoldable pub revoke_session : ℕ → String → List UserSession → List UserSession
  revoke_session now jti db = elim (uuid jti) [
    | none ↦ db
    | some j ↦ update (has_jti j) (revoke now) db
  ]
