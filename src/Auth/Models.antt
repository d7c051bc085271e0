-- ===== src/Auth/Models.antt =====
-- apps/api/src/modules/auth/models.py, tokens.py and exceptions.py, the users and student profiles
-- of modules/users/models.py and their repository: rows, the store, and what signs and hashes.
use campus_agent.Base.{ℕ, Bool, true, false, Option, none, some, List, String, ◌==◌, find, is_some}
use text.Mathlib.Text.{◌==◌ as str_eq}
use campus_agent.Base.Action.{Action}
use campus_agent.Organizations.Models.{GlobalRole, UserStatus}

pub data SessionStatus : Type 0 where
  active revoked compromised : SessionStatus

pub data RefreshTokenStatus : Type 0 where
  active used revoked : RefreshTokenStatus

pub record User : Type 0 where
  pub id : ℕ
  pub email : String
  pub password_hash : String
  pub display_name : String
  pub global_role : GlobalRole
  pub status : UserStatus
  pub deleted_at : Option ℕ

pub record StudentProfile : Type 0 where
  pub user_id : ℕ
  pub student_no : String
  pub phone_number : Option String

pub record AuthSession : Type 0 where
  pub id : ℕ
  pub user_id : ℕ
  pub family_id : ℕ
  pub session_version : ℕ
  pub status : SessionStatus
  pub expires_at : ℕ
  pub revoked_at : Option ℕ

pub record RefreshToken : Type 0 where
  pub session_id : ℕ
  pub user_id : ℕ
  pub family_id : ℕ
  pub jti_hash : ℕ
  pub status : RefreshTokenStatus
  pub expires_at : ℕ
  pub used_at : Option ℕ
  pub revoked_at : Option ℕ

pub data AuthError : Type 0 where
  weak_password user_already_exists invalid_credentials invalid_token : AuthError
  refresh_token_expired refresh_token_revoked : AuthError

-- The committed tables, the ids of the users whose registration was published, and the clock.
pub record Store : Type 0 where
  pub users : List User
  pub profiles : List StudentProfile
  pub sessions : List AuthSession
  pub tokens : List RefreshToken
  pub registered : List ℕ
  pub now : ℕ

abbrev pub Service : Type 0 → Type 0
Service A = Action Store AuthError A

pub data TokenType : Type 0 where
  access refresh : TokenType

-- The claims that the service reads; one that is missing or empty is none.
pub record Payload : Type 0 where
  pub typ : TokenType
  pub sub : Option ℕ
  pub jti : Option ℕ
  pub family_id : Option ℕ
  pub session_id : Option ℕ

-- Signing and hashing, by PyJWT, hashlib and bcrypt, and the settings. `decode_token` depends on the
-- clock, since an expired token does not decode.
pub record Crypto : Type 0 where
  pub decode_token : ℕ → String → Option Payload
  pub encode_token : Payload → ℕ → String  -- the payload and its expiry
  pub hash_jti : ℕ → ℕ
  pub hash_password : String → String
  pub checkpw : String → String → Bool  -- the password and the hash
  pub normalise_email : String → String
  pub normalise_phone : String → String
  pub refresh_seconds : ℕ
  pub access_seconds : ℕ

-- What is drawn at random when a session is opened or a token is made.
pub record Fresh : Type 0 where
  pub user_id : ℕ
  pub session_id : ℕ
  pub family_id : ℕ
  pub jti : ℕ
  pub access_jti : ℕ
  pub csrf_token : String

abbrev pub is_active_session : SessionStatus → Bool
is_active_session SessionStatus.active = true
is_active_session _ = false

abbrev pub is_compromised : SessionStatus → Bool
is_compromised compromised = true
is_compromised _ = false

abbrev pub is_active_token : RefreshTokenStatus → Bool
is_active_token RefreshTokenStatus.active = true
is_active_token _ = false

abbrev pub is_used : RefreshTokenStatus → Bool
is_used used = true
is_used _ = false

abbrev pub is_revoked : RefreshTokenStatus → Bool
is_revoked RefreshTokenStatus.revoked = true
is_revoked _ = false

-- `status in (DISABLED, DELETED)`
abbrev pub is_closed : UserStatus → Bool
is_closed UserStatus.active = false
is_closed _ = true

abbrev drop_deleted_user : Option User → Option User
drop_deleted_user none = none
drop_deleted_user (some u) = elim (u.deleted_at) [ none ↦ some u | some _ ↦ none ]

unfoldable pub get_user : ℕ → Store → Option User
get_user id s = drop_deleted_user (find (λ u. u.id == id) s.users)

-- `email` is normalised already.
unfoldable pub get_by_email : String → Store → Option User
get_by_email email s = find (λ u. str_eq u.email email) s.users

unfoldable pub student_no_exists : String → Store → Bool
student_no_exists student_no s = is_some (find (λ p. str_eq p.student_no student_no) s.profiles)

abbrev has_phone : String → StudentProfile → Bool
has_phone phone p = elim (p.phone_number) [ none ↦ false | some q ↦ str_eq q phone ]

unfoldable pub phone_number_exists : String → Store → Bool
phone_number_exists phone s = is_some (find (has_phone phone) s.profiles)
