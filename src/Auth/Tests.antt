-- ===== src/Auth/Tests.antt =====
-- Two students and their sessions, and what the theorems on authentication say of them.
use text.Mathlib.Text.{◌==◌ as str_eq}
use campus_agent.Base.{
  ℕ, ◌≤◌, ◌≡◌, refl, true, false, Option, none, some, List, [], ◌∷◌, String, arith, count_if, find,
  select, update_all, if◌then◌else◌,
}
use campus_agent.Base.Action.{err}
use campus_agent.Organizations.Models.{student, UserStatus}
use campus_agent.Auth.Models.{
  User, AuthSession, RefreshToken, SessionStatus, RefreshTokenStatus, refresh_token_revoked,
  invalid_credentials, Store, access, refresh, Payload, Crypto, Fresh, get_user, get_by_email,
}
use campus_agent.Auth.Passwords.{Text}
use campus_agent.Auth.Service.{RefreshResult, is_open_session_of, revoke_family, revoke_each}
use campus_agent.Auth.Service.Login.{login_user}
use campus_agent.Auth.Service.Refresh.{RefreshClaims, refresh_token_rotation, logout_user}
use campus_agent.Auth.Service.Families.{count_active_tokens, count_active_sessions}
use campus_agent.Auth.Service.Replay.{refresh_token_rotation-replay}
use campus_agent.Auth.Service.Reachable.{
  login, rotate_token, logout, serve, IsProper, Reachable, Reachable-HasOneActive,
}
use campus_agent.Auth.Service.Logout.{is_ok, logout_user-ends_sessions, login_user-uniform_error}
use campus_agent.Auth.RateLimit.{new_limiter, is_allowed}
use campus_agent.Auth.RateLimit.Window.{let_through, recent, let_through-limit}

abbrev decoded : String → Option Payload
decoded token =
    if str_eq token "r1"
    then some (record {
      typ = refresh;
      sub = some 1;
      jti = some 5;
      family_id = some 70;
      session_id = some 60;
    })
    else if str_eq token "a1"
    then some
        (record { typ = access; sub = some 1; jti = some 9; family_id = none; session_id = none })
    else none

abbrev crypto : Crypto
crypto = record {
  decode_token = λ _ token. decoded token;
  encode_token = λ _ _. "signed";
  hash_jti = λ jti. jti;
  hash_password = λ password. password;
  checkpw = str_eq;
  normalise_email = λ email. email;
  normalise_phone = λ phone. phone;
  refresh_seconds = 1000;
  access_seconds = 10;
}

abbrev strings : Text
strings = record {
  len = λ _. 9;
  is_blank = λ _. false;
  has_letter = λ _. true;
  has_digit = λ _. true;
  local_part = λ _. none;
  lower = λ s. s;
  contains = λ _ _. false;
}

abbrev ada : User
ada = record {
  id = 1;
  email = "ada@x";
  password_hash = "secret99";
  display_name = "Ada";
  global_role = student;
  status = UserStatus.active;
  deleted_at = none;
}

abbrev empty : Store
empty = record {
  users = ada ∷ [];
  profiles = [];
  sessions = [];
  tokens = [];
  registered = [];
  now = 100;
}

abbrev first_draw : Fresh
first_draw = record {
  user_id = 8;
  session_id = 60;
  family_id = 70;
  jti = 5;
  access_jti = 9;
  csrf_token = "c";
}

abbrev second_draw : Fresh
second_draw = record first_draw { jti = 6; access_jti = 10 }

abbrev after_login : Store
after_login = serve crypto strings (login first_draw "ada@x" "secret99") empty

abbrev r1_claims : RefreshClaims
r1_claims = record { jti = 5; family_id = 70; session_id = 60; user_id = 1 }

abbrev opened : AuthSession
opened = record {
  id = 60;
  user_id = 1;
  family_id = 70;
  session_version = 1;
  status = SessionStatus.active;
  expires_at = 1100;
  revoked_at = none;
}

abbrev first_token : RefreshToken
first_token = record {
  session_id = 60;
  user_id = 1;
  family_id = 70;
  jti_hash = 5;
  status = RefreshTokenStatus.active;
  expires_at = 1100;
  used_at = none;
  revoked_at = none;
}

abbrev signed_in : Store
signed_in = record empty { sessions = opened ∷ []; tokens = first_token ∷ [] }

-- A login on the empty tables opens that session.
logged_in : after_login ≡ signed_in
unfolding serve login_user get_by_email find
logged_in = refl

abbrev rotated : RefreshResult
rotated = record {
  user = ada;
  access_token = "signed";
  refresh_token = "signed";
  session_version = 2;
}

-- The token is rotated, the user logs out, and the token comes again at the time 300.
abbrev logged_out : Store
logged_out =
    record (serve crypto strings (logout "a1")
      (refresh_token_rotation crypto second_draw "r1" signed_in).1) { now = 300 }

since_rotation :
    Reachable crypto strings (refresh_token_rotation crypto second_draw "r1" signed_in).1 logged_out
unfolding IsProper
since_rotation = Reachable.wait 300 (Reachable.step (logout "a1") Reachable.here tt)

refresh_token_rotation-replay_example :
    let (reply, ended) = refresh_token_rotation crypto first_draw "r1" logged_out in
    (reply ≡ err refresh_token_revoked)
    × (count_active_tokens 70 ended ≡ 0)
    × (count_active_sessions 70 ended ≡ 0)
unfolding refresh_token_rotation find get_user
refresh_token_rotation-replay_example =
    refresh_token_rotation-replay crypto strings second_draw first_draw "r1" signed_in rotated
      r1_claims refl refl since_rotation refl

rotation-IsProper : IsProper crypto strings (rotate_token second_draw "r1") signed_in
unfolding IsProper find
rotation-IsProper claims t c e = ground arith

abbrev two_requests : Store
two_requests =
    serve crypto strings (logout "a1")
      (serve crypto strings (rotate_token second_draw "r1") signed_in)

trace : Reachable crypto strings signed_in two_requests
unfolding IsProper
trace =
    Reachable.step (logout "a1")
      (Reachable.step (rotate_token second_draw "r1") Reachable.here rotation-IsProper) tt

one_token : (family_id : ℕ) → count_active_tokens family_id signed_in ≤ 1
unfolding count_active_tokens count_if
one_token family_id = ground arith

Reachable-HasOneActive_example : count_active_tokens 70 two_requests ≤ 1
Reachable-HasOneActive_example = Reachable-HasOneActive crypto strings trace one_token 70

abbrev closed : AuthSession
closed = record opened { status = SessionStatus.revoked; revoked_at = some 100 }

logout_user-ends_sessions_example :
    let s' : Store = record (logout_user crypto "a1" signed_in).1 { now = 400 } in
    (count_if (is_open_session_of 1) s'.sessions ≡ 0)
    × (is_ok (refresh_token_rotation crypto second_draw "r1" s').0 ≡ false)
unfolding logout_user find get_user revoke_each revoke_family update_all select
logout_user-ends_sessions_example =
    logout_user-ends_sessions crypto "a1" signed_in (1, 9) 400 second_draw "r1" r1_claims closed
      refl refl refl refl refl

login_user-uniform_error_example :
    login_user crypto first_draw "eve@x" "guess" signed_in ≡ (err invalid_credentials, signed_in)
unfolding login_user get_by_email find
login_user-uniform_error_example =
    login_user-uniform_error crypto first_draw "eve@x" "guess" signed_in invalid_credentials refl

abbrev calls : List (String × ℕ)
calls = ("login:a", 1) ∷ ("login:a", 2) ∷ ("login:b", 3) ∷ ("login:a", 4) ∷ ("login:a", 12) ∷ []

let_through-limit_example :
    count_if (recent 12 10) (let_through "login:a" calls (new_limiter 2 10)) ≤ 2
let_through-limit_example =
    let_through-limit 2 10 "login:a" calls 0 12
      (omega arith, (omega arith, (omega arith, (omega arith, (omega arith, tt)))))

-- The third call of "login:a" is refused, and the fourth comes late enough.
let_through_example : let_through "login:a" calls (new_limiter 2 10) ≡ 1 ∷ 2 ∷ 12 ∷ []
unfolding let_through is_allowed select
let_through_example = refl
