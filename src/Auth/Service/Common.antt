-- ===== src/Auth/Service/Common.antt =====
-- The opening of a session and the revocation of a token family.
use campus_agent.Base.{
  ℕ, ◌+◌, Bool, false, ◌&&◌, none, some, List, [], ◌∷◌, ◌++◌, String, ◌==◌, if◌then◌else◌,
  update_all,
}
use campus_agent.Auth.Models.{
  SessionStatus, RefreshTokenStatus, User, AuthSession, RefreshToken, Store, access, refresh,
  Crypto, Fresh, is_active_session, is_used,
}

pub record Tokens : Type 0 where
  pub user : User
  pub access_token : String
  pub refresh_token : String
  pub csrf_token : String

pub record RefreshResult : Type 0 where
  pub user : User
  pub access_token : String
  pub refresh_token : String
  pub session_version : ℕ

abbrev pub in_family : ℕ → RefreshToken → Bool
in_family family_id t = t.family_id == family_id

abbrev pub session_in : ℕ → AuthSession → Bool
session_in family_id a = a.family_id == family_id

abbrev pub has_hash : ℕ → RefreshToken → Bool
has_hash jti_hash t = t.jti_hash == jti_hash

-- A token of the family that is revoked: a used one keeps its status.
abbrev pub revoke_token : ℕ → RefreshToken → RefreshToken
revoke_token now t =
    if is_used t.status
    then t
    else (record t { status = RefreshTokenStatus.revoked; revoked_at = some now })

abbrev pub close_session : Bool → ℕ → AuthSession → AuthSession
close_session mark_compromised now a = record a {
  status = if mark_compromised then SessionStatus.compromised else SessionStatus.revoked;
  revoked_at = some now;
}

-- `_revoke_family`
unfoldable pub revoke_family : ℕ → Bool → Store → Store
revoke_family family_id mark_compromised s = record s {
  tokens = update_all (in_family family_id) (revoke_token s.now) s.tokens;
  sessions = update_all (session_in family_id) (close_session mark_compromised s.now) s.sessions;
}

abbrev pub is_open_session_of : ℕ → AuthSession → Bool
is_open_session_of user_id a = a.user_id == user_id && is_active_session a.status

-- The loop of `logout_user` over the sessions that were active.
unfoldable pub revoke_each : List AuthSession → Store → Store
unfolding revoke_family
revoke_each [] s = s
revoke_each (a ∷ rest) s = revoke_each rest (revoke_family a.family_id false s)

module _ (crypto : Crypto) where
  open crypto use {
    decode_token, encode_token, hash_jti, hash_password, checkpw, normalise_email, normalise_phone,
    refresh_seconds, access_seconds,
  }

  abbrev pub new_session : User → Fresh → ℕ → AuthSession
  new_session user fresh now = record {
    id = fresh.session_id;
    user_id = user.id;
    family_id = fresh.family_id;
    session_version = 1;
    status = SessionStatus.active;
    expires_at = now + refresh_seconds;
    revoked_at = none;
  }

  -- The row of a new refresh token, and the token.
  abbrev pub token_row : ℕ → ℕ → ℕ → Fresh → ℕ → RefreshToken
  token_row user_id session_id family_id fresh now = record {
    session_id = session_id;
    user_id = user_id;
    family_id = family_id;
    jti_hash = hash_jti fresh.jti;
    status = RefreshTokenStatus.active;
    expires_at = now + refresh_seconds;
    used_at = none;
    revoked_at = none;
  }

  abbrev pub create_refresh_token : ℕ → ℕ → ℕ → Fresh → ℕ → String
  create_refresh_token user_id session_id family_id fresh now =
      encode_token
        (record {
          typ = refresh;
          sub = some user_id;
          jti = some fresh.jti;
          family_id = some family_id;
          session_id = some session_id;
        })
        (now + refresh_seconds)

  abbrev pub create_access_token : ℕ → Fresh → ℕ → String
  create_access_token user_id fresh now =
      encode_token
        (record {
          typ = access;
          sub = some user_id;
          jti = some fresh.access_jti;
          family_id = none;
          session_id = none;
        })
        (now + access_seconds)

  -- A session and its first refresh token, as `register_user` and `login_user` both make them.
  abbrev pub open_session : User → Fresh → Store → Store
  open_session user fresh s = record s {
    sessions = s.sessions ++ new_session user fresh s.now ∷ [];
    tokens = s.tokens ++ token_row user.id fresh.session_id fresh.family_id fresh s.now ∷ [];
  }

  abbrev pub tokens_for : User → Fresh → ℕ → Tokens
  tokens_for user fresh now = record {
    user = user;
    access_token = create_access_token user.id fresh now;
    refresh_token = create_refresh_token user.id fresh.session_id fresh.family_id fresh now;
    csrf_token = fresh.csrf_token;
  }
