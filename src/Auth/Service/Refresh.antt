-- ===== src/Auth/Service/Refresh.antt =====
-- The rotation of refresh tokens, logout, and the user of a request (dependencies.py).
use campus_agent.Base.{
  ℕ, ◌+◌, true, ◌||◌, Option, none, some, [], ◌∷◌, ◌++◌, String, ◌==◌, ltb, if◌then◌else◌, find,
  select, update_first,
}
use campus_agent.Base.Action.{◌>>=◌, ◌>>◌, return, gets, modify, require, raise_if}
use campus_agent.Auth.Models.{
  used, User, AuthSession, RefreshToken, invalid_token, refresh_token_expired,
  refresh_token_revoked, Store, Service, access, refresh, Payload, Crypto, Fresh, is_active_session,
  is_used, is_revoked, is_closed, get_user,
}
use campus_agent.Auth.Service.Common.{
  RefreshResult, has_hash, revoke_family, is_open_session_of, revoke_each, token_row,
  create_refresh_token, create_access_token,
}

-- The claims of a refresh token.
pub record RefreshClaims : Type 0 where
  pub jti : ℕ
  pub family_id : ℕ
  pub session_id : ℕ
  pub user_id : ℕ

abbrev all_claims : Option ℕ → Option ℕ → Option ℕ → Option ℕ → Option RefreshClaims
all_claims (some j) (some f) (some a) (some u) =
    some (record { jti = j; family_id = f; session_id = a; user_id = u })
all_claims _ _ _ _ = none

-- The claims, if the token decodes, is a refresh token and has them all.
abbrev pub refresh_claims : Option Payload → Option RefreshClaims
refresh_claims none = none
refresh_claims (some p) = elim (p.typ) [
  | access ↦ none
  | refresh ↦ all_claims p.jti p.family_id p.session_id p.sub
]

-- The user and the jti of an access token.
abbrev pub access_claims : Option Payload → Option (ℕ × ℕ)
access_claims none = none
access_claims (some p) = elim (p.typ) [
  | refresh ↦ none
  | access ↦ elim (p.sub) [
    | none ↦ none
    | some u ↦ elim (p.jti) [ none ↦ none | some j ↦ some (u, j) ]
  ]
]

abbrev pub if_active : Option AuthSession → Option AuthSession
if_active none = none
if_active (some a) = if is_active_session a.status then some a else none

abbrev pub if_open : Option User → Option User
if_open none = none
if_open (some u) = if is_closed u.status then none else some u

abbrev pub mark_used : ℕ → RefreshToken → RefreshToken
mark_used now t = record t { status = used; used_at = some now }

abbrev pub session_by_id : ℕ → Store → Option AuthSession
session_by_id id s = find (λ a. a.id == id) s.sessions

module _ (crypto : Crypto) where
  open crypto use {
    decode_token, encode_token, hash_jti, hash_password, checkpw, normalise_email, normalise_phone,
    refresh_seconds, access_seconds,
  }

  -- What a rotation commits: the old token is used, the session has a new version, and there is a
  -- new token.
  abbrev pub rotate : RefreshClaims → ℕ → Fresh → Store → Store
  rotate claims user_id fresh s = record s {
    tokens =
        update_first (has_hash (hash_jti claims.jti)) (mark_used s.now) s.tokens
        ++ token_row crypto user_id claims.session_id claims.family_id fresh s.now ∷ [];
    sessions =
        update_first (λ a. a.id == claims.session_id)
          (λ a. record a { session_version = a.session_version + 1 }) s.sessions;
  }

  -- The old token is marked before the session and the user are looked up; where one of these
  -- raises, nothing is committed.
  unfoldable pub refresh_token_rotation : Fresh → String → Service RefreshResult
  unfolding revoke_family
  refresh_token_rotation fresh token = do
    claims ← require (λ s. refresh_claims (decode_token s.now token)) invalid_token
    stored ← require (λ s. find (has_hash (hash_jti claims.jti)) s.tokens) invalid_token
    modify (λ s. if is_used stored.status then revoke_family claims.family_id true s else s)
    raise_if (is_used stored.status || is_revoked stored.status) refresh_token_revoked
    now ← gets (λ s. s.now)
    raise_if (ltb stored.expires_at now) refresh_token_expired
    auth_session ←
        require (λ s. if_active (session_by_id claims.session_id s)) refresh_token_revoked
    user ← require (λ s. if_open (get_user claims.user_id s)) invalid_token
    modify (rotate claims user.id fresh)
    return (record {
      user = user;
      access_token = create_access_token crypto user.id fresh now;
      refresh_token =
          create_refresh_token crypto user.id auth_session.id claims.family_id fresh now;
      session_version = auth_session.session_version + 1;
    })

  unfoldable pub logout_user : String → Service (Unit {0})
  unfolding revoke_each
  logout_user token = do
    claims ← require (λ s. access_claims (decode_token s.now token)) invalid_token
    user ← require (get_user claims.0) invalid_token
    modify (λ s. revoke_each (select (is_open_session_of claims.0) s.sessions) s)

  abbrev access_sub : Option Payload → Option ℕ
  access_sub none = none
  access_sub (some p) = elim (p.typ) [ refresh ↦ none | access ↦ p.sub ]

  -- The user of a request with this cookie.
  unfoldable pub get_current_user : String → Service User
  get_current_user token = do
    id ← require (λ s. access_sub (decode_token s.now token)) invalid_token
    require (λ s. if_open (get_user id s)) invalid_token
