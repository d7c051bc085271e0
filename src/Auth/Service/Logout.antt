-- ===== src/Auth/Service/Logout.antt =====
-- Logout ends every session of the user, and login says nothing about who has an account.
use campus_agent.Base.{
  ℕ, ◌≡◌, refl, Bool, true, false, ◌==◌, ◌||◌, not, none, some, List, [], ◌∷◌, String, find,
  count_if, update_all, select, any, all, arith, inl, inr, Option-cases, Bool-cases, ==_iff,
}
use campus_agent.Base.Table.{count_if-find_holds}
use campus_agent.Base.Action.{Result, ok, err}
use campus_agent.Auth.Models.{
  AuthSession, AuthError, invalid_credentials, Store, Crypto, Fresh, is_active_session,
  get_by_email, get_user, is_closed, is_used,
}
use campus_agent.Auth.Service.Common.{
  session_in, has_hash, close_session, revoke_family, is_open_session_of, revoke_each,
}
use campus_agent.Auth.Service.Login.{authenticated, login_user}
use campus_agent.Auth.Service.Refresh.{
  RefreshClaims, refresh_claims, access_claims, if_active, session_by_id, refresh_token_rotation,
  logout_user,
}

abbrev same_family : AuthSession → AuthSession → Bool
same_family a b = session_in a.family_id b

-- An open session of the user has its family in the list.
abbrev covered : ℕ → List AuthSession → AuthSession → Bool
covered user_id l a = not (is_open_session_of user_id a) || any (same_family a) l

all-covered :
    (user_id : ℕ) (l : List AuthSession) (b : AuthSession) (t : List AuthSession)
    → all (covered user_id l) t ≡ true
    → all (covered user_id (b ∷ l)) t ≡ true
unfolding all any
all-covered user_id l b [] h = refl
all-covered user_id l b (a ∷ t) h = ground (arith, all-covered user_id l b t)

-- The sessions that are selected cover the table.
select-covers :
    (user_id : ℕ) (t : List AuthSession)
    → all (covered user_id (select (is_open_session_of user_id) t)) t ≡ true
unfolding all select any
select-covers user_id [] = refl
select-covers user_id (a ∷ t) = elim (Bool-cases (is_open_session_of user_id a)) [
  | inl e ↦ ground (
    arith,
    select-covers user_id t,
    all-covered user_id (select (is_open_session_of user_id) t) a t,
  )
  | inr e ↦ ground (arith, select-covers user_id t)
]

all-uncovered :
    (user_id : ℕ) (t : List AuthSession)
    → all (covered user_id []) t ≡ true
    → count_if (is_open_session_of user_id) t ≡ 0
unfolding all any count_if
all-uncovered user_id [] h = refl
all-uncovered user_id (a ∷ t) h = ground (arith, all-uncovered user_id t)

-- Closing the sessions of one family leaves the rest of the list to cover what is open.
closed-covered :
    (user_id now : ℕ) (b : AuthSession) (l t : List AuthSession)
    → all (covered user_id (b ∷ l)) t ≡ true
    → all (covered user_id l) (update_all (session_in b.family_id) (close_session false now) t)
      ≡ true
unfolding all any update_all
closed-covered user_id now b l [] h = refl
closed-covered user_id now b l (a ∷ t) h = ground (arith, closed-covered user_id now b l t)

revoke_each-closes :
    (user_id : ℕ) (l : List AuthSession) (s : Store)
    → all (covered user_id l) s.sessions ≡ true
    → count_if (is_open_session_of user_id) (revoke_each l s).sessions ≡ 0
unfolding revoke_each
revoke_each-closes user_id [] s h = all-uncovered user_id s.sessions h
revoke_each-closes user_id (b ∷ l) s h =
    revoke_each-closes user_id l (revoke_family b.family_id false s)
      (unfold revoke_family in closed-covered user_id s.now b l s.sessions h)

abbrev pub is_ok : {A : Type 0} → Result AuthError A → Bool
is_ok (ok _) = true
is_ok (err _) = false

module _ (crypto : Crypto) where
  open crypto use {decode_token, normalise_email, hash_jti}

  logout-after :
      (token : String) (s : Store) (claims : ℕ × ℕ)
      → access_claims (decode_token s.now token) ≡ some claims
      → (logout_user crypto token s).0 ≡ ok tt
      → (logout_user crypto token s).1
        ≡ revoke_each (select (is_open_session_of claims.0) s.sessions) s
  unfolding logout_user
  logout-after token s claims c h = elim (Option-cases (get_user claims.0 s)) [
    | inl e ↦ absurd (ground arith)
    | inr (u, e) ↦ ground arith
  ]

  inactive-refused :
      (fresh : Fresh) (token : String) (s : Store) (claims : RefreshClaims)
      → refresh_claims (decode_token s.now token) ≡ some claims
      → if_active (session_by_id claims.session_id s) ≡ none
      → is_ok (refresh_token_rotation crypto fresh token s).0 ≡ false
  unfolding refresh_token_rotation revoke_family
  inactive-refused fresh token s claims c h =
      elim (Option-cases (find (has_hash (hash_jti claims.jti)) s.tokens)) [
        | inl e ↦ ground arith
        | inr (old, e) ↦ elim (Bool-cases (is_used old.status)) [
          | inl replayed ↦ ground arith
          | inr unused ↦ ground arith
        ]
      ]

  -- After a logout no session of the user is active, and no refresh token that names a session of
  -- the user is rotated any more, at whatever time it is presented.
  pub logout_user-ends_sessions :
      (token : String) (s : Store) (claims : ℕ × ℕ) (later : ℕ) (fresh : Fresh)
      (refresh_token : String) (other : RefreshClaims) (a : AuthSession)
      → access_claims (decode_token s.now token) ≡ some claims
      → (logout_user crypto token s).0 ≡ ok tt
      → refresh_claims (decode_token later refresh_token) ≡ some other
      → session_by_id other.session_id (logout_user crypto token s).1 ≡ some a
      → a.user_id ≡ claims.0
      → let s' : Store = record (logout_user crypto token s).1 { now = later } in
        (count_if (is_open_session_of claims.0) s'.sessions ≡ 0)
        × (is_ok (refresh_token_rotation crypto fresh refresh_token s').0 ≡ false)
  logout_user-ends_sessions token s claims later fresh refresh_token other a c h c' e owner =
      let s' : Store = record (logout_user crypto token s).1 { now = later } in
      let closed : count_if (is_open_session_of claims.0) s'.sessions ≡ 0 =
        rw (logout-after token s claims c h) (
          revoke_each-closes claims.0 (select (is_open_session_of claims.0) s.sessions) s
            (select-covers claims.0 s.sessions)) in
      let inactive : if_active (session_by_id other.session_id s') ≡ none =
        elim (Bool-cases (is_active_session a.status)) [
          | inl live ↦ absurd (
              ground (
                arith,
                closed,
                ==_iff a.user_id claims.0,
                count_if-find_holds (λ x. x.id == other.session_id) (is_open_session_of claims.0)
                    s'.sessions a e,
              ))
          | inr dead ↦ ground arith
        ] in
      (closed, inactive-refused fresh refresh_token s' other c' inactive)

  -- A login fails with the same error whatever the reason, unknown email, wrong password or closed
  -- account, and leaves no trace.
  pub login_user-uniform_error :
      (fresh : Fresh) (email password : String) (s : Store) (e : AuthError)
      → (login_user crypto fresh email password s).0 ≡ err e
      → login_user crypto fresh email password s ≡ (err invalid_credentials, s)
  unfolding login_user
  login_user-uniform_error fresh email password s e h =
      elim (Option-cases (authenticated crypto password (get_by_email (normalise_email email) s))) [
        | inl missing ↦ ground arith
        | inr (u, found) ↦ elim (Bool-cases (is_closed u.status)) [
          | inl closed ↦ ground arith
          | inr open_ ↦ absurd (ground arith)
        ]
      ]
