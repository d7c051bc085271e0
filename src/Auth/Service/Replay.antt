-- ===== src/Auth/Service/Replay.antt =====
-- The second use of a refresh token, after any requests since its rotation.
use mathlib.Core.Path.{subst}
use campus_agent.Base.{
  ℕ, ◌≡◌, refl, ◌++◌, Bool, false, sym, true, some, List, [], ◌∷◌, String, find, update_first,
  arith, inl, inr,
}
use campus_agent.Base.Table.{find-append_some, find-update_all, find-update_first_either}
use campus_agent.Base.Action.{ok, err}
use campus_agent.Auth.Models.{
  AuthSession, RefreshToken, refresh_token_revoked, Store, Crypto, Fresh, is_used,
}
use campus_agent.Auth.Passwords.{Text}
use campus_agent.Auth.Service.Common.{
  RefreshResult, has_hash, in_family, revoke_token, revoke_family, revoke_each, token_row,
}
use campus_agent.Auth.Service.Refresh.{
  RefreshClaims, refresh_claims, mark_used, rotate, refresh_token_rotation,
}
use campus_agent.Auth.Service.Families.{
  count_active_tokens, count_active_sessions, revoke_family-tokens, revoke_family-sessions,
}
use campus_agent.Auth.Service.Rotation.{rotation-spent, replayed}
use campus_agent.Auth.Service.Reachable.{
  AuthRequest, register, login, rotate_token, logout, serve, Reachable, register-tokens,
  login-tokens, rotation-tokens, logout-after,
}

-- The token with this hash is there and has been used.
abbrev IsSpent : ℕ → Store → Type 0
IsSpent hash s =
    (t : RefreshToken) × (find (has_hash hash) s.tokens ≡ some t) × (is_used t.status ≡ true)

append-IsSpent :
    (hash : ℕ) (s after : Store) (t : RefreshToken)
    → after.tokens ≡ s.tokens ++ t ∷ []
    → IsSpent hash s
    → IsSpent hash after
append-IsSpent hash s after t rows (old, found, spent) =
    (old, rw rows (find-append_some (has_hash hash) s.tokens (t ∷ []) {x = old} found), spent)

revoke_family-IsSpent :
    (hash family_id : ℕ) (b : Bool) (s : Store)
    → IsSpent hash s
    → IsSpent hash (revoke_family family_id b s)
unfolding revoke_family
revoke_family-IsSpent hash family_id b s (old, found, spent) = (
  old,
  ground (
    arith,
    find-update_all (has_hash hash) (in_family family_id) (revoke_token s.now) s.tokens old
        (λ y. ground arith) found,
    spent,
  ),
  spent,
)

revoke_each-IsSpent :
    (hash : ℕ) (sessions : List AuthSession) (s : Store)
    → IsSpent hash s
    → IsSpent hash (revoke_each sessions s)
unfolding revoke_each
revoke_each-IsSpent hash [] s h = h
revoke_each-IsSpent hash (a ∷ rest) s h =
    revoke_each-IsSpent hash rest (revoke_family a.family_id false s)
      (revoke_family-IsSpent hash a.family_id false s h)

module _ (crypto : Crypto) where
  open crypto use {decode_token, hash_jti}

  rotate-IsSpent :
      (hash : ℕ) (claims : RefreshClaims) (u : ℕ) (fresh : Fresh) (s : Store)
      → IsSpent hash s
      → IsSpent hash (rotate crypto claims u fresh s)
  rotate-IsSpent hash claims u fresh s (old, found, spent) =
      let q = has_hash (hash_jti claims.jti) in
      let marked = update_first q (mark_used s.now) s.tokens in
      let more = token_row crypto u claims.session_id claims.family_id fresh s.now ∷ [] in
      elim (find-update_first_either (has_hash hash) q (mark_used s.now) s.tokens old (λ y. refl)
        found) [
          | inl e ↦ (old, find-append_some (has_hash hash) marked more {x = old} e, spent)
          | inr e ↦ (
            mark_used s.now old,
            find-append_some (has_hash hash) marked more {x = mark_used s.now old} e,
            refl,
          )
        ]

  module _ (text : Text) where
    serve-IsSpent :
        (r : AuthRequest) (hash : ℕ) (s : Store)
        → IsSpent hash s
        → IsSpent hash (serve crypto text r s)
    serve-IsSpent (register fresh email password display_name student_no phone) hash s h =
        elim (register-tokens crypto text fresh email password display_name student_no phone s) [
          | inl same ↦ (h.0, rw same h.1, h.2)
          | inr rows ↦
              append-IsSpent hash s
                (serve crypto text (register fresh email password display_name student_no phone) s)
                _ rows h
        ]
    serve-IsSpent (login fresh email password) hash s h =
        elim (login-tokens crypto text fresh email password s) [
          | inl same ↦ (h.0, rw same h.1, h.2)
          | inr (u, rows) ↦
              append-IsSpent hash s (serve crypto text (login fresh email password) s) _ rows h
        ]
    serve-IsSpent (rotate_token fresh token) hash s h =
        elim (rotation-tokens crypto text fresh token s) [
          | inl same ↦ (h.0, rw same h.1, h.2)
          | inr (inl (family_id, after)) ↦
              subst (IsSpent hash) (sym after) (revoke_family-IsSpent hash family_id true s h)
          | inr (inr (claims, old, u, _, _, _, after)) ↦
              subst (IsSpent hash) (sym after) (rotate-IsSpent hash claims u fresh s h)
        ]
    serve-IsSpent (logout token) hash s h = elim (logout-after crypto text token s) [
      | inl same ↦ subst (IsSpent hash) (sym same) h
      | inr (sessions, after) ↦
          subst (IsSpent hash) (sym after) (revoke_each-IsSpent hash sessions s h)
    ]

    Reachable-IsSpent :
        {start s : Store} (hash : ℕ)
        → Reachable crypto text start s
        → IsSpent hash start
        → IsSpent hash s
    Reachable-IsSpent hash Reachable.here h = h
    Reachable-IsSpent hash (Reachable.step r path proper) h =
        serve-IsSpent r hash _ (Reachable-IsSpent hash path h)
    Reachable-IsSpent hash (Reachable.wait later path) h = Reachable-IsSpent hash path h

    -- A refresh token that has been rotated is presented again, in any state that requests and the
    -- passing of time have led to since, each family drawn being new and each refresh token that
    -- decodes being signed for the family of its row. While the token still decodes to the same
    -- claims, which it does until its JWT expires, the call raises, and it leaves the token's family
    -- without a token that can be rotated and without an active session.
    pub refresh_token_rotation-replay :
        {after : Store} (fresh fresh' : Fresh) (token : String) (s : Store) (result : RefreshResult)
        (claims : RefreshClaims)
        → refresh_claims (decode_token s.now token) ≡ some claims
        → (refresh_token_rotation crypto fresh token s).0 ≡ ok result
        → Reachable crypto text (refresh_token_rotation crypto fresh token s).1 after
        → refresh_claims (decode_token after.now token) ≡ some claims
        → let (reply, ended) = refresh_token_rotation crypto fresh' token after in
          (reply ≡ err refresh_token_revoked)
          × (count_active_tokens claims.family_id ended ≡ 0)
          × (count_active_sessions claims.family_id ended ≡ 0)
    refresh_token_rotation-replay {after} fresh fresh' token s result claims c h path c' =
        let (old, found) = rotation-spent crypto fresh token s result claims c h in
        let (t, still, used_up) =
          Reachable-IsSpent (hash_jti claims.jti) path (mark_used s.now old, found, refl) in
        rw (replayed crypto fresh' token after claims t c' still used_up) (
          refl,
          revoke_family-tokens claims.family_id true after,
          revoke_family-sessions claims.family_id true after,
        )
