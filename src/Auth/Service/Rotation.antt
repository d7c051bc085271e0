-- ===== src/Auth/Service/Rotation.antt =====
-- The rotation of refresh tokens: each token works once, and a second use ends its whole family.
use campus_agent.Base.{
  ℕ, ◌≡◌, true, Option, some, [], ◌∷◌, find, update_first, arith, inl, inr, Option-cases, String,
}
use campus_agent.Base.Table.{find-holds, find-update_first_self, find-append_some}
use campus_agent.Base.Action.{ok, err}
use campus_agent.Auth.Models.{
  RefreshToken, refresh_token_revoked, Store, Crypto, Fresh, is_used, is_active_token, get_user,
}
use campus_agent.Auth.Service.Common.{RefreshResult, has_hash, revoke_family, token_row}
use campus_agent.Auth.Service.Refresh.{
  RefreshClaims, refresh_claims, if_active, if_open, mark_used, session_by_id, rotate,
  refresh_token_rotation,
}

module _ (crypto : Crypto) where
  open crypto use {decode_token, hash_jti}

  abbrev pub stored_token : RefreshClaims → Store → Option RefreshToken
  stored_token claims s = find (has_hash (hash_jti claims.jti)) s.tokens

  -- What a rotation that succeeds has found and done.
  pub rotation-effect :
      (fresh : Fresh) (token : String) (s : Store) (result : RefreshResult) (claims : RefreshClaims)
      → refresh_claims (decode_token s.now token) ≡ some claims
      → (refresh_token_rotation crypto fresh token s).0 ≡ ok result
      → (old : RefreshToken) × (u : ℕ) × (find (has_hash (hash_jti claims.jti)) s.tokens ≡ some old)
        × (is_active_token old.status ≡ true)
        × ((refresh_token_rotation crypto fresh token s).1 ≡ rotate crypto claims u fresh s)
  unfolding refresh_token_rotation
  rotation-effect fresh token s result claims c h =
      elim (Option-cases (find (has_hash (hash_jti claims.jti)) s.tokens)) [
        | inl e ↦ absurd (ground arith)
        | inr (old, e) ↦ elim (Option-cases (if_active (session_by_id claims.session_id s))) [
          | inl e' ↦ absurd (ground arith)
          | inr (a, e') ↦ elim (Option-cases (if_open (get_user claims.user_id s))) [
            | inl e'' ↦ absurd (ground arith)
            | inr (user, e'') ↦ (old, user.id, e, ground arith, ground arith)
          ]
        ]
      ]

  -- A used token is answered by the revocation of its family.
  pub replayed :
      (fresh : Fresh) (token : String) (s : Store) (claims : RefreshClaims) (old : RefreshToken)
      → refresh_claims (decode_token s.now token) ≡ some claims
      → find (has_hash (hash_jti claims.jti)) s.tokens ≡ some old
      → is_used old.status ≡ true
      → refresh_token_rotation crypto fresh token s
        ≡ (err refresh_token_revoked, revoke_family claims.family_id true s)
  unfolding refresh_token_rotation
  replayed fresh token s claims old c e h = ground arith

  -- A rotation that succeeds leaves its token found and used.
  pub rotation-spent :
      (fresh : Fresh) (token : String) (s : Store) (result : RefreshResult) (claims : RefreshClaims)
      → refresh_claims (decode_token s.now token) ≡ some claims
      → (refresh_token_rotation crypto fresh token s).0 ≡ ok result
      → (old : RefreshToken) × (stored_token claims (refresh_token_rotation crypto fresh token s).1
          ≡ some (mark_used s.now old))
  rotation-spent fresh token s result claims c h =
      let (old, u, e, live, after) = rotation-effect fresh token s result claims c h in
      let q = has_hash (hash_jti claims.jti) in
      (
        old,
        rw after (
            find-append_some q (update_first q (mark_used s.now) s.tokens)
              (token_row crypto u claims.session_id claims.family_id fresh s.now ∷ [])
              (find-update_first_self q (mark_used s.now) s.tokens old e
                (find-holds q s.tokens {x = old} e))),
      )
