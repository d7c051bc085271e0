-- ===== src/Auth/Service/Reachable.antt =====
-- The states that the service can reach, and that no family ever has two tokens to rotate.
use mathlib.Core.Path.{subst}
use campus_agent.Base.{
  ℕ, ◌≤◌, ◌≡◌, sym, ap, ◌∙◌, true, ◌==◌, Option, some, List, [], ◌∷◌, ◌++◌, find, count_if,
  update_first, select, arith, inl, inr, ◌⊎◌, Option-cases, Bool-cases, String, ==_iff,
}
use campus_agent.Base.Table.{count_if-append, count_if-update_first}
use campus_agent.Base.Action.{Result-cases}
use campus_agent.Auth.Models.{
  AuthSession, RefreshToken, Store, Crypto, Fresh, is_active_token, is_used, get_user, get_by_email,
  is_closed,
}
use campus_agent.Auth.Passwords.{Text}
use campus_agent.Auth.Service.Common.{
  in_family, has_hash, revoke_family, revoke_each, token_row, is_open_session_of,
}
use campus_agent.Auth.Service.Login.{register_user, login_user, authenticated}
use campus_agent.Auth.Service.Refresh.{
  RefreshClaims, refresh_claims, access_claims, mark_used, rotate, refresh_token_rotation,
  logout_user,
}
use campus_agent.Auth.Service.Families.{
  is_active_in, count_active_tokens, revoke_family-le, revoke_each-le,
}
use campus_agent.Auth.Service.Rotation.{rotation-effect}

-- The calls of the service, with what is drawn at random.
pub data AuthRequest : Type 0 where
  register : Fresh → String → String → String → String → Option String → AuthRequest
  login : Fresh → String → String → AuthRequest
  rotate_token : Fresh → String → AuthRequest
  logout : String → AuthRequest

module _ (crypto : Crypto) (text : Text) where
  open crypto use {decode_token, hash_jti}

  unfoldable pub serve : AuthRequest → Store → Store
  serve (register fresh email password display_name student_no phone) s =
      (register_user crypto text fresh email password display_name student_no phone s).1
  serve (login fresh email password) s = (login_user crypto fresh email password s).1
  serve (rotate_token fresh token) s = (refresh_token_rotation crypto fresh token s).1
  serve (logout token) s = (logout_user crypto token s).1

  -- The family that is drawn is new, and a refresh token that decodes has been signed for the
  -- family that its row has.
  unfoldable pub IsProper : AuthRequest → Store → Type 0
  IsProper (register fresh _ _ _ _ _) s = count_if (in_family fresh.family_id) s.tokens ≡ 0
  IsProper (login fresh _ _) s = count_if (in_family fresh.family_id) s.tokens ≡ 0
  IsProper (rotate_token _ token) s =
      (claims : RefreshClaims) (t : RefreshToken)
      → refresh_claims (decode_token s.now token) ≡ some claims
      → find (has_hash (hash_jti claims.jti)) s.tokens ≡ some t
      → t.family_id ≡ claims.family_id
  IsProper (logout _) s = Unit {0}

  -- The states reached from a state by proper requests and by the passing of time.
  pub data Reachable (start : Store) : Store → Type 0 where
    here : Reachable start start
    step :
        {s : Store} (r : AuthRequest)
        → Reachable start s
        → IsProper r s
        → Reachable start (serve r s)
    wait : {s : Store} (later : ℕ) → Reachable start s → Reachable start (record s { now = later })

  abbrev pub HasOneActive : Store → Type 0
  HasOneActive s = (family_id : ℕ) → count_active_tokens family_id s ≤ 1

  -- A family with no token at all has none that is active.
  count_if-weaken :
      (f : ℕ) (t : List RefreshToken) → count_if (is_active_in f) t ≤ count_if (in_family f) t
  unfolding count_if
  count_if-weaken f [] = omega arith
  count_if-weaken f (x ∷ t) = ground (arith, count_if-weaken f t)

  -- One more active token, in a family that had none.
  append-HasOneActive :
      (tokens : List RefreshToken) (t : RefreshToken) (f : ℕ)
      → count_if (is_active_in t.family_id) tokens ≡ 0
      → count_if (is_active_in f) tokens ≤ 1
      → count_if (is_active_in f) (tokens ++ t ∷ []) ≤ 1
  unfolding count_if
  append-HasOneActive tokens t f h k = elim (Bool-cases (t.family_id == f)) [
    | inl e ↦
        let same : t.family_id ≡ f = (==_iff t.family_id f).0 e in
        let none_yet : count_if (is_active_in f) tokens ≡ 0 =
          ap (λ n. count_if (is_active_in n) tokens) (sym same) ∙ h in
        ground (arith, count_if-append (is_active_in f) tokens (t ∷ []), none_yet)
    | inr e ↦ ground (arith, count_if-append (is_active_in f) tokens (t ∷ []))
  ]

  pub register-tokens :
      (fresh : Fresh) (email password display_name student_no : String) (phone : Option String)
      (s : Store)
      → ((serve (register fresh email password display_name student_no phone) s).tokens ≡ s.tokens)
        ⊎ ((serve (register fresh email password display_name student_no phone) s).tokens
            ≡ s.tokens
              ++ token_row crypto fresh.user_id fresh.session_id fresh.family_id fresh s.now ∷ [])
  unfolding serve register_user
  register-tokens fresh email password display_name student_no phone s = ground arith

  pub login-tokens :
      (fresh : Fresh) (email password : String) (s : Store)
      → ((serve (login fresh email password) s).tokens ≡ s.tokens)
        ⊎ ((u : ℕ) × ((serve (login fresh email password) s).tokens
              ≡ s.tokens ++ token_row crypto u fresh.session_id fresh.family_id fresh s.now ∷ []))
  unfolding serve login_user
  login-tokens fresh email password s =
      elim (Option-cases
        (authenticated crypto password (get_by_email (crypto.normalise_email email) s))) [
          | inl e ↦ inl (ground arith)
          | inr (u, e) ↦ elim (Bool-cases (is_closed u.status)) [
            | inl closed ↦ inl (ground arith)
            | inr open_ ↦ inr (u.id, ground arith)
          ]
        ]

  -- What a rotation may do to the tokens.
  pub rotation-tokens :
      (fresh : Fresh) (token : String) (s : Store)
      → ((serve (rotate_token fresh token) s).tokens ≡ s.tokens)
        ⊎ ((family_id : ℕ) × (serve (rotate_token fresh token) s ≡ revoke_family family_id true s))
        ⊎ ((claims : RefreshClaims) × (old : RefreshToken) × (u : ℕ) × (refresh_claims
                (decode_token s.now token)
              ≡ some claims)
            × (find (has_hash (hash_jti claims.jti)) s.tokens ≡ some old)
            × (is_active_token old.status ≡ true)
            × (serve (rotate_token fresh token) s ≡ rotate crypto claims u fresh s))
  unfolding serve
  rotation-tokens fresh token s = elim (Option-cases (refresh_claims (decode_token s.now token))) [
    | inl e ↦ inl (unfold refresh_token_rotation in ground arith)
    | inr (claims, e) ↦ elim (Option-cases (find (has_hash (hash_jti claims.jti)) s.tokens)) [
      | inl e' ↦ inl (unfold refresh_token_rotation in ground arith)
      | inr (old, e') ↦ elim (Bool-cases (is_used old.status)) [
        | inl replayed ↦ inr (inl (claims.family_id, unfold refresh_token_rotation in ground arith))
        | inr unused ↦ elim (Result-cases (refresh_token_rotation crypto fresh token s).0) [
          | inl (result, success) ↦
              let (t, u, found, live, after) =
                rotation-effect crypto fresh token s result claims e success in
              inr (inr (claims, t, u, e, found, live, after))
          | inr (x, failed) ↦ inl (unfold refresh_token_rotation in ground arith)
        ]
      ]
    ]
  ]

  rotate-HasOneActive :
      (claims : RefreshClaims) (old : RefreshToken) (u : ℕ) (fresh : Fresh) (s : Store)
      → find (has_hash (hash_jti claims.jti)) s.tokens ≡ some old
      → is_active_token old.status ≡ true
      → old.family_id ≡ claims.family_id
      → HasOneActive s
      → HasOneActive (rotate crypto claims u fresh s)
  unfolding count_active_tokens
  rotate-HasOneActive claims old u fresh s e live same h f =
      let q = has_hash (hash_jti claims.jti) in
      let change =
        λ (g : ℕ). count_if-update_first (is_active_in g) q (mark_used s.now) s.tokens old e in
      append-HasOneActive (update_first q (mark_used s.now) s.tokens)
        (token_row crypto u claims.session_id claims.family_id fresh s.now) f
        (ground (
          arith,
          change claims.family_id,
          h claims.family_id,
          ==_iff old.family_id claims.family_id,
        ))
        (ground (arith, change f, h f))

  pub logout-after :
      (token : String) (s : Store)
      → ((serve (logout token) s) ≡ s)
        ⊎ ((sessions : List AuthSession) × (serve (logout token) s ≡ revoke_each sessions s))
  unfolding serve logout_user
  logout-after token s = elim (Option-cases (access_claims (decode_token s.now token))) [
    | inl e ↦ inl (ground arith)
    | inr (claims, e) ↦ elim (Option-cases (get_user claims.0 s)) [
      | inl e' ↦ inl (ground arith)
      | inr (u, e') ↦ inr (select (is_open_session_of claims.0) s.sessions, ground arith)
    ]
  ]

  serve-HasOneActive :
      (r : AuthRequest) (s : Store) → IsProper r s → HasOneActive s → HasOneActive (serve r s)
  unfolding IsProper count_active_tokens
  serve-HasOneActive (register fresh email password display_name student_no phone) s proper h f =
      elim (register-tokens fresh email password display_name student_no phone s) [
        | inl same ↦ rw same (h f)
        | inr rows ↦ rw rows (
            append-HasOneActive s.tokens
              (token_row crypto fresh.user_id fresh.session_id fresh.family_id fresh s.now) f
              (omega (arith, proper, count_if-weaken fresh.family_id s.tokens)) (h f))
      ]
  serve-HasOneActive (login fresh email password) s proper h f =
      elim (login-tokens fresh email password s) [
        | inl same ↦ rw same (h f)
        | inr (u, rows) ↦ rw rows (
            append-HasOneActive s.tokens
              (token_row crypto u fresh.session_id fresh.family_id fresh s.now) f
              (omega (arith, proper, count_if-weaken fresh.family_id s.tokens)) (h f))
      ]
  serve-HasOneActive (rotate_token fresh token) s proper h f =
      elim (rotation-tokens fresh token s) [
        | inl same ↦ rw same (h f)
        | inr (inl (family_id, after)) ↦
            subst (λ z. count_active_tokens f z ≤ 1) (sym after)
              (omega (arith, revoke_family-le family_id f true s, h f))
        | inr (inr (claims, old, u, c, e, live, after)) ↦
            subst (λ z. count_active_tokens f z ≤ 1) (sym after)
              (rotate-HasOneActive claims old u fresh s e live (proper claims old c e) h f)
      ]
  serve-HasOneActive (logout token) s proper h f = elim (logout-after token s) [
    | inl same ↦ rw same (h f)
    | inr (sessions, after) ↦
        subst (λ z. count_active_tokens f z ≤ 1) (sym after)
          (omega (arith, revoke_each-le sessions f s, h f))
  ]

  -- From a state where no family has two tokens that can be rotated, no state is reached where one
  -- has, by any requests and any passing of time, if each family drawn is new and each refresh token
  -- that decodes was signed for the family of its row.
  pub Reachable-HasOneActive :
      {start s : Store} → Reachable start s → HasOneActive start → HasOneActive s
  unfolding count_active_tokens
  Reachable-HasOneActive Reachable.here h = h
  Reachable-HasOneActive (Reachable.step r path proper) h =
      serve-HasOneActive r _ proper (Reachable-HasOneActive path h)
  Reachable-HasOneActive (Reachable.wait later path) h = Reachable-HasOneActive path h
