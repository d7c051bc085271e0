-- ===== src/Auth/Service/Families.antt =====
-- Token families: what a revocation leaves of one.
use campus_agent.Base.{
  ℕ, ◌≤◌, ◌≡◌, Bool, true, false, ◌&&◌, List, [], ◌∷◌, count_if, update_all, arith,
}
use campus_agent.Base.Table.{count_if-update_all_none}
use campus_agent.Auth.Models.{AuthSession, RefreshToken, Store, is_active_session, is_active_token}
use campus_agent.Auth.Service.Common.{
  in_family, session_in, revoke_token, close_session, revoke_family, revoke_each,
}

abbrev pub is_active_in : ℕ → RefreshToken → Bool
is_active_in family_id t = in_family family_id t && is_active_token t.status

abbrev pub is_open_in : ℕ → AuthSession → Bool
is_open_in family_id a = session_in family_id a && is_active_session a.status

-- The refresh tokens of a family that can still be rotated, and its sessions that are active.
unfoldable pub count_active_tokens : ℕ → Store → ℕ
count_active_tokens family_id s = count_if (is_active_in family_id) s.tokens

unfoldable pub count_active_sessions : ℕ → Store → ℕ
count_active_sessions family_id s = count_if (is_open_in family_id) s.sessions

pub revoke_family-tokens :
    (family_id : ℕ) (b : Bool) (s : Store)
    → count_active_tokens family_id (revoke_family family_id b s) ≡ 0
unfolding count_active_tokens revoke_family
revoke_family-tokens family_id b s =
    count_if-update_all_none (in_family family_id) (is_active_in family_id) (revoke_token s.now)
      s.tokens (λ t h. ground arith) (λ t h. ground arith)

pub revoke_family-sessions :
    (family_id : ℕ) (b : Bool) (s : Store)
    → count_active_sessions family_id (revoke_family family_id b s) ≡ 0
unfolding count_active_sessions revoke_family
revoke_family-sessions family_id b s =
    count_if-update_all_none (session_in family_id) (is_open_in family_id) (close_session b s.now)
      s.sessions (λ a h. ground arith) (λ a h. ground arith)

count_if-update_all_le :
    {A : Type 0} (p q : A → Bool) (f : A → A) (t : List A)
    → ((x : A) → q (f x) ≡ true → q x ≡ true)
    → count_if q (update_all p f t) ≤ count_if q t
unfolding count_if update_all
count_if-update_all_le p q f [] a = omega arith
count_if-update_all_le p q f (x ∷ t) a = ground (arith, a x, count_if-update_all_le p q f t a)

-- A revocation makes no token of any family active.
pub revoke_family-le :
    (family_id other : ℕ) (b : Bool) (s : Store)
    → count_active_tokens other (revoke_family family_id b s) ≤ count_active_tokens other s
unfolding count_active_tokens revoke_family
revoke_family-le family_id other b s =
    count_if-update_all_le (in_family family_id) (is_active_in other) (revoke_token s.now) s.tokens
      (λ t h. ground arith)

pub revoke_each-le :
    (sessions : List AuthSession) (other : ℕ) (s : Store)
    → count_active_tokens other (revoke_each sessions s) ≤ count_active_tokens other s
unfolding revoke_each
revoke_each-le [] other s = omega arith
revoke_each-le (a ∷ rest) other s = omega (
  arith,
  revoke_each-le rest other (revoke_family a.family_id false s),
  revoke_family-le a.family_id other false s,
)
