-- ===== src/Memories/Consent/Reachable.antt =====
-- What grants and revocations can reach, one request at a time, and that a revocation takes effect
-- at once.
use mathlib.Core.Path.{subst}
use text.Mathlib.TextEquality.{eq_iff}
use campus_agent.Base.{
  ℕ, ◌+◌, ◌≤◌, ◌≡◌, refl, true, false, Option, none, some, List, [], ◌∷◌, ◌++◌, String, ◌==◌, arith,
  inl, inr, Option-cases, Bool-cases, find, count_if, update_first,
}
use campus_agent.Base.Table.{find-count_if_zero, count_if-append, count_if-find-none}
use campus_agent.Base.Action.{ok}
use campus_agent.Memories.Models.{ConsentRecord, Store}
use campus_agent.Memories.Repository.{is_active, get_active, get_consent, revoke, revoke_row}
use campus_agent.Memories.Consent.{Json, consent_row, grant_consent, revoke_consent, check_consent}

pub data ConsentRequest (J : Type 0) : Type 0 where
  grant : ℕ → ℕ → String → Option J → Option ℕ → Option ℕ → ℕ → ConsentRequest J
  revoke_by : ℕ → ℕ → ConsentRequest J

-- The consents that are active for an agent and a purpose.
unfoldable pub count_active : ℕ → ℕ → String → Store → ℕ
count_active grantor_id agent_id purpose s =
    count_if (is_active s.now grantor_id agent_id purpose) s.consents

abbrev pub HasOneConsent : Store → Type 0
HasOneConsent s =
    (grantor_id agent_id : ℕ) (purpose : String) → count_active grantor_id agent_id purpose s ≤ 1

module _ {J : Type 0} (json : Json J) where
  unfoldable pub serve : ConsentRequest J → Store → Store
  serve (grant grantor_id agent_id purpose scope expires_at memory_id id) s =
      (grant_consent json grantor_id agent_id purpose scope expires_at memory_id id s).1
  serve (revoke_by grantor_id consent_id) s = (revoke_consent grantor_id consent_id s).1

  -- The states reached from a state by requests, one after the other, as time goes on.
  pub data Reachable (start : Store) : Store → Type 0 where
    here : Reachable start start
    step : {s : Store} (r : ConsentRequest J) → Reachable start s → Reachable start (serve r s)
    wait : {s : Store} (d : ℕ) → Reachable start s → Reachable start (record s { now = s.now + d })

-- What is active later was active before.
active-before :
    (now d grantor_id agent_id : ℕ) (purpose : String) (t : List ConsentRecord)
    → count_if (is_active (now + d) grantor_id agent_id purpose) t
      ≤ count_if (is_active now grantor_id agent_id purpose) t
unfolding count_if
active-before now d grantor_id agent_id purpose [] = omega arith
active-before now d grantor_id agent_id purpose (c ∷ t) =
    ground (arith, active-before now d grantor_id agent_id purpose t)

revoked-count :
    (id now grantor_id agent_id : ℕ) (purpose : String) (t : List ConsentRecord)
    → count_if
        (is_active now grantor_id agent_id purpose)
        (update_first (λ c. c.id == id) (revoke_row now) t)
      ≤ count_if (is_active now grantor_id agent_id purpose) t
unfolding count_if update_first
revoked-count id now grantor_id agent_id purpose [] = omega arith
revoked-count id now grantor_id agent_id purpose (c ∷ t) =
    ground (arith, revoked-count id now grantor_id agent_id purpose t)

-- A row that was active and is revoked is active no more.
revoked-one :
    (id now grantor_id agent_id : ℕ) (purpose : String) (t : List ConsentRecord) (c : ConsentRecord)
    → find (λ c. c.id == id) t ≡ some c
    → is_active now grantor_id agent_id purpose c ≡ true
    → count_if
          (is_active now grantor_id agent_id purpose)
          (update_first (λ c. c.id == id) (revoke_row now) t)
        + 1
      ≡ count_if (is_active now grantor_id agent_id purpose) t
unfolding count_if update_first find
revoked-one id now grantor_id agent_id purpose [] c h a = absurd (ground arith)
revoked-one id now grantor_id agent_id purpose (x ∷ t) c h a =
    ground (arith, revoked-one id now grantor_id agent_id purpose t c)

-- A new row adds to the count of its own agent and purpose, where there was none.
new-count :
    (now grantor_id agent_id : ℕ) (purpose : String) (c : ConsentRecord) (t : List ConsentRecord)
    → count_if (is_active now c.grantor_user_id c.grantee_agent_id c.purpose) t ≡ 0
    → count_if (is_active now grantor_id agent_id purpose) t ≤ 1
    → count_if (is_active now grantor_id agent_id purpose) (t ++ c ∷ []) ≤ 1
unfolding count_if
new-count now grantor_id agent_id purpose c t h k =
    elim (Bool-cases (is_active now grantor_id agent_id purpose c)) [
      | inl mine ↦
          let g : c.grantor_user_id ≡ grantor_id = ground arith in
          let a : c.grantee_agent_id ≡ agent_id = ground arith in
          let p : c.purpose ≡ purpose = (eq_iff c.purpose purpose).0 (ground arith) in
          let empty : count_if (is_active now grantor_id agent_id purpose) t ≡ 0 =
            subst (λ z. count_if (is_active now grantor_id agent_id z) t ≡ 0) p
              (subst (λ z. count_if (is_active now grantor_id z c.purpose) t ≡ 0) a
                (subst (λ z. count_if (is_active now z c.grantee_agent_id c.purpose) t ≡ 0) g h)) in
          ground (arith, count_if-append (is_active now grantor_id agent_id purpose) t (c ∷ []))
      | inr other ↦
          ground (arith, count_if-append (is_active now grantor_id agent_id purpose) t (c ∷ []))
    ]

module _ {J : Type 0} (json : Json J) where
  serve-HasOneConsent :
      (r : ConsentRequest J) (s : Store) → HasOneConsent s → HasOneConsent (serve json r s)
  unfolding serve grant_consent revoke_consent get_active count_active revoke
  serve-HasOneConsent (grant grantor_id agent_id purpose scope expires_at memory_id id) s h g a p =
      elim (Option-cases (find (is_active s.now grantor_id agent_id purpose) s.consents)) [
        | inl e ↦
            let row =
              consent_row json grantor_id agent_id purpose scope expires_at memory_id id s.now in
            let r = grant grantor_id agent_id purpose scope expires_at memory_id id in
            let rows : (serve json r s).consents ≡ s.consents ++ row ∷ [] = ground arith in
            let now : (serve json r s).now ≡ s.now = ground arith in
            rw now (
              rw rows (
                new-count s.now g a p row s.consents
                  (count_if-find-none (is_active s.now grantor_id agent_id purpose) s.consents e)
                  (h g a p)))
        | inr (c, e) ↦ ground (arith, h g a p)
      ]
  serve-HasOneConsent (revoke_by grantor_id consent_id) s h g a p =
      elim (Option-cases (get_consent consent_id s)) [
        | inl e ↦ ground (arith, h g a p)
        | inr (c, e) ↦ ground (arith, h g a p, revoked-count consent_id s.now g a p s.consents)
      ]

  pub Reachable-HasOneConsent :
      {start s : Store} → Reachable json start s → HasOneConsent start → HasOneConsent s
  unfolding count_active
  Reachable-HasOneConsent Reachable.here h = h
  Reachable-HasOneConsent (Reachable.step r path) h =
      serve-HasOneConsent r _ (Reachable-HasOneConsent path h)
  Reachable-HasOneConsent (Reachable.wait {s} d path) h = λ g a p.
      omega (arith, Reachable-HasOneConsent path h g a p, active-before s.now d g a p s.consents)

-- What is revoked was found, and was the grantor's.
revoke_consent-effect :
    (grantor_id consent_id : ℕ) (s : Store) (c : ConsentRecord)
    → (revoke_consent grantor_id consent_id s).0 ≡ ok tt
    → get_consent consent_id s ≡ some c
    → (c.grantor_user_id ≡ grantor_id)
      × ((revoke_consent grantor_id consent_id s).1.consents
          ≡ update_first (λ c. c.id == consent_id) (revoke_row s.now) s.consents)
      × ((revoke_consent grantor_id consent_id s).1.now ≡ s.now)
unfolding revoke_consent revoke
revoke_consent-effect grantor_id consent_id s c h e =
    elim (Bool-cases (c.grantor_user_id == grantor_id)) [
      | inl own ↦ (ground arith, ground arith, ground arith)
      | inr not_own ↦ absurd (ground arith)
    ]

module _ {J : Type 0} (json : Json J) where
  -- In a state that requests have led to, one after the other, from one where no agent has two active
  -- consents for a purpose: once the active one is revoked, every check of it fails, for any
  -- category, then and at any later time.
  pub revoke_consent-immediate :
      {start s : Store} (grantor_id consent_id : ℕ) (c : ConsentRecord)
      (categories : String → Option (List String)) (category : Option String) (d : ℕ)
      → Reachable json start s
      → HasOneConsent start
      → (revoke_consent grantor_id consent_id s).0 ≡ ok tt
      → get_consent consent_id s ≡ some c
      → is_active s.now c.grantor_user_id c.grantee_agent_id c.purpose c ≡ true
      → let s' : Store = (revoke_consent grantor_id consent_id s).1 in
        check_consent categories grantor_id c.grantee_agent_id c.purpose category
          (record s' { now = s'.now + d })
        ≡ false
  unfolding check_consent get_active count_active get_consent
  revoke_consent-immediate {start} {s} grantor_id consent_id c categories category d path one h e
        live =
      let (own, rows, now) = revoke_consent-effect grantor_id consent_id s c h e in
      let q = is_active s.now c.grantor_user_id c.grantee_agent_id c.purpose in
      let left = update_first (λ c. c.id == consent_id) (revoke_row s.now) s.consents in
      let none_now : count_if q left ≡ 0 = omega (
        arith,
        revoked-one consent_id s.now c.grantor_user_id c.grantee_agent_id c.purpose s.consents c e
            live,
        Reachable-HasOneConsent json path one c.grantor_user_id c.grantee_agent_id c.purpose,
      ) in
      let none_later : count_if
            (is_active (s.now + d) c.grantor_user_id c.grantee_agent_id c.purpose) left
          ≡ 0 =
        omega (
          arith,
          none_now,
          active-before s.now d c.grantor_user_id c.grantee_agent_id c.purpose left,
        ) in
      let missing : find (is_active (s.now + d) grantor_id c.grantee_agent_id c.purpose) left
          ≡ none =
        subst (λ z. find (is_active (s.now + d) z c.grantee_agent_id c.purpose) left ≡ none) own
          (find-count_if_zero (is_active (s.now + d) c.grantor_user_id c.grantee_agent_id c.purpose)
            left none_later) in
      rw now (rw rows (rw missing refl))
