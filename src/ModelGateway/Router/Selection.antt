-- ===== src/ModelGateway/Router/Selection.antt =====
-- The router picks the first healthy candidate that the privacy context allows.
use mathlib.Core.List.{Memᴰ}
use mathlib.Core.Path.{subst}
use campus_agent.Base.{
  ℕ, ◌≡◌, refl, sym, ap, ◌∙◌, Bool, true, false, ◌||◌, not, Option, none, some, List, [], ◌∷◌, ◌==◌,
  ltb, leb, if◌then◌else◌, select, all, arith, inl, inr, Bool-cases, Option-cases, ==_iff, ==_refl,
}
use campus_agent.Base.Sort.{is_sorted_by, sort_by-sorted, all-sort_by, mem-sort_by}
use campus_agent.Base.Action.{ok}
use campus_agent.ModelGateway.Schemas.{PrivacyContext, ChatRequest, ProviderCandidate, Gateway}
use campus_agent.ModelGateway.Router.{
  RoutingDecision, healthy, remember, first_healthy, by_priority, allowed, is_empty,
  select_provider,
}

-- Whether a health is known, and bad.
abbrev pub known_down : Option Bool → Bool
known_down none = false
known_down (some b) = not b

module _ {J : Type 0} where
  -- What a candidate remembers it keeps.
  remember-keeps :
      (c : ProviderCandidate J) (g : Gateway J) (id : ℕ) (b : Bool)
      → g.remembered id ≡ some b
      → (remember c g).remembered id ≡ some b
  unfolding remember healthy
  remember-keeps c g id b h = elim (Bool-cases (id == c.id)) [
    | inl e ↦
        (let same : id ≡ c.id = (==_iff id c.id).0 e in
          ground (arith, ap (λ n. g.remembered n) same))
    | inr e ↦ rw e h
  ]

  first_healthy-keeps :
      (cs : List (ProviderCandidate J)) (g : Gateway J) (id : ℕ) (b : Bool)
      → g.remembered id ≡ some b
      → (first_healthy cs g).1.remembered id ≡ some b
  unfolding first_healthy
  first_healthy-keeps [] g id b h = h
  first_healthy-keeps (c ∷ rest) g id b h =
      ground (arith, remember-keeps c g id b h, first_healthy-keeps rest (remember c g) id b)

  remember-own :
      (c : ProviderCandidate J) (g : Gateway J)
      → (remember c g).remembered c.id ≡ some (healthy c g)
  unfolding remember
  remember-own c g = rw (==_refl c.id) refl

  -- A candidate of a smaller key than the chosen one is known to be down.
  abbrev passed_over : Gateway J → ℕ → ProviderCandidate J → Bool
  passed_over g priority d = not (ltb d.priority priority) || known_down (g.remembered d.id)

  all_not_before :
      (g : Gateway J) (priority : ℕ) (cs : List (ProviderCandidate J))
      → all (λ d. leb priority d.priority) cs ≡ true
      → all (passed_over g priority) cs ≡ true
  unfolding all
  all_not_before g priority [] h = refl
  all_not_before g priority (d ∷ cs) h = ground (arith, all_not_before g priority cs)

  -- What is to be shown of the loop's answer.
  abbrev IsFirst : List (ProviderCandidate J) → ProviderCandidate J → Gateway J → Type 0
  IsFirst cs c g =
      Memᴰ c cs × (g.remembered c.id ≡ some true) × (all (passed_over g c.priority) cs ≡ true)

  first_healthy-found :
      (cs : List (ProviderCandidate J)) (g : Gateway J) (c : ProviderCandidate J)
      → is_sorted_by (λ d. d.priority) cs ≡ true
      → (first_healthy cs g).0 ≡ some c
      → IsFirst cs c (first_healthy cs g).1
  unfolding first_healthy is_sorted_by all
  first_healthy-found [] g c h k = cc
  first_healthy-found (d ∷ rest) g c h k = elim (Bool-cases (healthy d g)) [
    | inl up ↦
        let same : d ≡ c = ground arith in
        let state : (first_healthy (d ∷ rest) g).1 ≡ remember d g = ground arith in
        subst (λ z. IsFirst (d ∷ rest) c z) (sym state)
          (subst (λ z. IsFirst (d ∷ rest) z (remember d g)) same
            (
              Memᴰ.head refl,
              remember-own d g ∙ ap some up,
              all_not_before (remember d g) d.priority (d ∷ rest) (ground arith),
            ))
    | inr down ↦
        let k' : (first_healthy rest (remember d g)).0 ≡ some c = ground arith in
        let state : (first_healthy (d ∷ rest) g).1 ≡ (first_healthy rest (remember d g)).1 =
          ground arith in
        let later = first_healthy-found rest (remember d g) c (ground arith) k' in
        let own =
          first_healthy-keeps rest (remember d g) d.id false (remember-own d g ∙ ap some down) in
        subst (λ z. IsFirst (d ∷ rest) c z) (sym state)
          (Memᴰ.tail later.0, later.1, ground (arith, later.2, own))
  ]

  all-select :
      (q p : ProviderCandidate J → Bool) (cs : List (ProviderCandidate J))
      → all q cs ≡ true
      → all q (select p cs) ≡ true
  unfolding all select
  all-select q p [] h = refl
  all-select q p (d ∷ cs) h = ground (arith, all-select q p cs)

  select-IsSorted :
      (p : ProviderCandidate J → Bool) (cs : List (ProviderCandidate J))
      → is_sorted_by (λ d. d.priority) cs ≡ true
      → is_sorted_by (λ d. d.priority) (select p cs) ≡ true
  unfolding select is_sorted_by all
  select-IsSorted p [] h = refl
  select-IsSorted p (d ∷ cs) h =
      ground (arith, select-IsSorted p cs, all-select (λ e. leb d.priority e.priority) p cs)

  mem-select :
      {c : ProviderCandidate J} (p : ProviderCandidate J → Bool) (cs : List (ProviderCandidate J))
      → Memᴰ c (select p cs)
      → Memᴰ c cs × (p c ≡ true)
  unfolding select
  mem-select p [] m = elim m [ ]
  mem-select {c} p (d ∷ cs) m = elim (Bool-cases (p d)) [
    | inl e ↦ elim (subst (λ b. Memᴰ c (if b then d ∷ select p cs else select p cs)) e m) [
      | Memᴰ.head h ↦ (Memᴰ.head h, ap p h ∙ e)
      | Memᴰ.tail t ↦ let (u, v) = mem-select p cs t in (Memᴰ.tail u, v)
    ]
    | inr e ↦
        let (u, v) =
          mem-select p cs (subst (λ b. Memᴰ c (if b then d ∷ select p cs else select p cs)) e m) in
        (Memᴰ.tail u, v)
  ]

  -- Whether a candidate is not allowed, not before the priority, or known to be down.
  abbrev pub passed : PrivacyContext → Gateway J → ℕ → ProviderCandidate J → Bool
  passed ctx g priority d = not (allowed ctx d) || passed_over g priority d

  all-passed :
      (ctx : PrivacyContext) (g : Gateway J) (priority : ℕ) (cs : List (ProviderCandidate J))
      → all (passed_over g priority) (select (allowed ctx) cs) ≡ true
      → all (passed ctx g priority) cs ≡ true
  unfolding all select
  all-passed ctx g priority [] h = refl
  all-passed ctx g priority (d ∷ cs) h = elim (Bool-cases (allowed ctx d)) [
    | inl e ↦ ground (arith, all-passed ctx g priority cs)
    | inr e ↦ ground (arith, all-passed ctx g priority cs)
  ]

  select_provider-chosen :
      (request : ChatRequest J) (g : Gateway J) (c : ProviderCandidate J)
      (decision : RoutingDecision)
      → (select_provider request g).0 ≡ ok (c, decision)
      → ((first_healthy (select (allowed request.privacy_context) (by_priority g)) g).0 ≡ some c)
        × ((select_provider request g).1
            ≡ (first_healthy (select (allowed request.privacy_context) (by_priority g)) g).1)
  unfolding select_provider
  select_provider-chosen request g c decision h =
      let eligible = select (allowed request.privacy_context) (by_priority g) in
      elim (Bool-cases (is_empty eligible)) [
        | inl e ↦ absurd (ground arith)
        | inr e ↦ elim (Option-cases (first_healthy eligible g).0) [
          | inl none_up ↦ absurd (ground arith)
          | inr (d, found) ↦ ground arith
        ]
      ]

  -- A routed request goes to one of the candidates that its privacy context allows and that is
  -- healthy by the answer the gateway remembers, and every allowed candidate of a smaller priority
  -- number is remembered to be down.
  pub select_provider-best :
      (request : ChatRequest J) (g : Gateway J) (c : ProviderCandidate J)
      (decision : RoutingDecision)
      → (select_provider request g).0 ≡ ok (c, decision)
      → Memᴰ c g.candidates
        × (allowed request.privacy_context c ≡ true)
        × ((select_provider request g).1.remembered c.id ≡ some true)
        × (all
              (passed request.privacy_context (select_provider request g).1 c.priority)
              g.candidates
            ≡ true)
  select_provider-best request g c decision h =
      let ctx = request.privacy_context in
      let (found, state) = select_provider-chosen request g c decision h in
      let ordered = sort_by-sorted (λ (d : ProviderCandidate J). d.priority) g.candidates in
      let (m, up, over) =
        first_healthy-found (select (allowed ctx) (by_priority g)) g c
          (select-IsSorted (allowed ctx) (by_priority g) ordered) found in
      let (m', may) = mem-select (allowed ctx) (by_priority g) m in
      let after = (first_healthy (select (allowed ctx) (by_priority g)) g).1 in
      rw state (
        mem-sort_by (λ (d : ProviderCandidate J). d.priority) g.candidates m',
        may,
        up,
        sym (
              all-sort_by (λ (d : ProviderCandidate J). d.priority) (passed ctx after c.priority)
                g.candidates)
            ∙ all-passed ctx after c.priority (by_priority g) over,
      )
