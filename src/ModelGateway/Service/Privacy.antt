-- ===== src/ModelGateway/Service/Privacy.antt =====
-- What leaves the gateway over any sequence of chat requests, and that a request is always routed.
use campus_agent.Base.{
  ℕ, ◌+◌, ◌*◌, ◌==◌, ◌≤◌, ◌≡◌, refl, ap, ◌∙◌, Bool, true, false, not, Option, none, some, List, [],
  ◌∷◌, ◌++◌, all, length, arith, inl, inr, is_some, Option-cases, select,
}
use campus_agent.Base.Sort.{sort_by, insert_by}
use campus_agent.Base.Action.{Result, ok, err}
use campus_agent.ModelGateway.Schemas.{
  Json, ChatRequest, ModelProvider, ProviderCandidate, Gateway, GatewayError,
}
use campus_agent.ModelGateway.Router.{
  select_provider, build_default_candidates, optional_candidate, healthy, first_healthy, remember,
  by_priority, allowed, privacy_allows, is_empty,
}
use campus_agent.ModelGateway.Service.{chat}
use campus_agent.ModelGateway.Service.Calls.{leaks, all-append, length-append, chat-Sends}

module _ {J : Type 0} (json : Json J) where
  -- The gateway after a list of chat requests, each with or without a run to record.
  unfoldable pub serve : List (ChatRequest J × Option (ℕ × ℕ)) → Gateway J → Gateway J
  serve [] g = g
  serve ((request, recorder) ∷ rest) g = serve rest (chat json request recorder g).1

  -- Over any list of chat requests, whatever the providers answer and whenever they fail: if no call
  -- so far has taken data outside that must stay inside (classified P3 or P4, without leave to go
  -- outside, or bound to local providers), then no call ever does.
  pub serve-keeps_inside :
      (requests : List (ChatRequest J × Option (ℕ × ℕ))) (g : Gateway J)
      → all (λ c. not (leaks c)) g.calls ≡ true
      → all (λ c. not (leaks c)) (serve requests g).calls ≡ true
  unfolding serve
  serve-keeps_inside [] g h = h
  serve-keeps_inside ((request, recorder) ∷ rest) g h =
      let sends = chat-Sends json request recorder g in
      serve-keeps_inside rest (chat json request recorder g).1
        (rw sends.appended (all-append (λ c. not (leaks c)) g.calls sends.new h sends.safe))

  -- A list of chat requests makes at most four calls of a provider for each request.
  pub serve-length :
      (requests : List (ChatRequest J × Option (ℕ × ℕ))) (g : Gateway J)
      → length (serve requests g).calls ≤ length g.calls + 4 * length requests
  unfolding serve
  serve-length [] g = omega arith
  serve-length ((request, recorder) ∷ rest) g =
      let sends = chat-Sends json request recorder g in
      omega (
        arith,
        serve-length rest (chat json request recorder g).1,
        ap length sends.appended,
        length-append g.calls sends.new,
        sends.few,
      )

abbrev pub is_ok : {A : Type 0} → Result GatewayError A → Bool
is_ok (ok _) = true
is_ok (err _) = false

module _ {J : Type 0} where
  abbrev rule_candidate : ModelProvider J → ProviderCandidate J
  rule_candidate rule = record { id = 2; provider = rule; priority = 80 }

  -- The loop finds a candidate if, before all others of its id, one in the list is healthy.
  first_healthy-some :
      (before after : List (ProviderCandidate J)) (c : ProviderCandidate J) (g : Gateway J)
      → all (λ d. not (d.id == c.id)) before ≡ true
      → healthy c g ≡ true
      → is_some (first_healthy (before ++ c ∷ after) g).0 ≡ true
  unfolding first_healthy all healthy remember
  first_healthy-some [] after c g h u = ground arith
  first_healthy-some (d ∷ before) after c g h u =
      ground (arith, first_healthy-some before after c (remember d g))

  -- The candidates before the rule provider in the order of the priorities.
  abbrev preferred :
      Option (ModelProvider J) → Option (ModelProvider J) → List (ProviderCandidate J)
  preferred local_node external =
      optional_candidate 0 local_node 10 ++ optional_candidate 1 external 50

  abbrev fallbacks : ModelProvider J → ModelProvider J → List (ProviderCandidate J)
  fallbacks mock rule =
      rule_candidate rule ∷ (record { id = 3; provider = mock; priority = 90 }) ∷ []

  defaults_sorted :
      (mock rule : ModelProvider J) (local_node external : Option (ModelProvider J))
      → sort_by (λ c. c.priority) (build_default_candidates mock rule local_node external)
        ≡ preferred local_node external ++ fallbacks mock rule
  unfolding sort_by build_default_candidates insert_by
  defaults_sorted mock rule none none = refl
  defaults_sorted mock rule none (some e) = refl
  defaults_sorted mock rule (some l) none = refl
  defaults_sorted mock rule (some l) (some e) = refl

  select-append :
      (p : ProviderCandidate J → Bool) (t u : List (ProviderCandidate J))
      → select p (t ++ u) ≡ select p t ++ select p u
  unfolding select
  select-append p [] u = refl
  select-append p (c ∷ t) u = ground (arith, select-append p t u)

  preferred-ids :
      (p : ProviderCandidate J → Bool) (local_node external : Option (ModelProvider J))
      → all (λ d. not (d.id == 2)) (select p (preferred local_node external)) ≡ true
  unfolding all select
  preferred-ids p none none = refl
  preferred-ids p none (some e) = ground arith
  preferred-ids p (some l) none = ground arith
  preferred-ids p (some l) (some e) = ground arith

  append-filled :
      (before after : List (ProviderCandidate J)) (c : ProviderCandidate J)
      → is_empty (before ++ c ∷ after) ≡ false
  append-filled [] after c = refl
  append-filled (d ∷ before) after c = refl

  select_provider-finds :
      (request : ChatRequest J) (g : Gateway J) (before after : List (ProviderCandidate J))
      (c : ProviderCandidate J)
      → select (allowed request.privacy_context) (by_priority g) ≡ before ++ c ∷ after
      → is_some (first_healthy (before ++ c ∷ after) g).0 ≡ true
      → is_ok (select_provider request g).0 ≡ true
  unfolding select_provider
  select_provider-finds request g before after c h u =
      let eligible = select (allowed request.privacy_context) (by_priority g) in
      let found : is_some (first_healthy eligible g).0 ≡ true = rw h u in
      let filled : is_empty eligible ≡ false = rw h (append-filled before after c) in
      elim (Option-cases (first_healthy eligible g).0) [
        | inl e ↦ ground arith
        | inr (d, e) ↦ ground arith
      ]

  -- With the candidates that the gateway is built with, where the rule provider is local and not
  -- known to be down, every request is routed, whatever its privacy context and whatever state the
  -- other providers are in.
  pub select_provider-default :
      (mock rule : ModelProvider J) (local_node external : Option (ModelProvider J))
      (request : ChatRequest J) (g : Gateway J)
      → g.candidates ≡ build_default_candidates mock rule local_node external
      → rule.is_external ≡ false
      → healthy (record { id = 2; provider = rule; priority = 80 }) g ≡ true
      → is_ok (select_provider request g).0 ≡ true
  unfolding privacy_allows
  select_provider-default mock rule local_node external request g h k u =
      let p = allowed request.privacy_context in
      let before = select p (preferred local_node external) in
      let after = select p ((record { id = 3; provider = mock; priority = 90 }) ∷ []) in
      let order =
        ap (λ cs. select p (sort_by (λ (c : ProviderCandidate J). c.priority) cs)) h
        ∙ ap (select p) (defaults_sorted mock rule local_node external)
        ∙ select-append p (preferred local_node external) (fallbacks mock rule) in
      let kept : select p (fallbacks mock rule) ≡ rule_candidate rule ∷ after =
        unfold select in (rw k refl) in
      select_provider-finds request g before after (rule_candidate rule)
        (order ∙ ap (λ t. before ++ t) kept)
        (first_healthy-some before after (rule_candidate rule) g
          (preferred-ids p local_node external) u)
