-- ===== src/ModelGateway/Router.antt =====
-- apps/api/src/modules/model_gateway/router.py: which provider may answer a request.
pub mod Selection
use text.Mathlib.Text.{◌==◌ as str_eq}
use campus_agent.Base.{
  ℕ, Bool, true, false, ◌&&◌, ◌||◌, not, Option, none, some, List, [], ◌∷◌, ◌++◌, ◌==◌, String,
  if◌then◌else◌, select, any, find,
}
use campus_agent.Base.Sort.{sort_by}
use campus_agent.Base.Action.{Result, ok, err, Action}
use campus_agent.ModelGateway.Schemas.{
  PrivacyContext, is_external_blocked, GatewayError, sensitive_external_blocked,
  model_routing_failed, ProviderType, ChatRequest, ModelProvider, ProviderCandidate, Gateway,
}

pub record RoutingDecision : Type 0 where
  pub provider_type : ProviderType
  pub provider_name : String
  pub privacy_blocked_external : Bool

module _ {J : Type 0} where
  unfoldable pub privacy_allows : ModelProvider J → PrivacyContext → Bool
  unfolding is_external_blocked
  privacy_allows provider ctx =
      not (provider.is_external && (is_external_blocked ctx || ctx.requires_local))

  unfoldable pub would_block_sensitive_external : ModelProvider J → PrivacyContext → Bool
  unfolding is_external_blocked
  would_block_sensitive_external provider ctx = provider.is_external && is_external_blocked ctx

  -- The property `healthy` of a candidate: the first answer of its provider is kept.
  unfoldable pub healthy : ProviderCandidate J → Gateway J → Bool
  healthy c g = elim (g.remembered c.id) [ none ↦ c.provider.health g.calls | some b ↦ b ]

  unfoldable pub remember : ProviderCandidate J → Gateway J → Gateway J
  unfolding healthy
  remember c g = record g {
    remembered = λ id. if id == c.id then some (healthy c g) else g.remembered id;
  }

  -- The loop over the eligible candidates: the first that is healthy.
  unfoldable pub first_healthy :
      List (ProviderCandidate J) → Gateway J → Option (ProviderCandidate J) × Gateway J
  first_healthy [] g = (none, g)
  first_healthy (c ∷ rest) g =
      if healthy c g then (some c, remember c g) else first_healthy rest (remember c g)

  abbrev pub by_priority : Gateway J → List (ProviderCandidate J)
  by_priority g = sort_by (λ c. c.priority) g.candidates

  abbrev pub allowed : PrivacyContext → ProviderCandidate J → Bool
  allowed ctx c = privacy_allows c.provider ctx

  abbrev pub blocked : PrivacyContext → ProviderCandidate J → Bool
  blocked ctx c =
      not (privacy_allows c.provider ctx) && would_block_sensitive_external c.provider ctx

  abbrev pub is_empty : List (ProviderCandidate J) → Bool
  is_empty [] = true
  is_empty (_ ∷ _) = false

  -- The candidate chosen stands for its provider and the decision.
  unfoldable pub select_provider :
      ChatRequest J → Action (Gateway J) GatewayError (ProviderCandidate J × RoutingDecision)
  select_provider request g =
      let ctx = request.privacy_context in
      let eligible = select (allowed ctx) (by_priority g) in
      let blocked_external = any (blocked ctx) (by_priority g) in
      let (found, g') = first_healthy eligible g in
      if is_empty eligible
      then (err (if blocked_external then sensitive_external_blocked else model_routing_failed), g)
      else elim found [
        | none ↦ (err model_routing_failed, g')
        | some c ↦ (
          ok (
            c,
            record {
              provider_type = c.provider.provider_type;
              provider_name = c.provider.name;
              privacy_blocked_external = blocked_external;
            },
          ),
          g',
        )
      ]

  abbrev pub is_excluded : List String → ModelProvider J → Bool
  is_excluded exclude provider = any (λ name. str_eq provider.name name) exclude

  -- The tests of a fallback, in their order; its health is asked anew.
  abbrev pub may_fall_back : PrivacyContext → List String → Gateway J → ProviderCandidate J → Bool
  may_fall_back ctx exclude g c =
      (not (is_excluded exclude c.provider) && not c.provider.is_external)
      && (privacy_allows c.provider ctx && c.provider.health g.calls)

  unfoldable pub select_for_fallback :
      ChatRequest J → List String → Gateway J → Option (ProviderCandidate J)
  select_for_fallback request exclude g =
      find (may_fall_back request.privacy_context exclude g) (by_priority g)

  abbrev pub optional_candidate : ℕ → Option (ModelProvider J) → ℕ → List (ProviderCandidate J)
  optional_candidate id none priority = []
  optional_candidate id (some p) priority =
      (record { id = id; provider = p; priority = priority }) ∷ []

  unfoldable pub build_default_candidates :
      ModelProvider J
      → ModelProvider J
      → Option (ModelProvider J)
      → Option (ModelProvider J)
      → List (ProviderCandidate J)
  build_default_candidates mock rule local_node external =
      optional_candidate 0 local_node 10
      ++ optional_candidate 1 external 50
      ++ (record { id = 2; provider = rule; priority = 80 })
        ∷ (record { id = 3; provider = mock; priority = 90 })
        ∷ []
