-- ===== src/ModelGateway/Tests.antt =====
-- A gateway with a rule provider and an external one, and what the theorems say of it.
use mathlib.Core.List.{Memᴰ}
use campus_agent.Base.{
  ℕ, ◌≡◌, refl, Bool, true, false, not, Option, none, some, List, [], ◌∷◌, String, all, select, any,
}
use campus_agent.Base.Sort.{sort_by, insert_by}
use campus_agent.Base.Action.{ok, err}
use campus_agent.ModelGateway.Schemas.{
  p1, p4, Json, ChatRequest, ChatResponse, completed, text, ModelProvider, rule, mock,
  openai_compatible, ProviderCandidate, Gateway, model_timeout, is_external_blocked,
}
use campus_agent.ModelGateway.Router.{
  allowed, select_provider, build_default_candidates, healthy, RoutingDecision, first_healthy,
  privacy_allows, would_block_sensitive_external,
}
use campus_agent.ModelGateway.Router.Selection.{passed, select_provider-best}
use campus_agent.ModelGateway.Service.Calls.{leaks}
use campus_agent.ModelGateway.Service.Privacy.{serve, serve-keeps_inside}

abbrev plain_json : Json String
plain_json = record {
  as_string = λ s. some s;
  loads = λ s. some s;
  is_object = λ _. true;
  conforms = λ _ _. true;
  hash_messages = λ _. "in";
  hash_content = λ _. "out";
}

abbrev answer : ChatResponse String
answer = record {
  model = none;
  status = completed;
  content_type = text;
  content = "hello";
  prompt_tokens = none;
  completion_tokens = none;
  input_hash = none;
  output_hash = none;
}

abbrev rules : ModelProvider String
rules = record {
  name = "rule";
  provider_type = rule;
  is_external = false;
  health = λ _. true;
  chat = λ _ _. ok answer;
}

abbrev mocked : ModelProvider String
mocked = record rules { name = "mock"; provider_type = mock }

-- An external provider that always times out.
abbrev outside : ModelProvider String
outside = record {
  name = "stepfun";
  provider_type = openai_compatible;
  is_external = true;
  health = λ _. true;
  chat = λ _ _. err model_timeout;
}

abbrev gateway : Gateway String
gateway = record {
  candidates = build_default_candidates mocked rules none (some outside);
  remembered = λ _. none;
  allow_fallback = true;
  calls = [];
  runs = [];
}

abbrev asking : Bool → ChatRequest String
asking is_private = record {
  messages = ("user", "hi") ∷ [];
  privacy_context = record {
    data_classification = elim is_private [ true ↦ p4 | false ↦ p1 ];
    allow_external = not is_private;
    requires_local = is_private;
    contains_personal_data = is_private;
    purpose = "agent_chat";
  };
  response_schema = none;
  purpose = "agent_chat";
}

abbrev questions : List (ChatRequest String × Option (ℕ × ℕ))
questions = (asking true, none) ∷ (asking false, some (1, 2)) ∷ []

serve-keeps_inside_example :
    all (λ c. not (leaks c)) (serve plain_json questions gateway).calls ≡ true
unfolding all
serve-keeps_inside_example = serve-keeps_inside plain_json questions gateway refl

abbrev rule_chosen : ProviderCandidate String
rule_chosen = record { id = 2; provider = rules; priority = 80 }

abbrev decision : RoutingDecision
decision = record { provider_type = rule; provider_name = "rule"; privacy_blocked_external = true }

select_provider-best_example :
    Memᴰ rule_chosen gateway.candidates
    × (allowed (asking true).privacy_context rule_chosen ≡ true)
    × ((select_provider (asking true) gateway).1.remembered 2 ≡ some true)
    × (all
          (passed (asking true).privacy_context (select_provider (asking true) gateway).1 80)
          gateway.candidates
        ≡ true)
unfolding select_provider first_healthy privacy_allows is_external_blocked select sort_by insert_by
    build_default_candidates healthy any would_block_sensitive_external
select_provider-best_example = select_provider-best (asking true) gateway rule_chosen decision refl
