-- ===== src/ModelGateway/Schemas.antt =====
-- apps/api/src/modules/model_gateway/schemas.py, providers.py and exceptions.py: requests, replies,
-- providers and errors. JSON is a parameter: a type of values and what the service asks of them.
-- Latencies, temperatures, token limits and timeouts, which no branch reads, are left out.
use campus_agent.Base.{ℕ, Bool, true, false, ◌||◌, not, Option, List, String, if◌then◌else◌}
use campus_agent.Base.Action.{Result}

pub data DataClassification : Type 0 where
  p0 p1 p2 p3 p4 : DataClassification

-- `in _SENSITIVE_EXTERNAL_BLOCKED`
abbrev pub is_sensitive : DataClassification → Bool
is_sensitive p3 = true
is_sensitive p4 = true
is_sensitive _ = false

pub record PrivacyContext : Type 0 where
  pub data_classification : DataClassification
  pub allow_external : Bool
  pub requires_local : Bool
  pub contains_personal_data : Bool
  pub purpose : String

abbrev is_p4 : DataClassification → Bool
is_p4 p4 = true
is_p4 _ = false

-- The validator that runs when a context is built.
unfoldable pub enforce_sensitive_defaults : PrivacyContext → PrivacyContext
enforce_sensitive_defaults ctx = record ctx {
  requires_local = is_p4 ctx.data_classification || ctx.requires_local;
  allow_external =
      if is_p4 ctx.data_classification
      then false
      else if is_sensitive ctx.data_classification
      then false
      else ctx.allow_external;
}

unfoldable pub is_external_blocked : PrivacyContext → Bool
is_external_blocked ctx =
    (is_sensitive ctx.data_classification || not ctx.allow_external) || ctx.requires_local

-- The subclasses of `ModelGatewayError`, and any other exception that a provider raises.
pub data GatewayError : Type 0 where
  privacy_context_missing privacy_context_invalid sensitive_external_blocked : GatewayError
  model_unavailable model_timeout model_routing_failed external_provider_error : GatewayError
  structured_output_validation other_exception : GatewayError

abbrev pub is_gateway_error : GatewayError → Bool
is_gateway_error other_exception = false
is_gateway_error _ = true

-- What the service needs of JSON values: `json.loads` and the test of a Pydantic model.
pub record Json (J : Type 0) : Type 0 where
  pub as_string : J → Option String
  pub loads : String → Option J
  pub is_object : J → Bool
  pub conforms : J → J → Bool  -- the schema and the object
  pub hash_messages : List (String × String) → String
  pub hash_content : J → String

pub data ProviderType : Type 0 where
  mock rule openai_compatible : ProviderType

-- A message has a role and a content. `timeout_ms` and the like are left out.
pub record ChatRequest (J : Type 0) : Type 0 where
  pub messages : List (String × String)
  pub privacy_context : PrivacyContext
  pub response_schema : Option J
  pub purpose : String

pub data ContentType : Type 0 where
  text structured : ContentType

pub data ResponseStatus : Type 0 where
  completed failed timeout : ResponseStatus

pub record ChatResponse (J : Type 0) : Type 0 where
  pub model : Option String
  pub status : ResponseStatus
  pub content_type : ContentType
  pub content : J
  pub prompt_tokens : Option ℕ
  pub completion_tokens : Option ℕ
  pub input_hash : Option String
  pub output_hash : Option String

-- A request that has been handed to a provider.
pub record Call : Type 0 where
  pub provider_name : String
  pub is_external : Bool
  pub context : PrivacyContext

-- A provider. What it answers and whether it is healthy may depend on all calls made before.
pub record ModelProvider (J : Type 0) : Type 0 where
  pub name : String
  pub provider_type : ProviderType
  pub is_external : Bool
  pub health : List Call → Bool
  pub chat : List Call → ChatRequest J → Result GatewayError (ChatResponse J)

-- A candidate is an object that the router shares: `id` tells them apart.
pub record ProviderCandidate (J : Type 0) : Type 0 where
  pub id : ℕ
  pub provider : ModelProvider J
  pub priority : ℕ

pub record AgentRun : Type 0 where
  pub agent_id : ℕ
  pub actor_user_id : ℕ
  pub purpose : String
  pub input_hash : Option String
  pub output_hash : Option String
  pub model_name : Option String
  pub token_count : Option ℕ
  pub status : ResponseStatus

-- The service: its candidates with the health that they remember, whether failures may degrade, the
-- calls made so far and the runs recorded.
pub record Gateway (J : Type 0) : Type 0 where
  pub candidates : List (ProviderCandidate J)
  pub remembered : ℕ → Option Bool
  pub allow_fallback : Bool
  pub calls : List Call
  pub runs : List AgentRun
