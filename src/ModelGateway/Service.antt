-- ===== src/ModelGateway/Service.antt =====
-- apps/api/src/modules/model_gateway/service.py: a chat request from the routing to the record of
-- the run. Metrics and logs are left out.
pub mod Calls
pub mod Privacy
use campus_agent.Base.{
  ℕ, zero, suc, ◌+◌, Bool, true, false, ◌&&◌, not, Option, none, some, List, [], ◌∷◌, ◌++◌, String,
  if◌then◌else◌,
}
use campus_agent.Base.Action.{
  Result, ok, err, Action, ◌>>=◌, ◌>>◌, return, raise, gets, modify, require, raise_if,
}
use campus_agent.ModelGateway.Schemas.{
  GatewayError, structured_output_validation, is_gateway_error, Json, ChatRequest, ContentType,
  structured, ChatResponse, Call, ModelProvider, ProviderCandidate, AgentRun, Gateway,
}
use campus_agent.ModelGateway.Router.{select_provider, select_for_fallback}

abbrev pub Gate : Type 0 → Type 0 → Type 0
Gate J A = Action (Gateway J) GatewayError A

abbrev total : Option ℕ → Option ℕ → Option ℕ
total none completion = none
total (some prompt) none = some prompt
total (some prompt) (some completion) = some (prompt + completion)

module _ {J : Type 0} where
  -- `provider.chat(request)`: the provider gets the request, whatever comes of it.
  unfoldable pub chat_with : ModelProvider J → ChatRequest J → Gate J (ChatResponse J)
  chat_with p request g = (
    p.chat g.calls request,
    record g {
      calls =
          g.calls
          ++ (record {
            provider_name = p.name;
            is_external = p.is_external;
            context = request.privacy_context;
          })
            ∷ [];
    },
  )

  abbrev pub provider_of : ModelProvider J → Option (ProviderCandidate J) → ModelProvider J
  provider_of p none = p
  provider_of p (some c) = c.provider

  -- The two `except` branches do the same.
  unfoldable pub call_with_fallback : ChatRequest J → ModelProvider J → Gate J (ChatResponse J)
  call_with_fallback request p g =
      let (r, g') = chat_with p request g in
      let fallback = select_for_fallback request (p.name ∷ []) g' in
      elim r [
        | ok response ↦ (ok response, g')
        | err e ↦
            if is_gateway_error e && g'.allow_fallback
            then elim fallback [ none ↦ (err e, g') | some c ↦ chat_with c.provider request g' ]
            else (err e, g')
      ]

  unfoldable pub record_agent_run : ℕ → ℕ → ChatRequest J → ChatResponse J → Gateway J → Gateway J
  record_agent_run agent_id actor_user_id request response g = record g {
    runs =
        g.runs
        ++ (record {
          agent_id = agent_id;
          actor_user_id = actor_user_id;
          purpose = request.purpose;
          input_hash = response.input_hash;
          output_hash = response.output_hash;
          model_name = response.model;
          token_count = total response.prompt_tokens response.completion_tokens;
          status = response.status;
        })
          ∷ [];
  }

  module _ (json : Json J) where
    open json use {as_string, loads, is_object, conforms, hash_messages, hash_content}

    -- The value that the content stands for, if it is an object that the schema admits.
    unfoldable pub validate_structured_output : J → J → Option J
    validate_structured_output content response_schema =
        let parsed : Option J = elim (as_string content) [
          | none ↦ some content
          | some s ↦ loads s
        ] in
        elim parsed [
          | none ↦ none
          | some v ↦ if is_object v && conforms response_schema v then some v else none
        ]

    abbrev as_structured : J → ChatResponse J → ChatResponse J
    as_structured v r = record r { content_type = structured; content = v }

    -- The loop, with the number of retries left. A retry goes to a fallback that was not tried, or
    -- to the provider that was selected.
    unfoldable pub validate_with_retry :
        ℕ
        → List String
        → ChatRequest J
        → J
        → ModelProvider J
        → ChatResponse J
        → Gate J (ChatResponse J)
    unfolding validate_structured_output
    validate_with_retry zero excluded request schema p response g =
        elim (validate_structured_output response.content schema) [
          | some v ↦ (ok (as_structured v response), g)
          | none ↦ (err structured_output_validation, g)
        ]
    validate_with_retry (suc retries) excluded request schema p response g =
        let q = provider_of p (select_for_fallback request excluded g) in
        let again = chat_with q request g in
        elim (validate_structured_output response.content schema) [
          | some v ↦ (ok (as_structured v response), g)
          | none ↦ elim (again.0) [
            | err e ↦ (err e, again.1)
            | ok response' ↦
                validate_with_retry retries (q.name ∷ excluded) request schema p response' again.1
          ]
        ]

    abbrev pub max_validation_retries : ℕ
    max_validation_retries = 2

    -- Step 5, where the request has a schema.
    abbrev pub validated :
        Option J → ChatRequest J → ModelProvider J → ChatResponse J → Gate J (ChatResponse J)
    validated none request p response = return response
    validated (some schema) request p response =
        validate_with_retry max_validation_retries (p.name ∷ []) request schema p response

    abbrev hashed : ChatRequest J → ChatResponse J → ChatResponse J
    hashed request response = record response {
      input_hash = some (hash_messages request.messages);
      output_hash = some (hash_content response.content);
    }

    -- `recorder` is the agent and the actor of a run that is to be recorded.
    unfoldable pub chat : ChatRequest J → Option (ℕ × ℕ) → Gate J (ChatResponse J)
    unfolding call_with_fallback validate_with_retry record_agent_run
    chat request recorder = do
      chosen ← select_provider request
      let provider = chosen.0.provider
      first ← call_with_fallback request provider
      final ← validated request.response_schema request provider first
      let response = hashed request final
      modify (λ g. elim recorder [
        | none ↦ g
        | some (agent_id, actor_user_id) ↦
            record_agent_run agent_id actor_user_id request response g
      ])
      return response
