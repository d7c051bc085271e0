-- ===== src/ModelGateway/Service/Calls.antt =====
-- The calls that one chat request makes: how many, and to which providers.
use mathlib.Core.List.{append-nil, append_assoc}
use mathlib.Core.Path.{subst}
use campus_agent.Base.{
  ℕ, zero, suc, ◌+◌, ◌≤◌, ◌≡◌, refl, sym, ap, ◌∙◌, Bool, true, false, ◌&&◌, ◌||◌, not, Option, none,
  some, List, [], ◌∷◌, ◌++◌, select, all, length, arith, inl, inr, ◌⊎◌, Bool-cases, Option-cases,
  String,
}
use campus_agent.Base.Table.{find-holds}
use campus_agent.Base.Action.{ok, err, Result-cases}
use campus_agent.ModelGateway.Schemas.{
  is_sensitive, is_external_blocked, is_gateway_error, Json, ChatRequest, ChatResponse, Call,
  ModelProvider, ProviderCandidate, Gateway,
}
use campus_agent.ModelGateway.Router.{
  privacy_allows, select_provider, select_for_fallback, first_healthy, remember, by_priority,
  allowed, may_fall_back,
}
use campus_agent.ModelGateway.Router.Selection.{select_provider-best}
use campus_agent.ModelGateway.Service.{
  chat_with, call_with_fallback, validate_with_retry, record_agent_run, chat, provider_of,
  validated, validate_structured_output,
}

-- A call that takes data outside which must stay inside: classified P3 or P4, or without leave to go
-- outside, or bound to local providers.
unfoldable pub leaks : Call → Bool
leaks c =
    c.is_external
    && (is_sensitive c.context.data_classification
        || (not c.context.allow_external || c.context.requires_local))

-- Between two lists of calls at most `n` calls have been added, and none of them leaks.
pub record Sends (n : ℕ) (before after : List Call) : Type 0 where
  pub new : List Call
  pub appended : after ≡ before ++ new
  pub safe : all (λ c. not (leaks c)) new ≡ true
  pub few : length new ≤ n

Sends-none : (n : ℕ) {before after : List Call} → after ≡ before → Sends n before after
unfolding all
Sends-none n {before} {after} h = record {
  new = [];
  appended = h ∙ sym (append-nil before);
  safe = refl;
  few = omega arith;
}

pub all-append :
    (q : Call → Bool) (t u : List Call) → all q t ≡ true → all q u ≡ true → all q (t ++ u) ≡ true
unfolding all
all-append q [] u h k = k
all-append q (y ∷ t) u h k = ground (arith, all-append q t u)

pub length-append : (t u : List Call) → length (t ++ u) ≡ length t + length u
length-append [] u = omega arith
length-append (y ∷ t) u = omega (arith, length-append t u)

Sends-trans : {n m : ℕ} {g g' g'' : List Call} → Sends n g g' → Sends m g' g'' → Sends (n + m) g g''
Sends-trans {n} {m} {g} {g'} {g''} a b = record {
  new = a.new ++ b.new;
  appended = b.appended ∙ ap (λ x. x ++ b.new) a.appended ∙ append_assoc g a.new b.new;
  safe = all-append (λ c. not (leaks c)) a.new b.new a.safe b.safe;
  few = omega (arith, length-append a.new b.new, a.few, b.few);
}

Sends-le : {n m : ℕ} {g g' : List Call} → n ≤ m → Sends n g g' → Sends m g g'
Sends-le h a = record {
  new = a.new;
  appended = a.appended;
  safe = a.safe;
  few = omega (arith, a.few);
}

module _ {J : Type 0} where
  chat_with-Sends :
      (p : ModelProvider J) (request : ChatRequest J) (g : Gateway J)
      → privacy_allows p request.privacy_context ≡ true
      → Sends 1 g.calls (chat_with p request g).1.calls
  unfolding chat_with privacy_allows leaks all is_external_blocked
  chat_with-Sends p request g h = record {
    new =
        (record {
          provider_name = p.name;
          is_external = p.is_external;
          context = request.privacy_context;
        })
        ∷ [];
    appended = refl;
    safe = ground arith;
    few = omega arith;
  }

  fallback-allowed :
      (request : ChatRequest J) (exclude : List String) (g : Gateway J) (c : ProviderCandidate J)
      → select_for_fallback request exclude g ≡ some c
      → privacy_allows c.provider request.privacy_context ≡ true
  unfolding select_for_fallback
  fallback-allowed request exclude g c h =
      let test =
        find-holds (may_fall_back request.privacy_context exclude g) (by_priority g) {x = c} h in
      ground (arith, test)

  -- Whether the first answer is an error that a fallback may mend.
  degrades : ModelProvider J → ChatRequest J → Gateway J → Bool
  degrades p request g = elim ((chat_with p request g).0) [
    | ok _ ↦ false
    | err e ↦ is_gateway_error e && (chat_with p request g).1.allow_fallback
  ]

  -- A call that may degrade is one call, or two of which the second goes to an allowed provider.
  call_with_fallback-calls :
      (request : ChatRequest J) (p : ModelProvider J) (g : Gateway J)
      → let g' = (chat_with p request g).1 in
        ((call_with_fallback request p g).1.calls ≡ g'.calls)
        ⊎ ((c : ProviderCandidate J) × (privacy_allows c.provider request.privacy_context ≡ true)
            × ((call_with_fallback request p g).1.calls
                ≡ (chat_with c.provider request g').1.calls))
  unfolding call_with_fallback degrades
  call_with_fallback-calls request p g =
      let g' = (chat_with p request g).1 in
      elim (Option-cases (select_for_fallback request (p.name ∷ []) g')) [
        | inl none_left ↦ inl (ground arith)
        | inr (c, e) ↦ elim (Bool-cases (degrades p request g)) [
          | inl yes_ ↦ inr (c, fallback-allowed request (p.name ∷ []) g' c e, ground arith)
          | inr stays ↦ inl (ground arith)
        ]
      ]

  call_with_fallback-Sends :
      (request : ChatRequest J) (p : ModelProvider J) (g : Gateway J)
      → privacy_allows p request.privacy_context ≡ true
      → Sends 2 g.calls (call_with_fallback request p g).1.calls
  call_with_fallback-Sends request p g h = elim (call_with_fallback-calls request p g) [
    | inl same ↦ rw same (Sends-le (omega arith) (chat_with-Sends p request g h))
    | inr (c, may, same) ↦ rw same (
        Sends-trans (chat_with-Sends p request g h)
          (chat_with-Sends c.provider request (chat_with p request g).1 may))
  ]

  module _ (json : Json J) where
    retry_provider-allowed :
        (p : ModelProvider J) (request : ChatRequest J) (excluded : List String) (g : Gateway J)
        → privacy_allows p request.privacy_context ≡ true
        → privacy_allows
            (provider_of p (select_for_fallback request excluded g))
            request.privacy_context
          ≡ true
    retry_provider-allowed p request excluded g h =
        elim (Option-cases (select_for_fallback request excluded g)) [
          | inl e ↦ rw e h
          | inr (c, e) ↦ rw e (fallback-allowed request excluded g c e)
        ]

    -- Each retry adds one call.
    validate_with_retry-Sends :
        (retries : ℕ) (excluded : List String) (request : ChatRequest J) (schema : J)
        (p : ModelProvider J) (response : ChatResponse J) (g : Gateway J)
        → privacy_allows p request.privacy_context ≡ true
        → Sends retries g.calls
            (validate_with_retry json retries excluded request schema p response g).1.calls
    unfolding validate_with_retry
    validate_with_retry-Sends zero excluded request schema p response g h =
        Sends-none 0 (ground arith)
    validate_with_retry-Sends (suc retries) excluded request schema p response g h =
        let q = provider_of p (select_for_fallback request excluded g) in
        let once = chat_with-Sends q request g (retry_provider-allowed p request excluded g h) in
        elim (Option-cases (validate_structured_output json response.content schema)) [
          | inr (v, e) ↦ Sends-none (suc retries) (ground arith)
          | inl e ↦ elim (Result-cases (chat_with q request g).0) [
            | inr (x, failed) ↦
                let same : (validate_with_retry json (suc retries) excluded request schema p
                      response g).1.calls
                    ≡ (chat_with q request g).1.calls =
                  ground arith in
                rw same (Sends-le (omega arith) once)
            | inl (response', answered) ↦
                let g' = (chat_with q request g).1 in
                let rest =
                  validate_with_retry json retries (q.name ∷ excluded) request schema p response'
                    g' in
                let same : (validate_with_retry json (suc retries) excluded request schema p
                      response g).1.calls
                    ≡ rest.1.calls =
                  ground arith in
                rw same (
                  Sends-le (omega arith) (
                    Sends-trans once (
                      validate_with_retry-Sends retries (q.name ∷ excluded) request schema p
                        response' g' h)))
          ]
        ]

    validated-Sends :
        (schema : Option J) (request : ChatRequest J) (p : ModelProvider J)
        (response : ChatResponse J) (g : Gateway J)
        → privacy_allows p request.privacy_context ≡ true
        → Sends 2 g.calls (validated json schema request p response g).1.calls
    validated-Sends none request p response g h = Sends-none 2 refl
    validated-Sends (some schema) request p response g h =
        validate_with_retry-Sends 2 (p.name ∷ []) request schema p response g h

    first_healthy-calls :
        (cs : List (ProviderCandidate J)) (g : Gateway J) → (first_healthy cs g).1.calls ≡ g.calls
    unfolding first_healthy remember
    first_healthy-calls [] g = refl
    first_healthy-calls (c ∷ rest) g = ground (arith, first_healthy-calls rest (remember c g))

    select_provider-calls :
        (request : ChatRequest J) (g : Gateway J) → (select_provider request g).1.calls ≡ g.calls
    unfolding select_provider
    select_provider-calls request g =
        let eligible = select (allowed request.privacy_context) (by_priority g) in
        elim (Option-cases (first_healthy eligible g).0) [
          | inl e ↦ ground (arith, first_healthy-calls eligible g)
          | inr (c, e) ↦ ground (arith, first_healthy-calls eligible g)
        ]

    -- A chat request is handed to providers four times at most, whatever they answer, and never to
    -- an external one if its data must stay inside.
    pub chat-Sends :
        (request : ChatRequest J) (recorder : Option (ℕ × ℕ)) (g : Gateway J)
        → Sends 4 g.calls (chat json request recorder g).1.calls
    unfolding chat record_agent_run
    chat-Sends request recorder g = elim (Result-cases (select_provider request g).0) [
      | inr (e, failed) ↦ Sends-none 4 (ground (arith, select_provider-calls request g))
      | inl ((c, decision), chosen) ↦
          let (_, may, _, _) = select_provider-best request g c decision chosen in
          let g' = (select_provider request g).1 in
          let first = call_with_fallback-Sends request c.provider g' may in
          let start = select_provider-calls request g in
          elim (Result-cases (call_with_fallback request c.provider g').0) [
            | inr (e, failed) ↦
                let same : (chat json request recorder g).1.calls
                    ≡ (call_with_fallback request c.provider g').1.calls =
                  ground arith in
                rw same (
                  subst (λ z. Sends 4 z (call_with_fallback request c.provider g').1.calls) start
                    (Sends-le (omega arith) first))
            | inl (response, answered) ↦
                let g'' = (call_with_fallback request c.provider g').1 in
                let rest = validated json request.response_schema request c.provider response g'' in
                let same : (chat json request recorder g).1.calls ≡ rest.1.calls =
                  elim (Result-cases rest.0) [ inl x ↦ ground arith | inr x ↦ ground arith ] in
                let second =
                  validated-Sends request.response_schema request c.provider response g'' may in
                rw same (subst (λ z. Sends 4 z rest.1.calls) start (Sends-trans first second))
          ]
    ]
