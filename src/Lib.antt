-- ===== src/Lib.antt =====
-- Verification of the campus agent's API (apps/api): organizations, conversations, group scenes,
-- authentication, memories and the model gateway.
--
-- The program is a FastAPI service over a relational database. Each module under apps/api/src/modules
-- has models (tables), repositories (queries), permission rules and service functions; an endpoint
-- opens a database session, calls service functions with it and closes it. This library models six
-- modules. They meet in the users; conversations read the tables of organizations too, and the gateway
-- is where agents and scenes ask a language model.
--
-- Organizations (modules/organizations): who belongs to which organization in which role.
--   Organizations/Models        models.py, events.py, exceptions.py, and the users they refer to
--   Organizations/Permissions   permissions.py, each can_… test; Policy: what the rules forbid
--   Organizations/Repository    repository.py, the queries that the service makes
--   Organizations/Service       service.py. Common: enum parsing, _check_capacity, replies;
--                               Lifecycle: create/get/update/delete_organization;
--                               Membership: add_member, update_member_role, transfer_ownership,
--                               remove_member, leave_organization, join_organization;
--                               Requests: invite_member, decide_invitation, review_member_request,
--                               list_members
--     Changes, Invariants       each operation makes one of a few changes of rows, and what every
--                               such change keeps
--     Serve, History, Atomic    any sequence of calls by any users; what holds at its end; errors
--     Founding, Escalation      creation and deletion; what two operations let through
-- Scenes (modules/scenes): a group activity from its draft through private preferences, candidates
-- and votes to a result.
--   Scenes/StateMachine         state_machine.py. Laws: the table and the tests on it; Runs:
--                               sequences of actions
--   Scenes/Models               models.py, events.py, exceptions.py
--   Scenes/Repository           repository.py, and the unique constraint of the submissions table in
--                               alembic/versions/0007_scene_core_tables.py
--   Scenes/Service              service.py. Transitions: transition_state, expire_stale_instances;
--                               Participants: accept_invitation, decline_invitation, leave_scene;
--                               Submissions: submit_private_preferences, get_submission_status,
--                               delete_submission; Voting: cast_vote, get_scene_result;
--                               AuditTrail: requests in sessions of their own, and what log_audit
--                               leaves behind; History, Uniqueness: one request, and any sequence
--   Scenes/Cleanup              cleanup.py, the purge of private submissions
--   Scenes/Coordinator          coordinator.py: run_generation_phase; Generation: what it leaves
--   Scenes/Calls                any sequence of calls of the service, the generation, the sweep of
--                               stale scenes and the purges. Expiry, Generation: one sweep, one
--                               generation; Machine: the state machine; Deleted: deleted submissions
-- Conversations (modules/conversations): who talks to whom, and the messages.
--   Conversations/Models        models.py, exceptions.py, events.py; Permissions: permissions.py;
--                               Repository: repository.py
--   Conversations/Service       service.py. Common: the guard against private content, replies;
--                               Creation: create_private_conversation, create_group_conversation,
--                               get_or_create_org_group_conversation; Participants:
--                               add_participant, remove_participant, sync_org_member_joined/left;
--                               Messages: create_message, create_system_message, list_messages,
--                               delete_message
--     Numbering, Frame          any message requests: sequence numbers, and what they leave alone
--     Retries                   idempotency keys
--     Rows, Membership, Removal rows of a user after any requests; what a removal ends
-- Authentication (modules/auth, modules/users): accounts, sessions and rotating refresh tokens.
--   Auth/Models                 models.py, tokens.py, exceptions.py, users/models.py,
--                               users/repository.py; Passwords: passwords.py
--   Auth/Service                service.py. Common: open_session, revoke_family; Login:
--                               register_user, login_user; Refresh: refresh_token_rotation,
--                               logout_user, get_current_user (dependencies.py)
--     Families, Rotation        what a revocation leaves of a token family; one rotation
--     Reachable, Replay         any sequence of requests; a token that is presented again
--     Logout                    what a logout ends
--   Auth/RateLimit              rate_limit.py, the sliding window
-- Memories (modules/memories): what an agent remembers of a user, stored encrypted.
--   Memories/Models             models.py, exceptions.py; Repository: repository.py; Encryption:
--                               encryption.py
--   Memories/Service            service.py. Reading: who sees a content; Writing, Updating: what is
--                               written is read back
--   Memories/Consent            consent.py; Reachable: any sequence of grants and revocations
--   Memories/Cleanup            cleanup.py; Repeated: one run after the other
-- Model gateway (modules/model_gateway): a request to a language model goes to a local or an
-- external provider, as its privacy context allows.
--   ModelGateway/Schemas        schemas.py, providers.py, exceptions.py
--   ModelGateway/Router         router.py; Selection: the candidate that is chosen
--   ModelGateway/Service        service.py: chat, _call_with_fallback, _validate_with_retry,
--                               _record_agent_run; Calls: the providers that one request is sent to;
--                               Privacy: any sequence of requests
-- Base holds what all share: tables as lists with the queries of a repository (Rows, Table), sorting
-- (Sort) and the monad of a service function (Action): it reads and changes the store and returns or
-- raises.
--
-- How the code is read. A UUID and a time are natural numbers, and utc_now reads a clock in the
-- store. The store holds the committed tables and the published events; a function changes it where
-- the code commits, and an error leaves what was committed before. A row that a query returned and
-- the code then assigns to is the first row that meets the condition of the query. In Scenes the
-- audit rows that are flushed and not yet committed are a field of their own. An enum is a data type
-- and a string that spells none of its values is refused where the code refuses it. Loops are
-- recursion on the list they walk, or on the number of retries that are left; no fuel is needed. What
-- is drawn at random, an id or a nonce, is an argument. In Memories, too, audit rows that are flushed
-- and not committed are a field of their own; the store of ModelGateway is the gateway with the calls
-- made of providers so far, on which their answers may depend.
--
-- Parameters. A plugin of a scene is the record Plugin of Scenes/Coordinator. Encryption, hashing,
-- the JSON of a capsule, the registry and a plugin's validation of preferences are the record
-- Codec of Scenes/Service/Submissions: the theorems hold for every choice of them. Signing,
-- hashing and the checks of text in Auth are the records Crypto and Text; the search for private
-- fields in Conversations uses the record Screen; Fernet, SHA-256 and the reading of dates and
-- JSON in Memories are Fernet, Config and Json; the providers and what the gateway uses of JSON
-- are ModelProvider and Json of ModelGateway/Schemas. The theorems on reading back assume of
-- Fernet that it decrypts what it has encrypted (IsSound).
--
-- Not modelled: the listings list_organizations, list_user_organizations, list_conversations,
-- create_scene_instance and the scene listings, the registry and the plugins, the facade of the
-- coordinator, embeddings, metrics and latencies of the gateway, CSRF tokens, HTTP, logging, and
-- the other modules. The chat dinner (scenes/chat_dorm_dinner.py) is one of these: it sets the
-- status and the phase of a scene itself, past the state machine and with the texts VOTING_CLOSED
-- and DISAGREEMENT, which are no states, and nothing said here of the scenes covers it.
-- Interleavings are sequences of whole calls: two transactions that overlap in the database are
-- not.
pub mod Auth
pub mod Base
pub mod Conversations
pub mod Memories
pub mod ModelGateway
pub mod Organizations
pub mod Scenes
