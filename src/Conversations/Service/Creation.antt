-- ===== src/Conversations/Service/Creation.antt =====
-- Private, group and organization conversations. Ids are drawn at random: that of the conversation,
-- and that of the n-th participant.
use campus_agent.Base.{
  ℕ, ◌+◌, ◌||◌, not, Option, none, some, List, [], ◌∷◌, ◌++◌, String, ◌==◌, if◌then◌else◌, any, all,
  is_some,
}
use campus_agent.Base.Action.{◌>>=◌, ◌>>◌, return, gets, modify, require, raise_if}
use campus_agent.Organizations.Models.{User, OrganizationMembership, OrganizationRole, owner, admin}
use campus_agent.Organizations.Repository as Organizations
use campus_agent.Conversations.Models.{
  Conversation, ConversationType, private, group, org_group, ConversationStatus,
  ConversationParticipant, conversation_not_found, permission_denied, user_not_found,
  conversation_created, Store, Service, publish,
}
use campus_agent.Conversations.Permissions.{is_admin_level}
use campus_agent.Conversations.Repository.{find_private_conversation, find_org_group}
use campus_agent.Conversations.Service.Common.{live_user, new_participant}

abbrev pub new_conversation : ℕ → ConversationType → Option String → Option ℕ → ℕ → Conversation
new_conversation id conversation_type title organization_id created_by = record {
  id = id;
  conversation_type = conversation_type;
  title = title;
  organization_id = organization_id;
  created_by = created_by;
  status = ConversationStatus.active;
}

-- The rows of a new conversation, their commit and the event.
abbrev pub open_conversation : Conversation → List ConversationParticipant → Store → Store
open_conversation c participants s =
    publish (conversation_created c.id c.created_by c.conversation_type) (record s {
      conversations = s.conversations ++ c ∷ [];
      participants = s.participants ++ participants;
    })

-- Rows of users with their roles, the n-th with the n-th id.
unfoldable pub rows_of : (ℕ → ℕ) → ℕ → ℕ → ℕ → List (ℕ × String) → List ConversationParticipant
rows_of draw n conversation_id now [] = []
rows_of draw n conversation_id now ((user_id, role) ∷ rest) =
    new_participant (draw n) conversation_id user_id role now
    ∷ rows_of draw (n + 1) conversation_id now rest

-- The conversation that is there, or a new one.
abbrev pub reuse_or_open :
    Option Conversation → Conversation → List ConversationParticipant → Service Conversation
reuse_or_open (some c) new participants = return c
reuse_or_open none new participants = modify (open_conversation new participants) >> return new

unfoldable pub create_private_conversation : ℕ → (ℕ → ℕ) → User → ℕ → Service Conversation
unfolding rows_of
create_private_conversation id draw actor target_user_id = do
  target_user ← require (live_user target_user_id) user_not_found
  existing ← gets (find_private_conversation actor.id target_user.id)
  now ← gets (λ s. s.now)
  let members = (actor.id, "MEMBER") ∷ (target_user.id, "MEMBER") ∷ []
  reuse_or_open existing (new_conversation id private none none actor.id)
      (rows_of draw 0 id now members)

-- `dict.fromkeys`, without the creator.
unfoldable pub unique_members : ℕ → List ℕ → List ℕ → List (ℕ × String)
unique_members creator seen [] = []
unique_members creator seen (u ∷ rest) =
    let more = unique_members creator (u ∷ seen) rest in
    if (u == creator) || any (λ v. v == u) seen then more else (u, "MEMBER") ∷ more

unfoldable pub create_group_conversation :
    ℕ → (ℕ → ℕ) → User → Option String → Option ℕ → List ℕ → Service Conversation
unfolding rows_of unique_members
create_group_conversation id draw actor title organization_id participant_user_ids = do
  all_live ← gets (λ s. all (λ u. is_some (live_user u s)) participant_user_ids)
  raise_if (not all_live) conversation_not_found
  now ← gets (λ s. s.now)
  let members = (actor.id, "OWNER") ∷ unique_members actor.id [] participant_user_ids
  let conv = new_conversation id group title organization_id actor.id
  modify (open_conversation conv (rows_of draw 0 id now members))
  return conv

-- The role that a member of the organization gets.
abbrev pub conversation_role : OrganizationRole → String
conversation_role owner = "OWNER"
conversation_role admin = "ADMIN"
conversation_role _ = "MEMBER"

abbrev pub org_members : List OrganizationMembership → List (ℕ × String)
org_members [] = []
org_members (m ∷ rest) = (m.user_id, conversation_role m.role) ∷ org_members rest

unfoldable pub get_or_create_org_group_conversation : ℕ → (ℕ → ℕ) → User → ℕ → Service Conversation
unfolding rows_of
get_or_create_org_group_conversation id draw actor organization_id = do
  org ←
      require (λ s. Organizations.get_active_by_id organization_id s.organizations)
        conversation_not_found
  actor_membership ←
      gets (λ s. Organizations.get_active_by_org_user organization_id actor.id s.organizations)
  raise_if (not (is_some actor_membership || is_admin_level actor)) permission_denied
  existing ← gets (find_org_group organization_id)
  memberships ← gets (λ s. Organizations.list_active_by_org organization_id s.organizations)
  now ← gets (λ s. s.now)
  reuse_or_open existing
      (new_conversation id org_group (some org.name) (some organization_id) actor.id)
      (rows_of draw 0 id now (org_members memberships))
