-- ===== src/Conversations/Permissions.antt =====
-- apps/api/src/modules/conversations/permissions.py: each test of ConversationPermissionService. The
-- row of the actor is the one that the service has looked up.
use text.Mathlib.Text.{◌==◌ as str_eq}
use campus_agent.Base.{
  Bool, true, false, ◌&&◌, ◌||◌, Option, none, some, String, ◌==◌, if◌then◌else◌,
}
use campus_agent.Organizations.Models.{User, GlobalRole, system_admin, school_admin}
use campus_agent.Conversations.Models.{Conversation, ConversationParticipant, is_active, is_private}

abbrev admin_role : GlobalRole → Bool
admin_role system_admin = true
admin_role school_admin = true
admin_role _ = false

unfoldable pub is_admin_level : User → Bool
is_admin_level actor = admin_role actor.global_role

abbrev pub is_active_participant : Option ConversationParticipant → Bool
is_active_participant none = false
is_active_participant (some p) = is_active p.status

-- `role in (OWNER, ADMIN)`
abbrev pub leads : String → Bool
leads role = str_eq role "OWNER" || str_eq role "ADMIN"

abbrev pub leads_actively : Option ConversationParticipant → Bool
leads_actively none = false
leads_actively (some p) = is_active p.status && leads p.role

unfoldable pub can_read_conversation : User → Option ConversationParticipant → Bool
unfolding is_admin_level
can_read_conversation actor participant = is_admin_level actor || is_active_participant participant

unfoldable pub can_list_messages : User → Option ConversationParticipant → Bool
unfolding is_admin_level
can_list_messages actor participant = is_admin_level actor || is_active_participant participant

unfoldable pub can_write_message : User → Option ConversationParticipant → Bool
unfolding is_admin_level
can_write_message actor participant = is_admin_level actor || is_active_participant participant

-- The two last branches of the code, on organization groups and all others, are the same.
unfoldable pub can_add_participant : Conversation → User → Option ConversationParticipant → Bool
unfolding is_admin_level
can_add_participant conversation actor actor_participant =
    is_admin_level actor
    || (if is_private conversation.conversation_type
        then false
        else leads_actively actor_participant)

abbrev is_same_row : Option ConversationParticipant → ConversationParticipant → Bool
is_same_row none target = false
is_same_row (some p) target = target.id == p.id

unfoldable pub can_remove_participant :
    User → Option ConversationParticipant → ConversationParticipant → Bool
unfolding is_admin_level
can_remove_participant actor actor_participant target_participant =
    is_admin_level actor
    || (is_same_row actor_participant target_participant || leads_actively actor_participant)
