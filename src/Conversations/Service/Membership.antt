-- ===== src/Conversations/Service/Membership.antt =====
-- A user has one row at most in each conversation, whatever is requested.
use mathlib.Core.Path.{subst}
use campus_agent.Base.{
  ℕ, ◌≤◌, ◌≡◌, refl, sym, Bool, true, false, ◌||◌, Option, some, List, [], ◌∷◌, ◌++◌, String, ◌==◌,
  arith, inl, inr, if◌then◌else◌, Option-cases, Bool-cases, ==_iff, find, select, all, count_if,
  update_first, is_some,
}
use campus_agent.Base.Table.{find-holds}
use campus_agent.Organizations.Models.{User, OrganizationRole}
use campus_agent.Organizations.Repository as Organizations
use campus_agent.Conversations.Models.{ConversationParticipant, ParticipantStatus, Store}
use campus_agent.Conversations.Permissions.{
  is_admin_level, is_active_participant, can_add_participant, can_remove_participant,
}
use campus_agent.Conversations.Repository.{
  get_active_by_id, get_active_by_conversation_user, get_any_by_conversation_user, is_row,
  is_active_row, find_private_conversation, find_org_group,
}
use campus_agent.Conversations.Service.Common.{live_user}
use campus_agent.Conversations.Service.Creation.{
  rows_of, unique_members, org_members, conversation_role, create_private_conversation,
  create_group_conversation, get_or_create_org_group_conversation,
}
use campus_agent.Conversations.Service.Participants.{
  join, gone, add_participant, remove_participant, sync_org_member_joined, sync_org_member_left,
}
use campus_agent.Conversations.Service.Rows.{
  count_in, HasOneRow, rows_of-count, update-count, open-HasOneRow, join-HasOneRow, le_trans,
  pair-count, group-count, org_group-count,
}

-- The requests that write participants, with what is drawn at random.
pub data MemberRequest : Type 0 where
  open_private : ℕ → (ℕ → ℕ) → User → ℕ → MemberRequest
  open_group : ℕ → (ℕ → ℕ) → User → Option String → Option ℕ → List ℕ → MemberRequest
  open_org_group : ℕ → (ℕ → ℕ) → User → ℕ → MemberRequest
  add : ℕ → User → ℕ → ℕ → String → MemberRequest
  remove : User → ℕ → ℕ → MemberRequest
  org_joined : ℕ → ℕ → ℕ → OrganizationRole → MemberRequest
  org_left : ℕ → ℕ → MemberRequest

unfoldable pub serve : MemberRequest → Store → Store
serve (open_private id draw actor target) s = (create_private_conversation id draw actor target s).1
serve (open_group id draw actor title org members) s =
    (create_group_conversation id draw actor title org members s).1
serve (open_org_group id draw actor org) s =
    (get_or_create_org_group_conversation id draw actor org s).1
serve (add id actor c target role) s = (add_participant id actor c target role s).1
serve (remove actor c target) s = (remove_participant actor c target s).1
serve (org_joined id org user_id role) s = sync_org_member_joined id org user_id role s
serve (org_left org user_id) s = sync_org_member_left org user_id s

-- The id of a new conversation is new, nobody opens a private conversation with themselves, and a
-- user has one membership at most in the organization.
abbrev pub IsProper : MemberRequest → Store → Type 0
IsProper (open_private id _ actor target) s =
    (count_in id s.participants ≡ 0) × ((actor.id == target) ≡ false)
IsProper (open_group id _ _ _ _ _) s = count_in id s.participants ≡ 0
IsProper (open_org_group id _ _ org) s =
    (count_in id s.participants ≡ 0)
    × ((u : ℕ) → count_if (Organizations.is_row org u) s.organizations.memberships ≤ 1)
IsProper _ s = Unit

pub data Reachable (start : Store) : Store → Type 0 where
  here : Reachable start start
  step :
      {s : Store} (r : MemberRequest)
      → Reachable start s
      → IsProper r s
      → Reachable start (serve r s)

live_user-id : (id : ℕ) (s : Store) (u : User) → live_user id s ≡ some u → u.id ≡ id
unfolding live_user Organizations.get_user_by_id
live_user-id id s u e = elim (Option-cases (find (λ x. x.id == id) s.organizations.users)) [
  | inl missing ↦ absurd (ground arith)
  | inr (x, f) ↦
      let held : (x.id == id) ≡ true =
        find-holds (λ x. x.id == id) s.organizations.users {x = x} f in
      ground (arith, ==_iff x.id id)
]

-- What a request does to the participants.
data Changed (s : Store) (after : List ConversationParticipant) : Type 0 where
  same : after ≡ s.participants → Changed s after
  opened :
      (id : ℕ) (rows : List ConversationParticipant)
      → count_in id s.participants ≡ 0
      → ((c u : ℕ) → count_if (is_row c u) rows ≤ (if id == c then 1 else 0))
      → after ≡ s.participants ++ rows
      → Changed s after
  joined :
      (id conv user_id : ℕ) (role : String)
      → after ≡ (join id conv user_id role s).participants
      → Changed s after
  left :
      (q : ConversationParticipant → Bool) (status : ParticipantStatus)
      → after ≡ update_first q (gone status s.now) s.participants
      → Changed s after

Changed-HasOneRow :
    (s : Store) (after : List ConversationParticipant)
    → Changed s after
    → HasOneRow s
    → (c u : ℕ) → count_if (is_row c u) after ≤ 1
Changed-HasOneRow s after (same e) h c u = rw e (h c u)
Changed-HasOneRow s after (opened id rows fresh few e) h c u =
    rw e (open-HasOneRow id rows s fresh few h c u)
Changed-HasOneRow s after (joined id conv user_id role e) h c u =
    rw e (join-HasOneRow id conv user_id role s h c u)
Changed-HasOneRow s after (left q status e) h c u =
    rw e (rw (update-count q (gone status s.now) c u s.participants (λ p. refl)) (h c u))

open_private-Changed :
    (id : ℕ) (draw : ℕ → ℕ) (actor : User) (target : ℕ) (s : Store)
    → count_in id s.participants ≡ 0
    → (actor.id == target) ≡ false
    → Changed s (create_private_conversation id draw actor target s).1.participants
unfolding create_private_conversation
open_private-Changed id draw actor target s fresh apart = elim (Option-cases (live_user target s)) [
  | inl e ↦ same (ground arith)
  | inr (t, e) ↦ elim (Option-cases (find_private_conversation actor.id t.id s)) [
    | inr (conv, f) ↦ same (ground arith)
    | inl f ↦
        let members : List (ℕ × String) = (actor.id, "MEMBER") ∷ (t.id, "MEMBER") ∷ [] in
        opened id (rows_of draw 0 id s.now members) fresh
          (λ c u. le_trans (rows_of-count draw 0 id s.now members c u) (
            pair-count id c u actor.id t.id
              (subst (λ z. (actor.id == z) ≡ false) (sym (live_user-id target s t e)) apart)))
          (ground arith)
  ]
]

open_group-Changed :
    (id : ℕ) (draw : ℕ → ℕ) (actor : User) (title : Option String) (org : Option ℕ)
    (members : List ℕ) (s : Store)
    → count_in id s.participants ≡ 0
    → Changed s (create_group_conversation id draw actor title org members s).1.participants
unfolding create_group_conversation
open_group-Changed id draw actor title org members s fresh =
    elim (Bool-cases (all (λ u. is_some (live_user u s)) members)) [
      | inr e ↦ same (ground arith)
      | inl e ↦
          opened id
            (rows_of draw 0 id s.now ((actor.id, "OWNER") ∷ unique_members actor.id [] members))
            fresh
            (λ c u.
              le_trans
                (rows_of-count draw 0 id s.now
                  ((actor.id, "OWNER") ∷ unique_members actor.id [] members) c u)
                (group-count id c u actor.id members))
            (ground arith)
    ]

open_org_group-Changed :
    (id : ℕ) (draw : ℕ → ℕ) (actor : User) (org : ℕ) (s : Store)
    → count_in id s.participants ≡ 0
    → ((u : ℕ) → count_if (Organizations.is_row org u) s.organizations.memberships ≤ 1)
    → Changed s (get_or_create_org_group_conversation id draw actor org s).1.participants
unfolding get_or_create_org_group_conversation Organizations.list_active_by_org
open_org_group-Changed id draw actor org s fresh one =
    elim (Option-cases (Organizations.get_active_by_id org s.organizations)) [
      | inl e ↦ same (ground arith)
      | inr (o, e) ↦
          elim (Bool-cases (
            is_some (Organizations.get_active_by_org_user org actor.id s.organizations)
            || is_admin_level actor)) [
              | inr w ↦ same (ground arith)
              | inl w ↦ elim (Option-cases (find_org_group org s)) [
                | inr (conv, f) ↦ same (ground arith)
                | inl f ↦
                    let t = s.organizations.memberships in
                    let members = org_members (select (Organizations.is_active_member org) t) in
                    opened id (rows_of draw 0 id s.now members) fresh
                      (λ c u.
                        le_trans (rows_of-count draw 0 id s.now members c u)
                          (org_group-count id c u org t (one u)))
                      (ground arith)
              ]
            ]
    ]

add-Changed :
    (id : ℕ) (actor : User) (c target : ℕ) (role : String) (s : Store)
    → Changed s (add_participant id actor c target role s).1.participants
unfolding add_participant
add-Changed id actor c target role s = elim (Option-cases (get_active_by_id c s)) [
  | inl e ↦ same (ground arith)
  | inr (conv, e) ↦
      elim (Bool-cases
        (can_add_participant conv actor (get_active_by_conversation_user conv.id actor.id s))) [
          | inr w ↦ same (ground arith)
          | inl w ↦ elim (Option-cases (live_user target s)) [
            | inl f ↦ same (ground arith)
            | inr (u, f) ↦
                elim (Bool-cases
                  (is_active_participant (get_any_by_conversation_user conv.id target s))) [
                    | inl x ↦ same (ground arith)
                    | inr x ↦ joined id conv.id target role (ground arith)
                  ]
          ]
        ]
]

remove-Changed :
    (actor : User) (c target : ℕ) (s : Store)
    → Changed s (remove_participant actor c target s).1.participants
unfolding remove_participant
remove-Changed actor c target s = elim (Option-cases (get_active_by_id c s)) [
  | inl e ↦ same (ground arith)
  | inr (conv, e) ↦ elim (Option-cases (get_active_by_conversation_user conv.id target s)) [
    | inl f ↦ same (ground arith)
    | inr (t, f) ↦
        elim (Bool-cases
          (can_remove_participant actor (get_active_by_conversation_user conv.id actor.id s) t)) [
            | inr w ↦ same (ground arith)
            | inl w ↦ left (is_active_row conv.id target) ParticipantStatus.removed (ground arith)
          ]
  ]
]

org_joined-Changed :
    (id org user_id : ℕ) (role : OrganizationRole) (s : Store)
    → Changed s (sync_org_member_joined id org user_id role s).participants
unfolding sync_org_member_joined
org_joined-Changed id org user_id role s = elim (Option-cases (find_org_group org s)) [
  | inl e ↦ same (ground arith)
  | inr (conv, e) ↦ joined id conv.id user_id (conversation_role role) (ground arith)
]

org_left-Changed :
    (org user_id : ℕ) (s : Store) → Changed s (sync_org_member_left org user_id s).participants
unfolding sync_org_member_left
org_left-Changed org user_id s = elim (Option-cases (find_org_group org s)) [
  | inl e ↦ same (ground arith)
  | inr (conv, e) ↦ left (is_active_row conv.id user_id) ParticipantStatus.left (ground arith)
]

serve-Changed : (r : MemberRequest) (s : Store) → IsProper r s → Changed s (serve r s).participants
unfolding serve
serve-Changed (open_private id draw actor target) s (fresh, apart) =
    open_private-Changed id draw actor target s fresh apart
serve-Changed (open_group id draw actor title org members) s fresh =
    open_group-Changed id draw actor title org members s fresh
serve-Changed (open_org_group id draw actor org) s (fresh, one) =
    open_org_group-Changed id draw actor org s fresh one
serve-Changed (add id actor c target role) s p = add-Changed id actor c target role s
serve-Changed (remove actor c target) s p = remove-Changed actor c target s
serve-Changed (org_joined id org user_id role) s p = org_joined-Changed id org user_id role s
serve-Changed (org_left org user_id) s p = org_left-Changed org user_id s

-- From a state where a user has one row at most in each conversation, any requests that write
-- participants lead to such a state, if the ids of new conversations are new, nobody opens a private
-- conversation with themselves and memberships of an organization are unique.
pub Reachable-HasOneRow : {start s : Store} → Reachable start s → HasOneRow start → HasOneRow s
Reachable-HasOneRow Reachable.here h = h
Reachable-HasOneRow (Reachable.step r path proper) h =
    Changed-HasOneRow _ _ (serve-Changed r _ proper) (Reachable-HasOneRow path h)
