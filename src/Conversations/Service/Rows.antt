-- ===== src/Conversations/Service/Rows.antt =====
-- Counts of the rows of a user in a conversation: how each change of the participants moves them.
use mathlib.Core.Path.{subst}
use campus_agent.Base.{
  ℕ, ◌+◌, ◌≤◌, ◌≡◌, refl, Bool, true, false, ◌&&◌, ◌||◌, List, [], ◌∷◌, ◌++◌, String, ◌==◌, arith,
  inl, inr, if◌then◌else◌, Option-cases, Bool-cases, ==_iff, find, select, any, count_if,
  update_first,
}
use campus_agent.Base.Table.{count_if-append, count_if-find-none}
use campus_agent.Organizations.Models.{OrganizationMembership}
use campus_agent.Organizations.Repository as Organizations
use campus_agent.Conversations.Models.{ConversationParticipant, Store}
use campus_agent.Conversations.Repository.{is_row}
use campus_agent.Conversations.Service.Common.{new_participant}
use campus_agent.Conversations.Service.Creation.{rows_of, unique_members, org_members}
use campus_agent.Conversations.Service.Participants.{join, rejoined}

abbrev pub count_in : ℕ → List ConversationParticipant → ℕ
count_in id t = count_if (λ p. p.conversation_id == id) t

abbrev pub HasOneRow : Store → Type 0
HasOneRow s = (c u : ℕ) → count_if (is_row c u) s.participants ≤ 1

abbrev is_of : ℕ → ℕ × String → Bool
is_of u m = m.0 == u

pub rows_of-count :
    (draw : ℕ → ℕ) (n id now : ℕ) (members : List (ℕ × String)) (c u : ℕ)
    → count_if (is_row c u) (rows_of draw n id now members)
      ≤ (if id == c then count_if (is_of u) members else 0)
unfolding rows_of count_if
rows_of-count draw n id now [] c u = ground arith
rows_of-count draw n id now ((v, role) ∷ rest) c u =
    ground (arith, rows_of-count draw (n + 1) id now rest c u)

pub unique_members-count :
    (creator : ℕ) (seen l : List ℕ) (u : ℕ)
    → count_if (is_of u) (unique_members creator seen l)
      ≤ (if (u == creator) || any (λ v. v == u) seen then 0 else 1)
unfolding unique_members count_if any
unique_members-count creator seen [] u = ground arith
unique_members-count creator seen (v ∷ rest) u =
    let ih = unique_members-count creator (v ∷ seen) rest u in
    elim (Bool-cases ((v == creator) || any (λ w. w == v) seen)) [
      | inl out ↦ elim (Bool-cases (v == u)) [
        | inl e ↦
            let same : v ≡ u = (==_iff v u).0 e in
            let out' : ((u == creator) || any (λ w. w == u) seen) ≡ true =
              subst (λ z. ((z == creator) || any (λ w. w == z) seen) ≡ true) same out in
            ground (arith, ih)
        | inr ne ↦ ground (arith, ih)
      ]
      | inr fresh ↦ elim (Bool-cases (v == u)) [
        | inl e ↦
            let same : v ≡ u = (==_iff v u).0 e in
            let fresh' : ((u == creator) || any (λ w. w == u) seen) ≡ false =
              subst (λ z. ((z == creator) || any (λ w. w == z) seen) ≡ false) same fresh in
            ground (arith, ih)
        | inr ne ↦ ground (arith, ih)
      ]
    ]

pub org_members-count :
    (org u : ℕ) (t : List OrganizationMembership)
    → count_if (is_of u) (org_members (select (Organizations.is_active_member org) t))
      ≤ count_if (Organizations.is_row org u) t
unfolding count_if select
org_members-count org u [] = omega arith
org_members-count org u (m ∷ t) = ground (arith, org_members-count org u t)

pub row-count_in :
    (c u : ℕ) (t : List ConversationParticipant) → count_if (is_row c u) t ≤ count_in c t
unfolding count_if
row-count_in c u [] = omega arith
row-count_in c u (p ∷ t) = ground (arith, row-count_in c u t)

-- A change that leaves the pair of a row alone.
pub update-count :
    (q : ConversationParticipant → Bool) (f : ConversationParticipant → ConversationParticipant)
    (c u : ℕ) (t : List ConversationParticipant)
    → ((p : ConversationParticipant) → is_row c u (f p) ≡ is_row c u p)
    → count_if (is_row c u) (update_first q f t) ≡ count_if (is_row c u) t
unfolding count_if update_first
update-count q f c u [] h = refl
update-count q f c u (p ∷ t) h = ground (arith, h p, update-count q f c u t h)

-- The rows of a new conversation.
pub open-HasOneRow :
    (id : ℕ) (rows : List ConversationParticipant) (s : Store)
    → count_in id s.participants ≡ 0
    → ((c u : ℕ) → count_if (is_row c u) rows ≤ (if id == c then 1 else 0))
    → HasOneRow s
    → (c u : ℕ) → count_if (is_row c u) (s.participants ++ rows) ≤ 1
open-HasOneRow id rows s fresh few h c u = elim (Bool-cases (id == c)) [
  | inl mine ↦
      let e : id ≡ c = ground arith in
      let none_there : count_in c s.participants ≡ 0 =
        subst (λ z. count_in z s.participants ≡ 0) e fresh in
      ground (
        arith,
        few c u,
        row-count_in c u s.participants,
        count_if-append (is_row c u) s.participants rows,
      )
  | inr away ↦ ground (arith, few c u, h c u, count_if-append (is_row c u) s.participants rows)
]

-- One more row, of a pair that had none.
append-HasOneRow :
    (conv user_id : ℕ) (p : ConversationParticipant) (t : List ConversationParticipant) (c u : ℕ)
    → ((c u : ℕ) → is_row c u p ≡ ((conv == c) && (user_id == u)))
    → count_if (is_row conv user_id) t ≡ 0
    → count_if (is_row c u) t ≤ 1
    → count_if (is_row c u) (t ++ p ∷ []) ≤ 1
unfolding count_if
append-HasOneRow conv user_id p t c u pair h k = elim (Bool-cases ((conv == c) && (user_id == u))) [
  | inl mine ↦
      let e : conv ≡ c = ground arith in
      let e' : user_id ≡ u = ground arith in
      let empty : count_if (is_row c u) t ≡ 0 =
        subst (λ z. count_if (is_row c z) t ≡ 0) e'
          (subst (λ z. count_if (is_row z user_id) t ≡ 0) e h) in
      let one : is_row c u p ≡ true = rw (pair c u) mine in
      ground (arith, empty, one, count_if-append (is_row c u) t (p ∷ []))
  | inr other ↦
      let zero_ : is_row c u p ≡ false = rw (pair c u) other in
      ground (arith, k, zero_, count_if-append (is_row c u) t (p ∷ []))
]

pub join-HasOneRow :
    (id conv user_id : ℕ) (role : String) (s : Store)
    → HasOneRow s
    → HasOneRow (join id conv user_id role s)
join-HasOneRow id conv user_id role s h c u =
    elim (Option-cases (find (is_row conv user_id) s.participants)) [
      | inl e ↦
          let p = new_participant id conv user_id role s.now in
          let rows : (join id conv user_id role s).participants ≡ s.participants ++ p ∷ [] =
            ground arith in
          rw rows (
            append-HasOneRow conv user_id p s.participants c u (λ c u. ground arith)
              (count_if-find-none (is_row conv user_id) s.participants e) (h c u))
      | inr (p, e) ↦
          let rows : (join id conv user_id role s).participants
              ≡ update_first (is_row conv user_id) (rejoined role) s.participants =
            ground arith in
          rw rows (
            rw (update-count (is_row conv user_id) (rejoined role) c u s.participants (λ p. refl))
              (h c u))
    ]

pub le_trans : {a b c : ℕ} → a ≤ b → b ≤ c → a ≤ c
le_trans h k = omega (arith, h, k)

pub pair-count :
    (id c u a b : ℕ)
    → (a == b) ≡ false
    → (if id == c then count_if (is_of u) ((a, "MEMBER") ∷ (b, "MEMBER") ∷ []) else 0)
      ≤ (if id == c then 1 else 0)
unfolding count_if
pair-count id c u a b h = ground arith

-- The creator once, and each other member once.
pub group-count :
    (id c u creator : ℕ) (members : List ℕ)
    → (if id == c
        then count_if (is_of u) ((creator, "OWNER") ∷ unique_members creator [] members)
        else 0)
      ≤ (if id == c then 1 else 0)
unfolding count_if any
group-count id c u creator members = ground (arith, unique_members-count creator [] members u)

pub org_group-count :
    (id c u org : ℕ) (t : List OrganizationMembership)
    → count_if (Organizations.is_row org u) t ≤ 1
    → (if id == c
        then count_if (is_of u) (org_members (select (Organizations.is_active_member org) t))
        else 0)
      ≤ (if id == c then 1 else 0)
org_group-count id c u org t h = ground (arith, org_members-count org u t)
