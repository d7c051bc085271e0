-- ===== src/Scenes/Service/Voting/Ballots.antt =====
-- One user, one vote: what the table of votes holds after a vote is cast.
use campus_agent.Base.{
  ℕ, ◌≡◌, ◌≤◌, refl, ◌∙◌, Bool, true, false, ◌==◌, ◌&&◌, Option, some, none, inl, inr, ◌⊎◌, find,
  count_if, arith, Option-cases, Bool-cases, ==_iff, String, List, [], ◌∷◌,
}
use campus_agent.Base.Action.{Result, ok, err}
use campus_agent.Base.Table.{
  find-holds, find-update_first_self, count_if-append, count_if-find-none, count_if-update_first,
  find-append,
}
use campus_agent.Scenes.StateMachine.{state_eq, voting}
use campus_agent.Scenes.Models.{SceneVote, SceneInstance, SceneCandidate, SceneError, Store}
use campus_agent.Scenes.Repository.{
  get_vote, is_vote_of, replace_vote, get_by_id, get_candidate, get_participant,
}
use campus_agent.Scenes.Service.Submissions.{consents}
use campus_agent.Scenes.Service.Voting.{cast_vote, parse_vote_value}

abbrev pub is_voting : Option SceneInstance → Bool
is_voting none = false
is_voting (some i) = state_eq i.status voting

abbrev pub belongs : ℕ → Option SceneCandidate → Bool
belongs id none = false
belongs id (some c) = c.scene_instance_id == id

abbrev is_ok : {A : Type 0} → Result SceneError A → Bool
is_ok (ok _) = true
is_ok (err _) = false

-- The conditions of a vote: the scene is in its voting phase, the user has accepted to take part,
-- and the candidate is one of this scene.
unfoldable pub may_vote : ℕ → ℕ → ℕ → Store → Bool
may_vote user_id id candidate_id s =
    (is_voting (get_by_id id s) && consents (get_participant id user_id s))
    && belongs id (get_candidate candidate_id s)

-- At most one row for each instance and user.
abbrev pub HasUniqueVotes : Store → Type 0
HasUniqueVotes s = (id user_id : ℕ) → count_if (is_vote_of id user_id) s.votes ≤ 1

-- A vote that a pair of keys selects counts as the pair of its own keys does.
same_count :
    (id user_id id' user' : ℕ) (v : SceneVote) (t : List SceneVote)
    → v.scene_instance_id ≡ id
    → v.user_id ≡ user_id
    → is_vote_of id' user' v ≡ true
    → count_if (is_vote_of id' user') t ≡ count_if (is_vote_of id user_id) t
same_count id user_id id' user' v t e e' h =
    let i : id' ≡ id = ground (arith, ==_iff v.scene_instance_id id') in
    let u : user' ≡ user_id = ground (arith, ==_iff v.user_id user') in rw i (rw u refl)

replace_vote-HasUniqueVotes :
    (id user_id : ℕ) (v : SceneVote) (s : Store)
    → v.scene_instance_id ≡ id
    → v.user_id ≡ user_id
    → HasUniqueVotes s
    → HasUniqueVotes (replace_vote id user_id v s)
unfolding replace_vote count_if
replace_vote-HasUniqueVotes id user_id v s e e' h id' user' =
    elim (Option-cases (find (is_vote_of id user_id) s.votes)) [
      | inl k ↦
          rw (k, replace_vote)
            (ground (
              arith,
              h id' user',
              count_if-append (is_vote_of id' user') s.votes (v ∷ []),
              count_if-find-none (is_vote_of id user_id) s.votes k,
              same_count id user_id id' user' v s.votes e e',
            ))
      | inr (x, k) ↦
          rw (k, replace_vote)
            (ground (
              arith,
              h id' user',
              count_if-update_first (is_vote_of id' user') (is_vote_of id user_id)
                  (λ (r : SceneVote). record r {
                    candidate_id = v.candidate_id;
                    vote_value = v.vote_value;
                    idempotency_key = v.idempotency_key;
                  })
                  s.votes x k,
            ))
    ]

-- A vote either fails and changes nothing, or it is the request's own and replaces the user's.
cast_vote-effect :
    (user_id id candidate_id : ℕ) (value : String) (key : Option String) (s : Store)
    → ((cast_vote user_id id candidate_id value key s).1 ≡ s)
        × (is_ok (cast_vote user_id id candidate_id value key s).0 ≡ false)
      ⊎ ((v : SceneVote) × (v.scene_instance_id ≡ id)
          × (v.user_id ≡ user_id)
          × (v.candidate_id ≡ candidate_id)
          × ((cast_vote user_id id candidate_id value key s).0 ≡ ok v)
          × ((cast_vote user_id id candidate_id value key s).1.votes
              ≡ (replace_vote id user_id v s).votes)
          × (may_vote user_id id candidate_id s ≡ true))
unfolding cast_vote may_vote
cast_vote-effect user_id id candidate_id value key s =
    elim (Option-cases (parse_vote_value value)) [
      | inl e ↦ ground arith
      | inr (vote_value, e) ↦ elim (Bool-cases (may_vote user_id id candidate_id s)) [
        | inl may ↦ inr (
          record {
            scene_instance_id = id;
            user_id = user_id;
            candidate_id = candidate_id;
            vote_value = vote_value;
            idempotency_key = key;
          },
          refl,
          refl,
          refl,
          ground arith,
          ground arith,
          may,
        )
        | inr may_not ↦ inl (ground arith)
      ]
    ]

-- A vote keeps the rule of one vote for each user and scene, whoever casts it and however it ends.
pub cast_vote-HasUniqueVotes :
    (user_id id candidate_id : ℕ) (value : String) (key : Option String) (s : Store)
    → HasUniqueVotes s
    → HasUniqueVotes (cast_vote user_id id candidate_id value key s).1
cast_vote-HasUniqueVotes user_id id candidate_id value key s h =
    elim (cast_vote-effect user_id id candidate_id value key s) [
      | inl (same, _) ↦ rw same h
      | inr (v, e, e', _, _, votes, _) ↦
          λ id' user'. rw votes (replace_vote-HasUniqueVotes id user_id v s e e' h id' user')
    ]

replace_vote-found :
    (id user_id : ℕ) (v : SceneVote) (s : Store)
    → v.scene_instance_id ≡ id
    → v.user_id ≡ user_id
    → get_vote id user_id (replace_vote id user_id v s) ≡ some v
unfolding replace_vote get_vote
replace_vote-found id user_id v s e e' =
    let own : is_vote_of id user_id v ≡ true =
      ground (arith, ==_iff v.scene_instance_id id, ==_iff v.user_id user_id) in
    elim (Option-cases (find (is_vote_of id user_id) s.votes)) [
      | inl k ↦ rw (k, replace_vote) (find-append (is_vote_of id user_id) s.votes v k ∙ rw own refl)
      | inr (x, k) ↦
          rw (k, replace_vote)
            (ground (
              arith,
              find-holds (is_vote_of id user_id) s.votes {x = x} k,
              find-update_first_self (is_vote_of id user_id)
                  (λ (r : SceneVote). record r {
                    candidate_id = v.candidate_id;
                    vote_value = v.vote_value;
                    idempotency_key = v.idempotency_key;
                  })
                  s.votes x k,
            ))
    ]

-- A vote succeeds only if the scene is in its voting phase, the user has accepted to take part and
-- the candidate is one of this scene; the vote returned is for that candidate and is the one that
-- the table holds for the user afterwards.
pub cast_vote-recorded :
    (user_id id candidate_id : ℕ) (value : String) (key : Option String) (s : Store) (v : SceneVote)
    → (cast_vote user_id id candidate_id value key s).0 ≡ ok v
    → (may_vote user_id id candidate_id s ≡ true)
      × (v.candidate_id ≡ candidate_id)
      × (get_vote id user_id (cast_vote user_id id candidate_id value key s).1 ≡ some v)
unfolding get_vote
cast_vote-recorded user_id id candidate_id value key s v h =
    elim (cast_vote-effect user_id id candidate_id value key s) [
      | inl (_, failed) ↦ ground (arith)
      | inr (w, e, e', c, o, votes, may) ↦
          (may, ground arith, ground (arith, votes, replace_vote-found id user_id w s e e'))
    ]
