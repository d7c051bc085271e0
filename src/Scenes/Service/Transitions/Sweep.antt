-- ===== src/Scenes/Service/Transitions/Sweep.antt =====
-- The sweep of stale scenes.
use campus_agent.Base.{
  ℕ, ◌+◌, ◌≡◌, refl, ap, Bool, true, inl, inr, count_if, select, length, take, arith, Bool-cases,
  List, [], ◌∷◌, zero, suc, ltb, if◌then◌else◌, all,
}
use campus_agent.Base.Action.{ok}
use campus_agent.Base.Table.{length-select}
use campus_agent.Scenes.StateMachine.{expire, expired, can_action}
use campus_agent.Scenes.Models.{SceneInstance, SceneEvent, publish, Store}
use campus_agent.Scenes.Repository.{is_stale, list_expired, update_status}
use campus_agent.Scenes.Service.Transitions.{expire_each, expire_stale_instances}

-- The stale scenes are the active ones, and these accept the action.
stale_can_expire :
    (now : ℕ) (i : SceneInstance) → is_stale now i ≡ true → can_action i.status expire ≡ true
unfolding can_action
stale_can_expire now i h = ground arith

all-select : (p : SceneInstance → Bool) (t : List SceneInstance) → all p (select p t) ≡ true
unfolding all select
all-select p [] = refl
all-select p (y ∷ t) = ground (arith, all-select p t)

all-take :
    (p : SceneInstance → Bool) (n : ℕ) (t : List SceneInstance)
    → all p t ≡ true
    → all p (take n t) ≡ true
unfolding all
all-take p zero t h = refl
all-take p (suc n) [] h = refl
all-take p (suc n) (y ∷ t) h = ground (arith, all-take p n t)

-- The loop counts every stale scene it is given.
expire_each-count :
    (now : ℕ) (t : List SceneInstance) (count : ℕ) (s : Store)
    → all (is_stale now) t ≡ true
    → (expire_each t count s).0 ≡ count + length t
unfolding expire_each all
expire_each-count now [] count s h = omega arith
expire_each-count now (i ∷ t) count s h = elim (Bool-cases (is_stale now i)) [
  | inl stale ↦ rw (stale_can_expire now i stale) (
      omega (
        arith,
        expire_each-count now t (count + 1)
            (publish (SceneEvent.expired i.id) (update_status i.id expired expired i.version s).1)
            (ground arith),
      ))
  | inr fresh ↦ absurd (ground arith)
]

length-take :
    (n : ℕ) (t : List SceneInstance)
    → length (take n t) ≡ (if ltb n (length t) then n else length t)
length-take zero [] = refl
length-take zero (y ∷ t) = ground arith
length-take (suc n) [] = ground arith
length-take (suc n) (y ∷ t) = ground (arith, length-take n t)

-- Every scene that the query lists is active, so the loop expires and counts each of them: the
-- answer is the number of stale scenes, or 50 where there are more.
pub expire_stale_instances-count :
    (s : Store)
    → (expire_stale_instances s).0
      ≡ ok (
          if ltb 50 (count_if (is_stale s.now) s.instances)
          then 50
          else count_if (is_stale s.now) s.instances)
unfolding expire_stale_instances list_expired
expire_stale_instances-count s =
    let stale = select (is_stale s.now) s.instances in
    ap ok (
      ground (
        arith,
        expire_each-count s.now (take 50 stale) 0 s
            (all-take (is_stale s.now) 50 stale (all-select (is_stale s.now) s.instances)),
        length-take 50 stale,
        length-select (is_stale s.now) s.instances,
      ))
