-- ===== src/Scenes/Calls/Expiry.antt =====
-- The sweep of stale scenes: it expires a scene at most once, and only as the machine allows.
use mathlib.Core.Path.{subst}
use campus_agent.Base.{
  ltb, ℕ, ◌≤◌, ◌≡◌, refl, sym, ap, ◌∙◌, Bool, true, false, ◌==◌, ◌+◌, ◌&&◌, none, some, List, [],
  ◌∷◌, inl, inr, ◌⊎◌, find, count_if, select, take, arith, Bool-cases, ==_iff, ==_refl, zero, suc,
}
use campus_agent.Base.Table.{
  count_if-update_all_same, find-holds, find-update_all, find-count_if_zero,
}
use campus_agent.Scenes.StateMachine.{expired, expire, can_action}
use campus_agent.Scenes.Models.{SceneInstance, SceneEvent, Store, publish}
use campus_agent.Scenes.Repository.{get_by_id, is_stale, list_expired, update_status}
use campus_agent.Scenes.Service.Transitions.{expire_each, expire_stale_instances}

abbrev pub is_row : ℕ → SceneInstance → Bool
is_row id r = r.id == id

abbrev lapse : ℕ → SceneInstance → SceneInstance
lapse version i = record i { status = expired; current_phase = expired; version = version + 1 }

abbrev pub lapsed : SceneInstance → SceneInstance
lapsed i = lapse i.version i

-- A row that the sweep has left as it was, or has expired as the machine allows.
abbrev pub IsSwept : ℕ → SceneInstance → Store → Type 0
IsSwept id i s =
    (get_by_id id s ≡ some i)
    ⊎ (can_action i.status expire ≡ true) × (get_by_id id s ≡ some (lapsed i))

-- The change of one version of one scene, seen from another row or from that row.
update_status_other :
    (id other version : ℕ) (s : Store) (i : SceneInstance)
    → get_by_id id s ≡ some i
    → (id == other) ≡ false
    → get_by_id id (update_status other expired expired version s).1 ≡ some i
unfolding get_by_id update_status
update_status_other id other version s i h ne =
    let hit = λ (r : SceneInstance). r.id == other && r.version == version in
    let held = find-holds (is_row id) s.instances {x = i} h in
    ground (
      arith,
      ==_iff i.id id,
      ==_iff i.id other,
      ==_iff id other,
      find-update_all (is_row id) hit (lapse version) s.instances i (λ y. refl) h,
    )

update_status_self :
    (id : ℕ) (s : Store) (i : SceneInstance)
    → get_by_id id s ≡ some i
    → get_by_id id (update_status i.id expired expired i.version s).1 ≡ some (lapsed i)
unfolding get_by_id update_status
update_status_self id s i h =
    let hit = λ (r : SceneInstance). r.id == i.id && r.version == i.version in
    ground (
      arith,
      ==_refl i.id,
      ==_refl i.version,
      find-update_all (is_row id) hit (lapse i.version) s.instances i (λ y. refl) h,
    )

-- One expiry of the loop.
abbrev lapse_one : SceneInstance → Store → Store
lapse_one y s = publish (SceneEvent.expired y.id) (update_status y.id expired expired y.version s).1

expire_each-skips :
    (rows : List SceneInstance) (n id : ℕ) (s : Store) (i : SceneInstance)
    → find (is_row id) rows ≡ none
    → get_by_id id s ≡ some i
    → get_by_id id (expire_each rows n s).1 ≡ some i
unfolding expire_each find
expire_each-skips [] n id s i a h = h
expire_each-skips (y ∷ rest) n id s i a h =
    let away : (id == y.id) ≡ false = ground (arith, ==_iff id y.id, ==_iff y.id id) in
    let none_left : find (is_row id) rest ≡ none = ground arith in
    let kept : get_by_id id (lapse_one y s) ≡ some i =
      unfold get_by_id in update_status_other id y.id y.version s i h away in
    ground (
      arith,
      expire_each-skips rest (n + 1) id (lapse_one y s) i none_left kept,
      expire_each-skips rest n id s i none_left h,
    )

expire_each-IsSwept :
    (rows : List SceneInstance) (n id : ℕ) (s : Store) (i : SceneInstance)
    → count_if (is_row id) rows ≤ 1
    → (find (is_row id) rows ≡ none) ⊎ (find (is_row id) rows ≡ some i)
    → get_by_id id s ≡ some i
    → IsSwept id i (expire_each rows n s).1
unfolding expire_each find count_if
expire_each-IsSwept [] n id s i a b h = inl h
expire_each-IsSwept (y ∷ rest) n id s i a b h = elim (Bool-cases (y.id == id)) [
  | inr away ↦
      let skip : (find (is_row id) rest ≡ none) ⊎ (find (is_row id) rest ≡ some i) = ground arith in
      let few : count_if (is_row id) rest ≤ 1 = ground arith in
      let kept : get_by_id id (lapse_one y s) ≡ some i =
        unfold get_by_id in
        update_status_other id y.id y.version s i h
          (ground (arith, ==_iff id y.id, ==_iff y.id id)) in
      elim (Bool-cases (can_action y.status expire)) [
        | inl can ↦ rw can (expire_each-IsSwept rest (n + 1) id (lapse_one y s) i few skip kept)
        | inr cannot ↦ rw cannot (expire_each-IsSwept rest n id s i few skip h)
      ]
  | inl home ↦
      let same : y ≡ i = ground arith in
      let last : find (is_row id) rest ≡ none =
        find-count_if_zero (is_row id) rest (ground arith) in
      elim (Bool-cases (can_action y.status expire)) [
        | inl can ↦ rw can (
            inr (
              ap (λ z. can_action z.status expire) (sym same) ∙ can,
              expire_each-skips rest (n + 1) id (lapse_one y s) (lapsed i) last (
                  subst (λ z. get_by_id id (lapse_one z s) ≡ some (lapsed i)) (sym same)
                    (unfold get_by_id in update_status_self id s i h)),
            ))
        | inr cannot ↦ rw cannot (inl (expire_each-skips rest n id s i last h))
      ]
]

-- The rows that the sweep takes: at most one with an id, and it is the one in the table.
count_if-take :
    (p : SceneInstance → Bool) (n : ℕ) (t : List SceneInstance)
    → count_if p (take n t) ≤ count_if p t
unfolding count_if
count_if-take p zero t = omega arith
count_if-take p (suc n) [] = omega arith
count_if-take p (suc n) (y ∷ t) = ground (arith, count_if-take p n t)

count_if-select :
    (p q : SceneInstance → Bool) (t : List SceneInstance) → count_if p (select q t) ≤ count_if p t
unfolding count_if select
count_if-select p q [] = omega arith
count_if-select p q (y ∷ t) = ground (arith, count_if-select p q t)

find-select :
    (p q : SceneInstance → Bool) (t : List SceneInstance) (i : SceneInstance)
    → count_if p t ≤ 1
    → find p t ≡ some i
    → (find p (select q t) ≡ none) ⊎ (find p (select q t) ≡ some i)
unfolding find select count_if
find-select p q [] i a h = cc
find-select p q (y ∷ t) i a h =
    ground (arith, find-select p q t i, count_if-select p q t, find-count_if_zero p (select q t))

find-take :
    (p : SceneInstance → Bool) (n : ℕ) (t : List SceneInstance)
    → (find p (take n t) ≡ none) ⊎ (find p (take n t) ≡ find p t)
unfolding find
find-take p zero t = inl refl
find-take p (suc n) [] = inl refl
find-take p (suc n) (y ∷ t) = ground (arith, find-take p n t)

pub sweep-IsSwept :
    (id : ℕ) (s : Store) (i : SceneInstance)
    → count_if (is_row id) s.instances ≤ 1
    → get_by_id id s ≡ some i
    → IsSwept id i (expire_stale_instances s).1
unfolding expire_stale_instances list_expired
sweep-IsSwept id s i a h =
    let q = is_stale s.now in
    let stale = select q s.instances in
    let few : count_if (is_row id) (take 50 stale) ≤ 1 =
      omega
        (arith, a, count_if-take (is_row id) 50 stale, count_if-select (is_row id) q s.instances) in
    let chosen : (find (is_row id) (take 50 stale) ≡ none)
        ⊎ (find (is_row id) (take 50 stale) ≡ some i) =
      ground (
        arith,
        find-take (is_row id) 50 stale,
        find-select (is_row id) q s.instances i a (unfold get_by_id in h),
      ) in
    let swept = expire_each-IsSwept (take 50 stale) 0 id s i few chosen h in
    elim (Bool-cases (ltb 0 (expire_each (take 50 stale) 0 s).0)) [
      | inl e ↦ rw e (unfold get_by_id in swept)
      | inr e ↦ rw e swept
    ]

-- No expiry changes how many rows there are with an id.
expire_each-count :
    (rows : List SceneInstance) (n id : ℕ) (s : Store)
    → count_if (is_row id) (expire_each rows n s).1.instances ≡ count_if (is_row id) s.instances
unfolding expire_each update_status
expire_each-count [] n id s = refl
expire_each-count (y ∷ rest) n id s =
    let hit = λ (r : SceneInstance). r.id == y.id && r.version == y.version in
    elim (Bool-cases (can_action y.status expire)) [
      | inl can ↦ rw can (
          expire_each-count rest (n + 1) id (lapse_one y s)
          ∙ count_if-update_all_same (is_row id) hit (lapse y.version) s.instances (λ x. refl))
      | inr cannot ↦ rw cannot (expire_each-count rest n id s)
    ]

pub sweep-count :
    (id : ℕ) (s : Store)
    → count_if (is_row id) (expire_stale_instances s).1.instances ≡ count_if (is_row id) s.instances
unfolding expire_stale_instances
sweep-count id s = elim (Bool-cases (ltb 0 (expire_each (list_expired s) 0 s).0)) [
  | inl e ↦ rw e (expire_each-count (list_expired s) 0 id s)
  | inr e ↦ rw e (expire_each-count (list_expired s) 0 id s)
]
