-- ===== src/Memories/Cleanup/Repeated.antt =====
-- Cleanups that are repeated.
use mathlib.Core.Path.{subst}
use campus_agent.Base.{
  ℕ, zero, suc, ◌-◌, ◌*◌, ◌≤◌, ◌≡◌, refl, Bool, List, [], ◌∷◌, arith, count_if, select, not, ◌&&◌,
  ◌∙◌, ltb, if◌then◌else◌,
}
use campus_agent.Memories.Models.{MemoryItem, Store}
use campus_agent.Memories.Repository.{is_past, is_kept, has_expired, soft_delete_expired}
use campus_agent.Memories.Cleanup.{cleanup_expired_memories}

unfoldable pub count_expired : Store → ℕ
count_expired s = count_if (has_expired s.now) s.memories

-- A number of cleanups, one after the other.
unfoldable pub repeat_cleanup : ℕ → Store → Store
unfolding cleanup_expired_memories
repeat_cleanup zero s = s
repeat_cleanup (suc n) s = repeat_cleanup n (cleanup_expired_memories s).1

soft_delete_expired-count :
    (now limit : ℕ) (t : List MemoryItem)
    → (count_if (has_expired now) (soft_delete_expired now limit t).1
        ≡ count_if (has_expired now) t - limit)
      × ((soft_delete_expired now limit t).0 ≡ (
          if ltb limit (count_if (has_expired now) t) then limit else count_if (has_expired now) t))
unfolding soft_delete_expired count_if
soft_delete_expired-count now limit [] = (omega arith, ground arith)
soft_delete_expired-count now zero (m ∷ t) = (omega arith, ground arith)
soft_delete_expired-count now (suc limit) (m ∷ t) = (
  ground
      (arith, soft_delete_expired-count now limit t, soft_delete_expired-count now (suc limit) t),
  ground
      (arith, soft_delete_expired-count now limit t, soft_delete_expired-count now (suc limit) t),
)

-- Neither deleted nor expired.
abbrev pub is_live : ℕ → MemoryItem → Bool
is_live now m = is_kept m && not (is_past now m.expires_at)

soft_delete_expired-live :
    (now limit : ℕ) (t : List MemoryItem)
    → select (is_live now) (soft_delete_expired now limit t).1 ≡ select (is_live now) t
unfolding soft_delete_expired select
soft_delete_expired-live now limit [] = refl
soft_delete_expired-live now zero (m ∷ t) = refl
soft_delete_expired-live now (suc limit) (m ∷ t) =
    ground (arith, soft_delete_expired-live now limit t, soft_delete_expired-live now (suc limit) t)

cleanup-effect :
    (s : Store)
    → ((cleanup_expired_memories s).1.memories ≡ (soft_delete_expired s.now 100 s.memories).1)
      × ((cleanup_expired_memories s).1.now ≡ s.now)
unfolding cleanup_expired_memories
cleanup-effect s = (ground arith, ground arith)

cleanup-count : (s : Store) → count_expired (cleanup_expired_memories s).1 ≡ count_expired s - 100
unfolding count_expired
cleanup-count s =
    let (rows, now) = cleanup-effect s in
    rw now (rw rows ((soft_delete_expired-count s.now 100 s.memories).0))

cleanup-live :
    (s : Store)
    → select (is_live s.now) (cleanup_expired_memories s).1.memories
      ≡ select (is_live s.now) s.memories
cleanup-live s =
    let (rows, now) = cleanup-effect s in rw rows (soft_delete_expired-live s.now 100 s.memories)

-- As many cleanups as there are hundreds of expired memories leave none, and they leave the
-- memories that are neither deleted nor expired as they are, in their order.
pub repeat_cleanup-finishes :
    (n : ℕ) (s : Store)
    → count_expired s ≤ 100 * n
    → (count_expired (repeat_cleanup n s) ≡ 0)
      × (select (is_live s.now) (repeat_cleanup n s).memories ≡ select (is_live s.now) s.memories)
unfolding repeat_cleanup
repeat_cleanup-finishes zero s h = (omega (arith, h), refl)
repeat_cleanup-finishes (suc n) s h =
    let (rows, now) = cleanup-effect s in
    let (done, live) =
      repeat_cleanup-finishes n (cleanup_expired_memories s).1
        (omega (arith, h, cleanup-count s)) in
    (
      done,
      subst
            (λ z.
              select (is_live z) (repeat_cleanup n (cleanup_expired_memories s).1).memories
              ≡ select (is_live z) (cleanup_expired_memories s).1.memories)
            now live
          ∙ cleanup-live s,
    )
