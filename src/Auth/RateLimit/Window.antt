-- ===== src/Auth/RateLimit/Window.antt =====
-- What the sliding window promises of the requests of one key.
use campus_agent.Base.{
  ℕ, ◌+◌, ◌≤◌, ◌<◌, ◌≡◌, refl, Bool, true, false, ◌&&◌, List, [], ◌∷◌, ◌++◌, if◌then◌else◌, ltb,
  leb, length, select, count_if, arith, Bool-cases, inl, inr, String,
}
use campus_agent.Base.Table.{count_if-append}
use text.Mathlib.Text.{◌==◌ as str_eq}
use mathlib.Core.Path.{subst}
use text.Mathlib.TextEquality.{eq_iff}
use campus_agent.Auth.RateLimit.{RateLimiter, new_limiter, in_window, put, is_allowed}

-- The times at which calls of the key are let through, out of calls with their keys and times.
unfoldable pub let_through : String → List (String × ℕ) → RateLimiter → List ℕ
unfolding is_allowed
let_through key [] r = []
let_through key ((k, now) ∷ calls) r =
    let (allowed, r') = is_allowed k now r in
    let rest = let_through key calls r' in if str_eq key k && allowed then now ∷ rest else rest

-- The clock never goes back.
abbrev pub IsMonotone : ℕ → List (String × ℕ) → Type 0
IsMonotone from [] = Unit
IsMonotone from ((_, now) ∷ calls) = (from ≤ now) × IsMonotone now calls

-- In the window that ends at `t`.
abbrev pub recent : ℕ → ℕ → ℕ → Bool
recent t window x = leb x t && in_window t window x

let_through-later :
    (key : String) (calls : List (String × ℕ)) (r : RateLimiter) (from t window : ℕ)
    → IsMonotone from calls
    → t < from
    → count_if (recent t window) (let_through key calls r) ≡ 0
unfolding let_through count_if
let_through-later key [] r from t window m h = refl
let_through-later key ((k, now) ∷ calls) r from t window (later, m) h = ground (
  arith,
  let_through-later key calls (is_allowed k now r).1 now t window m (omega (arith, later, h)),
)

-- The times that the limiter drops are in no window that ends now or later.
kept-recent :
    (times : List ℕ) (now t window : ℕ)
    → now ≤ t
    → count_if (recent t window) (select (in_window now window) times)
      ≡ count_if (recent t window) times
unfolding count_if select
kept-recent [] now t window h = refl
kept-recent (x ∷ times) now t window h = ground (arith, kept-recent times now t window h)

count_if-length : (p : ℕ → Bool) (times : List ℕ) → count_if p times ≤ length times
unfolding count_if
count_if-length p [] = omega arith
count_if-length p (x ∷ times) = ground (arith, count_if-length p times)

count_if-select_le :
    (p q : ℕ → Bool) (times : List ℕ) → count_if q (select p times) ≤ count_if q times
unfolding count_if select
count_if-select_le p q [] = omega arith
count_if-select_le p q (x ∷ times) = ground (arith, count_if-select_le p q times)

module _ (key : String) (m window : ℕ) where
  Bounded : List ℕ → Type 0
  Bounded times = (t : ℕ) → count_if (recent t window) times ≤ m

  -- A call that is refused keeps the times of its own window.
  refused_step :
      (times rest : List ℕ) (now : ℕ)
      → ((t : ℕ) → t < now → count_if (recent t window) rest ≡ 0)
      → Bounded times
      → ((t : ℕ)
          → count_if (recent t window) (select (in_window now window) times)
              + count_if (recent t window) rest
            ≤ m)
      → (t : ℕ) → count_if (recent t window) times + count_if (recent t window) rest ≤ m
  unfolding Bounded
  refused_step times rest now later b h t = elim (Bool-cases (ltb t now)) [
    | inl e ↦ omega (arith, later t (ground arith), b t)
    | inr e ↦ omega (arith, h t, kept-recent times now t window (ground arith))
  ]

  -- A call that is let through joins them.
  allowed_step :
      (times rest : List ℕ) (now : ℕ)
      → ((t : ℕ) → t < now → count_if (recent t window) rest ≡ 0)
      → Bounded times
      → ((t : ℕ)
          → count_if (recent t window) (select (in_window now window) times ++ now ∷ [])
              + count_if (recent t window) rest
            ≤ m)
      → (t : ℕ) → count_if (recent t window) times + count_if (recent t window) (now ∷ rest) ≤ m
  unfolding Bounded count_if
  allowed_step times rest now later b h t = elim (Bool-cases (ltb t now)) [
    | inl e ↦ ground (arith, later t (ground arith), b t)
    | inr e ↦ omega (
      arith,
      h t,
      kept-recent times now t window (ground arith),
      count_if-append (recent t window) (select (in_window now window) times) (now ∷ []),
    )
  ]

  append-bound : (times : List ℕ) (now : ℕ) → length times < m → Bounded (times ++ now ∷ [])
  unfolding Bounded count_if
  append-bound times now h t = ground (
    arith,
    count_if-append (recent t window) times (now ∷ []),
    count_if-length (recent t window) times,
  )

refused :
    (k : String) (now : ℕ) (r : RateLimiter)
    → leb r.max_requests (length (select (in_window now r.window_seconds) (r.timestamps k))) ≡ true
    → is_allowed k now r
      ≡ (false, put k (select (in_window now r.window_seconds) (r.timestamps k)) r)
unfolding is_allowed
refused k now r h = ground arith

allowed :
    (k : String) (now : ℕ) (r : RateLimiter)
    → leb r.max_requests (length (select (in_window now r.window_seconds) (r.timestamps k))) ≡ false
    → is_allowed k now r
      ≡ (true, put k (select (in_window now r.window_seconds) (r.timestamps k) ++ now ∷ []) r)
unfolding is_allowed
allowed k now r h = ground arith

put-same : (k : String) (times : List ℕ) (r : RateLimiter) → (put k times r).timestamps k ≡ times
put-same k times r = let same = (eq_iff k k).1 refl in ground arith

put-other :
    (key k : String) (times : List ℕ) (r : RateLimiter)
    → str_eq key k ≡ false
    → (put k times r).timestamps key ≡ r.timestamps key
put-other key k times r other = ground arith

-- No window of the clock sees more than the limit.
abbrev IsWithin : String → List ℕ → RateLimiter → Type 0
IsWithin key times r = Bounded key r.max_requests r.window_seconds times

-- A call of another key changes nothing for this one.
other_key :
    (key k : String) (times rest : List ℕ) (r : RateLimiter)
    → str_eq key k ≡ false
    → (IsWithin key ((put k times r).timestamps key) r
        → (t : ℕ)
        → count_if (recent t r.window_seconds) ((put k times r).timestamps key)
            + count_if (recent t r.window_seconds) rest
          ≤ r.max_requests)
    → IsWithin key (r.timestamps key) r
    → (t : ℕ)
    → count_if (recent t r.window_seconds) (r.timestamps key)
        + count_if (recent t r.window_seconds) rest
      ≤ r.max_requests
other_key key k times rest r other h b t =
    subst
      (λ l.
        (IsWithin key l r
          → (t : ℕ)
          → count_if (recent t r.window_seconds) l + count_if (recent t r.window_seconds) rest
            ≤ r.max_requests))
      (put-other key k times r other) h b t

-- A call of this key leaves the times it has put there.
this_key :
    (k : String) (times rest : List ℕ) (r : RateLimiter)
    → (IsWithin k ((put k times r).timestamps k) r
        → (t : ℕ)
        → count_if (recent t r.window_seconds) ((put k times r).timestamps k)
            + count_if (recent t r.window_seconds) rest
          ≤ r.max_requests)
    → IsWithin k times r
    → (t : ℕ)
    → count_if (recent t r.window_seconds) times + count_if (recent t r.window_seconds) rest
      ≤ r.max_requests
this_key k times rest r h b t =
    subst
      (λ l.
        (IsWithin k l r
          → (t : ℕ)
          → count_if (recent t r.window_seconds) l + count_if (recent t r.window_seconds) rest
            ≤ r.max_requests))
      (put-same k times r) h b t

let_through-bound :
    (key : String) (calls : List (String × ℕ)) (r : RateLimiter) (from : ℕ)
    → IsMonotone from calls
    → IsWithin key (r.timestamps key) r
    → (t : ℕ)
    → count_if (recent t r.window_seconds) (r.timestamps key)
        + count_if (recent t r.window_seconds) (let_through key calls r)
      ≤ r.max_requests
unfolding let_through Bounded count_if
let_through-bound key [] r from later b t = omega (arith, b t)
let_through-bound key ((k, now) ∷ calls) r from (later, mono) b t =
    let kept = select (in_window now r.window_seconds) (r.timestamps k) in
    elim (Bool-cases (leb r.max_requests (length kept))) [
      | inl full ↦
          let r' : RateLimiter = put k kept r in
          let rest = let_through key calls r' in
          elim (Bool-cases (str_eq key k)) [
            | inl same ↦
                let e : key ≡ k = (eq_iff key k).0 same in
                rw (refused k now r full) (
                  rw same (
                    refused_step key r.max_requests r.window_seconds (r.timestamps key) rest now
                      (λ t h. let_through-later key calls r' now t r.window_seconds mono h) b
                      (rw e (
                        this_key k kept (let_through k calls r') r
                          (let_through-bound k calls r' now mono)
                          (λ t. omega (
                            arith,
                            count_if-select_le (in_window now r.window_seconds)
                                (recent t r.window_seconds) (r.timestamps k),
                            subst (λ z. IsWithin z (r.timestamps z) r) e b t,
                          ))))
                      t))
            | inr other ↦ rw (refused k now r full) (
                rw other
                  (other_key key k kept rest r other (let_through-bound key calls r' now mono) b t))
          ]
      | inr room ↦
          let times = kept ++ now ∷ [] in
          let r' : RateLimiter = put k times r in
          let rest = let_through key calls r' in
          elim (Bool-cases (str_eq key k)) [
            | inl same ↦
                let e : key ≡ k = (eq_iff key k).0 same in
                rw (allowed k now r room) (
                  rw same (
                    allowed_step key r.max_requests r.window_seconds (r.timestamps key) rest now
                      (λ t h. let_through-later key calls r' now t r.window_seconds mono h) b
                      (rw e (
                        this_key k times (let_through k calls r') r
                          (let_through-bound k calls r' now mono)
                          (append-bound key r.max_requests r.window_seconds kept now
                            (ground arith))))
                      t))
            | inr other ↦ rw (allowed k now r room) (
                rw other (
                  other_key key k times rest r other (let_through-bound key calls r' now mono) b t))
          ]
    ]

-- Of any calls, at times that never go back, the limiter lets through at most its maximum for one
-- key in any window of its length.
pub let_through-limit :
    (max_requests window_seconds : ℕ) (key : String) (calls : List (String × ℕ)) (from t : ℕ)
    → IsMonotone from calls
    → count_if
        (recent t window_seconds)
        (let_through key calls (new_limiter max_requests window_seconds))
      ≤ max_requests
unfolding count_if Bounded
let_through-limit max_requests window_seconds key calls from t mono = omega (
  arith,
  let_through-bound key calls (new_limiter max_requests window_seconds) from mono (λ t. omega arith)
      t,
)
