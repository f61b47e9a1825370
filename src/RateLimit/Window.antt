-- ===== src/RateLimit/Window.antt =====
-- How many failed attempts a window lets pass.
use corcy.Prelude.{
  ℕ, ◌+◌, ◌-◌, ◌≤◌, ◌<◌, ◌≡◌, refl, ◌&&◌, none, some, List, [], ◌∷◌, ltb, Text, text_eq_refl, arith,
  All, Bool-cases, inl, inr, if◌then◌else◌,
}
use corcy.Store.{Time, RateLimit, World}
use corcy.Store.Table.{find_first, update}
use corcy.Store.Table.Laws.{find_first-eq-exists, find_first-update, find_first-update_self}
use corcy.RateLimit.{has_key, increment_rate_limit, rate_result}

-- The number of attempts let through, each of which fails and is counted, at the given times.
pub passed : ℕ → ℕ → Text → List Time → World → ℕ
passed max_attempts window_ms key [] w = 0
passed max_attempts window_ms key (now ∷ later) w =
    let counted =
      1 + passed max_attempts window_ms key later (increment_rate_limit window_ms now key w).1 in
    let same = passed max_attempts window_ms key later w in
    if (rate_result max_attempts window_ms now (find_first (has_key key) w.rate_limits)).allowed
    then counted
    else same

module _ (max_attempts window_ms : ℕ) (key : Text) where
  increment_open :
      (now : Time) (w : World) (r : RateLimit)
      → find_first (has_key key) w.rate_limits ≡ some r
      → now ≤ r.reset_at
      → find_first (has_key key) (increment_rate_limit window_ms now key w).1.rate_limits
        ≡ some (record r { count = r.count + 1 })
  unfolding increment_rate_limit
  increment_open now w r found within = ground (
    arith,
    found,
    within,
    find_first-eq-exists (has_key key) w.rate_limits,
    find_first-update_self (has_key key) count_up w.rate_limits (λ x. refl),
    find_first-update (has_key key) (λ x. has_key key x && ltb x.reset_at now) restart
        (update (has_key key) count_up w.rate_limits) (λ x. refl),
  )
    where
      count_up : RateLimit → RateLimit
      count_up x = record x { count = x.count + 1 }

      restart : RateLimit → RateLimit
      restart x = record x { count = 1; reset_at = now + window_ms }

  increment_new :
      (now : Time) (w : World)
      → find_first (has_key key) w.rate_limits ≡ none
      → find_first (has_key key) (increment_rate_limit window_ms now key w).1.rate_limits
        ≡ some (record { key = key; count = 1; reset_at = now + window_ms })
  unfolding increment_rate_limit
  increment_new now w missing =
      unfold find_first in
      ground (
        arith,
        missing,
        text_eq_refl key,
        find_first-eq-exists (has_key key) w.rate_limits,
        find_first-update (has_key key) (λ x. has_key key x && ltb x.reset_at now) restart
            w.rate_limits (λ x. refl),
        find_first-update (has_key key) (λ x. has_key key x && ltb x.reset_at now) restart
            (record { key = key; count = 1; reset_at = now + window_ms } ∷ w.rate_limits)
            (λ x. refl),
      )
    where
      restart : RateLimit → RateLimit
      restart x = record x { count = 1; reset_at = now + window_ms }

  passed_open :
      (times : List Time) (w : World) (r : RateLimit)
      → find_first (has_key key) w.rate_limits ≡ some r
      → All (λ t. t ≤ r.reset_at) times
      → passed max_attempts window_ms key times w ≤ max_attempts - r.count
  unfolding passed
  passed_open [] w r found within = omega arith
  passed_open (now ∷ later) w r found (within, rest) =
      elim (Bool-cases (ltb r.count max_attempts)) [
        | inl more ↦
            let v = (increment_rate_limit window_ms now key w).1 in
            let ih =
              passed_open later v (record r { count = r.count + 1 })
                (increment_open now w r found within) rest in
            ground (arith, found, more, within, ih)
        | inr full ↦ ground (arith, found, full, within, passed_open later w r found rest)
      ]

  -- In the window that the first failed attempt opens, no more than the allowed number of attempts
  -- pass, whatever their times in it.
  pub passed_new-le :
      (first : Time) (later : List Time) (w : World)
      → 0 < max_attempts
      → find_first (has_key key) w.rate_limits ≡ none
      → All (λ t. t ≤ first + window_ms) later
      → passed max_attempts window_ms key (first ∷ later) w ≤ max_attempts
  unfolding passed
  passed_new-le first later w some_allowed missing inside =
      let v = (increment_rate_limit window_ms first key w).1 in
      let ih =
        passed_open later v (record { key = key; count = 1; reset_at = first + window_ms })
          (increment_new first w missing) inside in
      ground (arith, missing, ih)
