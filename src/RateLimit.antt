-- ===== src/RateLimit.antt =====
-- backend/src/auth/rate-limit.util.ts: counters of failed attempts in a window of time.
pub mod Window
use corcy.Prelude.{
  ℕ, ◌+◌, ◌-◌, Bool, true, false, ◌&&◌, Option, none, some, List, [], ◌∷◌, ltb, Text, text_eq,
  if◌then◌else◌,
}
use corcy.Store.{Time, RateLimit, World, Exec, pure, read, write, continue, ◌>>=◌, ◌>>◌}
use corcy.Store.Table.{find_first, exists, update, delete_many}

abbrev pub has_key : Text → RateLimit → Bool
has_key key r = text_eq r.key key

pub record RateLimitResult : Type 0 where
  pub allowed : Bool
  pub remaining : ℕ
  pub reset_at : Time

-- `Math.max(0, a - b)` is the subtraction of the naturals.
abbrev pub rate_result : ℕ → ℕ → Time → Option RateLimit → RateLimitResult
rate_result max_attempts window_ms now none = record {
  allowed = true;
  remaining = max_attempts - 1;
  reset_at = now + window_ms;
}
rate_result max_attempts window_ms now (some r) =
    if ltb r.reset_at now
    then record { allowed = true; remaining = max_attempts - 1; reset_at = now + window_ms }
    else record {
      allowed = ltb r.count max_attempts;
      remaining = max_attempts - r.count;
      reset_at = r.reset_at;
    }

unfoldable pub check_rate_limit : ℕ → ℕ → Time → Text → Exec RateLimitResult
check_rate_limit max_attempts window_ms now key =
    read (λ w. rate_result max_attempts window_ms now (find_first (has_key key) w.rate_limits))

-- The upsert, and the reset of a window that is over.
unfoldable pub increment_rate_limit : ℕ → Time → Text → Exec (Unit {0})
increment_rate_limit window_ms now key = do
  write (λ w.
      if exists (has_key key) w.rate_limits
      then record w {
        rate_limits = update (has_key key) (λ r. record r { count = r.count + 1 }) w.rate_limits;
      }
      else record w {
        rate_limits = record { key = key; count = 1; reset_at = now + window_ms } ∷ w.rate_limits;
      })
  write (λ w. record w {
    rate_limits =
        update (λ r. has_key key r && ltb r.reset_at now)
          (λ r. record r { count = 1; reset_at = now + window_ms }) w.rate_limits;
  })

unfoldable pub clear_rate_limit : Text → Exec (Unit {0})
clear_rate_limit key =
    write (λ w. record w { rate_limits = delete_many (has_key key) w.rate_limits })

unfoldable pub cleanup_expired_rate_limits : Time → Exec (Unit {0})
cleanup_expired_rate_limits now =
    write (λ w. record w { rate_limits = delete_many (λ r. ltb r.reset_at now) w.rate_limits })
