-- ===== src/Client/Dashboard/Ranges.antt =====
-- The numbers that a relative time shows.
use Prim.Native.Nat.{◌/◌, ◌*◌}
use corcy.Prelude.{ℕ, ◌+◌, ◌-◌, ◌≡◌, ◌≤◌, ◌<◌, inl, inr, some, ltb, arith, Bool-cases}
use corcy.Store.{Time}
use corcy.Client.Dashboard.{
  RelativeTime, recently, minutes_ago, hours_ago, days_ago, of_minutes, format_relative_time,
}

-- What a text says of the minutes that have passed: it is right to its unit, and within a first
-- minute it says one.
abbrev pub Says : ℕ → RelativeTime → Type 0
Says m recently = ⊥
Says m (minutes_ago n) = (m < 60) × (1 ≤ n) × (m ≤ n) × (n ≤ m + 1) × (1 ≤ m → n ≡ m)
Says m (hours_ago n) = (1 ≤ n) × (n < 24) × (n * 60 ≤ m) × (m < n * 60 + 60)
Says m (days_ago n) = (1 ≤ n) × (n * 1440 ≤ m) × (m < n * 1440 + 1440)

of_minutes-Says : (m : ℕ) → Says m (of_minutes m)
of_minutes-Says m = elim (Bool-cases (ltb m 60)) [
  | inl early ↦ rw early (
    ground (arith, early),
    ground (arith, early),
    ground (arith, early),
    ground (arith, early),
    λ some_time. ground (arith, early, some_time),
  )
  | inr later ↦ elim (Bool-cases (ltb (m / 60) 24)) [
    | inl today ↦
        let hour : 60 ≤ m = ground (arith, later) in
        let day : m / 60 < 24 = ground (arith, today) in
        rw (later, today) (omega (arith, hour), day, omega arith, omega arith)
    | inr before ↦
        let day : 24 ≤ m / 60 = ground (arith, before) in
        rw (later, before) (omega (arith, day), omega arith, omega arith)
  ]
]

-- The text of a date in the past says how long ago it was, right to a minute, an hour or a day.
pub format_relative_time-Says :
    (date now : Time) → Says ((now - date) / 60000) (format_relative_time (some date) now)
unfolding format_relative_time
format_relative_time-Says date now = of_minutes-Says ((now - date) / 60000)
