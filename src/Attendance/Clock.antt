-- ===== src/Attendance/Clock.antt =====
-- The time library `@js-temporal/polyfill` and the locale's collation, which the attendance code
-- calls: a parameter of the model, with the documented behaviour that the proofs rely on.
--
-- An instant is the number of nanoseconds since the earliest instant that Temporal represents
-- (10^8 days before the Unix epoch), so that comparing instants is comparing numbers; a plain date
-- is a count of days, a plain time a count of nanoseconds. `none` stands for a RangeError.
use attendence_system.Prelude.{ℕ, ◌+◌, ◌*◌, ◌/◌, ◌≡◌, Bool, true, false, Option, some, String}

abbrev pub minute : ℕ
minute = 60_000_000_000

pub record Clock : Type 0 where
  pub instant_from : String → Option ℕ
  pub plain_date_from : String → Option ℕ
  pub plain_time_from : String → Option ℕ
  -- date.toZonedDateTime({ timeZone, plainTime }), as the instant that it stands for
  pub to_zoned : ℕ → String → ℕ → Option ℕ
  pub next_day : ℕ → Option ℕ
  pub previous_day : ℕ → Option ℕ
  pub day_of_week : ℕ → ℕ
  -- add({ minutes }) and subtract({ minutes }) on a zoned date-time or an instant
  pub add_minutes : ℕ → ℕ → Option ℕ
  pub subtract_minutes : ℕ → ℕ → Option ℕ
  pub date_to_string : ℕ → String
  pub instant_to_string : ℕ → String
  -- toZonedDateTimeISO(timezone).toPlainTime(), to the minute
  pub local_time : ℕ → String → Option String
  -- toZonedDateTimeISO(timezone).toPlainDate()
  pub local_date : ℕ → String → Option ℕ
  -- a.localeCompare(b) <= 0
  pub locale_le : String → String → Bool
  pub add_minutes_lem : (t n u : ℕ) → add_minutes t n ≡ some u → u ≡ t + n * minute
  pub subtract_minutes_lem : (t n u : ℕ) → subtract_minutes t n ≡ some u → t ≡ u + n * minute
  pub locale_total : (a b : String) → locale_le a b ≡ false → locale_le b a ≡ true
  pub locale_trans :
      (a b c : String) → locale_le a b ≡ true → locale_le b c ≡ true → locale_le a c ≡ true

-- instant.epochMilliseconds, counted from the earliest instant
abbrev pub epoch_milliseconds : ℕ → ℕ
epoch_milliseconds t = t / 1_000_000
