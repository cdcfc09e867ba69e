-- ===== src/Quota/Calendar.antt =====
-- `_month_range_utc` of app/services/quota.py. A moment is a year, a month (1 to 12) and the
-- microseconds since the start of that month.
use ai_jin_shu.Common.{
  ℕ, ◌+◌, ◌≤◌, ◌≡◌, Bool, true, ◌&&◌, ◌||◌, ltb, not, ◌==◌, if◌then◌else◌, arith, ◌↔◌,
}

pub record Moment : Type 0 where
  pub year : ℕ
  pub month : ℕ
  pub micros : ℕ

abbrev pub month_start : ℕ → ℕ → Moment
month_start y m = record { year = y; month = m; micros = 0 }

unfoldable pub month_range_utc : Moment → Moment × Moment
month_range_utc now = (
  month_start now.year now.month,
  if now.month == 12 then month_start (now.year + 1) 1 else month_start now.year (now.month + 1),
)

abbrev pub before : Moment → Moment → Bool
before a b =
    ltb a.year b.year
    || (a.year == b.year && (ltb a.month b.month || (a.month == b.month && ltb a.micros b.micros)))

-- `created_at >= start and created_at < end`
abbrev pub in_range : Moment × Moment → Moment → Bool
in_range range t = not (before t range.0) && before t range.1

-- In every month, December included, the range holds exactly the moments of the same year and
-- month.
pub month_range_exact :
    (now t : Moment)
    → now.month ≤ 12
    → 1 ≤ t.month
    → t.month ≤ 12
    → (in_range (month_range_utc now) t ≡ true) ↔ ((t.year ≡ now.year) × (t.month ≡ now.month))
unfolding month_range_utc
month_range_exact now t h k l = (ground arith, ground arith)
