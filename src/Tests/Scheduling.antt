-- ===== src/Tests/Scheduling.antt =====
-- Schedules in a calendar whose months have 28 days.
use mathlib.Core.List.{Memᴰ}
use edge_route_gw.Prelude.{
  ℕ, ◌+◌, ◌-◌, ◌*◌, ◌/◌, ◌%◌, ◌<◌, ◌≤◌, String, List, [], ◌∷◌, Option, none, some, ◌≡◌, refl, arith,
  str_eq, if◌then◌else◌,
}
use edge_route_gw.Text.{to_lower, trim_space}
use edge_route_gw.Schedule.{
  daily, weekly, ScheduleSpec, no_schedule, one_day, Calendar, IsCalendar, next, parse_schedule,
  scheduler_round, jitter,
}
use edge_route_gw.Schedule.Slots.{scheduler_round-moves_on}
use edge_route_gw.Schedule.Accepted.{parse_schedule-weekly}

schedules : Unit {0}
unfolding next parse_schedule scheduler_round
schedules = tt

abbrev even_months : Calendar
even_months = record {
  midnight = λ t. t / 86400 * 86400;
  weekday = λ t. (t / 86400 + 4) % 7;
  day_of_month = λ later d t.
      (t / 2419200 + (if later then 1 else 0)) * 2419200 + (if later then d else d - 1) * 86400;
}

even_months-IsCalendar : IsCalendar even_months
even_months-IsCalendar = record {
  midnight_before = λ t. omega arith;
  midnight_within = λ t. omega arith;
  midnight_again = λ t n o h. omega arith;
  weekday_small = λ t. omega arith;
  weekday_midnight = λ t. omega arith;
  weekday_later = λ t n. omega arith;
  next_month_later = λ t d h. omega arith;
}

abbrev clock : String → Option ℕ
clock s = if str_eq s "04:00" then some 14400 else none

abbrev number : String → Option ℕ
number s = none

clock-within : (t : String) (o : ℕ) → clock t ≡ some o → o < one_day
clock-within t o h = ground arith

abbrev sundays : ScheduleSpec
sundays = record { kind = weekly; weekday = 0; day = 0; offset = 14400 }

parse_schedule-weekly_example :
    (even_months.weekday 273600 ≡ 0) × (100 < 273600) × (273600 ≤ 100 + 7 * one_day)
unfolding schedules to_lower trim_space
parse_schedule-weekly_example =
    parse_schedule-weekly clock number clock-within even_months even_months-IsCalendar
      " Weekly  Sun 04:00" sundays 100 273600 refl refl refl

abbrev at_four : ScheduleSpec
at_four = record no_schedule { kind = daily; offset = 14400 }

abbrev minute_later : ScheduleSpec
minute_later = record no_schedule { kind = daily; offset = 14460 }

abbrev two_components : List (String × ScheduleSpec)
two_components = ("xray", at_four) ∷ ("mosdns", minute_later) ∷ []

scheduler_round-moves_on_example : 14400 < 100800
unfolding schedules
scheduler_round-moves_on_example =
    scheduler_round-moves_on even_months even_months-IsCalendar two_components "xray" at_four 14400
      14580 14400 100800 (λ e. absurd (cc)) (Memᴰ.head refl) refl (omega arith) (omega arith) refl

-- Two components a minute apart: the first round that is due waits for three minutes, and then the
-- slot of the second one has passed for more than two, so that its next slot is tomorrow's.
slot_missed :
    (scheduler_round even_months two_components 14400 ≡ ("xray" ∷ [], 180))
    × (scheduler_round even_months two_components (14400 + 181) ≡ ([], 3600))
    × (next even_months minute_later (14400 + 181 - jitter) ≡ some (14460 + 86400))
unfolding schedules
slot_missed = (refl, refl, refl)
