-- ===== src/Schedule.antt =====
-- internal/update/schedule.go: when a component updates itself. Times are seconds. The calendar of the
-- time package, the time of day "15:04" and strconv.Atoi are parameters.
pub mod Slots
pub mod Accepted
use Prim.Native.Char.{code}
use Prim.Native.String.{[] as nil_text, ◌∷◌ as cons_text}
use edge_route_gw.Prelude.{
  ℕ, zero, suc, ◌+◌, ◌-◌, ◌*◌, ◌/◌, ◌%◌, ◌<◌, ◌≤◌, String, Bool, true, false, not, ◌&&◌, ◌||◌, List,
  [], ◌∷◌, ◌++◌, Option, none, some, ltb, leb, is_nil, any, str_eq, if◌then◌else◌, ◌≡◌,
}
use edge_route_gw.Text.{concat, to_lower, trim_space, is_space, is_empty, add_char}

pub data Kind : Type 0 where
  off daily weekly monthly : Kind

pub record ScheduleSpec : Type 0 where
  pub kind : Kind
  pub weekday : ℕ
  pub day : ℕ
  pub offset : ℕ

pub data ScheduleError : Type 0 where
  bad_time bad_daily bad_weekly bad_weekday bad_monthly bad_day bad_kind : ScheduleError

pub data ParsedSchedule : Type 0 where
  ok : ScheduleSpec → ParsedSchedule
  err : ScheduleError → ParsedSchedule

abbrev pub first_nonempty : List String → List String
first_nonempty [] = []
first_nonempty (f ∷ rest) = if is_empty f then rest else f ∷ rest

-- strings.Fields, with an empty field in front where the text begins with a space
unfoldable pub fields_from : String → List String
fields_from nil_text = "" ∷ []
fields_from (cons_text c s) =
    let rest = fields_from s in
    if is_space (code c) then "" ∷ first_nonempty rest else add_char c rest

-- strings.Fields
unfoldable pub fields : String → List String
unfolding fields_from
fields s = first_nonempty (fields_from s)

abbrev pub find_day : String → List (String × ℕ) → Option ℕ
find_day s [] = none
find_day s ((t, n) ∷ rest) = if str_eq t s then some n else find_day s rest

-- `weekdays`
abbrev pub weekdays : List (String × ℕ)
weekdays =
    ("mon", 1)
    ∷ ("tue", 2)
    ∷ ("wed", 3)
    ∷ ("thu", 4)
    ∷ ("fri", 5)
    ∷ ("sat", 6)
    ∷ ("sun", 0)
    ∷ ("1", 1)
    ∷ ("2", 2)
    ∷ ("3", 3)
    ∷ ("4", 4)
    ∷ ("5", 5)
    ∷ ("6", 6)
    ∷ ("7", 0)
    ∷ []

abbrev pub no_schedule : ScheduleSpec
no_schedule = record { kind = off; weekday = 0; day = 0; offset = 0 }

abbrev pub at_time : Option ℕ → ScheduleSpec → ParsedSchedule
at_time none spec = err bad_time
at_time (some offset) spec = ok (record spec { offset = offset })

module _ (time_of_day atoi : String → Option ℕ) where
  abbrev pub parse_daily : List String → ParsedSchedule
  parse_daily (t ∷ []) = at_time (time_of_day t) (record no_schedule { kind = daily })
  parse_daily _ = err bad_daily

  abbrev pub on_weekday : Option ℕ → String → ParsedSchedule
  on_weekday none t = err bad_weekday
  on_weekday (some d) t =
      at_time (time_of_day t) (record no_schedule { kind = weekly; weekday = d })

  abbrev pub parse_weekly : List String → ParsedSchedule
  parse_weekly (d ∷ t ∷ []) = on_weekday (find_day d weekdays) t
  parse_weekly _ = err bad_weekly

  abbrev pub on_day : Option ℕ → String → ParsedSchedule
  on_day none t = err bad_day
  on_day (some d) t =
      if ltb d 1 || ltb 28 d
      then err bad_day
      else at_time (time_of_day t) (record no_schedule { kind = monthly; day = d })

  abbrev pub parse_monthly : List String → ParsedSchedule
  parse_monthly (d ∷ t ∷ []) = on_day (atoi d) t
  parse_monthly _ = err bad_monthly

  abbrev pub parse_fields : List String → ParsedSchedule
  parse_fields [] = ok no_schedule
  parse_fields (f ∷ rest) =
      if str_eq f "off"
      then ok no_schedule
      else if str_eq f "daily"
      then parse_daily rest
      else if str_eq f "weekly"
      then parse_weekly rest
      else if str_eq f "monthly"
      then parse_monthly rest
      else err bad_kind

  -- `ParseSchedule`
  unfoldable pub parse_schedule : String → ParsedSchedule
  unfolding fields to_lower trim_space
  parse_schedule v = parse_fields (fields (to_lower (trim_space v)))

abbrev pub one_day : ℕ
one_day = 24 * 3600

-- What the code uses of the time package, in a zone whose clock is never changed: the start of
-- the day, the day of the week, and the start of a day of this month or of the next one.
pub record Calendar : Type 0 where
  pub midnight : ℕ → ℕ
  pub weekday : ℕ → ℕ
  pub day_of_month : (next_month : Bool) → ℕ → ℕ → ℕ

-- The documented behaviour of the calendar.
pub record IsCalendar (c : Calendar) : Type 0 where
  pub midnight_before : (t : ℕ) → c.midnight t ≤ t
  pub midnight_within : (t : ℕ) → t < c.midnight t + one_day
  pub midnight_again :
      (t n off' : ℕ)
      → off' < one_day
      → c.midnight (c.midnight t + n * one_day + off') ≡ c.midnight t + n * one_day
  pub weekday_small : (t : ℕ) → c.weekday t < 7
  pub weekday_midnight : (t : ℕ) → c.weekday (c.midnight t) ≡ c.weekday t
  pub weekday_later : (t n : ℕ) → c.weekday (t + n * one_day) ≡ (c.weekday t + n) % 7
  pub next_month_later : (t d : ℕ) → 1 ≤ d → t < c.day_of_month true d t

-- How long a slot that has passed still counts.
abbrev pub jitter : ℕ
jitter = 2 * 60

abbrev pub slot_seen : String → Option ℕ → ℕ → List String × ℕ → List String × ℕ
slot_seen name none now (due, wait) = (due, wait)
slot_seen name (some slot) now (due, wait) =
    if not (ltb now slot)
    then (due ++ name ∷ [], wait)
    else (due, if ltb (slot - now) wait then slot - now else wait)

abbrev pub rested : List String × ℕ → List String × ℕ
rested (due, wait) = (due, if not (is_nil due) && ltb wait (3 * 60) then 3 * 60 else wait)

module _ (cal : Calendar) where
  -- n.AddDate(0, 0, days) unless n is after now
  abbrev pub later_unless : ℕ → ℕ → ℕ → ℕ
  later_unless now days n = if ltb now n then n else n + days * one_day

  abbrev pub next_of : Kind → ScheduleSpec → ℕ → Option ℕ
  next_of off s now = none
  next_of daily s now = some (later_unless now 1 (cal.midnight now + s.offset))
  next_of weekly s now =
      let day = cal.midnight now in
      let ahead = (s.weekday + 7 - cal.weekday day) % 7 in
      some (later_unless now 7 (day + ahead * one_day + s.offset))
  next_of monthly s now =
      let n = cal.day_of_month false s.day now + s.offset in
      some (if ltb now n then n else cal.day_of_month true s.day now + s.offset)

  -- `Next`
  unfoldable pub next : ScheduleSpec → ℕ → Option ℕ
  next s now = next_of s.kind s now

  -- the loop over the components
  unfoldable pub scan : List (String × ScheduleSpec) → ℕ → List String × ℕ → List String × ℕ
  unfolding next
  scan [] now found = found
  scan ((name, spec) ∷ rest) now found =
      scan rest now (slot_seen name (next spec (now - jitter)) now found)

  -- One round of `RunScheduler`: the components that are due, and the wait for the next round.
  unfoldable pub scheduler_round : List (String × ScheduleSpec) → ℕ → List String × ℕ
  unfolding scan
  scheduler_round specs now = rested (scan specs now ([], 3600))
