-- ===== src/Schedule/Accepted.antt =====
-- What a schedule that internal/update/schedule.go accepts means.
use edge_route_gw.Prelude.{
  ℕ, ◌+◌, ◌*◌, ◌<◌, ◌≤◌, String, true, ◌||◌, List, [], ◌∷◌, Option, none, some, ◌≡◌, refl, arith,
  ltb, all, inl, inr, Bool-cases,
}
use edge_route_gw.Text.{to_lower, trim_space}
use edge_route_gw.Schedule.{
  weekly, ScheduleSpec, one_day, Calendar, IsCalendar, next, bad_day, ok, err, fields, at_time,
  find_day, weekdays, parse_daily, on_weekday, parse_weekly, on_day, parse_monthly, parse_fields,
  parse_schedule,
}
use edge_route_gw.Schedule.Slots.{next-weekly}

-- A weekday that is found, and a time within the day.
abbrev pub IsValid : ScheduleSpec → Type 0
IsValid s = (s.weekday < 7) × (s.offset < one_day)

module _ (time_of_day atoi : String → Option ℕ)
    (within : (t : String) (o : ℕ) → time_of_day t ≡ some o → o < one_day) where
  at_time-IsValid :
      (o : Option ℕ) (spec s : ScheduleSpec)
      → ((n : ℕ) → o ≡ some n → n < one_day)
      → spec.weekday < 7
      → at_time o spec ≡ ok s
      → IsValid s
  at_time-IsValid none spec s k w h = ground arith
  at_time-IsValid (some n) spec s k w h = let small = k n refl in ground (arith, small)

  parse_daily-IsValid :
      (fs : List String) (s : ScheduleSpec) → parse_daily time_of_day atoi fs ≡ ok s → IsValid s
  parse_daily-IsValid [] s h = ground arith
  parse_daily-IsValid (t ∷ []) s h = at_time-IsValid (time_of_day t) _ s (within t) (omega arith) h
  parse_daily-IsValid (t ∷ u ∷ fs) s h = ground arith

  find_day-small :
      (d : String) (n : ℕ) (table : List (String × ℕ))
      → all (λ e. ltb e.1 7) table ≡ true
      → find_day d table ≡ some n
      → n < 7
  find_day-small d n [] k h = ground arith
  find_day-small d n (e ∷ table) k h = ground (arith, find_day-small d n table)

  on_weekday-IsValid :
      (o : Option ℕ) (t : String) (s : ScheduleSpec)
      → ((n : ℕ) → o ≡ some n → n < 7)
      → on_weekday time_of_day atoi o t ≡ ok s
      → IsValid s
  on_weekday-IsValid none t s k h = ground arith
  on_weekday-IsValid (some d) t s k h = at_time-IsValid (time_of_day t) _ s (within t) (k d refl) h

  parse_weekly-IsValid :
      (fs : List String) (s : ScheduleSpec) → parse_weekly time_of_day atoi fs ≡ ok s → IsValid s
  parse_weekly-IsValid [] s h = ground arith
  parse_weekly-IsValid (d ∷ []) s h = ground arith
  parse_weekly-IsValid (d ∷ t ∷ []) s h =
      on_weekday-IsValid (find_day d weekdays) t s (λ n. find_day-small d n weekdays refl) h
  parse_weekly-IsValid (d ∷ t ∷ u ∷ fs) s h = ground arith

  on_day-IsValid :
      (o : Option ℕ) (t : String) (s : ScheduleSpec)
      → on_day time_of_day atoi o t ≡ ok s
      → IsValid s
  on_day-IsValid none t s h = ground arith
  on_day-IsValid (some d) t s h = elim (Bool-cases (ltb d 1 || ltb 28 d)) [
    | inl bad ↦ absurd (fail (rw bad at h))
    | inr good ↦ at_time-IsValid (time_of_day t) _ s (within t) (omega arith) (rw good at h)
  ]
    where
      fail : err bad_day ≡ ok s → ⊥
      fail e = cc

  parse_monthly-IsValid :
      (fs : List String) (s : ScheduleSpec) → parse_monthly time_of_day atoi fs ≡ ok s → IsValid s
  parse_monthly-IsValid [] s h = ground arith
  parse_monthly-IsValid (d ∷ []) s h = ground arith
  parse_monthly-IsValid (d ∷ t ∷ []) s h = on_day-IsValid (atoi d) t s h
  parse_monthly-IsValid (d ∷ t ∷ u ∷ fs) s h = ground arith

  parse_fields-IsValid :
      (fs : List String) (s : ScheduleSpec) → parse_fields time_of_day atoi fs ≡ ok s → IsValid s
  parse_fields-IsValid [] s h = ground arith
  parse_fields-IsValid (f ∷ rest) s h =
      ground (
        arith,
        parse_daily-IsValid rest s,
        parse_weekly-IsValid rest s,
        parse_monthly-IsValid rest s,
      )

  -- A text that is accepted gives a day of the week and a time within the day, if the times that are
  -- read lie within the day.
  pub parse_schedule-IsValid :
      (v : String) (s : ScheduleSpec) → parse_schedule time_of_day atoi v ≡ ok s → IsValid s
  unfolding parse_schedule
  parse_schedule-IsValid v s h = parse_fields-IsValid (fields (to_lower (trim_space v))) s h

  -- A weekly schedule that was accepted runs on its day of the week, after now and within seven days,
  -- in a calendar that behaves as documented.
  pub parse_schedule-weekly :
      (cal : Calendar) (laws : IsCalendar cal) (v : String) (s : ScheduleSpec) (now n : ℕ)
      → parse_schedule time_of_day atoi v ≡ ok s
      → s.kind ≡ weekly
      → next cal s now ≡ some n
      → (cal.weekday n ≡ s.weekday) × (now < n) × (n ≤ now + 7 * one_day)
  parse_schedule-weekly cal laws v s now n p k h =
      let (w, o) = parse_schedule-IsValid v s p in next-weekly cal laws s now n k w o h
