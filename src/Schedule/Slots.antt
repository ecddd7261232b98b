-- ===== src/Schedule/Slots.antt =====
-- When internal/update/schedule.go runs an update.
use mathlib.Core.List.{Memᴰ}
use edge_route_gw.Prelude.{
  ℕ, ◌+◌, ◌-◌, ◌*◌, ◌%◌, ◌<◌, ◌≤◌, String, true, false, not, List, [], ◌∷◌, ◌++◌, Option, none,
  some, ◌≡◌, refl, sym, ap, ◌∙◌, arith, ltb, is_nil, ◌⊎◌, inl, inr, Bool-cases,
}
use edge_route_gw.Schedule.{
  Kind, off, daily, weekly, monthly, ScheduleSpec, one_day, Calendar, IsCalendar, later_unless,
  next_of, next, slot_seen, scan, rested, scheduler_round,
}

module _ (cal : Calendar) (laws : IsCalendar cal) where
  next_of-later :
      (k : Kind) (s : ScheduleSpec) (now n : ℕ)
      → (k ≡ monthly → 1 ≤ s.day)
      → next_of cal k s now ≡ some n
      → now < n
  next_of-later off s now n d h = ground arith
  next_of-later daily s now n d h = ground (arith, laws.midnight_within now)
  next_of-later weekly s now n d h = ground (arith, laws.midnight_within now)
  next_of-later monthly s now n d h = ground (arith, laws.next_month_later now s.day (d refl))

  -- The next run is after now.
  next-later :
      (s : ScheduleSpec) (now n : ℕ)
      → (s.kind ≡ monthly → 1 ≤ s.day)
      → next cal s now ≡ some n
      → now < n
  unfolding next
  next-later s now n d h = next_of-later s.kind s now n d h

  -- The first instant of the day that is so many days ahead.
  weekday_ahead :
      (now d o : ℕ)
      → o < one_day
      → cal.weekday (cal.midnight now + d * one_day + o) ≡ (cal.weekday (cal.midnight now) + d) % 7
  weekday_ahead now d o h =
      sym (laws.weekday_midnight (cal.midnight now + d * one_day + o))
      ∙ (ap cal.weekday (laws.midnight_again now d o h) ∙ laws.weekday_later (cal.midnight now) d)

  -- The days ahead of a weekly run: this week or the next one.
  later_week :
      (now day ahead o n : ℕ)
      → some (later_unless cal now 7 (day + ahead * one_day + o)) ≡ some n
      → (n ≡ day + ahead * one_day + o)
        ⊎ ((n ≡ day + (ahead + 7) * one_day + o) × (day + ahead * one_day + o ≤ now))
  later_week now day ahead o n h = elim (Bool-cases (ltb now (day + ahead * one_day + o))) [
    | inl soon ↦ inl (ground (arith, soon))
    | inr past ↦ inr (ground (arith, past), ground (arith, past))
  ]

  next_of-weekly :
      (s : ScheduleSpec) (now n : ℕ)
      → s.weekday < 7
      → s.offset < one_day
      → next_of cal weekly s now ≡ some n
      → (cal.weekday n ≡ s.weekday) × (now < n) × (n ≤ now + 7 * one_day)
  next_of-weekly s now n w o h =
      let day = cal.midnight now in
      let today = cal.weekday day in
      let ahead = (s.weekday + 7 - today) % 7 in
      let small = laws.weekday_small day in
      elim (later_week now day ahead s.offset n h) [
        | inl e ↦ (
          ap cal.weekday e ∙ (weekday_ahead now ahead s.offset o ∙ omega (arith, small, w)),
          next_of-later weekly s now n (λ e. absurd (cc)) h,
          omega (arith, e, o, laws.midnight_before now),
        )
        | inr (e, passed) ↦ (
          ap cal.weekday e ∙ (weekday_ahead now (ahead + 7) s.offset o ∙ omega (arith, small, w)),
          next_of-later weekly s now n (λ e. absurd (cc)) h,
          omega (arith, e, passed),
        )
      ]

  -- A weekly schedule runs on its day of the week, after now and within seven days.
  pub next-weekly :
      (s : ScheduleSpec) (now n : ℕ)
      → s.kind ≡ weekly
      → s.weekday < 7
      → s.offset < one_day
      → next cal s now ≡ some n
      → (cal.weekday n ≡ s.weekday) × (now < n) × (n ≤ now + 7 * one_day)
  unfolding next
  next-weekly s now n k w o h =
      next_of-weekly s now n w o (ap (λ q. next_of cal q s now) (sym k) ∙ h)

append-ne-nil : (due : List String) (name : String) → is_nil (due ++ name ∷ []) ≡ false
append-ne-nil [] name = refl
append-ne-nil (d ∷ due) name = refl

slot_seen-due :
    (name : String) (o : Option ℕ) (now : ℕ) (found : List String × ℕ)
    → is_nil found.0 ≡ false
    → is_nil (slot_seen name o now found).0 ≡ false
slot_seen-due name none now (due, wait) h = h
slot_seen-due name (some slot) now (due, wait) h = elim (Bool-cases (not (ltb now slot))) [
  | inl hit ↦ rw hit (append-ne-nil due name)
  | inr later ↦ rw later h
]

slot_seen-some :
    (name : String) (slot now : ℕ) (found : List String × ℕ)
    → slot ≤ now
    → is_nil (slot_seen name (some slot) now found).0 ≡ false
slot_seen-some name slot now (due, wait) h =
    let hit : not (ltb now slot) ≡ true = ground arith in rw hit (append-ne-nil due name)

rested-waits : (found : List String × ℕ) → is_nil found.0 ≡ false → 180 ≤ (rested found).1
rested-waits ([], wait) h = absurd (cc)
rested-waits (d ∷ due, wait) h = ground arith

module _ (cal : Calendar) where
  scan-due :
      (specs : List (String × ScheduleSpec)) (now : ℕ) (found : List String × ℕ)
      → is_nil found.0 ≡ false
      → is_nil (scan cal specs now found).0 ≡ false
  unfolding scan
  scan-due [] now found h = h
  scan-due ((name, spec) ∷ rest) now found h =
      scan-due rest now _ (slot_seen-due name (next cal spec (now - 120)) now found h)

  scan-mem :
      (specs : List (String × ScheduleSpec)) (now : ℕ) (found : List String × ℕ) (name : String)
      (spec : ScheduleSpec) (slot : ℕ)
      → Memᴰ (name, spec) specs
      → next cal spec (now - 120) ≡ some slot
      → slot ≤ now
      → is_nil (scan cal specs now found).0 ≡ false
  unfolding scan
  scan-mem [] now found name spec slot m e h = elim m [ ]
  scan-mem ((other, spec') ∷ rest) now found name spec slot (Memᴰ.head q) e h =
      let same : next cal spec' (now - 120) ≡ some slot =
        ap (λ p. next cal p.1 (now - 120)) (sym q) ∙ e in
      scan-due rest now _ (rw same (slot_seen-some other slot now found h))
  scan-mem ((other, spec') ∷ rest) now found name spec slot (Memᴰ.tail m) e h =
      scan-mem rest now _ name spec slot m e h

  -- A slot is used once: if a component has a slot that has come, and its day is not 0 if it is run
  -- monthly, then in the next round, after the wait that the scheduler keeps, the slot that it has is a
  -- later one.
  pub scheduler_round-moves_on :
      (laws : IsCalendar cal) (specs : List (String × ScheduleSpec)) (name : String)
      (spec : ScheduleSpec) (now later slot slot' : ℕ)
      → (spec.kind ≡ monthly → 1 ≤ spec.day)
      → Memᴰ (name, spec) specs
      → next cal spec (now - 120) ≡ some slot
      → slot ≤ now
      → now + (scheduler_round cal specs now).1 ≤ later
      → next cal spec (later - 120) ≡ some slot'
      → slot < slot'
  unfolding scheduler_round
  scheduler_round-moves_on laws specs name spec now later slot slot' d m e h w e' =
      let waits =
        rested-waits (scan cal specs now ([], 3600))
          (scan-mem specs now ([], 3600) name spec slot m e h) in
      omega (arith, waits, w, next-later cal laws spec (later - 120) slot' d e')
