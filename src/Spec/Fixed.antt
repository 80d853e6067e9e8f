-- ===== src/Spec/Fixed.antt =====
-- The functions of `Zones` and `Dates` in a location whose UTC offset never changes: the time
-- `at w`, whose wall clock shows `w` seconds, steps to the next full minute, hour, day or month.
use go_cron.Prelude.{ℕ, ◌+◌, ◌*◌, ◌/◌, ◌%◌, ◌≤◌, ◌<◌, ◌≡◌, refl, ap, ◌∙◌, true, [], none, arith}
use go_cron.Prelude.Int.{ℤ, pos_part}
use go_cron.Time.Calendar
use go_cron.Time.Calendar.{Date}
use go_cron.Time.Calendar.Laws.{days_of-civil}
use go_cron.Time.Wall
use go_cron.Time.Wall.{Time, Location, nanos}
use go_cron.Spec.Zones.{
  earlier_copy, later_copy, zone_end_after, next_minute_start, next_full_hour, or_change,
  next_hour_start, wall_day,
}
use go_cron.Spec.Dates.{date_start, next_day}

abbrev pub fixed : ℤ → Location
fixed off = record { first_offset = off; transitions = [] }

module _ (off : ℤ) where
  unfoldable pub at : ℕ → Time
  unfolding Wall.unshift
  at w = record { ns = Wall.unshift w off * nanos; loc = fixed off }

  module _ (w : ℕ) (h : pos_part off ≤ w) where
    pub wall-at : Wall.wall (at w) ≡ w
    unfolding Wall.wall at
    wall-at = omega arith

    pub hour-at : Wall.hour (at w) ≡ w % 86400 / 3600
    unfolding Wall.hour at
    hour-at = omega arith

    pub minute-at : Wall.minute (at w) ≡ w % 3600 / 60
    unfolding Wall.minute at
    minute-at = omega arith

    pub second-at : Wall.second (at w) ≡ w % 60
    unfolding Wall.second at
    second-at = omega arith

    pub nanosecond-at : Wall.nanosecond (at w) ≡ 0
    unfolding Wall.nanosecond at
    nanosecond-at = omega arith

    pub wall_day-at : wall_day (at w) ≡ w / 86400
    unfolding wall_day at Wall.wall
    wall_day-at = omega arith

    pub weekday-at : Wall.weekday (at w) ≡ (w / 86400 + 6) % 7
    unfolding Wall.weekday at
    weekday-at = omega arith

    pub wall_date-at : Wall.wall_date (at w) ≡ Calendar.civil (w / 86400)
    wall_date-at = unfold Wall.wall_date in ap (λ (d : ℕ). Calendar.civil (d / 86400)) wall-at

    pub add-at : (k n : ℕ) → n ≡ k * nanos → Wall.add (at w) n ≡ at (w + k)
    unfolding Wall.add at
    add-at k n e = ap (λ (m : ℕ). record { ns = m; loc = fixed off }) (omega arith)

    pub truncate-at : Wall.truncate (at w) ≡ at w
    unfolding Wall.truncate at
    truncate-at = ap (λ (m : ℕ). record { ns = m; loc = fixed off }) (omega arith)

    pub earlier_copy-at : earlier_copy (at w) ≡ at w
    unfolding earlier_copy at Wall.zone_start
    earlier_copy-at = refl

    pub later_copy-at : later_copy (at w) ≡ at w
    unfolding later_copy at Wall.zone_end
    later_copy-at = refl

    pub zone_end_after-at : zone_end_after (at w) ≡ none
    unfolding zone_end_after at Wall.zone_end
    zone_end_after-at = refl

    pub next_minute_start-at : next_minute_start (at w) ≡ at ((w / 60 + 1) * 60)
    unfolding next_minute_start at Wall.add Wall.second Wall.nanosecond
    next_minute_start-at = ap (λ (m : ℕ). record { ns = m; loc = fixed off }) (omega arith)

  pub after-at : (v w : ℕ) → pos_part off ≤ w → w < v → Wall.after (at v) (at w) ≡ true
  unfolding at
  after-at v w h lt = ground arith

  loc-at : (w : ℕ) → (at w).loc ≡ fixed off
  unfolding at
  loc-at w = refl

  pub date-at :
      (y mo d h mi s : ℕ)
      → Wall.date y mo d h mi s (fixed off)
        ≡ at (Calendar.days_of y mo d * 86400 + h * 3600 + mi * 60 + s)
  unfolding Wall.date at
  date-at y mo d h mi s = refl

  -- The start of a date that lies ahead.
  pub date_start-at :
      (y mo d w : ℕ)
      → pos_part off ≤ w
      → w < Calendar.days_of y mo d * 86400
      → date_start y mo d (fixed off) (at w) ≡ at (Calendar.days_of y mo d * 86400)
  unfolding date_start
  date_start-at y mo d w h lt =
      let v = Calendar.days_of y mo d * 86400 in
      let m : Wall.date y mo d 0 0 0 (fixed off) ≡ at v =
        date-at y mo d 0 0 0 ∙ ap at (omega arith) in
      let hv : pos_part off ≤ v = omega arith in
      rw (m, wall_day-at v hv, hour-at v hv, minute-at v hv, second-at v hv, earlier_copy-at v hv)
        (ground (arith, after-at v w h lt))

  -- `time.Date` with the wall date of `at w` and the day `k` days on.
  pub days_of-at :
      (w k : ℕ)
      → pos_part off ≤ w
      → Calendar.days_of (Wall.year (at w)) (Wall.month (at w)) (Wall.day (at w) + k)
        ≡ w / 86400 + k
  days_of-at w k h =
      ap (λ (c : Date). Calendar.days_of c.year c.month (c.day + k)) (wall_date-at w h)
      ∙ days_of-civil (w / 86400) k

  next_full_hour-at :
      (w : ℕ)
      → pos_part off ≤ w
      → next_full_hour (at w) ((w % 86400 / 3600 + 1) % 24) ≡ at ((w / 3600 + 1) * 3600)
  unfolding next_full_hour Wall.hour at
  next_full_hour-at w h =
      let v = (w / 3600 + 1) * 3600 in
      let hv : pos_part off ≤ v = omega arith in
      let today : Calendar.days_of (Wall.year (at w)) (Wall.month (at w)) (Wall.day (at w))
          ≡ w / 86400 =
        ap (Calendar.days_of (Wall.year (at w)) (Wall.month (at w))) (omega arith)
        ∙ days_of-at w 0 h
        ∙ omega arith in
      let next : Wall.date (Wall.year (at w)) (Wall.month (at w)) (Wall.day (at w))
            (Wall.hour (at w) + 1) 0 0 (fixed off)
          ≡ at v =
        date-at _ _ _ _ 0 0 ∙ ap at (omega (arith, today, hour-at w h)) in
      let reads : v % 86400 / 3600 ≡ (w % 86400 / 3600 + 1) % 24 = omega arith in
      let full : v % 3600 / 60 ≡ 0 = omega arith in
      rw (loc-at w, next, hour-at v hv, minute-at v hv, earlier_copy-at v hv, reads, full)
        (ground (arith, after-at v w h (omega arith)))

  or_change-at : (w : ℕ) (next : Time) → pos_part off ≤ w → or_change (at w) next ≡ next
  unfolding or_change zone_end_after Wall.zone_end at
  or_change-at w next h = refl

  pub next_hour_start-at :
      (w : ℕ) → pos_part off ≤ w → next_hour_start (at w) ≡ at ((w / 3600 + 1) * 3600)
  unfolding next_hour_start
  next_hour_start-at w h =
      let hv : pos_part off ≤ w + 3600 = omega arith in
      let full : w % 3600 ≡ 0 → at (w + 3600) ≡ at ((w / 3600 + 1) * 3600) =
        λ e. ap at (omega arith) in
      rw
        (
          add-at w h 3600 (3600 * nanos) refl,
          or_change-at w _ h,
          hour-at w h,
          minute-at w h,
          second-at w h,
          nanosecond-at w h,
          hour-at (w + 3600) hv,
          minute-at (w + 3600) hv,
          next_full_hour-at w h,
        )
        (ground (arith, full))

  pub next_day-at : (w : ℕ) → pos_part off ≤ w → next_day (at w) ≡ at ((w / 86400 + 1) * 86400)
  unfolding next_day at
  next_day-at w h =
      let d = days_of-at w 1 h in
      date_start-at _ _ _ w h (omega (arith, d)) ∙ ap (λ (k : ℕ). at (k * 86400)) d
