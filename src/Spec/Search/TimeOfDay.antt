-- ===== src/Spec/Search/TimeOfDay.antt =====
-- The hour, minute and second loops of the search in a location with one UTC offset.
use native.Mathlib.Decide.{dec_lt}
use go_cron.Prelude.{
  ℕ, zero, suc, ◌+◌, ◌*◌, ◌/◌, ◌%◌, ◌≤◌, ◌<◌, ◌≡◌, refl, ap, ◌∙◌, Bool, true, false, ◌==◌, inl, inr,
  none, leb, if◌then◌else◌, Bool-cases, arith,
}
use go_cron.Prelude.Int.{ℤ, pos_part}
use go_cron.Time.Calendar
use go_cron.Time.Calendar.{Date}
use go_cron.Time.Calendar.Laws.{day-suc}
use go_cron.Time.Wall
use go_cron.Time.Wall.{nanos}
use go_cron.Spec.{field_matches}
use go_cron.Spec.Fixed
use go_cron.Spec.Fixed.{at}
use go_cron.Spec.Search.{advance_hour, advance_minutes, advance_minute, advance_second}
use go_cron.Spec.Search.Lands.{Skips, Skips-join, Lands, Lands-extend, Lands-here, Lands-wrap}

abbrev pub hour_test : ℕ → ℕ → Bool
hour_test bits u = field_matches (u % 86400 / 3600) bits

abbrev pub minute_test : ℕ → ℕ → Bool
minute_test bits u = field_matches (u % 3600 / 60) bits

abbrev pub second_test : ℕ → ℕ → Bool
second_test bits u = field_matches (u % 60) bits

if_same {ℓ} : {A : Type ℓ} (b : Bool) (x : A) → (if b then x else x) ≡ x
if_same true x = refl
if_same false x = refl

day-at :
    (off : ℤ) (w : ℕ) → pos_part off ≤ w → Wall.day (at off w) ≡ (Calendar.civil (w / 86400)).day
day-at off w h = ap (λ (c : Date). c.day) (Fixed.wall_date-at off w h)

module _ (off : ℤ) (bits : ℕ) where
  same_day :
      (v w : ℕ)
      → pos_part off ≤ w
      → pos_part off ≤ v
      → v / 86400 ≡ w / 86400
      → (Wall.day (at off v) == Wall.day (at off w)) ≡ true
  same_day v w h k e =
      let days = ap (λ (d : ℕ). (Calendar.civil d).day) e in
      ground (arith, day-at off w h, day-at off v k, days)

  next_day_differs :
      (v w : ℕ)
      → pos_part off ≤ w
      → pos_part off ≤ v
      → v / 86400 ≡ w / 86400 + 1
      → (Wall.day (at off v) == Wall.day (at off w)) ≡ false
  next_day_differs v w h k e =
      let days = ap (λ (d : ℕ). (Calendar.civil d).day) e in
      ground (arith, day-at off w h, day-at off v k, days, day-suc (w / 86400))

  -- A failed test holds for the rest of the hour.
  hour_fails : (w : ℕ) → hour_test bits w ≡ false → Skips (hour_test bits) w ((w / 3600 + 1) * 3600)
  hour_fails w e u p q = ap (λ (k : ℕ). field_matches k bits) (omega arith) ∙ e

  pub advance_hour-Lands :
      (fuel w d : ℕ) (added : Bool)
      → pos_part off ≤ w
      → w / 86400 ≡ d
      → (d + 1) * 86400 ≤ w + fuel
      → Lands off (hour_test bits) w ((d + 1) * 86400) (advance_hour fuel (at off w) bits added)
  unfolding advance_hour
  advance_hour-Lands zero w d added h e f = absurd (omega arith)
  advance_hour-Lands (suc fuel) w d added h e f =
      let n = (w / 3600 + 1) * 3600 in
      let hn : pos_part off ≤ n = omega arith in
      elim (Bool-cases (hour_test bits w)) [
        | inl t ↦
            rw (Fixed.hour-at off w h, t)
              (Lands-here off (hour_test bits) w _ added (omega arith) t)
        | inr t ↦ elim (dec_lt n ((d + 1) * 86400)) [
          | yes lt ↦
              rw
                (
                  Fixed.hour-at off w h,
                  t,
                  Fixed.next_hour_start-at off w h,
                  same_day n w h hn (omega arith),
                )
                (Lands-extend off (hour_test bits) w n _ _ (omega arith) (hour_fails w t)
                  (advance_hour-Lands fuel n d true hn (omega arith) (omega arith)))
          | no ge ↦
              rw
                (
                  Fixed.hour-at off w h,
                  t,
                  Fixed.next_hour_start-at off w h,
                  next_day_differs n w h hn (omega arith),
                )
                (Lands-wrap off (hour_test bits) w n _ true (omega arith) (omega arith)
                  (hour_fails w t))
        ]
      ]

  minute_fails :
      (w : ℕ) → minute_test bits w ≡ false → Skips (minute_test bits) w ((w / 60 + 1) * 60)
  minute_fails w e u p q = ap (λ (k : ℕ). field_matches k bits) (omega arith) ∙ e

  -- The rounds after the first step, at the full minute `v`.
  advance_minutes-Lands :
      (fuel lo v d : ℕ)
      → pos_part off ≤ v
      → v % 60 ≡ 0
      → d * 3600 < v
      → v ≤ (d + 1) * 3600
      → (d + 1) * 3600 < v + fuel
      → lo < v
      → Skips (minute_test bits) lo v
      → Lands off (minute_test bits) lo ((d + 1) * 3600) (advance_minutes fuel none (at off v) bits)
  unfolding advance_minutes
  advance_minutes-Lands zero lo v d h full a b f lt s = absurd (omega arith)
  advance_minutes-Lands (suc fuel) lo v d h full a b f lt s = elim (dec_lt v ((d + 1) * 3600)) [
    | yes more ↦
        let inside : (v % 3600 / 60 == 0) ≡ false = ground arith in
        elim (Bool-cases (minute_test bits v)) [
          | inl t ↦
              rw (Fixed.minute-at off v h, inside, t)
                (Lands-extend off (minute_test bits) lo v _ _ (omega arith) s
                  (Lands-here off (minute_test bits) v _ true more t))
          | inr t ↦
              let n = (v / 60 + 1) * 60 in
              let next : v + 60 ≡ n = omega arith in
              rw
                (
                  Fixed.minute-at off v h,
                  inside,
                  t,
                  Fixed.add-at off v h 60 (60 * nanos) refl,
                  next,
                )
                (advance_minutes-Lands fuel lo n d (omega arith) (omega arith) (omega arith)
                  (omega arith) (omega arith) (omega arith)
                  (Skips-join (minute_test bits) lo v n s (minute_fails v t)))
        ]
    | no last ↦
        let over : v % 3600 / 60 ≡ 0 = omega arith in
        rw (Fixed.minute-at off v h, over) (Lands-wrap off (minute_test bits) lo v _ true lt b s)
  ]

  pub advance_minute-Lands :
      (fuel w d : ℕ) (added : Bool)
      → pos_part off ≤ w
      → w / 3600 ≡ d
      → (d + 1) * 3600 ≤ w + fuel
      → Lands off (minute_test bits) w ((d + 1) * 3600) (advance_minute fuel (at off w) bits added)
  unfolding advance_minute
  advance_minute-Lands fuel w d added h e f = elim (Bool-cases (minute_test bits w)) [
    | inl t ↦
        rw (Fixed.minute-at off w h, t)
          (Lands-here off (minute_test bits) w _ added (omega arith) t)
    | inr t ↦
        let n = (w / 60 + 1) * 60 in
        rw
          (
            Fixed.minute-at off w h,
            t,
            Fixed.zone_end_after-at off w h,
            Fixed.next_minute_start-at off w h,
          )
          (advance_minutes-Lands fuel w n d (omega arith) (omega arith) (omega arith) (omega arith)
            (omega arith) (omega arith) (minute_fails w t))
  ]

  second_fails : (w : ℕ) → second_test bits w ≡ false → Skips (second_test bits) w (w + 1)
  second_fails w e u p q = ap (λ (k : ℕ). field_matches (k % 60) bits) (omega arith) ∙ e

  pub advance_second-Lands :
      (fuel w d : ℕ) (added : Bool)
      → pos_part off ≤ w
      → w / 60 ≡ d
      → (d + 1) * 60 ≤ w + fuel
      → Lands off (second_test bits) w ((d + 1) * 60) (advance_second fuel (at off w) bits added)
  unfolding advance_second
  advance_second-Lands zero w d added h e f = absurd (omega arith)
  advance_second-Lands (suc fuel) w d added h e f =
      let whole : (if added then at off w else Wall.truncate (at off w)) ≡ at off w =
        rw (Fixed.truncate-at off w h) (if_same added (at off w)) in
      let hn : pos_part off ≤ w + 1 = omega arith in
      elim (Bool-cases (second_test bits w)) [
        | inl t ↦
            rw (Fixed.second-at off w h, t)
              (Lands-here off (second_test bits) w _ added (omega arith) t)
        | inr t ↦ elim (dec_lt (w + 1) ((d + 1) * 60)) [
          | yes lt ↦
              let later : leb ((w + 1) % 60) (w % 60) ≡ false = ground arith in
              rw
                (
                  Fixed.second-at off w h,
                  t,
                  whole,
                  Fixed.add-at off w h 1 nanos refl,
                  Fixed.second-at off (w + 1) hn,
                  later,
                )
                (Lands-extend off (second_test bits) w (w + 1) _ _ (omega arith) (second_fails w t)
                  (advance_second-Lands fuel (w + 1) d true hn (omega arith) (omega arith)))
          | no ge ↦
              let over : leb ((w + 1) % 60) (w % 60) ≡ true = ground arith in
              rw
                (
                  Fixed.second-at off w h,
                  t,
                  whole,
                  Fixed.add-at off w h 1 nanos refl,
                  Fixed.second-at off (w + 1) hn,
                  over,
                )
                (Lands-wrap off (second_test bits) w (w + 1) _ true (omega arith) (omega arith)
                  (second_fails w t))
        ]
      ]
