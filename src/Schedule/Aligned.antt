-- ===== src/Schedule/Aligned.antt =====
-- aligned.go.
pub mod Laws
use go_cron.Prelude.{ℕ, ◌+◌, ◌-◌, ◌*◌, ◌/◌, ◌%◌, ◌^◌, ◌==◌, if◌then◌else◌}
use go_cron.Prelude.Int.{ℤ, pos, ◌+ℤ◌, ◌-ℤ◌, sub_ℕ, rem, to_uint64, ltb_ℤ, leb_ℤ}
use go_cron.Time.Wall
use go_cron.Time.Wall.{Time, nanos}
use go_cron.Schedule.{add_duration}
use go_cron.Schedule.Delay.{second, every_with_min}

pub record AlignedSchedule : Type 0 where
  pub interval : ℤ

-- 1970-01-01 in seconds since 0000-01-01.
abbrev pub epoch : ℕ
epoch = 62167219200

-- `t.Unix()`
unfoldable pub unix : Time → ℤ
unix t = sub_ℕ (Wall.unix_sec t) epoch

unfoldable pub floor_mod : ℤ → ℕ → ℤ
floor_mod a b = let m = rem a b in if ltb_ℤ m (pos 0) then m +ℤ pos b else m

-- `bits.Rem64`
unfoldable pub rem64 : ℕ → ℕ → ℕ → ℕ
rem64 hi lo n = (hi * 2 ^ 64 + lo) % n

-- `d` is `uint64` of the interval; `product` is the pair that `bits.Mul64` returns, as one number.
unfoldable pub grid_offset : Time → ℕ → ℕ
grid_offset t d =
    let sec_rem = to_uint64 (floor_mod (unix t) d) in
    let product = sec_rem * (nanos % d) in
    let r = rem64 (product / 2 ^ 64) (product % 2 ^ 64) d in
    (r + Wall.nanosecond t % d) % 2 ^ 64 % d

unfoldable pub every_aligned_with_min : ℤ → ℤ → AlignedSchedule
every_aligned_with_min d min_interval = record { interval = (every_with_min d min_interval).delay }

unfoldable pub next : AlignedSchedule → Time → Time
next s t =
    if leb_ℤ s.interval (pos 0)
    then add_duration t second
    else add_duration t (s.interval -ℤ pos (grid_offset t (to_uint64 s.interval)))

unfoldable pub prev : AlignedSchedule → Time → Time
prev s t =
    if leb_ℤ s.interval (pos 0)
    then add_duration t (pos 0 -ℤ second)
    else let off = grid_offset t (to_uint64 s.interval) in
      add_duration t (pos 0 -ℤ (if off == 0 then s.interval else pos off))
