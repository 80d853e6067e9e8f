-- ===== src/Schedule/Aligned/Laws.antt =====
-- Where the runs of aligned.go lie.
use native.Mathlib.Nat.{
  mul_comm, mod-add-mod, mod-lt, mod-mod, mod-eq_of_lt, add-mod, div-add-mod, mul-add-mod_self_left,
  add-mod_right,
}
use go_cron.Prelude.{
  ℕ, suc, ◌+◌, ◌-◌, ◌*◌, ◌/◌, ◌%◌, ◌^◌, ◌≤◌, ◌<◌, ◌≡◌, refl, sym, ap, ◌∙◌, ◌==◌, ==_iff,
  if◌then◌else◌, Bool-cases, inl, inr, arith,
}
use go_cron.Prelude.Int.{ℤ, pos, negsuc, pos_part, neg_part, ◌+ℤ◌, ◌-ℤ◌, rem, to_uint64}
use go_cron.Prelude.Mod.{add-mod_same, mul-mod_same, mul-mod_rest, mod-cancel, mod-apart}
use go_cron.Time.Wall
use go_cron.Time.Wall.{Time, nanos}
use go_cron.Schedule.{add_duration}
use go_cron.Schedule.Aligned
use go_cron.Schedule.Aligned.{AlignedSchedule, epoch, unix, floor_mod, rem64, grid_offset}

-- `floorMod` returns a value in [0, d) with the remainder of its argument.
record IsRest (a : ℤ) (d m : ℕ) : Type 0 where
  is : floor_mod a d ≡ pos m
  below : m < d
  same : (m + neg_part a) % d ≡ pos_part a % d

negative_rest : (k d : ℕ) → 0 < d → 0 < suc k % d → (d - suc k % d + suc k) % d ≡ 0 % d
negative_rest k d h p =
    let r = mod-lt (suc k) h in
    let e : d - suc k % d + suc k ≡ d * (suc k / d + 1) + 0 =
      grind (arith, div-add-mod (suc k) d) in
    ap (λ (x : ℕ). x % d) e ∙ mul-add-mod_self_left d (suc k / d + 1) 0

floor_mod-IsRest : (a : ℤ) (d : ℕ) → 0 < d → (m : ℕ) × IsRest a d m
unfolding floor_mod rem ◌-ℤ◌ ◌+ℤ◌
floor_mod-IsRest (pos n) d h = (
  n % d,
  record {
    is = ground arith;
    below = mod-lt n h;
    same = ap (λ (x : ℕ). x % d) (omega arith) ∙ mod-mod n d;
  },
)
floor_mod-IsRest (negsuc k) d h = elim (Bool-cases (suc k % d == 0)) [
  | inl t ↦
      let z : suc k % d ≡ 0 = (==_iff (suc k % d) 0).0 t in
      (
        0,
        record {
          is = rw z refl;
          below = h;
          same = ap (λ (x : ℕ). x % d) (omega arith) ∙ z ∙ sym (mod-eq_of_lt h);
        },
      )
  | inr t ↦
      let p : 0 < suc k % d = ground arith in
      let r = mod-lt (suc k) h in
      (
        d - suc k % d,
        record { is = ground arith; below = omega arith; same = negative_rest k d h p },
      )
]

-- The seconds: `m` seconds past a multiple of `d`, counted from 1970.
unix_rest :
    (t : Time) (d m : ℕ)
    → 0 < d
    → (m + neg_part (unix t)) % d ≡ pos_part (unix t) % d
    → (m + epoch) % d ≡ Wall.unix_sec t % d
unfolding unix
unix_rest t d m h same =
    let a = pos_part (unix t) in
    let b = neg_part (unix t) in
    let e : a + epoch ≡ Wall.unix_sec t + b = ground arith in
    let swap : m + epoch + b ≡ m + b + epoch = omega arith in
    mod-cancel d (m + epoch) (Wall.unix_sec t) b h
      (ap (λ (x : ℕ). x % d) swap ∙ add-mod_same d (m + b) a epoch same ∙ ap (λ (x : ℕ). x % d) e)

-- The remainder that `gridOffset` computes in parts.
parts : (d s n : ℕ) → (s * (nanos % d) % d + n % d) % d ≡ (s * nanos + n) % d
parts d s n =
    let e : s * (nanos % d) % d ≡ s * nanos % d =
      ap (λ (x : ℕ). x % d) (mul_comm s (nanos % d))
      ∙ sym (mul-mod_rest d nanos s)
      ∙ ap (λ (x : ℕ). x % d) (mul_comm nanos s) in
    ap (λ (x : ℕ). (x + n % d) % d) e ∙ sym (add-mod (s * nanos) n d)

record IsOffset (t : Time) (d off : ℕ) : Type 0 where
  below : off < d
  same : (off + epoch * nanos) % d ≡ t.ns % d

-- No conversion and no sum of `gridOffset` leaves 64 bits.
no_overflow :
    (d m n : ℕ)
    → d ≤ 2 ^ 63
    → m < d
    → (rem64 (m % 2 ^ 64 * (nanos % d) / 2 ^ 64) (m % 2 ^ 64 * (nanos % d) % 2 ^ 64) d + n % d)
        % 2 ^ 64
        % d
      ≡ (m * (nanos % d) % d + n % d) % d
unfolding rem64
no_overflow d m n h lt =
    let small : m % 2 ^ 64 ≡ m = omega arith in
    let p = m * (nanos % d) in
    let whole : p / 2 ^ 64 * 2 ^ 64 + p % 2 ^ 64 ≡ p = omega arith in
    let p_below : p % d < d = mod-lt p (omega arith) in
    let n_below : n % d < d = mod-lt n (omega arith) in
    let sum : (p % d + n % d) % 2 ^ 64 ≡ p % d + n % d = mod-eq_of_lt (omega arith) in
    rw (small, whole, sum) refl

grid_offset-parts :
    (t : Time) (d m : ℕ)
    → d ≤ 2 ^ 63
    → IsRest (unix t) d m
    → grid_offset t d ≡ (m * (nanos % d) % d + Wall.nanosecond t % d) % d
unfolding grid_offset to_uint64
grid_offset-parts t d m h r = rw (r.is) (no_overflow d m (Wall.nanosecond t) h r.below)

grid_offset-IsOffset : (t : Time) (d : ℕ) → 0 < d → d ≤ 2 ^ 63 → IsOffset t d (grid_offset t d)
grid_offset-IsOffset t d h k =
    let f = floor_mod-IsRest (unix t) d h in
    let m = f.0 in
    let n = Wall.nanosecond t in
    let off : grid_offset t d ≡ (m * nanos + n) % d = grid_offset-parts t d m k f.1 ∙ parts d m n in
    let s = mul-mod_same d (m + epoch) (Wall.unix_sec t) nanos (unix_rest t d m h f.1.same) in
    let e : m * nanos + n + epoch * nanos ≡ (m + epoch) * nanos + n = omega arith in
    let all : Wall.unix_sec t * nanos + n ≡ t.ns =
      unfold Wall.unix_sec Wall.nanosecond in omega arith in
    record {
      below = rw off (mod-lt (m * nanos + n) h);
      same =
          ap (λ (x : ℕ). (x + epoch * nanos) % d) off
          ∙ mod-add-mod (m * nanos + n) d (epoch * nanos)
          ∙ ap (λ (x : ℕ). x % d) e
          ∙ add-mod_same d ((m + epoch) * nanos) (Wall.unix_sec t * nanos) n s
          ∙ ap (λ (x : ℕ). x % d) all;
    }

-- `u` lies a multiple of `d` nanoseconds from 1970-01-01.
abbrev pub IsAligned : ℕ → Time → Type 0
IsAligned d u = u.ns % d ≡ epoch * nanos % d

next-ns :
    (s : AlignedSchedule) (t : Time) (d : ℕ)
    → s.interval ≡ pos d
    → 0 < d
    → d < 2 ^ 63
    → (Aligned.next s t).ns ≡ t.ns + d - grid_offset t d
unfolding Aligned.next add_duration ◌-ℤ◌ to_uint64
next-ns s t d e h k =
    let o = grid_offset-IsOffset t d h (omega arith) in
    let same : d % 2 ^ 64 ≡ d = omega arith in let b = o.below in rw (e, same) (ground (arith, b))

-- For a positive interval of 64 bits, `Next` returns the first time after `t` that is aligned.
pub next-IsFirstAligned :
    (s : AlignedSchedule) (t : Time) (d : ℕ)
    → s.interval ≡ pos d
    → 0 < d
    → d < 2 ^ 63
    → (t.ns < (Aligned.next s t).ns)
      × IsAligned d (Aligned.next s t)
      × ((u : Time) → t.ns < u.ns → u.ns < (Aligned.next s t).ns → ¬ (IsAligned d u))
next-IsFirstAligned s t d e h k =
    let o = grid_offset-IsOffset t d h (omega arith) in
    let off = grid_offset t d in
    let b = o.below in
    let n = next-ns s t d e h k in
    let back : (Aligned.next s t).ns + off ≡ t.ns + d = omega (arith, n, b) in
    let on : IsAligned d (Aligned.next s t) = mod-cancel d _ _ off h (
      ap (λ (x : ℕ). x % d) back
      ∙ add-mod_right t.ns d
      ∙ sym o.same
      ∙ ap (λ (x : ℕ). x % d) (omega arith)) in
    (
      omega (arith, n, b),
      on,
      λ u after before aligned.
          let gap = (Aligned.next s t).ns - u.ns in
          let join : u.ns + gap ≡ (Aligned.next s t).ns = omega arith in
          mod-apart d u.ns gap (omega arith) (omega (arith, n, b))
            (ap (λ (x : ℕ). x % d) join ∙ on ∙ sym aligned),
    )

prev-ns :
    (s : AlignedSchedule) (t : Time) (d : ℕ)
    → s.interval ≡ pos d
    → 0 < d
    → d < 2 ^ 63
    → (Aligned.prev s t).ns ≡ t.ns - (if grid_offset t d == 0 then d else grid_offset t d)
unfolding Aligned.prev add_duration ◌-ℤ◌ to_uint64
prev-ns s t d e h k = let same : d % 2 ^ 64 ≡ d = omega arith in rw (e, same) (ground arith)

full_step : (d off start : ℕ) → (off + start) % d ≡ (start + (if off == 0 then d else off)) % d
full_step d off start = elim (Bool-cases (off == 0)) [
  | inl t ↦
      let z : off ≡ 0 = (==_iff off 0).0 t in
      let e : 0 + start ≡ start = omega arith in rw (t, z, e) (sym (add-mod_right start d))
  | inr t ↦ rw t (ap (λ (x : ℕ). x % d) (omega arith))
]

-- For a positive interval of 64 bits that is no longer than the time since year 0, `Prev` returns
-- the last time before `t` that is aligned.
pub prev-IsLastAligned :
    (s : AlignedSchedule) (t : Time) (d : ℕ)
    → s.interval ≡ pos d
    → 0 < d
    → d < 2 ^ 63
    → d ≤ t.ns
    → ((Aligned.prev s t).ns < t.ns)
      × IsAligned d (Aligned.prev s t)
      × ((u : Time) → u.ns < t.ns → (Aligned.prev s t).ns < u.ns → ¬ (IsAligned d u))
prev-IsLastAligned s t d e h k far =
    let o = grid_offset-IsOffset t d h (omega arith) in
    let off = grid_offset t d in
    let b = o.below in
    let n = prev-ns s t d e h k in
    let step = if off == 0 then d else off in
    let bounds : (0 < step) × (step ≤ d) = ground (arith, b) in
    let back : (Aligned.prev s t).ns + step ≡ t.ns = omega (arith, n, bounds.0, bounds.1) in
    let rest : (off + epoch * nanos) % d ≡ (epoch * nanos + step) % d =
      full_step d off (epoch * nanos) in
    let on : IsAligned d (Aligned.prev s t) =
      mod-cancel d _ _ step h (ap (λ (x : ℕ). x % d) back ∙ sym o.same ∙ rest) in
    (
      omega (arith, n, bounds.0),
      on,
      λ u before after aligned.
          let gap = u.ns - (Aligned.prev s t).ns in
          let join : (Aligned.prev s t).ns + gap ≡ u.ns = omega arith in
          mod-apart d (Aligned.prev s t).ns gap (omega arith) (omega (arith, n, bounds.1))
            (ap (λ (x : ℕ). x % d) join ∙ aligned ∙ sym on),
    )
