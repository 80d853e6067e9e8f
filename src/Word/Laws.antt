-- ===== src/Word/Laws.antt =====
-- What bit `i` of a word is after each operation of `Word`.
use Prim.Native.Nat.{min, max, digits, bit_and, bit_or, bit_and-bitwise, bit_or-bitwise}
use native.Mathlib.Nat.{pow-suc, one-le-pow, mod-eq_of_lt, div-add-mod, div-div-eq-div-mul}
use native.Mathlib.Decide.{dec_le}
use go_cron.Prelude.{
  ℕ, zero, suc, ◌+◌, ◌-◌, ◌*◌, ◌/◌, ◌%◌, ◌^◌, ◌≤◌, ◌<◌, ◌≡◌, refl, sym, ap, ◌∙◌, Bool, true, false,
  not, ◌&&◌, ◌||◌, leb, ◌==◌, arith,
}
use go_cron.Word.{max_uint64, shl, complement, and_not}

-- Bit `i` of `a`.
unfoldable pub test_bit : ℕ → ℕ → Bool
test_bit zero a = a % 2 == 1
test_bit (suc i) a = test_bit i (a / 2)

-- `digits` goes through the binary digits of `x` on fuel: `x` rounds always do, and more change
-- nothing.
module _ (ends : ℕ → ℕ) (op : ℕ → ℕ → ℕ) where
  abbrev run_digits : ℕ → ℕ → ℕ → ℕ
  run_digits = digits ends op

  one_more : (k x y : ℕ) → x ≤ k → run_digits (suc k) x y ≡ run_digits k x y
  one_more k zero y le = elim k as (λ k. run_digits (suc k) zero y ≡ run_digits k zero y) [
    | zero ↦ refl
    | suc k ↦ refl
  ]
  one_more zero (suc x) y le = absurd (omega arith)
  one_more (suc k) (suc x) y le =
      let inner = one_more k (suc x / 2) (y / 2) (omega arith) in
      ap (λ (m : ℕ). m * 2 + op (suc x % 2) (y % 2)) inner

  settles : (k x y : ℕ) → x ≤ k → run_digits k x y ≡ run_digits x x y
  settles zero x y le = let none_left : x ≡ 0 = omega arith in rw none_left
  settles (suc k) x y le = elim (dec_le x k) [
    | yes fewer ↦ one_more k x y fewer ∙ settles k x y fewer
    | no all ↦ let exact : x ≡ suc k = omega arith in rw exact
  ]

  lowest_digit :
      (x y : ℕ)
      → run_digits (suc x) (suc x) y
        ≡ run_digits (suc x / 2) (suc x / 2) (y / 2) * 2 + op (suc x % 2) (y % 2)
  lowest_digit x y =
      ap (λ (m : ℕ). m * 2 + op (suc x % 2) (y % 2)) (settles x (suc x / 2) (y / 2) (omega arith))

-- The lowest digit of a disjunction and of a conjunction.
or_digit : (x y : ℕ) → bit_or x y ≡ bit_or (x / 2) (y / 2) * 2 + max (x % 2) (y % 2)
or_digit zero y = rw (bit_or-bitwise 0 y, bit_or-bitwise 0 (y / 2)) (omega arith)
or_digit (suc x) y =
    rw (bit_or-bitwise (suc x) y, bit_or-bitwise (suc x / 2) (y / 2))
      (lowest_digit (λ d. d) max x y)

and_digit : (x y : ℕ) → bit_and x y ≡ bit_and (x / 2) (y / 2) * 2 + min (x % 2) (y % 2)
and_digit zero y = rw (bit_and-bitwise 0 y, bit_and-bitwise 0 (y / 2)) (omega arith)
and_digit (suc x) y =
    rw (bit_and-bitwise (suc x) y, bit_and-bitwise (suc x / 2) (y / 2))
      (lowest_digit (λ d. 0) min x y)

pub test_bit-or : (i a b : ℕ) → test_bit i (bit_or a b) ≡ (test_bit i a || test_bit i b)
unfolding test_bit
test_bit-or zero a b = ground (arith, or_digit a b)
test_bit-or (suc i) a b =
    let e : bit_or a b / 2 ≡ bit_or (a / 2) (b / 2) = omega (arith, or_digit a b) in
    rw e (test_bit-or i (a / 2) (b / 2))

pub test_bit-and : (i a b : ℕ) → test_bit i (bit_and a b) ≡ (test_bit i a && test_bit i b)
unfolding test_bit
test_bit-and zero a b = ground (arith, and_digit a b)
test_bit-and (suc i) a b =
    let e : bit_and a b / 2 ≡ bit_and (a / 2) (b / 2) = omega (arith, and_digit a b) in
    rw e (test_bit-and i (a / 2) (b / 2))

pub test_bit-zero : (i : ℕ) → test_bit i 0 ≡ false
unfolding test_bit
test_bit-zero zero = refl
test_bit-zero (suc i) = test_bit-zero i

pub test_bit-pow : (i j : ℕ) → test_bit i (2 ^ j) ≡ (i == j)
unfolding test_bit
test_bit-pow zero zero = refl
test_bit-pow (suc i) zero = ground (arith, test_bit-zero i)
test_bit-pow zero (suc j) = ground (arith, pow-suc 2 j)
test_bit-pow (suc i) (suc j) =
    let e : 2 ^ suc j / 2 ≡ 2 ^ j = omega (arith, pow-suc 2 j) in
    rw e (ground (arith, test_bit-pow i j))

zero-and : (b : ℕ) → bit_and 0 b ≡ 0
zero-and b = bit_and-bitwise 0 b

-- `1<<i & a != 0` reads bit `i`.
pub and_pow : (i a : ℕ) → (bit_and (2 ^ i) a == 0) ≡ not (test_bit i a)
unfolding test_bit
and_pow zero a =
    let d : bit_and 1 a ≡ a % 2 = omega (arith, and_digit 1 a, zero-and (a / 2)) in
    ground (arith, d)
and_pow (suc i) a =
    let e : 2 ^ suc i / 2 ≡ 2 ^ i = omega (arith, pow-suc 2 i) in
    let d : bit_and (2 ^ suc i) a ≡ bit_and (2 ^ i) (a / 2) * 2 =
      omega (arith, rw e at (and_digit (2 ^ suc i) a), pow-suc 2 i) in
    rw (← and_pow i (a / 2)) (ground (arith, d))

pub test_bit-mul_pow : (n i a : ℕ) → test_bit i (a * 2 ^ n) ≡ (leb n i && test_bit (i - n) a)
unfolding test_bit
test_bit-mul_pow zero i a =
    let e : a * 2 ^ 0 ≡ a = omega arith in
    let f : i - 0 ≡ i = omega arith in rw (e, f) (ground arith)
test_bit-mul_pow (suc n) zero a =
    let e : a * 2 ^ suc n ≡ 2 * (a * 2 ^ n) = omega (arith, ap (λ (t : ℕ). a * t) (pow-suc 2 n)) in
    ground (arith, e)
test_bit-mul_pow (suc n) (suc i) a =
    let e : a * 2 ^ suc n / 2 ≡ a * 2 ^ n = omega (arith, ap (λ (t : ℕ). a * t) (pow-suc 2 n)) in
    let f : suc i - suc n ≡ i - n = omega arith in
    rw (e, f) (ground (arith, test_bit-mul_pow n i a))

half_mod : (a m : ℕ) → (a % (2 * m) / 2 ≡ a / 2 % m) × (a % (2 * m) % 2 ≡ a % 2)
half_mod a m =
    let e = ap (λ (t : ℕ). m * t) (div-div-eq-div-mul a 2 m) in
    (
      omega (arith, e, div-add-mod a (2 * m), div-add-mod (a / 2) m),
      omega (arith, e, div-add-mod a (2 * m), div-add-mod (a / 2) m),
    )

pow_lt : (n k : ℕ) → n < k → 2 ^ n < 2 ^ k
pow_lt n zero h = absurd (omega arith)
pow_lt zero (suc k) h = omega (arith, pow-suc 2 k, one-le-pow k 2 (omega arith))
pow_lt (suc n) (suc k) h = omega (arith, pow-suc 2 n, pow-suc 2 k, pow_lt n k (omega arith))

two_pow : (k : ℕ) → 2 ^ suc k ≡ 2 * 2 ^ k
two_pow k = omega (arith, pow-suc 2 k)

pub test_bit-mod : (k i a : ℕ) → i < k → test_bit i (a % 2 ^ k) ≡ test_bit i a
unfolding test_bit
test_bit-mod zero i a h = absurd (omega arith)
test_bit-mod (suc k) zero a h = rw (two_pow k, (half_mod a (2 ^ k)).1)
test_bit-mod (suc k) (suc i) a h =
    rw (two_pow k, (half_mod a (2 ^ k)).0) (test_bit-mod k i (a / 2) (omega arith))

-- Bits of the complement within `k` bits.
flip_bits : (k i a : ℕ) → i < k → a < 2 ^ k → test_bit i (2 ^ k - 1 - a) ≡ not (test_bit i a)
unfolding test_bit
flip_bits zero i a h lt = absurd (omega arith)
flip_bits (suc k) zero a h lt =
    let e : (2 ^ suc k - 1 - a) % 2 ≡ 1 - a % 2 = omega (arith, two_pow k) in rw e (ground arith)
flip_bits (suc k) (suc i) a h lt =
    let e : (2 ^ suc k - 1 - a) / 2 ≡ 2 ^ k - 1 - a / 2 = omega (arith, two_pow k) in
    rw e (flip_bits k i (a / 2) (omega arith) (omega (arith, two_pow k)))

pub test_bit-complement :
    (i a : ℕ) → i < 64 → a < 2 ^ 64 → test_bit i (complement a) ≡ not (test_bit i a)
unfolding complement
test_bit-complement i a h lt = flip_bits 64 i a h lt

pub test_bit-max : (i : ℕ) → i < 64 → test_bit i max_uint64 ≡ true
unfolding complement
test_bit-max i h = test_bit-complement i 0 h (omega arith) ∙ rw test_bit-zero

pub test_bit-shl : (i a n : ℕ) → i < 64 → test_bit i (shl a n) ≡ (leb n i && test_bit (i - n) a)
unfolding shl
test_bit-shl i a n h = test_bit-mod 64 i (a * 2 ^ n) h ∙ test_bit-mul_pow n i a

pub test_bit-shl_one : (i n : ℕ) → i < 64 → test_bit i (shl 1 n) ≡ (i == n)
test_bit-shl_one i n h = test_bit-shl i 1 n h ∙ rw (test_bit-pow (i - n) 0) (ground arith)

pub shl_one : (n : ℕ) → n < 64 → shl 1 n ≡ 2 ^ n
unfolding shl
shl_one n h =
    let fits : 1 * 2 ^ n < 2 ^ 64 = omega (arith, pow_lt n 64 h) in mod-eq_of_lt fits ∙ omega arith

pub test_bit-and_not :
    (i a b : ℕ)
    → i < 64
    → b < 2 ^ 64
    → test_bit i (and_not a b) ≡ (test_bit i a && not (test_bit i b))
unfolding and_not
test_bit-and_not i a b h lt = test_bit-and i a (complement b) ∙ rw (test_bit-complement i b h lt)

-- The operations stay within 64 bits.
pub or_lt : (k a b : ℕ) → a < 2 ^ k → b < 2 ^ k → bit_or a b < 2 ^ k
or_lt zero a b p q =
    let e : a ≡ 0 = omega arith in let f : b ≡ 0 = omega arith in rw (e, f) (omega arith)
or_lt (suc k) a b p q = omega (
  arith,
  or_digit a b,
  two_pow k,
  or_lt k (a / 2) (b / 2) (omega (arith, two_pow k)) (omega (arith, two_pow k)),
)

and_le_fuel : (n a b : ℕ) → a ≤ n → bit_and a b ≤ a
and_le_fuel n zero b h = omega (arith, zero-and b)
and_le_fuel zero (suc a) b h = absurd (omega arith)
and_le_fuel (suc n) (suc a) b h =
    omega (arith, and_digit (suc a) b, and_le_fuel n (suc a / 2) (b / 2) (omega arith))

pub and_le : (a b : ℕ) → bit_and a b ≤ a
and_le a b = and_le_fuel a a b (omega arith)

pub shl_lt : (a n : ℕ) → shl a n < 2 ^ 64
unfolding shl
shl_lt a n = omega arith

and_zero : (n b : ℕ) → b ≤ n → bit_and b 0 ≡ 0
and_zero n zero h = zero-and 0
and_zero zero (suc b) h = absurd (omega arith)
and_zero (suc n) (suc b) h =
    let e : 0 / 2 ≡ 0 = omega arith in
    omega
      (arith, and_digit (suc b) 0, ap (bit_and (suc b / 2)) e, and_zero n (suc b / 2) (omega arith))

and_comm_fuel : (n a b : ℕ) → a ≤ n → bit_and a b ≡ bit_and b a
and_comm_fuel n zero b h = zero-and b ∙ sym (and_zero b b (omega arith))
and_comm_fuel zero (suc a) b h = absurd (omega arith)
and_comm_fuel (suc n) (suc a) b h =
    let halves = and_comm_fuel n (suc a / 2) (b / 2) (omega arith) in
    omega (arith, and_digit (suc a) b, and_digit b (suc a), halves)

pub and_comm : (a b : ℕ) → bit_and a b ≡ bit_and b a
and_comm a b = and_comm_fuel a a b (omega arith)
