-- ===== src/Word.antt =====
-- Go's operators on `uint64`, which keep their wrap-around: the bit sets of spec.go and parser.go.
pub mod Laws
use Prim.Native.Nat.{bit_and, bit_or}
use go_cron.Prelude.{ℕ, ◌-◌, ◌*◌, ◌%◌, ◌^◌}

abbrev pub max_uint64 : ℕ
max_uint64 = 2 ^ 64 - 1

-- a << n: the bits past 63 are lost.
unfoldable pub shl : ℕ → ℕ → ℕ
shl a n = (a * 2 ^ n) % 2 ^ 64

-- ^a
unfoldable pub complement : ℕ → ℕ
complement a = max_uint64 - a

-- a &^ b
unfoldable pub and_not : ℕ → ℕ → ℕ
unfolding complement
and_not a b = bit_and a (complement b)
