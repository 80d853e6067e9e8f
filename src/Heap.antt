-- ===== src/Heap.antt =====
-- heap.go: the order in which the scheduler's heap keeps its entries.
pub mod Order
mod Tests
use go_cron.Prelude.{ℕ, Bool, true, false, ltb, ◌==◌, if◌then◌else◌, Option, none, some}
use go_cron.Prelude.Int.{ℤ, ltb_ℤ}

-- The fields of `Entry` that the order reads; `none` is the zero time.
pub record Entry : Type 0 where
  pub next : Option ℕ
  pub priority : ℤ

unfoldable pub less_at : Option ℕ → ℤ → Option ℕ → ℤ → Bool
less_at none p u q = false
less_at (some t) p none q = true
less_at (some t) p (some u) q = if t == u then ltb_ℤ q p else ltb t u

unfoldable pub less : Entry → Entry → Bool
less e f = less_at e.next e.priority f.next f.priority
