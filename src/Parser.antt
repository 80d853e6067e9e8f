-- ===== src/Parser.antt =====
-- parser.go: the fields of a cron expression and their bit sets. A `uint` is a number here; the
-- values stay far below 2^64, and where the source subtracts, the bounds were checked before.
pub mod Bits
pub mod Result
pub mod Text
pub mod Range
pub mod Field
pub mod Days
pub mod Year
pub mod Options
pub mod Zone
pub mod Parse
mod Tests
use go_cron.Prelude.{ℕ, Bool, List, Option, none, true, false}

-- `bounds`; `names` maps a lower-case name to its value, and the field's own name, used in error
-- messages alone, is left out.
pub record Bounds : Type 0 where
  pub min : ℕ
  pub max : ℕ
  pub names : List (List ℕ × ℕ)
  pub wraparound : Bool
  pub lenient_steps : Bool
  pub step_end : ℕ
