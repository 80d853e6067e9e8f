-- ===== src/Time.antt =====
-- Package `time` of Go's standard library, as far as the scheduler uses it.
pub mod Calendar
pub mod Wall
