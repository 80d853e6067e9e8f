-- ===== src/Retry/Breaker.antt =====
-- retry.go: the circuit breaker. Times are nanoseconds since 1970; the breaker's counter stays far
-- below 2^63, so `int64` is ℕ here. A call is two steps, at the times when it starts and when its
-- job ends, and other calls may take their steps in between. Log messages are left out.
pub mod Laws
pub mod State
pub mod Overlap
use go_cron.Prelude.{
  ℕ, suc, ◌+◌, Bool, true, false, ◌&&◌, not, ltb, leb, ◌==◌, if◌then◌else◌, List, [], ◌∷◌, ◌++◌,
  Option, none, some,
}
use go_cron.Prelude.Int.{ℤ, pos, sub_ℕ, ltb_ℤ, leb_ℤ}

pub data CircuitBreakerState : Type 0 where
  circuit_closed circuit_open circuit_half_open : CircuitBreakerState

pub record CircuitState : Type 0 where
  pub failures : ℕ
  pub last_fail_nano : ℕ

pub record Config : Type 0 where
  pub threshold : ℤ
  pub cooldown : ℤ

-- `Err` is left out: it is the panic value of the call.
pub record CircuitBreakerEvent : Type 0 where
  pub old_state : CircuitBreakerState
  pub new_state : CircuitBreakerState
  pub failures : ℕ

abbrev pub event : CircuitBreakerState → CircuitBreakerState → ℕ → CircuitBreakerEvent
event a b n = record { old_state = a; new_state = b; failures = n }

abbrev pub new_circuit : CircuitState
new_circuit = record { failures = 0; last_fail_nano = 0 }

-- The flag of `isOpen`; the time that remains is for a log message alone.
unfoldable pub is_open : Config → CircuitState → ℕ → Bool
is_open c s now =
    leb_ℤ c.threshold (pos s.failures) && ltb_ℤ (sub_ℕ now s.last_fail_nano) c.cooldown

unfoldable pub is_half_open : Config → CircuitState → Bool
is_half_open c s = leb_ℤ c.threshold (pos s.failures)

unfoldable pub record_failure : CircuitState → ℕ → CircuitState
record_failure s now = record { failures = s.failures + 1; last_fail_nano = now }

unfoldable pub reset_on_success : CircuitState → CircuitState
reset_on_success s = record s { failures = 0 }

unfoldable pub handle_state : Config → CircuitState → ℕ → CircuitBreakerState
handle_state c s now =
    if is_open c s now
    then circuit_open
    else if is_half_open c s
    then circuit_half_open
    else circuit_closed

-- The call goes on with its job, and whether it is the probe of a half-open circuit.
pub data Admission : Type 0 where
  skipped : Admission
  admitted : Bool → Admission

-- A call up to its job.
unfoldable pub begin : Config → CircuitState → ℕ → Admission
begin c s now = if is_open c s now then skipped else admitted (is_half_open c s)

unfoldable pub begin_events : CircuitState → Admission → List CircuitBreakerEvent
begin_events s skipped = []
begin_events s (admitted false) = []
begin_events s (admitted true) = event circuit_open circuit_half_open s.failures ∷ []

unfoldable pub notify_failure_transition : Config → Bool → ℕ → List CircuitBreakerEvent
notify_failure_transition c was_half_open new_failures =
    if leb_ℤ c.threshold (pos new_failures) && leb_ℤ (pos new_failures) c.threshold
    then event circuit_closed circuit_open new_failures ∷ []
    else if was_half_open
    then event circuit_half_open circuit_open new_failures ∷ []
    else []

-- A call after its job, which panicked or did not.
unfoldable pub finish : CircuitState → Bool → ℕ → CircuitState
finish s panicked now = if panicked then record_failure s now else reset_on_success s

unfoldable pub finish_events : Config → CircuitState → Bool → Bool → List CircuitBreakerEvent
finish_events c s was_half_open panicked =
    if panicked
    then notify_failure_transition c was_half_open (s.failures + 1)
    else if leb_ℤ c.threshold (pos s.failures)
    then event circuit_half_open circuit_closed 0 ∷ []
    else []

-- A whole call that starts at `now` and whose job, if it runs, ends at `later` with no step of
-- another call in between: the state after it and the events.
unfoldable pub call : Config → CircuitState → Bool → ℕ → ℕ → CircuitState × List CircuitBreakerEvent
call c s panicked now later = elim (begin c s now) [
  | skipped ↦ (s, [])
  | admitted w ↦
      (finish s panicked later, begin_events s (admitted w) ++ finish_events c s w panicked)
]
