-- ===== src/Retry/Breaker/State.antt =====
-- What `State` of the handle reports after a call.
use go_cron.Prelude.{
  ℕ, ◌+◌, ◌≤◌, ◌≡◌, refl, ◌∙◌, Bool, true, false, ◌&&◌, leb, if◌then◌else◌, Bool-cases, inl, inr,
  arith, [], ◌⊎◌, ◌≢◌,
}
use go_cron.Prelude.Int.{pos}
use go_cron.Retry.Breaker.{
  CircuitBreakerState, circuit_closed, circuit_open, circuit_half_open, CircuitState, Config,
  is_open, is_half_open, record_failure, reset_on_success, handle_state, begin, finish, call,
}

-- What the diagram says of a circuit with `f` failures and threshold `t` after a call.
abbrev pub after_call : ℕ → ℕ → CircuitBreakerState → Bool → CircuitBreakerState
after_call t f circuit_open panicked = circuit_open
after_call t f circuit_half_open panicked = if panicked then circuit_open else circuit_closed
after_call t f circuit_closed panicked =
    if panicked && leb t (f + 1) then circuit_open else circuit_closed

pub half_open_distinct : circuit_half_open ≢ circuit_open
half_open_distinct x = ground arith

pub closed_distinct : circuit_closed ≢ circuit_open
closed_distinct x = ground arith

module _ (t d : ℕ) (s : CircuitState) (h : 1 ≤ t) (wait : 1 ≤ d) where
  abbrev config : Config
  config = record { threshold = pos t; cooldown = pos d }

  failed :
      (later : ℕ)
      → handle_state config (record_failure s later) later
        ≡ (if leb t (s.failures + 1) then circuit_open else circuit_closed)
  unfolding handle_state record_failure is_open is_half_open
  failed later = ground arith

  succeeded : (later : ℕ) → handle_state config (reset_on_success s) later ≡ circuit_closed
  unfolding handle_state reset_on_success is_open is_half_open
  succeeded later = ground arith

  pub finished :
      (panicked : Bool) (later : ℕ)
      → handle_state config (finish s panicked later) later
        ≡ (if panicked && leb t (s.failures + 1) then circuit_open else circuit_closed)
  unfolding finish
  finished true later = failed later
  finished false later = succeeded later

  probed :
      (panicked : Bool)
      → t ≤ s.failures
      → (if panicked && leb t (s.failures + 1) then circuit_open else circuit_closed)
        ≡ after_call t s.failures circuit_half_open panicked
  probed panicked k = ground arith

  -- For a threshold of at least 1 and a positive cooldown, a call of an open circuit is skipped and
  -- changes nothing. Any other call, with no step of another one in between, leaves the state that
  -- the diagram says: open after a failed probe or the failure that reaches the threshold, and
  -- closed otherwise.
  pub handle_state-call :
      (panicked : Bool) (now later : ℕ)
      → ((handle_state config s now ≡ circuit_open) × (call config s panicked now later ≡ (s, [])))
        ⊎ ((handle_state config s now ≢ circuit_open)
            × (handle_state config ((call config s panicked now later).0) later
                ≡ after_call t s.failures (handle_state config s now) panicked))
  unfolding handle_state call begin is_half_open
  handle_state-call panicked now later = elim (Bool-cases (is_open config s now)) [
    | inl e ↦ inl (rw e refl, rw (e, call) refl)
    | inr e ↦ elim (Bool-cases (leb (t + 0) (s.failures + 0))) [
      | inl l ↦
          let k : t ≤ s.failures = ground arith in
          inr (
            rw (e, l) half_open_distinct,
            rw (e, l, call) (finished panicked later ∙ probed panicked k),
          )
      | inr l ↦ inr (rw (e, l) closed_distinct, rw (e, l, call) (finished panicked later))
    ]
  ]
