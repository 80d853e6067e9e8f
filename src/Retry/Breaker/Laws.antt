-- ===== src/Retry/Breaker/Laws.antt =====
-- The circuit breaker against the diagram that documents it.
use go_cron.Prelude.{
  ℕ, ◌+◌, ◌≤◌, ◌<◌, ◌≡◌, ◌≢◌, refl, sym, ◌∙◌, Bool, true, false, if◌then◌else◌, Bool-cases, leb,
  ◌++◌, ◌⊎◌, inl, inr, List, [], ◌∷◌, arith,
}
use go_cron.Prelude.Int.{ℤ, pos}
use mathlib.Core.Path.{subst}
use go_cron.Retry.Breaker.State.{half_open_distinct, closed_distinct, finished}
use go_cron.Retry.Breaker.{
  CircuitBreakerState, circuit_closed, circuit_open, circuit_half_open, CircuitState, Config,
  CircuitBreakerEvent, is_open, is_half_open, record_failure, reset_on_success, skipped, admitted,
  begin, begin_events, notify_failure_transition, finish, finish_events, handle_state, call,
}

-- The arrows of the diagram.
pub data Arrow : CircuitBreakerState → CircuitBreakerState → Type 0 where
  threshold_failures : Arrow circuit_closed circuit_open
  cooldown_expires : Arrow circuit_open circuit_half_open
  success : Arrow circuit_half_open circuit_closed
  failure : Arrow circuit_half_open circuit_open

-- The events lead from one state to the other along the arrows.
pub Follows : CircuitBreakerState → List CircuitBreakerEvent → CircuitBreakerState → Type 0
Follows a [] b = a ≡ b
Follows a (e ∷ es) b = (a ≡ e.old_state) × Arrow e.old_state e.new_state × Follows e.new_state es b

-- Where the events of a call begin: that a circuit is half-open is an event of its probe.
abbrev pub announced : CircuitBreakerState → CircuitBreakerState
announced circuit_closed = circuit_closed
announced circuit_open = circuit_open
announced circuit_half_open = circuit_open

-- The state by the failures alone.
abbrev tripped : Config → CircuitState → CircuitBreakerState
tripped c s = if is_half_open c s then circuit_open else circuit_closed

module _ (t : ℕ) (cooldown : ℤ) (s : CircuitState) (h : 1 ≤ t) where
  abbrev config : Config
  config = record { threshold = pos t; cooldown = cooldown }

  -- The calls of a closed circuit, and the probe of a half-open one, up to their job.
  handle_state-begin :
      (now : ℕ)
      → ((begin config s now ≡ skipped) × (handle_state config s now ≡ circuit_open))
        ⊎ ((begin config s now ≡ admitted true)
            × (t ≤ s.failures)
            × (handle_state config s now ≢ circuit_open))
        ⊎ ((begin config s now ≡ admitted false)
            × (s.failures < t)
            × (handle_state config s now ≢ circuit_open))
  unfolding begin handle_state is_half_open
  handle_state-begin now = elim (Bool-cases (is_open config s now)) [
    | inl e ↦ inl (rw e refl, rw e refl)
    | inr e ↦ elim (Bool-cases (leb (t + 0) (s.failures + 0))) [
      | inl l ↦ inr (inl (rw (e, l) refl, ground arith, rw (e, l) half_open_distinct))
      | inr l ↦ inr (inr (rw (e, l) refl, ground arith, rw (e, l) closed_distinct))
    ]
  ]

  at_least : (n : ℕ) → t ≤ n → leb (t + 0) (n + 0) ≡ true
  at_least n k = ground arith

  short : (n : ℕ) → n < t → leb (t + 0) (n + 0) ≡ false
  short n k = ground arith

  probe-Follows :
      (panicked : Bool) (now later : ℕ)
      → t ≤ s.failures
      → Follows
          (tripped config s)
          (begin_events s (admitted true) ++ finish_events config s true panicked)
          (tripped config (finish s panicked later))
  unfolding Follows begin_events finish_events notify_failure_transition finish record_failure
      reset_on_success is_half_open
  probe-Follows true now later k =
      let over : leb (s.failures + 1 + 0) (t + 0) ≡ false = ground arith in
      rw (at_least s.failures k, at_least (s.failures + 1) (omega arith), over)
        (refl, cooldown_expires, (refl, failure, refl))
  probe-Follows false now later k =
      rw (at_least s.failures k, short 0 h) (refl, cooldown_expires, (refl, success, refl))

  closed-Follows :
      (panicked : Bool) (now later : ℕ)
      → s.failures < t
      → Follows
          (tripped config s)
          (finish_events config s false panicked)
          (tripped config (finish s panicked later))
  unfolding Follows finish_events notify_failure_transition finish record_failure reset_on_success
      is_half_open
  closed-Follows true now later k = elim (Bool-cases (leb (t + 0) (s.failures + 1 + 0))) [
    | inl l ↦
        let equal : leb (s.failures + 1 + 0) (t + 0) ≡ true = ground arith in
        rw (short s.failures k, l, equal) (refl, threshold_failures, refl)
    | inr l ↦ rw (short s.failures k, l) refl
  ]
  closed-Follows false now later k = rw (short s.failures k, short 0 h) refl

module _ (t d : ℕ) (s : CircuitState) (h : 1 ≤ t) (wait : 1 ≤ d) where
  abbrev circuit : Config
  circuit = record { threshold = pos t; cooldown = pos d }

  announced-handle_state : (now : ℕ) → announced (handle_state circuit s now) ≡ tripped circuit s
  unfolding handle_state is_open is_half_open
  announced-handle_state now = elim (Bool-cases (is_open circuit s now)) [
    | inl e ↦ ground (arith, e)
    | inr e ↦ ground (arith, e)
  ]

  handle_state-finish :
      (panicked : Bool) (later : ℕ)
      → tripped circuit (finish s panicked later)
        ≡ handle_state circuit (finish s panicked later) later
  unfolding finish record_failure reset_on_success is_half_open
  handle_state-finish true later = sym (finished t d s h wait true later ∙ ground arith)
  handle_state-finish false later = sym (finished t d s h wait false later ∙ ground arith)

  -- What the call of a circuit that is not open announces, up to the state after it.
  admitted-Follows :
      (was_half_open panicked : Bool) (now later : ℕ)
      → Follows
          (tripped circuit s)
          (begin_events s (admitted was_half_open)
            ++ finish_events circuit s was_half_open panicked)
          (tripped circuit (finish s panicked later))
      → Follows
          (announced (handle_state circuit s now))
          (begin_events s (admitted was_half_open)
            ++ finish_events circuit s was_half_open panicked)
          (handle_state circuit (finish s panicked later) later)
  admitted-Follows was_half_open panicked now later f =
      let events =
        begin_events s (admitted was_half_open) ++ finish_events circuit s was_half_open panicked in
      subst
        (λ (a : CircuitBreakerState).
          Follows a events (handle_state circuit (finish s panicked later) later))
        (sym (announced-handle_state now))
        (subst (Follows (tripped circuit s) events) (handle_state-finish panicked later) f)

  -- For a threshold of at least 1 and a positive cooldown, a call of a circuit that State reports as
  -- open has no events. Those of any other call that no step of another call interrupts lead along
  -- the arrows of the diagram to the state that State reports at the end of its job: from closed, if
  -- State reports closed before the call, and from open, if it reports half-open.
  pub call-Follows :
      (panicked : Bool) (now later : ℕ)
      → ((handle_state circuit s now ≡ circuit_open) × ((call circuit s panicked now later).1 ≡ []))
        ⊎ ((handle_state circuit s now ≢ circuit_open)
            × Follows
                (announced (handle_state circuit s now))
                ((call circuit s panicked now later).1)
                (handle_state circuit ((call circuit s panicked now later).0) later))
  unfolding call
  call-Follows panicked now later = elim (handle_state-begin t (pos d) s h now) [
    | inl (e, rests) ↦ inl (rests, rw (e, call) refl)
    | inr (inl (e, k, other)) ↦
        let f = probe-Follows t (pos d) s h panicked now later k in
        inr (other, rw (e, call) (admitted-Follows true panicked now later f))
    | inr (inr (e, k, other)) ↦
        let f = closed-Follows t (pos d) s h panicked now later k in
        inr (
          other,
          rw (e, call) (admitted-Follows false panicked now later (unfold begin_events in f)),
        )
  ]
