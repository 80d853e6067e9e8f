-- ===== src/Retry/Tests.antt =====
-- Runs of retry.go's functions.
use go_cron.Prelude.{
  ℕ, ◌+◌, ◌^◌, ◌-◌, ◌<◌, ◌≡◌, ◌≢◌, refl, ◌⊎◌, true, false, ltb, leb, if◌then◌else◌, [], ◌∷◌, Option,
  none, some, arith,
}
use go_cron.Prelude.Int.{ℤ, pos}
use go_cron.Retry.Breaker.{
  circuit_closed, circuit_open, circuit_half_open, CircuitState, Config, event, is_open,
  is_half_open, handle_state, finish, finish_events, call,
}
use go_cron.Retry.Breaker.Laws.{Follows, announced, call-Follows}
use go_cron.Retry.Breaker.State.{after_call, handle_state-call}
use go_cron.Retry.Breaker.Overlap.{Steps, system, probes, probes-Steps, early_success-handle_state}
use go_cron.Retry.Loop.{Report, panics, retry, retry_attempt}
use go_cron.Retry.Loop.Laws.{IsRetried, retry-IsRetried, retry-overflow, will_retry-IsRetried}

abbrev two_failures : Config
two_failures = record { threshold = pos 2; cooldown = pos 100 }

abbrev one_failure : CircuitState
one_failure = record { failures = 1; last_fail_nano = 500 }

abbrev tripped : CircuitState
tripped = record { failures = 2; last_fail_nano = 500 }

call-Follows_example :
    ((handle_state two_failures one_failure 510 ≡ circuit_open)
      × ((call two_failures one_failure true 510 520).1 ≡ []))
    ⊎ ((handle_state two_failures one_failure 510 ≢ circuit_open)
        × Follows
            (announced (handle_state two_failures one_failure 510))
            ((call two_failures one_failure true 510 520).1)
            (handle_state two_failures ((call two_failures one_failure true 510 520).0) 520))
call-Follows_example = call-Follows 2 100 one_failure (omega arith) (omega arith) true 510 520

handle_state-call_example :
    ((handle_state two_failures tripped 700 ≡ circuit_open)
      × (call two_failures tripped true 700 710 ≡ (tripped, [])))
    ⊎ ((handle_state two_failures tripped 700 ≢ circuit_open)
        × (handle_state two_failures ((call two_failures tripped true 700 710).0) 710
            ≡ after_call 2 2 (handle_state two_failures tripped 700) true))
handle_state-call_example = handle_state-call 2 100 tripped (omega arith) (omega arith) true 700 710

probes-Steps_example : Steps two_failures (system tripped []) (system tripped (probes 3))
unfolding handle_state is_open is_half_open
probes-Steps_example = probes-Steps two_failures tripped 700 refl 3

early_success-handle_state_example :
    (handle_state two_failures one_failure 600 ≡ circuit_closed)
    × (handle_state two_failures (finish one_failure true 600) 650 ≡ circuit_open)
    × (finish_events two_failures (finish one_failure true 600) false false
        ≡ event circuit_half_open circuit_closed 0 ∷ [])
    × (handle_state two_failures (finish (finish one_failure true 600) false 650) 650
        ≡ circuit_closed)
early_success-handle_state_example =
    early_success-handle_state 2 100 one_failure 600 650 refl (omega arith) (omega arith)

-- The job fails twice.
abbrev flaky : ℕ → Option ℕ
flaky attempt = if leb attempt 2 then some attempt else none

abbrev doubling : ℕ → ℤ
doubling attempt = pos (2 ^ (attempt - 2))

retry-IsRetried_example :
    (r : Report ℕ) × (retry (pos 3) doubling flaky 5 ≡ some r) × IsRetried 4 doubling flaky 1 r
retry-IsRetried_example = retry-IsRetried 3 doubling flaky 5 (omega arith) (omega arith)

flaky_run :
    (r : Report ℕ) × (retry (pos 3) doubling flaky 5 ≡ some r) × IsRetried 4 doubling flaky 1 r
flaky_run = retry-IsRetried 3 doubling flaky 5 (omega arith) (omega arith)

flaky_attempt : 1 < 1 + flaky_run.2.count
flaky_attempt = let a = flaky_run.2.some_attempt in omega arith

will_retry-IsRetried_example :
    (retry_attempt (pos 4) doubling flaky 1).will_retry ≡ ltb 2 (1 + flaky_run.2.count)
will_retry-IsRetried_example =
    will_retry-IsRetried 4 doubling flaky 1 flaky_run.0 flaky_run.2 1 (omega arith) (omega arith)
      flaky_attempt

retry-overflow_example :
    retry (pos (2 ^ 63 - 1)) doubling flaky 5
    ≡ some (record { attempts = []; ending = panics none })
retry-overflow_example = retry-overflow doubling flaky 5 (omega arith)
