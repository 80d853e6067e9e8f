-- ===== src/Retry/Breaker/Overlap.antt =====
-- Calls of the circuit breaker that overlap.
use go_cron.Prelude.{
  ℕ, suc, zero, ◌+◌, ◌≤◌, ◌<◌, ◌≡◌, Bool, true, false, List, [], ◌∷◌, ◌++◌, arith,
}
use go_cron.Prelude.Int.{pos}
use go_cron.Retry.Breaker.{
  circuit_closed, circuit_open, circuit_half_open, CircuitState, Config, event, is_open,
  is_half_open, record_failure, reset_on_success, handle_state, skipped, admitted, begin, finish,
  finish_events,
}

-- The circuit, and the flags of the calls whose jobs are running.
pub record System : Type 0 where
  pub circuit : CircuitState
  pub running : List Bool

abbrev pub system : CircuitState → List Bool → System
system s l = record { circuit = s; running = l }

pub data Step (c : Config) : System → System → Type 0 where
  skips :
      (s : CircuitState) (l : List Bool) (now : ℕ)
      → begin c s now ≡ skipped
      → Step c (system s l) (system s l)
  starts :
      (s : CircuitState) (l : List Bool) (now : ℕ) (w : Bool)
      → begin c s now ≡ admitted w
      → Step c (system s l) (system s (w ∷ l))
  ends :
      (s : CircuitState) (before after : List Bool) (w panicked : Bool) (now : ℕ)
      → Step c (system s (before ++ w ∷ after)) (system (finish s panicked now) (before ++ after))

pub data Steps (c : Config) : System → System → Type 0 where
  none_more : {x : System} → Steps c x x
  one_more : {x y z : System} → Steps c x y → Step c y z → Steps c x z

abbrev pub probes : ℕ → List Bool
probes zero = []
probes (suc n) = true ∷ probes n

probing :
    (c : Config) (s : CircuitState) (now : ℕ)
    → handle_state c s now ≡ circuit_half_open
    → begin c s now ≡ admitted true
unfolding handle_state begin
probing c s now e = ground arith

-- From a half-open circuit with no job running, any number of calls can be running at the same
-- time, each admitted as a probe.
pub probes-Steps :
    (c : Config) (s : CircuitState) (now : ℕ)
    → handle_state c s now ≡ circuit_half_open
    → (n : ℕ) → Steps c (system s []) (system s (probes n))
unfolding handle_state begin
probes-Steps c s now e zero = none_more
probes-Steps c s now e (suc n) =
    one_more (probes-Steps c s now e n) (starts s (probes n) now true (probing c s now e))

-- A circuit is closed and one failure short of its threshold. A job that panics then opens it, and
-- another that was admitted before that and ends well before the cooldown is over closes the open
-- circuit, with an event that says it was half-open.
pub early_success-handle_state :
    (t d : ℕ) (s : CircuitState) (first second : ℕ)
    → s.failures + 1 ≡ t
    → first ≤ second
    → second < first + d
    → let c : Config = record { threshold = pos t; cooldown = pos d } in
      (handle_state c s first ≡ circuit_closed)
      × (handle_state c (finish s true first) second ≡ circuit_open)
      × (finish_events c (finish s true first) false false
          ≡ event circuit_half_open circuit_closed 0 ∷ [])
      × (handle_state c (finish (finish s true first) false second) second ≡ circuit_closed)
unfolding handle_state finish finish_events record_failure reset_on_success is_open is_half_open
early_success-handle_state t d s first second e le lt =
    (ground arith, ground arith, ground arith, ground arith)
