-- ===== src/Retry/Loop.antt =====
-- retry.go: the loop of `RetryWithBackoff` and of `RetryOnError`, which differ in how a job reports
-- its failure. `run n` is the failure of the n-th attempt, if it fails; `backoff n` is what
-- `calculateBackoffDelay`, in floating point and with a random part, returns before it.
pub mod Laws
use mathlib.Core.Option
use go_cron.Prelude.{
  ℕ, zero, suc, ◌+◌, Bool, ◌&&◌, ◌||◌, true, false, ltb, if◌then◌else◌, List, [], ◌∷◌, Option, none,
  some,
}
use go_cron.Prelude.Int.{ℤ, pos, negsuc, ltb_ℤ, leb_ℤ, wrap_int64, ◌+ℤ◌}

-- The callback's argument; `Attempt` and `Err` are the attempt's number and failure.
pub record RetryAttempt {ℓ} (E : Type ℓ) : Type ℓ where
  pub attempt : ℕ
  pub delay : ℤ
  pub err : Option E
  pub will_retry : Bool

-- The loop returns, or panics with the last failure.
pub data Ending {ℓ} (E : Type ℓ) : Type ℓ where
  returns : Ending E
  panics : Option E → Ending E

pub record Report {ℓ} (E : Type ℓ) : Type ℓ where
  pub attempts : List (RetryAttempt E)
  pub ending : Ending E

-- `maxRetries + 1` is a Go int and wraps around.
unfoldable pub compute_max_attempts : ℤ → ℤ
compute_max_attempts max_retries =
    if ltb_ℤ max_retries (pos 0) then pos 0 else wrap_int64 (max_retries +ℤ pos 1)

abbrev pub is_unlimited : ℤ → Bool
is_unlimited max_attempts = leb_ℤ max_attempts (pos 0) && leb_ℤ (pos 0) max_attempts

abbrev pub failed {ℓ} : {E : Type ℓ} → Option E → Bool
failed none = false
failed (some e) = true

abbrev pub add_attempt {ℓ} : {E : Type ℓ} → RetryAttempt E → Report E → Report E
add_attempt a r = record { attempts = a ∷ r.attempts; ending = r.ending }

module _ {ℓ} {E : Type ℓ} (max_attempts : ℤ) (backoff : ℕ → ℤ) (run : ℕ → Option E) where
  unfoldable pub retry_attempt : ℕ → RetryAttempt E
  retry_attempt attempt = record {
    attempt = attempt;
    delay = if ltb 1 attempt then backoff attempt else pos 0;
    err = run attempt;
    will_retry =
        failed (run attempt) && (is_unlimited max_attempts || ltb_ℤ (pos attempt) max_attempts);
  }

  -- The rounds from `attempt` on, after the failure `last`; `none` when the fuel is used up.
  unfoldable pub retry_from : ℕ → ℕ → Option E → Option (Report E)
  retry_from zero attempt last = none
  retry_from (suc fuel) attempt last =
      let rest =
        Option.map (add_attempt (retry_attempt attempt))
          (retry_from fuel (attempt + 1) (run attempt)) in
      if is_unlimited max_attempts || leb_ℤ (pos attempt) max_attempts
      then (if failed (run attempt)
          then rest
          else some (record { attempts = retry_attempt attempt ∷ []; ending = returns }))
      else some (record { attempts = []; ending = panics last })

unfoldable pub retry {ℓ} : {E : Type ℓ} → ℤ → (ℕ → ℤ) → (ℕ → Option E) → ℕ → Option (Report E)
retry max_retries backoff run fuel =
    retry_from (compute_max_attempts max_retries) backoff run fuel 1 none
