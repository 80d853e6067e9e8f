-- ===== src/Retry/Loop/Laws.antt =====
-- How often the retry loop runs a job, and how it ends.
use mathlib.Core.Option
use go_cron.Prelude.{
  ℕ, zero, suc, ◌+◌, ◌-◌, ◌^◌, ◌≤◌, ◌<◌, ◌≡◌, ◌⊎◌, refl, sym, ap, ◌∙◌, Bool, true, false, ltb, leb,
  Bool-cases, ◌&&◌, inl, inr, List, [], ◌∷◌, Option, none, some, arith,
}
use go_cron.Prelude.Int.{ℤ, pos, ◌+ℤ◌, wrap_int64}
use go_cron.Retry.Loop.{
  failed, add_attempt, RetryAttempt, returns, panics, Report, compute_max_attempts, retry_attempt,
  retry_from, retry,
}

module _ {ℓ} {E : Type ℓ} (n : ℕ) (backoff : ℕ → ℤ) (run : ℕ → Option E) where
  -- `count` attempts from `first` on, one after the other.
  abbrev pub tries : ℕ → ℕ → List (RetryAttempt E)
  tries first zero = []
  tries first (suc count) = retry_attempt (pos n) backoff run first ∷ tries (first + 1) count

  -- `count` attempts from `first` on: all but the last fail, and the last succeeds or is the n-th.
  pub record IsRetried (first : ℕ) (r : Report E) : Type ℓ where
    pub count : ℕ
    pub some_attempt : 1 ≤ count
    pub at_most : first + count ≤ n + 1
    pub attempts : r.attempts ≡ tries first count
    pub failed_before : (j : ℕ) → first ≤ j → j + 1 < first + count → failed (run j) ≡ true
    pub ends :
        ((run (first + count - 1) ≡ none) × (r.ending ≡ returns))
        ⊎ ((first + count ≡ n + 1) × (failed (run n) ≡ true) × (r.ending ≡ panics (run n)))

  retry_from-last :
      (fuel first : ℕ) (last : Option E)
      → first ≡ n + 1
      → 1 ≤ n
      → retry_from (pos n) backoff run (suc fuel) first last
        ≡ some (record { attempts = []; ending = panics last })
  unfolding retry_from
  retry_from-last fuel first last e h =
      let past : leb (first + 0) (n + 0) ≡ false = ground arith in
      let limited : leb (n + 0) 0 ≡ false = ground arith in rw (past, limited) refl

  retry_from-success :
      (fuel first : ℕ) (last : Option E)
      → first ≤ n
      → 1 ≤ n
      → failed (run first) ≡ false
      → retry_from (pos n) backoff run (suc fuel) first last
        ≡ some (record { attempts = tries first 1; ending = returns })
  unfolding retry_from
  retry_from-success fuel first last k h ok =
      let within : leb (first + 0) (n + 0) ≡ true = ground arith in
      let limited : leb (n + 0) 0 ≡ false = ground arith in rw (limited, within, ok) refl

  retry_from-failure :
      (fuel first : ℕ) (last : Option E)
      → first ≤ n
      → 1 ≤ n
      → failed (run first) ≡ true
      → retry_from (pos n) backoff run (suc fuel) first last
        ≡ Option.map
            (add_attempt (retry_attempt (pos n) backoff run first))
            (retry_from (pos n) backoff run fuel (first + 1) (run first))
  unfolding retry_from
  retry_from-failure fuel first last k h bad =
      let within : leb (first + 0) (n + 0) ≡ true = ground arith in
      let limited : leb (n + 0) 0 ≡ false = ground arith in rw (limited, within, bad) refl

  none_left : (first : ℕ) → failed (run first) ≡ false → run first ≡ none
  none_left first ok = go (run first) ok
    where
      go : (o : Option E) → failed o ≡ false → o ≡ none
      go none e = refl
      go (some x) e = ground arith

  IsRetried-success :
      (first : ℕ)
      → first ≤ n
      → failed (run first) ≡ false
      → IsRetried first (record { attempts = tries first 1; ending = returns })
  IsRetried-success first k ok = record {
    count = 1;
    some_attempt = omega arith;
    at_most = omega arith;
    attempts = refl;
    failed_before = λ j a b. ground arith;
    ends = inl (ap run (omega arith) ∙ none_left first ok, refl);
  }

  IsRetried-last :
      (first : ℕ)
      → first ≡ n
      → failed (run first) ≡ true
      → IsRetried first (record { attempts = tries first 1; ending = panics (run first) })
  IsRetried-last first e bad = record {
    count = 1;
    some_attempt = omega arith;
    at_most = omega arith;
    attempts = refl;
    failed_before = λ j a b. ground arith;
    ends = inr (
      omega arith,
      ap (λ (j : ℕ). failed (run j)) (sym e) ∙ bad,
      ap (λ (j : ℕ). panics (run j)) e,
    );
  }

  IsRetried-failure :
      (first : ℕ) (r : Report E)
      → failed (run first) ≡ true
      → IsRetried (first + 1) r
      → IsRetried first (add_attempt (retry_attempt (pos n) backoff run first) r)
  IsRetried-failure first r bad i =
      let a = i.some_attempt in
      let b = i.at_most in
      let same : first + 1 + i.count ≡ first + suc i.count = omega arith in
      record {
        count = suc i.count;
        some_attempt = omega arith;
        at_most = omega (arith, b);
        attempts =
            ap (λ (l : List (RetryAttempt E)). retry_attempt (pos n) backoff run first ∷ l)
              i.attempts;
        failed_before = λ j p q. elim (Bool-cases (leb j first)) [
          | inl t ↦ ap (λ (x : ℕ). failed (run x)) (ground arith) ∙ bad
          | inr t ↦ i.failed_before j (ground arith) (omega (arith, q, same))
        ];
        ends = elim i.ends [
          | inl e ↦ inl (ap (λ (x : ℕ). run (x - 1)) (sym same) ∙ e.0, e.1)
          | inr e ↦ inr (sym same ∙ e.0, e.1, e.2)
        ];
      }

  retry_from-IsRetried :
      (fuel first : ℕ) (last : Option E)
      → 1 ≤ n
      → first ≤ n
      → n + 2 ≤ fuel + first
      → (r : Report E) × (retry_from (pos n) backoff run fuel first last ≡ some r)
        × IsRetried first r
  retry_from-IsRetried zero first last h k f = ground arith
  retry_from-IsRetried (suc zero) first last h k f = ground arith
  retry_from-IsRetried (suc (suc fuel)) first last h k f = elim (Bool-cases (failed (run first))) [
    | inr ok ↦ (_, retry_from-success (suc fuel) first last k h ok, IsRetried-success first k ok)
    | inl bad ↦
        let step = retry_from-failure (suc fuel) first last k h bad in
        elim (Bool-cases (leb n first)) [
          | inl t ↦
              let e : first ≡ n = ground arith in
              let end = retry_from-last fuel (first + 1) (run first) (omega arith) h in
              (
                _,
                step ∙ ap (Option.map (add_attempt (retry_attempt (pos n) backoff run first))) end,
                IsRetried-last first e bad,
              )
          | inr t ↦
              let ih =
                retry_from-IsRetried (suc fuel) (first + 1) (run first) h (ground arith)
                  (omega arith) in
              (
                _,
                step ∙ ap (Option.map (add_attempt (retry_attempt (pos n) backoff run first))) ih.1,
                IsRetried-failure first ih.0 bad ih.2,
              )
        ]
  ]

  -- In the loop's report on `n` allowed attempts, an attempt says that another will follow just if
  -- one does.
  pub will_retry-IsRetried :
      (first : ℕ) (r : Report E) (i : IsRetried first r) (j : ℕ)
      → 1 ≤ n
      → first ≤ j
      → j < first + i.count
      → (retry_attempt (pos n) backoff run j).will_retry ≡ ltb (j + 1) (first + i.count)
  unfolding retry_attempt
  will_retry-IsRetried first r i j h a b =
      let most = i.at_most in
      let limited : leb (n + 0) 0 ≡ false = ground arith in
      elim (Bool-cases (ltb (j + 1) (first + i.count))) [
        | inl t ↦
            let bad : failed (run j) ≡ true = i.failed_before j a (ground arith) in
            let below : ltb (j + 0) (n + 0) ≡ true = ground (arith, most) in
            rw (t, bad, limited) below
        | inr t ↦ elim i.ends [
          | inl e ↦
              let last : first + i.count - 1 ≡ j = ground arith in
              let good : failed (run j) ≡ false = ap failed (ap run (sym last) ∙ e.0) in
              rw (t, good) refl
          | inr e ↦
              let full = e.0 in
              let above : ltb (j + 0) (n + 0) ≡ false = ground (arith, full) in
              let last : n ≡ j = ground (arith, full) in
              rw (t, limited)
                (ap (λ (x : Bool). failed (run j) && x) above ∙ and_false (failed (run j)))
        ]
      ]
    where
      and_false : (x : Bool) → (x && false) ≡ false
      and_false x = ground arith

-- With `max_retries` retries, fewer than MaxInt64, and fuel for them, the loop ends: each attempt
-- but the last fails, and the loop returns after a success, or panics with the last failure after
-- `max_retries + 1` failures.
pub retry-IsRetried {ℓ} :
    {E : Type ℓ} (max_retries : ℕ) (backoff : ℕ → ℤ) (run : ℕ → Option E) (fuel : ℕ)
    → max_retries < 2 ^ 63 - 1
    → max_retries + 2 ≤ fuel
    → (r : Report E) × (retry (pos max_retries) backoff run fuel ≡ some r)
      × IsRetried (max_retries + 1) backoff run 1 r
unfolding retry
retry-IsRetried max_retries backoff run fuel h f =
    let limit : compute_max_attempts (pos max_retries) ≡ pos (max_retries + 1) =
      unfold compute_max_attempts wrap_int64 ◌+ℤ◌ in ground arith in
    let x =
      retry_from-IsRetried (max_retries + 1) backoff run fuel 1 none (omega arith) (omega arith)
        (omega arith) in
    (x.0, ap (λ (m : ℤ). retry_from m backoff run fuel 1 none) limit ∙ x.1, x.2)

-- With MaxInt64 retries the number of attempts wraps around: the job does not run at all, and the
-- loop panics without a failure.
pub retry-overflow {ℓ} :
    {E : Type ℓ} (backoff : ℕ → ℤ) (run : ℕ → Option E) (fuel : ℕ)
    → 1 ≤ fuel
    → retry (pos (2 ^ 63 - 1)) backoff run fuel
      ≡ some (record { attempts = []; ending = panics none })
unfolding retry retry_from compute_max_attempts wrap_int64 ◌+ℤ◌
retry-overflow backoff run zero h = ground arith
retry-overflow backoff run (suc fuel) h = refl
