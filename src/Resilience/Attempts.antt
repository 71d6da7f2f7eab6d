-- ===== src/Resilience/Attempts.antt =====
-- How `retry_async` ends.
use open_eo_ru_stac.Prelude.{
  false, ℕ, zero, suc, ◌+◌, ◌<◌, ◌≤◌, ◌≡◌, refl, ◌∙◌, ap, List, [], ◌∷◌, ◌++◌, arith, ltb, ltb→lt,
  lt→ltb, Option, none, some, Result, ok, err, Bool-cases, inl, inr, ge_of_ltb,
}
use open_eo_ru_stac.Resilience.Retry.{
  RetryPolicy, Driven, returned, panicked, Trace, delay_for_attempt, should_retry, retry_loop,
  retry_async, settle, pause,
}

-- The delays before the second and up to the (k+1)-th call.
abbrev pub delays : RetryPolicy → ℕ → List ℕ
delays policy zero = []
delays policy (suc k) = delays policy k ++ delay_for_attempt policy (suc k) ∷ []

module _ {T E : Type 0} (policy : RetryPolicy) (replies : ℕ → Result T E) where
  -- The first `k` calls fail.
  abbrev pub Failed : ℕ → Type 0
  Failed k = (i : ℕ) → i < k → (e : E) × (replies i ≡ err e)

  pub data Ends : Driven T E × Trace → Type 0 where
    first_success :
        (k : ℕ) (t : T)
        → k < policy.max_attempts
        → Failed k
        → replies k ≡ ok t
        → Ends (returned (ok t), record { calls = suc k; slept = delays policy k })
    last_failure :
        (k : ℕ) (e : E)
        → policy.max_attempts ≡ suc k
        → Failed (suc k)
        → replies k ≡ err e
        → Ends (returned (err e), record { calls = suc k; slept = delays policy k })
    no_attempt : policy.max_attempts ≡ 0 → Ends (panicked, record { calls = 0; slept = [] })

  Failed-suc : (k : ℕ) (e : E) → Failed k → replies k ≡ err e → Failed (suc k)
  Failed-suc k e h last i lt = elim (Bool-cases (ltb i k)) [
    | inl below ↦ h i (ltb→lt i k below)
    | inr above ↦ (e, ap replies (omega (arith, lt, ge_of_ltb i k above)) ∙ last)
  ]

  -- What the loop knows behind `attempt` failed calls.
  pub data Known : ℕ → Option E → Trace → Type 0 where
    at_first : Known 0 none (record { calls = 0; slept = [] })
    to_retry :
        (k : ℕ) (e : E)
        → suc k < policy.max_attempts
        → Failed (suc k)
        → Known (suc k) (some e) (record { calls = suc k; slept = delays policy (suc k) })
    exhausted :
        (k : ℕ) (e : E)
        → policy.max_attempts ≡ suc k
        → Failed (suc k)
        → replies k ≡ err e
        → Known (suc k) (some e) (record { calls = suc k; slept = delays policy k })

  paused :
      (k : ℕ) (e : E)
      → k < policy.max_attempts
      → Failed k
      → replies k ≡ err e
      → Known
          (suc k)
          (some e)
          (pause policy replies (suc k) (record { calls = suc k; slept = delays policy k }))
  paused k e lt failed last = elim (Bool-cases (should_retry policy (suc k))) [
    | inl more ↦
        rw more
          (to_retry k e (ltb→lt (suc k) policy.max_attempts more) (Failed-suc k e failed last))
    | inr none_left ↦ rw none_left (
        exhausted k e (omega (arith, lt, ge_of_ltb (suc k) policy.max_attempts none_left))
          (Failed-suc k e failed last) last)
  ]

  -- One round, behind `k` failed calls.
  settled-Ends :
      (fuel k : ℕ)
      → k < policy.max_attempts
      → Failed k
      → ((e : E) (w : Trace)
          → Known (suc k) (some e) w
          → Ends (retry_loop policy replies fuel (suc k) (some e) w))
      → (r : Result T E) → replies k ≡ r
      → Ends (
          settle policy replies
            (retry_loop policy replies fuel)
            (suc k)
            r
            (record { calls = suc k; slept = delays policy k }))
  settled-Ends fuel k lt failed next (ok t) reply = first_success k t lt failed reply
  settled-Ends fuel k lt failed next (err e) reply = next e _ (paused k e lt failed reply)

  stops : (k : ℕ) → policy.max_attempts ≡ suc k → should_retry policy (suc k) ≡ false
  stops k all = ground arith

  loop-Ends :
      (fuel attempt : ℕ) (last : Option E) (w : Trace)
      → Known attempt last w
      → policy.max_attempts < fuel + attempt
      → attempt ≤ policy.max_attempts
      → Ends (retry_loop policy replies fuel attempt last w)
  unfolding retry_loop
  loop-Ends zero attempt last w known enough le = absurd (omega arith)
  loop-Ends (suc fuel) attempt last w at_first enough le =
      elim (Bool-cases (should_retry policy 0)) [
        | inl more ↦ rw more (
            settled-Ends fuel 0 (ltb→lt 0 policy.max_attempts more) (λ i lt. absurd (omega arith))
              (λ e w known.
                loop-Ends fuel 1 (some e) w known (omega arith)
                  (omega (arith, ltb→lt 0 policy.max_attempts more)))
              (replies 0) refl)
        | inr none_left ↦
            rw none_left (no_attempt (omega (arith, ge_of_ltb 0 policy.max_attempts none_left)))
      ]
  loop-Ends (suc fuel) attempt last w (to_retry k e lt failed) enough le =
      rw (lt→ltb (suc k) policy.max_attempts lt) (
        settled-Ends fuel (suc k) lt failed
          (λ e w known. loop-Ends fuel (suc (suc k)) (some e) w known (omega arith) (omega arith))
          (replies (suc k)) refl)
  loop-Ends (suc fuel) attempt last w (exhausted k e all failed reply) enough le =
      rw (stops k all) (last_failure k e all failed reply)

  -- `retry_async` ends, within one round more than the allowed attempts: with the first success,
  -- having made no call behind it and slept the delays 1 to k behind its k failed calls; or, when
  -- every allowed call fails, with the error of the last one, and no delay behind it. It panics
  -- only for a policy that allows no attempt.
  pub retry_async-Ends : Ends (retry_async policy replies)
  unfolding retry_async
  retry_async-Ends =
      loop-Ends (policy.max_attempts + 1) 0 none _ at_first (omega arith) (omega arith)
