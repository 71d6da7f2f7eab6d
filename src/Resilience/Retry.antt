-- ===== src/Resilience/Retry.antt =====
-- `RetryPolicy` and `retry_async`. The futures that `op` returns are given by the reply of each
-- call, in order; what the loop does is the number of its calls and the delays that it slept.
use open_eo_ru_stac.Prelude.{
  ℕ, zero, suc, ◌+◌, ◌-◌, ◌*◌, ◌^◌, min, Bool, Option, none, some, List, [], ◌∷◌, ◌++◌, ltb, ◌==◌,
  if◌then◌else◌, Result, ok, err,
}

pub record RetryPolicy : Type 0 where
  pub max_attempts : ℕ
  pub base_delay : ℕ
  pub max_delay : ℕ

abbrev pub default_policy : RetryPolicy
default_policy = record { max_attempts = 4; base_delay = 100000000; max_delay = 30000000000 }

-- A `Duration` holds less than 2^64 seconds.
abbrev pub duration_end : ℕ
duration_end = 2 ^ 64 * 1000000000

-- `Duration::checked_mul`.
abbrev pub checked_mul : ℕ → ℕ → Option ℕ
checked_mul d k = if ltb (d * k) duration_end then some (d * k) else none

abbrev pub unwrap_or : ℕ → Option ℕ → ℕ
unwrap_or d none = d
unwrap_or d (some x) = x

unfoldable pub delay_for_attempt : RetryPolicy → ℕ → ℕ
delay_for_attempt policy n =
    if n == 0
    then 0
    else min (unwrap_or policy.max_delay (checked_mul policy.base_delay (2 ^ min (n - 1) 30)))
        policy.max_delay

abbrev pub should_retry : RetryPolicy → ℕ → Bool
should_retry policy n = ltb n policy.max_attempts

-- What a call of `retry_async` comes to; `stuck` is the loop out of fuel.
pub data Driven (T E : Type 0) : Type 0 where
  returned : Result T E → Driven T E
  panicked stuck : Driven T E

pub record Trace : Type 0 where
  pub calls : ℕ
  pub slept : List ℕ

module _ {T E : Type 0} (policy : RetryPolicy) (replies : ℕ → Result T E) where
  -- Behind the loop.
  abbrev pub give_up : Option E → Driven T E
  give_up (some e) = returned (err e)
  give_up none = panicked

  abbrev pub pause : ℕ → Trace → Trace
  pause attempt w =
      if should_retry policy attempt
      then record w { slept = w.slept ++ delay_for_attempt policy attempt ∷ [] }
      else w

  -- What the loop does with the reply of a call; `again` is its next round.
  abbrev pub settle :
      (ℕ → Option E → Trace → Driven T E × Trace) → ℕ → Result T E → Trace → Driven T E × Trace
  settle again attempt (ok t) w = (returned (ok t), w)
  settle again attempt (err e) w = again attempt (some e) (pause attempt w)

  unfoldable pub retry_loop : ℕ → ℕ → Option E → Trace → Driven T E × Trace
  retry_loop zero attempt last_err w = (stuck, w)
  retry_loop (suc fuel) attempt last_err w =
      let again = retry_loop fuel in
      if should_retry policy attempt
      then settle again (suc attempt) (replies w.calls) (record w { calls = suc w.calls })
      else (give_up last_err, w)

  unfoldable pub retry_async : Driven T E × Trace
  unfolding retry_loop
  retry_async = retry_loop (policy.max_attempts + 1) 0 none (record { calls = 0; slept = [] })
