-- ===== src/Resilience/Tests.antt =====
-- Runs of `retry_async` and of a breaker.
use open_eo_ru_stac.Prelude.{
  ℕ, ◌≡◌, refl, String, [], ◌∷◌, arith, Result, ok, err, if◌then◌else◌, ltb,
}
use open_eo_ru_stac.Resilience.Retry.{delay_for_attempt, default_policy, returned, retry_async}
use open_eo_ru_stac.Resilience.Attempts.{Ends, retry_async-Ends}
use open_eo_ru_stac.Resilience.Delays.{Grows, delay_for_attempt-Grows}
use open_eo_ru_stac.Resilience.Breaker.{
  CircuitBreaker, with_now, default_config, try_acquire, rejected,
}
use open_eo_ru_stac.Resilience.Trips.{tripped}
use open_eo_ru_stac.Resilience.Cooldown.{failure, success, steps, try_acquire-cooling}

-- The third call succeeds.
abbrev replies : ℕ → Result ℕ String
replies n = if ltb n 2 then err "unavailable" else ok n

third_call :
    retry_async default_policy replies
    ≡ (returned (ok 2), record { calls = 3; slept = 100000000 ∷ 200000000 ∷ [] })
unfolding retry_async delay_for_attempt
third_call = refl

retry_async-Ends_example : Ends default_policy replies (retry_async default_policy replies)
retry_async-Ends_example = retry_async-Ends default_policy replies

delay_for_attempt-Grows_example : Grows default_policy 2 3
delay_for_attempt-Grows_example = delay_for_attempt-Grows default_policy 2 3 (omega arith)

abbrev open_breaker : CircuitBreaker
open_breaker = tripped default_config 100 with_now

try_acquire-cooling_example :
    (try_acquire default_config 500
      (steps default_config (failure 200 ∷ success ∷ []) open_breaker)).0
    ≡ err rejected
try_acquire-cooling_example =
    try_acquire-cooling default_config 100 500 (failure 200 ∷ success ∷ []) open_breaker
      (omega arith) (omega arith, (tt, tt)) (omega arith) (record { state = refl; since = refl })
