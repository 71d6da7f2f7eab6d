-- ===== src/Resilience/Breaker.antt =====
-- `CircuitBreaker`. Each operation takes the instant that the clock gives it; one that changes the
-- atomic counter and the locked state is one step here.
use open_eo_ru_stac.Prelude.{
  ℕ, ◌+◌, ◌-◌, ◌%◌, ◌^◌, Bool, true, false, Option, none, some, leb, if◌then◌else◌, Result, ok, err,
}

pub data CircuitState : Type 0 where
  closed opened half_open : CircuitState

pub record CircuitConfig : Type 0 where
  pub failure_threshold : ℕ
  pub open_cooldown : ℕ

abbrev pub default_config : CircuitConfig
default_config = record { failure_threshold = 5; open_cooldown = 30000000000 }

pub data CircuitError : Type 0 where
  rejected : CircuitError

pub record CircuitBreaker : Type 0 where
  pub state : CircuitState
  pub opened_at : Option ℕ
  pub consecutive_failures : ℕ
  pub open_count : ℕ

abbrev pub with_now : CircuitBreaker
with_now = record { state = closed; opened_at = none; consecutive_failures = 0; open_count = 0 }

module _ (cfg : CircuitConfig) where
  -- `duration_since` is 0 for an instant before `t`.
  abbrev pub cooled_down : ℕ → Option ℕ → Bool
  cooled_down now none = false
  cooled_down now (some t) = leb cfg.open_cooldown (now - t)

  -- The state that `state` leaves and returns.
  abbrev pub advanced : ℕ → CircuitState → Option ℕ → CircuitState
  advanced now opened opened_at = if cooled_down now opened_at then half_open else opened
  advanced now closed opened_at = closed
  advanced now half_open opened_at = half_open

  unfoldable pub current_state : ℕ → CircuitBreaker → CircuitState × CircuitBreaker
  current_state now b =
      let state = advanced now b.state b.opened_at in (state, record b { state = state })

  abbrev pub permission : CircuitState → Result (Unit {0}) CircuitError
  permission opened = err rejected
  permission closed = ok tt
  permission half_open = ok tt

  unfoldable pub try_acquire : ℕ → CircuitBreaker → Result (Unit {0}) CircuitError × CircuitBreaker
  unfolding current_state
  try_acquire now b = let (state, b') = current_state now b in (permission state, b')

  unfoldable pub record_success : CircuitBreaker → CircuitBreaker
  record_success b = elim b.state [
    | half_open ↦ record b { state = closed; opened_at = none; consecutive_failures = 0 }
    | closed ↦ record b { consecutive_failures = 0 }
    | opened ↦ record b { consecutive_failures = 0 }
  ]

  abbrev pub should_open : CircuitState → ℕ → Bool
  should_open closed prev = leb cfg.failure_threshold prev
  should_open half_open prev = true
  should_open opened prev = false

  unfoldable pub record_failure : ℕ → CircuitBreaker → CircuitBreaker
  record_failure now b =
      let prev = (b.consecutive_failures + 1) % 2 ^ 32 in
      if should_open b.state prev
      then record {
        state = opened;
        opened_at = some now;
        consecutive_failures = prev;
        open_count = (b.open_count + 1) % 2 ^ 64;
      }
      else record b { consecutive_failures = prev }
