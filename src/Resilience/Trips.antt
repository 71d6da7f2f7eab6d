-- ===== src/Resilience/Trips.antt =====
-- When a closed breaker opens.
use open_eo_ru_stac.Prelude.{
  ℕ, suc, ◌+◌, ◌%◌, ◌^◌, ◌≤◌, ◌<◌, ◌≡◌, ap, ◌∙◌, none, some, List, [], ◌∷◌, length, arith, leb,
  if◌then◌else◌,
}
use open_eo_ru_stac.Resilience.Breaker.{
  closed, opened, CircuitConfig, CircuitBreaker, record_failure,
}

module _ (cfg : CircuitConfig) where
  -- Failures at the given instants, in order.
  abbrev pub fail_all : List ℕ → CircuitBreaker → CircuitBreaker
  fail_all [] b = b
  fail_all (now ∷ nows) b = fail_all nows (record_failure cfg now b)

  abbrev pub last_of : List ℕ → ℕ → ℕ
  last_of [] now = now
  last_of (now ∷ nows) _ = last_of nows now

  -- A closed breaker that counted `k` failures.
  abbrev pub counting : ℕ → CircuitBreaker → CircuitBreaker
  counting k b = record b { state = closed; opened_at = none; consecutive_failures = k }

  abbrev pub tripped : ℕ → CircuitBreaker → CircuitBreaker
  tripped now b = record b {
    state = opened;
    opened_at = some now;
    consecutive_failures = cfg.failure_threshold;
    open_count = (b.open_count + 1) % 2 ^ 64;
  }

  one_more :
      (k now : ℕ) (b : CircuitBreaker)
      → suc k ≤ cfg.failure_threshold
      → cfg.failure_threshold < 2 ^ 32
      → record_failure cfg now (counting k b)
        ≡ (if leb cfg.failure_threshold (suc k) then tripped now b else counting (suc k) b)
  unfolding record_failure
  one_more k now b le word = ground (arith, small)
    where
      small : (k + 1) % 2 ^ 32 ≡ suc k
      small = omega arith

  -- A closed breaker opens at the failure that makes the failures in a row as many as the
  -- threshold, at that failure's instant, and counts the opening; below the threshold it stays
  -- closed and counts.
  pub fail_all-closed :
      (k : ℕ) (now : ℕ) (nows : List ℕ) (b : CircuitBreaker)
      → cfg.failure_threshold < 2 ^ 32
      → k + length (now ∷ nows) ≤ cfg.failure_threshold
      → fail_all (now ∷ nows) (counting k b) ≡ (
          if leb cfg.failure_threshold (k + length (now ∷ nows))
          then tripped (last_of nows now) b
          else counting (k + length (now ∷ nows)) b)
  fail_all-closed k now [] b word le = one_more k now b (omega arith) word ∙ (ground arith)
  fail_all-closed k now (next ∷ nows) b word le =
      ap (fail_all (next ∷ nows)) (one_more k now b (omega arith) word ∙ more)
      ∙ fail_all-closed (suc k) next nows b word (omega arith)
      ∙ (ground arith)
    where
      more :
          (if leb cfg.failure_threshold (suc k) then tripped now b else counting (suc k) b)
          ≡ counting (suc k) b
      more = ground arith
