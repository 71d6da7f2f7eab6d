-- ===== src/Resilience/Cooldown.antt =====
-- What an open breaker does during its cooldown and behind it.
use open_eo_ru_stac.Prelude.{ℕ, ◌+◌, ◌%◌, ◌^◌, ◌≤◌, ◌<◌, ◌≡◌, some, List, [], ◌∷◌, arith, ok, err}
use open_eo_ru_stac.Resilience.Breaker.{
  opened, half_open, CircuitConfig, rejected, CircuitBreaker, with_now, current_state, try_acquire,
  record_success, record_failure,
}

-- A call on the breaker, and the instant that the clock gives.
pub data Call : Type 0 where
  ask acquire failure : ℕ → Call
  success : Call

module _ (cfg : CircuitConfig) where
  abbrev pub step : Call → CircuitBreaker → CircuitBreaker
  step (ask now) b = (current_state cfg now b).1
  step (acquire now) b = (try_acquire cfg now b).1
  step (failure now) b = record_failure cfg now b
  step success b = record_success cfg b

  abbrev pub steps : List Call → CircuitBreaker → CircuitBreaker
  steps [] b = b
  steps (c ∷ cs) b = steps cs (step c b)

  -- The clock shows the call an instant before the end of a cooldown.
  abbrev pub Before : ℕ → Call → Type 0
  Before end (ask now) = now < end
  Before end (acquire now) = now < end
  Before end (failure now) = now < end
  Before end success = Unit

  abbrev pub AllBefore : ℕ → List Call → Type 0
  AllBefore end [] = Unit
  AllBefore end (c ∷ cs) = Before end c × AllBefore end cs

  pub record IsOpenSince (t : ℕ) (b : CircuitBreaker) : Type 0 where
    pub state : b.state ≡ opened
    pub since : b.opened_at ≡ some t

  step-IsOpenSince :
      (t : ℕ) (c : Call) (b : CircuitBreaker)
      → 0 < cfg.open_cooldown
      → Before (t + cfg.open_cooldown) c
      → IsOpenSince t b
      → IsOpenSince t (step c b)
  unfolding current_state try_acquire record_success record_failure
  step-IsOpenSince t (ask now) b cool lt h = ground (arith, h.state, h.since)
  step-IsOpenSince t (acquire now) b cool lt h = ground (arith, h.state, h.since)
  step-IsOpenSince t (failure now) b cool lt h = ground (arith, h.state, h.since)
  step-IsOpenSince t success b cool lt h = ground (arith, h.state, h.since)

  steps-IsOpenSince :
      (t : ℕ) (cs : List Call) (b : CircuitBreaker)
      → 0 < cfg.open_cooldown
      → AllBefore (t + cfg.open_cooldown) cs
      → IsOpenSince t b
      → IsOpenSince t (steps cs b)
  steps-IsOpenSince t [] b cool lt h = h
  steps-IsOpenSince t (c ∷ cs) b cool (lt, lts) h =
      steps-IsOpenSince t cs (step c b) cool lts (step-IsOpenSince t c b cool lt h)

  rejects :
      (t now : ℕ) (b : CircuitBreaker)
      → 0 < cfg.open_cooldown
      → now < t + cfg.open_cooldown
      → IsOpenSince t b
      → (try_acquire cfg now b).0 ≡ err rejected
  unfolding current_state try_acquire
  rejects t now b cool lt h = ground (arith, h.state, h.since)

  -- While a cooldown that is not 0 runs, a breaker that opened at `t` lets no call through, whatever
  -- calls, successes and failures were before on it within the cooldown.
  pub try_acquire-cooling :
      (t now : ℕ) (cs : List Call) (b : CircuitBreaker)
      → 0 < cfg.open_cooldown
      → AllBefore (t + cfg.open_cooldown) cs
      → now < t + cfg.open_cooldown
      → IsOpenSince t b
      → (try_acquire cfg now (steps cs b)).0 ≡ err rejected
  try_acquire-cooling t now cs b cool before lt h =
      rejects t now (steps cs b) cool lt (steps-IsOpenSince t cs b cool before h)

  -- What the first call behind the cooldown does, and what its end does, at `later`.
  pub record Probes (now later : ℕ) (b : CircuitBreaker) : Type 0 where
    pub permitted : (try_acquire cfg now b).0 ≡ ok tt
    pub probing : (try_acquire cfg now b).1.state ≡ half_open
    pub again : (try_acquire cfg later (try_acquire cfg now b).1).0 ≡ ok tt
    pub recovers :
        record_success cfg (try_acquire cfg now b).1 ≡ record with_now { open_count = b.open_count }
    pub reopens : IsOpenSince later (record_failure cfg later (try_acquire cfg now b).1)
    pub counted :
        (record_failure cfg later (try_acquire cfg now b).1).open_count
        ≡ (b.open_count + 1) % 2 ^ 64

  probes :
      (t now later : ℕ) (b : CircuitBreaker)
      → t + cfg.open_cooldown ≤ now
      → IsOpenSince t b
      → Probes now later b
  unfolding current_state try_acquire record_success record_failure
  probes t now later b le h = record {
    permitted = ground (arith, h.state, h.since);
    probing = ground (arith, h.state, h.since);
    again = ground (arith, h.state, h.since);
    recovers = ground (arith, h.state, h.since);
    reopens = record {
      state = ground (arith, h.state, h.since);
      since = ground (arith, h.state, h.since);
    };
    counted = ground (arith, h.state, h.since);
  }

  -- Behind the cooldown the first call is let through and the breaker is half open; a success then
  -- closes it, with no failures counted, and a failure opens it anew, at its own instant, and counts
  -- one opening more. A second call before either is let through too.
  pub try_acquire-Probes :
      (t now later : ℕ) (cs : List Call) (b : CircuitBreaker)
      → 0 < cfg.open_cooldown
      → AllBefore (t + cfg.open_cooldown) cs
      → t + cfg.open_cooldown ≤ now
      → IsOpenSince t b
      → Probes now later (steps cs b)
  try_acquire-Probes t now later cs b cool before le h =
      probes t now later (steps cs b) le (steps-IsOpenSince t cs b cool before h)
