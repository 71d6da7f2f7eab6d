-- ===== src/Resilience/Delays.antt =====
-- The delays of a retry policy.
use open_eo_ru_stac.Prelude.{
  ℕ, suc, ◌-◌, ◌*◌, ◌^◌, ◌≤◌, ◌<◌, ◌≡◌, min, arith, ltb, if◌then◌else◌, some, none,
}
use native.Mathlib.Nat.{mul-le-mul_left, pow-le-pow_right}
use open_eo_ru_stac.Resilience.Retry.{RetryPolicy, delay_for_attempt, duration_end, unwrap_or}

pub record Grows (policy : RetryPolicy) (n m : ℕ) : Type 0 where
  pub capped : delay_for_attempt policy n ≤ policy.max_delay
  pub ordered : delay_for_attempt policy n ≤ delay_for_attempt policy m
  pub doubled :
      policy.base_delay * 2 ^ n < duration_end
      → n ≤ 30
      → delay_for_attempt policy (suc n) ≡ min (policy.base_delay * 2 ^ n) policy.max_delay

product_mono : (base a b : ℕ) → a ≤ b → base * 2 ^ a ≤ base * 2 ^ b
product_mono base a b le = mul-le-mul_left base (pow-le-pow_right (omega arith) le)

-- The cut-off of a product at the cap, where it is no `Duration` also.
abbrev cut : ℕ → ℕ → ℕ
cut cap p = min (unwrap_or cap (if ltb p duration_end then some p else none)) cap

cut_mono : (cap p q : ℕ) → p ≤ q → cut cap p ≤ cut cap q
cut_mono cap p q le = ground arith

cut_le : (cap p : ℕ) → cut cap p ≤ cap
cut_le cap p = ground arith

-- The delays of a policy never exceed its cap and grow with the number of failures: behind n + 1
-- of them the delay is base * 2^n, cut off at the cap, as long as n is at most 30 and the product
-- is a `Duration`.
pub delay_for_attempt-Grows : (policy : RetryPolicy) (n m : ℕ) → n ≤ m → Grows policy n m
unfolding delay_for_attempt
delay_for_attempt-Grows policy n m le = record {
  capped = ground (arith, cut_le policy.max_delay (policy.base_delay * 2 ^ min (n - 1) 30));
  ordered = ground (
    arith,
    cut_mono policy.max_delay (policy.base_delay * 2 ^ min (n - 1) 30)
        (policy.base_delay * 2 ^ min (m - 1) 30)
        (product_mono policy.base_delay (min (n - 1) 30) (min (m - 1) 30) (omega arith)),
  );
  doubled = λ fits small. rw (exponent small) (ground (arith, fits));
}
  where
    exponent : n ≤ 30 → min (suc n - 1) 30 ≡ n
    exponent small = omega arith
