-- ===== src/MemoryBudget.antt =====
-- `MemoryBudget` of apps/orbit-openeo/src/block_executor.rs. The loop of `try_reserve` compares and
-- swaps an atomic counter that other threads change in between: each access to the counter is a
-- step, and the threads' steps interleave in any order.
pub mod Interleaving
mod Tests
use open_eo_ru_stac.Prelude.{
  ℕ, ◌+◌, ◌-◌, ◌%◌, ◌^◌, Bool, List, [], ◌∷◌, ◌++◌, min, ltb, ◌==◌, ◌&&◌, if◌then◌else◌,
}

-- usize
abbrev pub usize_max : ℕ
usize_max = 2 ^ 64 - 1

abbrev pub saturating_add : ℕ → ℕ → ℕ
saturating_add a b = min (a + b) usize_max

-- The counter, the cap, and the bytes of the guards that are alive.
pub record MemoryBudget : Type 0 where
  pub used : ℕ
  pub cap : ℕ
  pub guards : List ℕ

unfoldable pub new : ℕ → MemoryBudget
new cap_bytes = record { used = 0; cap = cap_bytes; guards = [] }

abbrev pub available : MemoryBudget → ℕ
available b = b.cap - b.used

-- Where a call of `try_reserve` stands: in the loop with the counter's value as it last read it, or
-- behind it.
pub data Attempt : Type 0 where
  trying : ℕ → Attempt
  reserved : Attempt
  budget_exhausted : ℕ → ℕ → Attempt

-- One round of the loop for `bytes`, where the counter was `cur` when the call read it. The weak
-- exchange may fail although the counter is `cur`: then `spurious`.
unfoldable pub try_round : Bool → ℕ → ℕ → MemoryBudget → Attempt × MemoryBudget
try_round spurious bytes cur b =
    let next = saturating_add cur bytes in
    if ltb b.cap next
    then (budget_exhausted bytes (b.cap - cur), b)
    else if spurious
    then (trying b.used, b)
    else if b.used == cur
    then (reserved, record b { used = next; guards = bytes ∷ b.guards })
    else (trying b.used, b)

-- The drop of a guard, which stands between others: `fetch_sub` wraps around.
unfoldable pub drop_guard : List ℕ → ℕ → List ℕ → MemoryBudget → MemoryBudget
drop_guard before bytes behind b = record b {
  used = (b.used + 2 ^ 64 - bytes) % 2 ^ 64;
  guards = before ++ behind;
}
