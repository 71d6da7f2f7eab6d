-- ===== src/MemoryBudget/Interleaving.antt =====
-- Any interleaving of calls of `try_reserve` and drops of guards.
use open_eo_ru_stac.Prelude.{ℕ, ◌+◌, ◌≤◌, ◌<◌, ◌≡◌, refl, ◌∙◌, ap, Bool, List, [], ◌∷◌, ◌++◌, arith}
use open_eo_ru_stac.MemoryBudget.{MemoryBudget, new, try_round, drop_guard, usize_max}

-- A step of some thread: a round, with any value read before, or the drop of a guard that is alive.
pub data Step : MemoryBudget → MemoryBudget → Type 0 where
  round :
      (spurious : Bool) (bytes cur : ℕ) (b : MemoryBudget)
      → Step b (try_round spurious bytes cur b).1
  release :
      (before : List ℕ) (bytes : ℕ) (behind : List ℕ) (b : MemoryBudget)
      → b.guards ≡ before ++ bytes ∷ behind
      → Step b (drop_guard before bytes behind b)

pub data Steps : MemoryBudget → MemoryBudget → Type 0 where
  no_step : (b : MemoryBudget) → Steps b b
  then_step : (b c d : MemoryBudget) → Steps b c → Step c d → Steps b d

abbrev pub sum : List ℕ → ℕ
sum [] = 0
sum (n ∷ ns) = n + sum ns

-- The counter is the sum of the live guards, within the cap.
pub record IsBalanced (cap : ℕ) (b : MemoryBudget) : Type 0 where
  pub same_cap : b.cap ≡ cap
  pub counted : b.used ≡ sum b.guards
  pub within : b.used ≤ cap

sum-append : (ms ns : List ℕ) → sum (ms ++ ns) ≡ sum ms + sum ns
sum-append [] ns = omega arith
sum-append (m ∷ ms) ns = omega (arith, sum-append ms ns)

round-IsBalanced :
    (cap : ℕ) (spurious : Bool) (bytes cur : ℕ) (b : MemoryBudget)
    → cap < usize_max
    → IsBalanced cap b
    → IsBalanced cap (try_round spurious bytes cur b).1
unfolding try_round
round-IsBalanced cap spurious bytes cur b word h = record {
  same_cap = ground (arith, h.same_cap);
  counted = ground (arith, h.same_cap, h.counted);
  within = ground (arith, h.same_cap, h.within);
}

release-IsBalanced :
    (cap : ℕ) (before : List ℕ) (bytes : ℕ) (behind : List ℕ) (b : MemoryBudget)
    → cap < usize_max
    → b.guards ≡ before ++ bytes ∷ behind
    → IsBalanced cap b
    → IsBalanced cap (drop_guard before bytes behind b)
unfolding drop_guard
release-IsBalanced cap before bytes behind b word split h =
    let held : b.used ≡ sum before + (bytes + sum behind) =
      h.counted ∙ ap sum split ∙ sum-append before (bytes ∷ behind) in
    record {
      same_cap = h.same_cap;
      counted = omega (arith, held, h.within, sum-append before behind);
      within = omega (arith, held, h.within);
    }

Step-IsBalanced :
    (cap : ℕ) (b c : MemoryBudget)
    → cap < usize_max
    → Step b c
    → IsBalanced cap b
    → IsBalanced cap c
Step-IsBalanced cap b c word (round spurious bytes cur d) h =
    round-IsBalanced cap spurious bytes cur b word h
Step-IsBalanced cap b c word (release before bytes behind d split) h =
    release-IsBalanced cap before bytes behind b word split h

-- Whatever threads reserve and release in whatever order, from a new budget with a cap below the
-- largest usize on: the counter is the sum of the bytes of the live guards, and at most the cap.
pub Steps-IsBalanced :
    (cap : ℕ) (b : MemoryBudget) → cap < usize_max → Steps (new cap) b → IsBalanced cap b
unfolding new
Steps-IsBalanced cap b word (no_step c) = record {
  same_cap = refl;
  counted = refl;
  within = omega arith;
}
Steps-IsBalanced cap b word (then_step a c d steps step) =
    Step-IsBalanced cap c b word step (Steps-IsBalanced cap c word steps)
