-- ===== src/MemoryBudget/Tests.antt =====
-- Two threads that reserve from 100 bytes.
use open_eo_ru_stac.Prelude.{◌≡◌, refl, false, [], ◌∷◌, arith}
use open_eo_ru_stac.MemoryBudget.{MemoryBudget, new, try_round, drop_guard, trying}
use open_eo_ru_stac.MemoryBudget.Interleaving.{
  no_step, then_step, round, release, IsBalanced, Steps-IsBalanced,
}

abbrev one_guard : MemoryBudget
one_guard = record { used = 60; cap = 100; guards = 60 ∷ [] }

-- The second thread read 0 before the first one reserved: it must read again.
stale_read : (try_round false 30 0 one_guard).0 ≡ trying 60
unfolding try_round
stale_read = refl

Steps-IsBalanced_example : IsBalanced 100 (drop_guard [] 60 [] one_guard)
unfolding try_round new
Steps-IsBalanced_example = Steps-IsBalanced 100 (drop_guard [] 60 [] one_guard) (omega arith) (
    then_step (new 100) one_guard (drop_guard [] 60 [] one_guard)
      (then_step (new 100) (new 100) one_guard (no_step (new 100)) (round false 60 0 (new 100)))
      (release [] 60 [] one_guard refl))
