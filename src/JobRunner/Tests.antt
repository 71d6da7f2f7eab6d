-- ===== src/JobRunner/Tests.antt =====
-- Runs over the in-memory job store, and a file store that takes or refuses every body.
use open_eo_ru_stac.Prelude.{ℕ, ◌+◌, refl, [], ◌∷◌, ok}
use open_eo_ru_stac.JobStore.{find}
use open_eo_ru_stac.JobStore.Tests.{two_jobs, first_job}
use open_eo_ru_stac.JobRunner.{World, SyncResult, elapsed, returned, run_job}
use open_eo_ru_stac.JobRunner.Interface.{FileOps}
use open_eo_ru_stac.JobRunner.Memory.{Clocked, memory_ops, memory_laws, summary_of}
use open_eo_ru_stac.JobRunner.Protocol.{Protocol, Emits, run_job-Emits}
use open_eo_ru_stac.JobRunner.Lifecycle.{Ends, Refused, stored, run_job-Ends, run_job-unknown}

abbrev pub clock : ℕ → ℕ
clock n = n + 100

-- A file store that counts what it took.
abbrev pub taking : FileOps ℕ
taking = record { put = λ key body n. (ok tt, n + 1) }

abbrev pub world : World Clocked ℕ
world = record { store = (two_jobs, 0); files = 0; events = []; metrics = [] }

abbrev result : SyncResult
result = record { content_type = "application/json"; body = 123 ∷ 125 ∷ [] }

run_job-Emits_example :
    Emits
      (memory_ops clock)
      taking
      "a"
      "u"
      Protocol
      []
      []
      (run_job (memory_ops clock) taking "a" "u" 600 elapsed world)
run_job-Emits_example = run_job-Emits (memory_ops clock) taking "a" "u" 600 elapsed world

run_job-Ends_example :
    Ends
      (memory_ops clock)
      (memory_laws clock)
      taking
      "a"
      "u"
      (summary_of first_job)
      (stored taking "a" (returned (ok result)) 0)
      (run_job (memory_ops clock) taking "a" "u" 600 (returned (ok result)) world)
unfolding memory_laws find
run_job-Ends_example =
    run_job-Ends (memory_ops clock) (memory_laws clock) taking "a" "u" 600 (returned (ok result))
      world (summary_of first_job) refl

run_job-unknown_example :
    Refused
      (memory_ops clock)
      (memory_laws clock)
      taking
      "z"
      "u"
      world
      (run_job (memory_ops clock) taking "z" "u" 600 (returned (ok result)) world)
unfolding memory_laws find
run_job-unknown_example =
    run_job-unknown (memory_ops clock) (memory_laws clock) taking "z" "u" 600 (returned (ok result))
      world refl
