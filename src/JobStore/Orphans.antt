-- ===== src/JobStore/Orphans.antt =====
-- `recover_orphans`: what a restart does to the jobs that the previous process left behind.
use open_eo_ru_stac.Prelude.{
  ℕ, ◌+◌, true, false, ◌≡◌, refl, ◌∙◌, ap, sym, ◌⊎◌, inl, inr, String, Option, none, some, List, [],
  ◌∷◌, arith, IsIn, str_eq, Bool-cases,
}
use open_eo_ru_stac.Job.{
  JobStatus, created, queued, running, canceled, finished, error, JobRecord, is_active,
}
use open_eo_ru_stac.JobStore.{InMemoryJobStore, find, recover_record, recover_loop, recover_orphans}
use open_eo_ru_stac.JobStore.Laws.{view}

abbrev pub IsOrphan : JobRecord → Type 0
IsOrphan r = (r.status ≡ queued) ⊎ (r.status ≡ running)

-- How many jobs are queued or running.
abbrev pub orphan : JobStatus → ℕ
orphan queued = 1
orphan running = 1
orphan _ = 0

abbrev pub orphans : List JobRecord → ℕ
orphans [] = 0
orphans (r ∷ rs) = orphans rs + orphan r.status

-- What a recovery at time `now` makes of a job.
pub data Swept (now : ℕ) : Option JobRecord → Option JobRecord → Type 0 where
  absent : Swept now none none
  swept :
      (r : JobRecord)
      → IsOrphan r
      → Swept now (some r) (some (record r { status = error; updated_at = now }))
  kept : (r : JobRecord) → (IsOrphan r → ⊥) → Swept now (some r) (some r)

orphan_or_not :
    (s : JobStatus)
    → (((s ≡ queued) ⊎ (s ≡ running)) × (is_active s ≡ true) × (orphan s ≡ 1))
      ⊎ (((s ≡ queued) ⊎ (s ≡ running) → ⊥) × (is_active s ≡ false) × (orphan s ≡ 0))
orphan_or_not queued = inl (inl refl, refl, refl)
orphan_or_not running = inl (inr refl, refl, refl)
orphan_or_not created = inr ((λ h. elim h [ inl e ↦ cc | inr e ↦ cc ]), refl, refl)
orphan_or_not canceled = inr ((λ h. elim h [ inl e ↦ cc | inr e ↦ cc ]), refl, refl)
orphan_or_not finished = inr ((λ h. elim h [ inl e ↦ cc | inr e ↦ cc ]), refl, refl)
orphan_or_not error = inr ((λ h. elim h [ inl e ↦ cc | inr e ↦ cc ]), refl, refl)

recover_record-Swept : (now : ℕ) (r : JobRecord) → Swept now (some r) (some (recover_record now r))
recover_record-Swept now r = elim (orphan_or_not r.status) [
  | inl (is, active, one) ↦ rw active (swept r is)
  | inr (not_one, inactive, zero_) ↦ rw inactive (kept r not_one)
]

Swept-not_orphan : (now : ℕ) (r q : JobRecord) → Swept now (some r) (some q) → IsOrphan q → ⊥
Swept-not_orphan now r q (swept s is) (inl e) = cc
Swept-not_orphan now r q (swept s is) (inr e) = cc
Swept-not_orphan now r q (kept s not_one) is = not_one is

recover_loop-orphans : (now : ℕ) (rs : List JobRecord) → (recover_loop now rs).1 ≡ orphans rs
unfolding recover_loop
recover_loop-orphans now [] = refl
recover_loop-orphans now (r ∷ rs) = elim (orphan_or_not r.status) [
  | inl (is, active, one) ↦ rw (active, one) (omega (arith, recover_loop-orphans now rs))
  | inr (not_one, inactive, zero_) ↦
      rw (inactive, zero_) (omega (arith, recover_loop-orphans now rs))
]

recover_loop-no_orphan :
    (now : ℕ) (rs : List JobRecord) (q : JobRecord)
    → IsIn q (recover_loop now rs).0
    → IsOrphan q
    → ⊥
unfolding recover_loop
recover_loop-no_orphan now [] q at is = absurd at
recover_loop-no_orphan now (r ∷ rs) q (inl e) is =
    Swept-not_orphan now r (recover_record now r) (recover_record-Swept now r) (elim is [
      | inl s ↦ inl (ap (λ x. x.status) (sym e) ∙ s)
      | inr s ↦ inr (ap (λ x. x.status) (sym e) ∙ s)
    ])
recover_loop-no_orphan now (r ∷ rs) q (inr at) is = recover_loop-no_orphan now rs q at is

recover_record-id : (now : ℕ) (r : JobRecord) → (recover_record now r).id ≡ r.id
recover_record-id now r = ground arith

find-recover_loop :
    (now : ℕ) (j : String) (rs : List JobRecord)
    → Swept now (find j rs) (find j (recover_loop now rs).0)
unfolding find recover_loop
find-recover_loop now j [] = absent
find-recover_loop now j (r ∷ rs) = rw (recover_record-id now r) (elim (Bool-cases (str_eq r.id j)) [
  | inl same ↦ rw same (recover_record-Swept now r)
  | inr other ↦ rw other (find-recover_loop now j rs)
])

-- What a recovery at time `now` returned, and left in the store.
pub record Recovered (now : ℕ) (s : InMemoryJobStore) (out : ℕ × InMemoryJobStore) : Type 0 where
  pub reported : out.0 ≡ orphans s.inner
  pub none_left : (r : JobRecord) → IsIn r out.1.inner → IsOrphan r → ⊥
  pub records : (j : String) → Swept now (view s j) (view out.1 j)
  pub logs : out.1.logs ≡ s.logs

-- `recover_orphans` returns the number of queued and running jobs, leaves no job queued or running,
-- sets exactly those jobs to `error` with the time of the recovery, and leaves every other job and
-- the logs as they were.
pub recover_orphans-Recovered :
    (now : ℕ) (s : InMemoryJobStore) → Recovered now s (recover_orphans now s)
unfolding recover_orphans
recover_orphans-Recovered now s = record {
  reported = recover_loop-orphans now s.inner;
  none_left = recover_loop-no_orphan now s.inner;
  records = λ j. find-recover_loop now j s.inner;
  logs = refl;
}
