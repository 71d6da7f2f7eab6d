-- ===== src/JobRunner/Memory.antt =====
-- The in-memory store of job_store.rs keeps the contract that a run relies on. A method reads the
-- clock when it is called: the state counts the readings, and `clock` gives the time of each.
use mathlib.Core.Option
use open_eo_ru_stac.Prelude.{
  ℕ, ◌+◌, ◌≡◌, refl, String, Option, none, some, arith, Option-cases, inl, inr, ap,
}
use open_eo_ru_stac.Job.{JobRecord}
use open_eo_ru_stac.JobStore.{
  InMemoryJobStore, Outcome, set_status, set_progress, append_log, add_asset,
}
use open_eo_ru_stac.JobStore.Laws.{Changes, modify-Changes, view}
use open_eo_ru_stac.JobStore.Logs.{append_log-known, append_log-unknown, inner-push_log}
use open_eo_ru_stac.JobRunner.Interface.{StoreOps, StoreLaws, Summary, Does, Reply}

abbrev pub Clocked : Type 0
Clocked = InMemoryJobStore × ℕ

abbrev pub summary_of : JobRecord → Summary
summary_of r = record { status = r.status; progress = r.progress; assets = r.assets }

abbrev pub summary : Clocked → String → Option Summary
summary (s, n) id = Option.map summary_of (view s id)

abbrev at : Outcome → ℕ → Reply Clocked
at (r, s) n = (r, (s, n + 1))

summary_of-map :
    (f : JobRecord → JobRecord) (g : Summary → Summary)
    → ((r : JobRecord) → summary_of (f r) ≡ g (summary_of r))
    → (o : Option JobRecord)
    → Option.map summary_of (Option.map f o) ≡ Option.map g (Option.map summary_of o)
summary_of-map f g same none = refl
summary_of-map f g same (some r) = ap some (same r)

module _ (clock : ℕ → ℕ) where
  abbrev pub memory_ops : StoreOps Clocked
  memory_ops = record {
    set_status = λ id status c. at (set_status (clock c.1) id status c.0) c.1;
    set_progress = λ id progress c. at (set_progress (clock c.1) id progress c.0) c.1;
    append_log = λ id level message c. at (append_log (clock c.1) id level message c.0) c.1;
    add_asset = λ id asset c. at (add_asset (clock c.1) id asset c.0) c.1;
  }

  pub Changes-Does :
      (id : String) (f : JobRecord → JobRecord) (g : Summary → Summary) (c : Clocked)
      (out : Outcome)
      → ((r : JobRecord) → summary_of (f r) ≡ g (summary_of r))
      → Changes id f c.0 out
      → Does summary id g c (at out c.1)
  Changes-Does id f g c out same h = record {
    reply = ground (arith, h.reply);
    summaries = λ j. ground (arith, h.records j, summary_of-map f g same (view c.0 j));
  }

  pub append_log-Does :
      (id level message : String) (c : Clocked)
      → Does summary id (λ r. r) c (memory_ops.append_log id level message c)
  append_log-Does id level message c = elim (Option-cases (view c.0 id)) [
    | inl unknown ↦ record {
      reply = rw (append_log-unknown (clock c.1) id level message c.0 unknown, unknown);
      summaries =
          λ j. rw (append_log-unknown (clock c.1) id level message c.0 unknown) (ground (arith));
    }
    | inr (r, known) ↦ record {
      reply = rw (append_log-known (clock c.1) id level message c.0 r known, known);
      summaries = λ j.
          rw
            (
              append_log-known (clock c.1) id level message c.0 r known,
              inner-push_log (clock c.1) id level message c.0,
            )
            (ground arith);
    }
  ]

  -- The contract holds.
  unfoldable pub memory_laws : StoreLaws memory_ops
  unfolding set_status set_progress add_asset
  memory_laws = record {
    summary = summary;
    set_status_lem =
        λ id status c. Changes-Does id _ _ c _ (λ r. refl) (modify-Changes id _ c.0 (λ r. refl));
    set_progress_lem =
        λ id progress c. Changes-Does id _ _ c _ (λ r. refl) (modify-Changes id _ c.0 (λ r. refl));
    append_log_lem = append_log-Does;
    add_asset_lem =
        λ id asset c. Changes-Does id _ _ c _ (λ r. refl) (modify-Changes id _ c.0 (λ r. refl));
  }
