-- ===== src/JobStore/Logs.antt =====
-- The log entries of a job: what `append_log` adds, and how the entries are numbered.
use open_eo_ru_stac.Prelude.{
  Bool, true, false, ℕ, suc, ◌+◌, ◌≡◌, refl, ap, ◌∙◌, String, Option-cases, inl, inr, none, some,
  List, [], ◌∷◌, ◌++◌, arith, str_eq, str_eq_iff, if◌then◌else◌, length, ok, err, decimal,
}
use open_eo_ru_stac.Job.{JobLogEntry, JobRecord, not_found}
use open_eo_ru_stac.JobStore.{
  InMemoryJobStore, find, entries_of, put_entries, or_empty, next_entry, push_log, append_log,
  get_logs, delete, drop_entries,
}
use open_eo_ru_stac.JobStore.Laws.{view}

entries_of-put_entries :
    (id j : String) (es : List JobLogEntry) (m : List (String × List JobLogEntry))
    → entries_of j (put_entries id es m) ≡ (if str_eq id j then some es else entries_of j m)
unfolding entries_of put_entries
entries_of-put_entries id j es [] = refl
entries_of-put_entries id j es ((i, old) ∷ m) =
    ground
      (arith, entries_of-put_entries id j es m, str_eq_iff i id, str_eq_iff i j, str_eq_iff id j)

-- The entries of one job, none for a job that has not logged.
abbrev pub logged : InMemoryJobStore → String → List JobLogEntry
logged s id = or_empty (entries_of id s.logs)

logged-push_log :
    (now : ℕ) (id level message j : String) (s : InMemoryJobStore)
    → logged (push_log now id level message s) j ≡ (
        if str_eq id j
        then logged s id ++ next_entry now level message (logged s id) ∷ []
        else logged s j)
unfolding push_log
logged-push_log now id level message j s =
    rw
      (entries_of-put_entries id j (logged s id ++ next_entry now level message (logged s id) ∷ [])
        s.logs)
      (ground arith)

pub inner-push_log :
    (now : ℕ) (id level message : String) (s : InMemoryJobStore)
    → (push_log now id level message s).inner ≡ s.inner
unfolding push_log
inner-push_log now id level message s = refl

-- Entries that carry their position, counted from `k`, as their id.
abbrev pub Numbered : ℕ → List JobLogEntry → Type 0
Numbered k [] = Unit
Numbered k (e ∷ es) = (e.id ≡ decimal k) × Numbered (suc k) es

abbrev pub LogsNumbered : InMemoryJobStore → Type 0
LogsNumbered s = (j : String) → Numbered 0 (logged s j)

Numbered-append :
    (k n : ℕ) (es : List JobLogEntry) (e : JobLogEntry)
    → n ≡ k + length es
    → Numbered k es
    → e.id ≡ decimal n
    → Numbered k (es ++ e ∷ [])
Numbered-append k n [] e at h eq = let here : n ≡ k = omega arith in (eq ∙ ap decimal here, tt)
Numbered-append k n (x ∷ es) e at h eq = (h.0, Numbered-append (suc k) n es e (omega arith) h.1 eq)

entries_of-drop_entries :
    (id j : String) (m : List (String × List JobLogEntry))
    → entries_of j (drop_entries id m) ≡ (if str_eq id j then none else entries_of j m)
unfolding entries_of drop_entries
entries_of-drop_entries id j [] = ground arith
entries_of-drop_entries id j ((i, es) ∷ m) =
    ground (arith, entries_of-drop_entries id j m, str_eq_iff i id, str_eq_iff i j, str_eq_iff id j)

push_log-Numbered :
    (now : ℕ) (id level message : String) (s : InMemoryJobStore)
    → LogsNumbered s
    → LogsNumbered (push_log now id level message s)
push_log-Numbered now id level message s h j =
    rw (logged-push_log now id level message j s) (pick (str_eq id j))
  where
    pick :
        (b : Bool)
        → Numbered 0 (
            if b
            then logged s id ++ next_entry now level message (logged s id) ∷ []
            else logged s j)
    pick true =
        Numbered-append 0 (length (logged s id)) (logged s id) _ (omega arith) (h id)
          (unfold next_entry in refl)
    pick false = h j

logged-delete-Numbered :
    (id : String) (s : InMemoryJobStore) → LogsNumbered s → LogsNumbered (delete id s)
unfolding delete
logged-delete-Numbered id s h j = rw (entries_of-drop_entries id j s.logs) (pick (str_eq id j))
  where
    pick : (b : Bool) → Numbered 0 (or_empty (if b then none else entries_of j s.logs))
    pick true = tt
    pick false = h j

pub append_log-unknown :
    (now : ℕ) (id level message : String) (s : InMemoryJobStore)
    → view s id ≡ none
    → append_log now id level message s ≡ (err (not_found id), s)
unfolding append_log
append_log-unknown now id level message s h = rw (h, append_log)

pub append_log-known :
    (now : ℕ) (id level message : String) (s : InMemoryJobStore) (r : JobRecord)
    → view s id ≡ some r
    → append_log now id level message s ≡ (ok tt, push_log now id level message s)
unfolding append_log
append_log-known now id level message s r h = rw (h, append_log)

-- Where each job's entries carry their position in decimal as their id, they still do after
-- `append_log`, for a known job or an unknown one, and after `delete`.
pub logs-Numbered :
    (now : ℕ) (id level message : String) (s : InMemoryJobStore)
    → LogsNumbered s
    → LogsNumbered (append_log now id level message s).1 × LogsNumbered (delete id s)
logs-Numbered now id level message s h = elim (Option-cases (find id s.inner)) [
  | inl unknown ↦
      (rw (append_log-unknown now id level message s unknown) h, logged-delete-Numbered id s h)
  | inr (r, known) ↦ (
    rw (append_log-known now id level message s r known)
        (push_log-Numbered now id level message s h),
    logged-delete-Numbered id s h,
  )
]

-- For a job that the store knows, `get_logs` after `append_log` returns its earlier entries and the
-- new one behind them, and for any other id what it returned before.
pub get_logs-append_log :
    (now : ℕ) (id j level message : String) (s : InMemoryJobStore) (r : JobRecord)
    → view s id ≡ some r
    → get_logs j (append_log now id level message s).1 ≡ (
        if str_eq id j
        then ok (logged s id ++ next_entry now level message (logged s id) ∷ [])
        else get_logs j s)
unfolding get_logs
get_logs-append_log now id j level message s r known =
    rw (append_log-known now id level message s r known)
      (served (logged-push_log now id level message j s))
  where
    served :
        logged (push_log now id level message s) j ≡ (
          if str_eq id j
          then logged s id ++ next_entry now level message (logged s id) ∷ []
          else logged s j)
        → get_logs j (push_log now id level message s) ≡ (
            if str_eq id j
            then ok (logged s id ++ next_entry now level message (logged s id) ∷ [])
            else get_logs j s)
    served e = ground (arith, inner-push_log now id level message s, str_eq_iff id j)
