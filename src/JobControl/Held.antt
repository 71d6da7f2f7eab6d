-- ===== src/JobControl/Held.antt =====
-- Sums over the supervisors.
use open_eo_ru_stac.Prelude.{
  ℕ, zero, suc, ◌+◌, ◌≤◌, ◌≡◌, refl, ap, Option, none, some, List, [], ◌∷◌, ◌++◌, set, get_elem?,
  arith, subst,
}
use open_eo_ru_stac.JobControl.{
  Run, running, Phase, spawned, waiting, reading, writing, leaving, releasing, ended, Supervisor,
  signal, notify_one,
}

-- Whether a supervisor holds a permit, waits for its run, and has a run that was not aborted.
abbrev pub holds : Phase → ℕ
holds ended = 0
holds _ = 1

abbrev pub waits : Phase → ℕ
waits waiting = 1
waits _ = 0

abbrev pub goes : Run → ℕ
goes running = 1
goes _ = 0

abbrev pub held : List Supervisor → ℕ
held [] = 0
held (v ∷ vs) = holds v.phase + held vs

abbrev pub going : List Supervisor → ℕ
going [] = 0
going (v ∷ vs) = goes v.run + going vs

pub held-set :
    (vs : List Supervisor) (n : ℕ) (v w : Supervisor)
    → get_elem? vs n ≡ some v
    → held (set vs n w) + holds v.phase ≡ held vs + holds w.phase
held-set [] n v w at = cc
held-set (x ∷ vs) zero v w at = let same : holds x.phase ≡ holds v.phase = cc in omega (arith, same)
held-set (x ∷ vs) (suc n) v w at = omega (arith, held-set vs n v w at)

pub held-append :
    (vs : List Supervisor) (v : Supervisor) → held (vs ++ v ∷ []) ≡ held vs + holds v.phase
held-append [] v = omega arith
held-append (x ∷ vs) v = omega (arith, held-append vs v)

held-notify_one : (vs : List Supervisor) (n : ℕ) → held (notify_one n vs) ≡ held vs
unfolding notify_one
held-notify_one [] n = refl
held-notify_one (x ∷ vs) zero = refl
held-notify_one (x ∷ vs) (suc n) = ap (λ m. holds x.phase + m) (held-notify_one vs n)

pub held-signal : (vs : List Supervisor) (n : Option ℕ) → held (signal n vs) ≡ held vs
held-signal vs none = refl
held-signal vs (some n) = held-notify_one vs n

-- A run that was not aborted has a supervisor that waits for it.
abbrev pub Fits : Supervisor → Type 0
Fits v = goes v.run ≤ waits v.phase

abbrev pub AllFit : List Supervisor → Type 0
AllFit [] = Unit
AllFit (v ∷ vs) = Fits v × AllFit vs

pub AllFit-at :
    (vs : List Supervisor) (n : ℕ) (v : Supervisor) → AllFit vs → get_elem? vs n ≡ some v → Fits v
AllFit-at [] n v all at = cc
AllFit-at (x ∷ vs) zero v (fits, all) at = let same : x ≡ v = cc in subst (λ u. Fits u) same fits
AllFit-at (x ∷ vs) (suc n) v (fits, all) at = AllFit-at vs n v all at

pub AllFit-set :
    (vs : List Supervisor) (n : ℕ) (w : Supervisor) → AllFit vs → Fits w → AllFit (set vs n w)
AllFit-set [] n w all fits = tt
AllFit-set (x ∷ vs) zero w (_, all) fits = (fits, all)
AllFit-set (x ∷ vs) (suc n) w (here, all) fits = (here, AllFit-set vs n w all fits)

pub AllFit-append :
    (vs : List Supervisor) (w : Supervisor) → AllFit vs → Fits w → AllFit (vs ++ w ∷ [])
AllFit-append [] w all fits = (fits, tt)
AllFit-append (x ∷ vs) w (here, all) fits = (here, AllFit-append vs w all fits)

AllFit-notify_one : (vs : List Supervisor) (n : ℕ) → AllFit vs → AllFit (notify_one n vs)
unfolding notify_one
AllFit-notify_one [] n all = all
AllFit-notify_one (x ∷ vs) zero (here, all) = (here, all)
AllFit-notify_one (x ∷ vs) (suc n) (here, all) = (here, AllFit-notify_one vs n all)

pub AllFit-signal : (vs : List Supervisor) (n : Option ℕ) → AllFit vs → AllFit (signal n vs)
AllFit-signal vs none all = all
AllFit-signal vs (some n) all = AllFit-notify_one vs n all

pub going-held : (vs : List Supervisor) → AllFit vs → going vs ≤ held vs
going-held [] all = omega arith
going-held (v ∷ vs) (fits, all) = omega (arith, waits-holds v.phase, going-held vs all, fits)
  where
    waits-holds : (p : Phase) → waits p ≤ holds p
    waits-holds spawned = omega arith
    waits-holds waiting = omega arith
    waits-holds (reading t) = omega arith
    waits-holds (writing t) = omega arith
    waits-holds leaving = omega arith
    waits-holds releasing = omega arith
    waits-holds ended = omega arith
