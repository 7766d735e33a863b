-- ===== src/Tracker/Touched.antt =====
-- tracker.go: a call that changes the jobs or the last job sets the time of the last modification.
use etl_gardener.Base.{
  ltb, if_cases, String, ℕ, ◌≡◌, ◌≤◌, refl, ◌∙◌, Bool, false, Option, none, some, List, [], ◌∷◌, ap,
  arith, Bool-cases, inl, inr, ◌>>=◌, if◌then◌else◌, str_eq,
}
use etl_gardener.Job.{Job}
use etl_gardener.Metrics.{Event}
use etl_gardener.Status
use etl_gardener.Status.{Status, new_status}
use etl_gardener.Tracker.{
  Tracker, JobMap, Error, on_job_cases, is_obsolete, detailed_status, next_status, failed_status,
  job_already_exists, start_job, readd_job, add_job, put_status, replace_status, update_job,
  set_detail, set_status, heartbeat, failure_metric, fail_job, set_job_error, sweep, get_state,
  Call, adds, details, updates, beats, errors, looks, step, run,
}

-- `P` holds of the result, if there is one.
abbrev pub Holds {ℓ} : {A : Type ℓ} → (A → Type 0) → Option A → Type 0
Holds P none = Unit
Holds P (some a) = P a

pub Holds-bind {ℓ κ} :
    {A : Type ℓ} {B : Type κ} (Q : B → Type 0) (o : Option A) (f : A → Option B)
    → ((a : A) → o ≡ some a → Holds Q (f a))
    → Holds Q (o >>= f)
Holds-bind Q none f k = tt
Holds-bind Q (some a) f k = k a refl

Holds-step {ℓ κ} :
    {A : Type ℓ} {B : Type κ} (P : A → Type 0) (Q : B → Type 0) (o : Option A) (f : A → Option B)
    → Holds P o
    → ((a : A) → P a → Holds Q (f a))
    → Holds Q (o >>= f)
Holds-step P Q none f h k = tt
Holds-step P Q (some a) f h k = k a h

Holds-mono {ℓ} :
    {A : Type ℓ} (P Q : A → Type 0) (o : Option A) → Holds P o → ((a : A) → P a → Q a) → Holds Q o
Holds-mono P Q none h k = tt
Holds-mono P Q (some a) h k = k a h

-- The same jobs, last job and time of the last modification.
pub record Untouched (tr tr' : Tracker) : Type 0 where
  pub same_jobs : tr'.jobs ≡ tr.jobs
  pub same_last : tr'.last_job ≡ tr.last_job
  pub same_time : tr'.last_modified ≡ tr.last_modified

-- What a call whose readings of the clock are not before `t` may leave.
pub data Touched (t : ℕ) (tr tr' : Tracker) : Type 0 where
  untouched : Untouched tr tr' → Touched t tr tr'
  touched : t ≤ tr'.last_modified → Touched t tr tr'

abbrev pub Later : ℕ → (ℕ → ℕ) → Type 0
Later t c = (n : ℕ) → t ≤ c n

same : (tr : Tracker) → Untouched tr tr
same tr = record { same_jobs = refl; same_last = refl; same_time = refl }

abbrev After : ℕ → Tracker → Tracker × Option Error → Type 0
After t tr r = Touched t tr r.0

module _ (t : ℕ) (c : ℕ → ℕ) (later : Later t c) (job : Job) (tr : Tracker) where
  start_job-Touched : (tr' : Tracker) → Holds (After t tr) (start_job c tr' job)
  unfolding start_job
  start_job-Touched tr' =
      Holds-bind (After t tr) (Status.update_metrics (c 2) job (new_status (c 0))) _
        λ moved _. touched (later 1)

  put_status-Touched :
      (tr' : Tracker) (new : Status) → Holds (After t tr) (put_status (c 3) tr' job new)
  unfolding put_status
  put_status-Touched tr' new = Holds-bind (After t tr) (Status.is_done new) _ λ done _. touched (
      if_cases (λ x. t ≤ Tracker.last_modified x) done _ _
        (if_cases (λ x. t ≤ Tracker.last_modified x) (ltb 0 tr'.cleanup_delay) _ _ (later 3)
          (later 3))
        (later 3))

  update_job-Touched :
      (tr' : Tracker) (new : Status)
      → Untouched tr tr'
      → Holds (After t tr) (update_job c tr' job new)
  unfolding update_job replace_status
  update_job-Touched tr' new u =
      on_job_cases (Holds (After t tr)) tr' job _ _ (λ _. untouched u)
        λ old _. Holds-bind (After t tr) (Status.state old) _ λ before _.
          Holds-bind (After t tr) (Status.state new) _ λ after _.
            Holds-bind (After t tr)
              (if str_eq before after then some [] else Status.update_metrics (c 2) job new) _
              λ moved _. put_status-Touched _ new

  readd_job-Touched : (s : Status) → Holds (After t tr) (readd_job c tr job s)
  unfolding readd_job
  readd_job-Touched s = Holds-bind (After t tr) (Status.is_done s) _ λ done _.
      Holds-bind (After t tr) (Status.state s) _ λ st _.
        Holds-bind (After t tr) (Status.label s) _ λ lbl _.
          if_cases (Holds (After t tr)) done _ _ (start_job-Touched tr) (
            if_cases (Holds (After t tr)) (str_eq st Status.failed) _
              (some (tr, some job_already_exists)) (start_job-Touched _) (untouched (same tr)))

  failure_metric-Untouched : (err : String) → Untouched tr (failure_metric tr job err)
  unfolding failure_metric
  failure_metric-Untouched err = record {
    same_jobs = ground arith;
    same_last = ground arith;
    same_time = ground arith;
  }

module _ (now : ℕ) (tr : Tracker) where
  sweep_none : (m : JobMap) → Holds (λ r. r.2 ≡ false → r.0 ≡ m) (sweep now tr m)
  unfolding sweep
  sweep_none [] = λ _. refl
  sweep_none ((j, s) ∷ m) =
      let P = λ (r : JobMap × List Event × Bool). r.2 ≡ false → r.0 ≡ (j, s) ∷ m in
      Holds-bind P (is_obsolete now tr s) _ λ gone _. Holds-bind P (Status.is_done s) _ λ done _.
        Holds-bind P (Status.label s) _ λ lbl _.
          Holds-step (λ r. r.2 ≡ false → r.0 ≡ m) P (sweep now tr m) _ (sweep_none m)
            λ rest h. if_cases P gone _ _ (λ e. cc) (λ e. ap (λ k. (j, s) ∷ k) (h e))

  pub get_state-Touched : (t : ℕ) → t ≤ now → Holds (λ r. Touched t tr r.0) (get_state now tr)
  unfolding get_state
  get_state-Touched t later =
      let P = λ (r : JobMap × List Event × Bool). r.2 ≡ false → r.0 ≡ tr.jobs in
      Holds-step P (λ r. Touched t tr r.0) (sweep now tr tr.jobs) _ (sweep_none tr.jobs)
        λ r h. elim (Bool-cases r.2) [
          | inl b ↦ touched (rw b later)
          | inr b ↦ untouched (record { same_jobs = h b; same_last = refl; same_time = rw b refl })
        ]

-- One call, whose readings of the clock are not before `t`.
pub step-Touched :
    (t : ℕ) (c : ℕ → ℕ) (tr : Tracker) (call : Call)
    → Later t c
    → Holds (Touched t tr) (step c tr call)
unfolding step add_job set_detail set_status heartbeat set_job_error fail_job
step-Touched t c tr (adds job) l =
    Holds-step (After t tr) (Touched t tr) (add_job c tr job) _
      (on_job_cases (Holds (After t tr)) tr job (start_job c tr job) (λ s. readd_job c tr job s)
        (λ _. start_job-Touched t c l job tr tr) (λ s _. readd_job-Touched t c l job tr s))
      (λ r h. h)
step-Touched t c tr (details job text) l =
    Holds-step (After t tr) (Touched t tr) (set_detail c tr job text) _
      (on_job_cases (Holds (After t tr)) tr job _ _ (λ _. untouched (same tr))
        λ s _.
          Holds-bind (After t tr) (detailed_status c text s) _
            λ new _. update_job-Touched t c l job tr tr new (same tr))
      (λ r h. h)
step-Touched t c tr (updates job st text) l =
    Holds-step (After t tr) (Touched t tr) (set_status c tr job st text) _
      (on_job_cases (Holds (After t tr)) tr job _ _
        (λ _. untouched (record { same_jobs = refl; same_last = refl; same_time = refl }))
        λ s _.
          Holds-bind (After t tr) (next_status c st text s) _
            λ new _. update_job-Touched t c l job tr tr new (same tr))
      (λ r h. h)
step-Touched t c tr (beats job) l =
    Holds-step (After t tr) (Touched t tr) (heartbeat c tr job) _
      (on_job_cases (Holds (After t tr)) tr job _ _ (λ _. untouched (same tr))
        λ s _. update_job-Touched t c l job tr tr _ (same tr))
      (λ r h. h)
step-Touched t c tr (errors job err) l =
    Holds-step (After t tr) (Touched t tr) (set_job_error c tr job err) _
      (on_job_cases (Holds (After t tr)) tr job _ _ (λ _. untouched (same tr))
        λ s _. Holds-bind (After t tr) (Status.state s) _ λ old _.
          Holds-bind (After t tr) (failed_status c old err s) _ λ new _.
            update_job-Touched t c l job tr (failure_metric tr job err) new
              (failure_metric-Untouched t c l job tr err))
      (λ r h. h)
step-Touched t c tr looks l =
    Holds-step (λ r. Touched t tr r.0) (Touched t tr) (get_state (c 0) tr) _
      (get_state-Touched (c 0) tr t (l 0)) (λ r h. h)

trans : (t : ℕ) (a b c : Tracker) → Touched t a b → Touched t b c → Touched t a c
trans t a b c p (touched h) = touched h
trans t a b c (touched h) (untouched u) = touched (omega (arith, h, u.same_time))
trans t a b c (untouched v) (untouched u) = untouched (record {
  same_jobs = u.same_jobs ∙ v.same_jobs;
  same_last = u.same_last ∙ v.same_last;
  same_time = u.same_time ∙ v.same_time;
})

abbrev pub AllLater : ℕ → List ((ℕ → ℕ) × Call) → Type 0
AllLater t [] = Unit
AllLater t ((c, call) ∷ cs) = Later t c × AllLater t cs

-- A history of calls.
pub run-Touched :
    (t : ℕ) (tr : Tracker) (cs : List ((ℕ → ℕ) × Call))
    → AllLater t cs
    → Holds (Touched t tr) (run tr cs)
unfolding run
run-Touched t tr [] l = untouched (same tr)
run-Touched t tr ((c, call) ∷ cs) l =
    Holds-step (Touched t tr) (Touched t tr) (step c tr call) _ (step-Touched t c tr call l.0)
      λ a p.
        Holds-mono (Touched t a) (Touched t tr) (run a cs) (run-Touched t a cs l.1)
          λ b q. trans t tr a b p q
