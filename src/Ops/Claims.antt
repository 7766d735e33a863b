-- ===== src/Ops/Claims.antt =====
-- ops.go: the claims of the monitor, kept by a tick of Watch and by a release.
use etl_gardener.Base.{
  ℕ, ◌≡◌, ◌↔◌, subst, Option, none, some, List, [], ◌∷◌, arith, lookup, delete, Unique, Values,
  lookup-insert, lookup-delete, insert-Unique, delete-Unique, insert-Values, delete-Values,
  lookup-Values, Ensures, Ensures-bind, IsTotal, total_bind, String_discrete, Option-cases, inl,
  inr,
}
use etl_gardener.Job.{Job, Job_discrete}
use etl_gardener.Metrics.{Event}
use etl_gardener.Status.{Status}
use etl_gardener.Status.Safe.{HasHistory, state-IsTotal}
use etl_gardener.Tracker.{Tracker, JobMap}
use etl_gardener.Tracker.Valid.{IsValid}
use etl_gardener.Tracker.Sweep.{get_state-read}
use etl_gardener.Ops.{
  Outcome, Action, Worker, Phase, acting, releasing, updating, Monitor, try_claim_job,
  try_apply_action, watch_jobs, watch, set_phase, release_step,
}

module _ {W : Type 0} where
  -- The action function does not panic.
  abbrev pub ActionIsTotal : Action W → Type 0
  ActionIsTotal a =
      (f : W → Job → ℕ → Option (Outcome × List Event))
      → a.action ≡ some f
      → (w : W) (j : Job) (t : ℕ) → IsTotal (f w j t)

  abbrev pub WorkerIsSafe : Worker W → Type 0
  WorkerIsSafe g = ActionIsTotal g.applied × HasHistory g.status

  -- No job has two goroutines, and a job is claimed exactly while it has one.
  pub record IsExclusive (m : Monitor W) : Type 0 where
    pub one_worker : Unique Job_discrete m.workers
    pub one_claim : Unique Job_discrete m.job_claims
    pub claimed :
        (j : Job)
        → (lookup Job_discrete j m.job_claims ≡ none) ↔ (lookup Job_discrete j m.workers ≡ none)
    pub valid : IsValid m.tk
    pub actions_safe : Values String_discrete ActionIsTotal m.actions
    pub workers_safe : Values Job_discrete WorkerIsSafe m.workers

  try_apply_action-IsExclusive :
      (a : Action W) (j : Job) (s : Status) (m : Monitor W)
      → ActionIsTotal a
      → HasHistory s
      → IsExclusive m
      → IsExclusive (try_apply_action a j s m)
  unfolding try_apply_action try_claim_job lookup
  try_apply_action-IsExclusive a j s m t h v =
      elim (Option-cases (lookup Job_discrete j m.job_claims)) [
        | inr (u, e) ↦ rw (try_apply_action, e) v
        | inl e ↦
            rw (try_apply_action, e)
              (record {
                one_worker = ((v.claimed j).0 e, v.one_worker);
                one_claim = insert-Unique Job_discrete j tt m.job_claims v.one_claim;
                claimed = λ i.
                    let k = v.claimed i in
                    let l = lookup-insert Job_discrete j i tt m.job_claims in
                    (λ p. ground (arith, k, l), λ p. ground (arith, k, l));
                valid = v.valid;
                actions_safe = v.actions_safe;
                workers_safe = ((t, h), v.workers_safe);
              })
      ]

  watch_jobs-IsExclusive :
      (jobs : JobMap) (m : Monitor W)
      → Values Job_discrete HasHistory jobs
      → IsExclusive m
      → Ensures IsExclusive (watch_jobs jobs m)
  unfolding watch_jobs
  watch_jobs-IsExclusive [] m h v = v
  watch_jobs-IsExclusive ((j, s) ∷ jobs) m h v =
      total_bind IsExclusive _ _ (state-IsTotal s h.0) λ st _.
        elim (Option-cases (lookup String_discrete st m.actions)) [
          | inl e ↦ rw e (watch_jobs-IsExclusive jobs m h.1 v)
          | inr (a, e) ↦
              let t = lookup-Values String_discrete ActionIsTotal st m.actions v.actions_safe e in
              rw e (
                watch_jobs-IsExclusive jobs (try_apply_action a j s m) h.1
                  (try_apply_action-IsExclusive a j s m t h.0 v))
        ]

  pub with_tracker :
      (m : Monitor W) (tr : Tracker)
      → IsExclusive m
      → IsValid tr
      → IsExclusive (record m { tk = tr })
  with_tracker m tr v w = record {
    one_worker = v.one_worker;
    one_claim = v.one_claim;
    claimed = v.claimed;
    valid = w;
    actions_safe = v.actions_safe;
    workers_safe = v.workers_safe;
  }

  pub watch-IsExclusive :
      (c : ℕ → ℕ) (m : Monitor W) → IsExclusive m → Ensures IsExclusive (watch c m)
  unfolding watch
  watch-IsExclusive c m v =
      Ensures-bind {A = Tracker × JobMap × Job × ℕ}
        (λ r. IsValid r.0 × (r.0.jobs ≡ r.1) × (r.0.last_job ≡ r.2) × (r.0.last_modified ≡ r.3))
        IsExclusive _ _ (get_state-read (c 0) m.tk v.valid)
        λ r g.
          watch_jobs-IsExclusive r.1 (record m { tk = r.0 })
            (subst (Values Job_discrete HasHistory) g.1 g.0.started) (with_tracker m r.0 v g.0)

  pub set_phase-IsExclusive :
      (j : Job) (p : Phase) (g : Worker W) (m : Monitor W)
      → lookup Job_discrete j m.workers ≡ some g
      → IsExclusive m
      → IsExclusive (set_phase j p g m)
  set_phase-IsExclusive j p g m e v = record {
    one_worker = insert-Unique Job_discrete j _ m.workers v.one_worker;
    one_claim = v.one_claim;
    claimed = λ i.
        let k = v.claimed i in
        let l = lookup-insert Job_discrete j i (record g { phase = p }) m.workers in
        (λ q. ground (arith, k, l, e), λ q. ground (arith, k, l, e));
    valid = v.valid;
    actions_safe = v.actions_safe;
    workers_safe =
        insert-Values Job_discrete WorkerIsSafe j _ m.workers
          (lookup-Values Job_discrete WorkerIsSafe j m.workers v.workers_safe e) v.workers_safe;
  }

  released :
      (j : Job) (m : Monitor W)
      → IsExclusive m
      → IsExclusive (record m {
        job_claims = delete Job_discrete j m.job_claims;
        workers = delete Job_discrete j m.workers;
      })
  released j m v = record {
    one_worker = delete-Unique Job_discrete j m.workers v.one_worker;
    one_claim = delete-Unique Job_discrete j m.job_claims v.one_claim;
    claimed = λ i.
        let k = v.claimed i in
        let l = lookup-delete Job_discrete j i m.workers v.one_worker in
        let n = lookup-delete Job_discrete j i m.job_claims v.one_claim in
        (λ q. ground (arith, k, l, n), λ q. ground (arith, k, l, n));
    valid = v.valid;
    actions_safe = v.actions_safe;
    workers_safe = delete-Values Job_discrete WorkerIsSafe j m.workers v.workers_safe;
  }

  pub release_step-IsExclusive :
      (j : Job) (g : Worker W) (m : Monitor W) → IsExclusive m → IsExclusive (release_step j g m)
  unfolding release_step
  release_step-IsExclusive j g m v = by_phase g.phase
    where
      by_phase :
          (p : Phase)
          → IsExclusive (elim p as (λ _. Monitor W) [
            | acting ↦ m
            | updating o ↦ m
            | releasing ↦ record m {
              job_claims = delete Job_discrete j m.job_claims;
              workers = delete Job_discrete j m.workers;
            }
          ])
      by_phase acting = v
      by_phase (updating o) = v
      by_phase releasing = released j m v
