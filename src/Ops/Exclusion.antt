-- ===== src/Ops/Exclusion.antt =====
-- ops.go: the claims of the monitor, and that at most one goroutine works on a job.
use etl_gardener.Base.{
  ℕ, ◌≡◌, true, String, Option, none, some, List, [], ◌∷◌, lookup, lookup-Values, Ensures,
  Ensures-bind, IsTotal, total_bind, Option-cases, inl, inr, if_cases, ◌>>=◌,
}
use etl_gardener.Job.{Job, Job_discrete}
use etl_gardener.Status.Safe.{state_change_time-IsTotal}
use etl_gardener.Tracker.{Tracker, Error, log_events}
use etl_gardener.Tracker.Valid.{IsValid, log_events-IsValid}
use etl_gardener.Tracker.Runs.{step-IsValid}
use etl_gardener.Ops.Updates.{update_job-IsValid}
use etl_gardener.Ops.{
  Worker, Phase, acting, releasing, updating, Monitor, Happening, ticks, acts, reports, releases,
  calls, act, set_phase, act_step, report_step, release_step, happen, happen_all, update_job,
}
use etl_gardener.Ops.Claims.{
  WorkerIsSafe, IsExclusive, with_tracker, watch-IsExclusive, set_phase-IsExclusive,
  release_step-IsExclusive,
}

module _ {W : Type 0} where
  act-IsTotal : (w : W) (j : Job) (g : Worker W) → WorkerIsSafe g → IsTotal (act w j g)
  unfolding act
  act-IsTotal w j g h =
      if_cases IsTotal (elim g.applied.condition [ none ↦ true | some holds ↦ holds w j ]) _ _
        (elim (Option-cases g.applied.action) [
          | inl e ↦ rw e tt
          | inr (f, e) ↦ rw e (
              total_bind (λ _. Unit) _ _ (state_change_time-IsTotal g.status h.1)
                λ t _. total_bind (λ _. Unit) _ _ (h.0 f e w j t) λ r _. tt)
        ])
        tt

  act_step-IsExclusive :
      (j : Job) (w : W) (g : Worker W) (m : Monitor W)
      → lookup Job_discrete j m.workers ≡ some g
      → IsExclusive m
      → Ensures IsExclusive (act_step j w g m)
  unfolding act_step
  act_step-IsExclusive j w g m e v = by_phase g.phase
    where
      by_phase :
          (p : Phase)
          → Ensures IsExclusive (elim p as (λ _. Option (Monitor W)) [
            | acting ↦ do
              r ← act w j g
              some (set_phase j r.0 g (record m { tk = log_events r.1 m.tk }))
            | releasing ↦ some m
            | updating o ↦ some m
          ])
      by_phase (updating o) = v
      by_phase releasing = v
      by_phase acting =
          let safe = lookup-Values Job_discrete WorkerIsSafe j m.workers v.workers_safe e in
          total_bind IsExclusive _ _ (act-IsTotal w j g safe) λ r _.
            set_phase-IsExclusive j r.0 g (record m { tk = log_events r.1 m.tk }) e
              (with_tracker m _ v (log_events-IsValid r.1 m.tk v.valid))

  report_step-IsExclusive :
      (j : Job) (c : ℕ → ℕ) (g : Worker W) (m : Monitor W)
      → lookup Job_discrete j m.workers ≡ some g
      → IsExclusive m
      → Ensures IsExclusive (report_step j c g m)
  unfolding report_step
  report_step-IsExclusive j c g m e v = by_phase g.phase
    where
      by_phase :
          (p : Phase)
          → Ensures IsExclusive (elim p as (λ _. Option (Monitor W)) [
            | acting ↦ some m
            | releasing ↦ some m
            | updating o ↦ do
              r ← update_job c m.tk o g.applied.next_state
              some (set_phase j releasing g (record m { tk = r.0 }))
          ])
      by_phase acting = v
      by_phase releasing = v
      by_phase (updating o) =
          Ensures-bind {A = Tracker × String × Option Error} (λ r. IsValid r.0) IsExclusive _ _
            (update_job-IsValid c m.tk o g.applied.next_state v.valid)
            λ r u.
              set_phase-IsExclusive j releasing g (record m { tk = r.0 }) e (with_tracker m r.0 v u)

  -- A step of the goroutine of `j`, if there is one.
  worker_step :
      (j : Job) (m : Monitor W) (f : Worker W → Option (Monitor W))
      → IsExclusive m
      → ((g : Worker W) → lookup Job_discrete j m.workers ≡ some g → Ensures IsExclusive (f g))
      → Ensures IsExclusive
          (elim (lookup Job_discrete j m.workers) [ none ↦ some m | some g ↦ f g ])
  worker_step j m f v k = elim (Option-cases (lookup Job_discrete j m.workers)) [
    | inl e ↦ rw e v
    | inr (g, e) ↦ rw e (k g e)
  ]

  pub happen-IsExclusive :
      (m : Monitor W) (e : Happening W) → IsExclusive m → Ensures IsExclusive (happen m e)
  unfolding happen
  happen-IsExclusive m (ticks c) v = watch-IsExclusive c m v
  happen-IsExclusive m (calls c call) v =
      Ensures-bind IsValid IsExclusive _ _ (step-IsValid c m.tk call v.valid)
        (λ tr w. with_tracker m tr v w)
  happen-IsExclusive m (acts j w) v =
      worker_step j m (λ g. act_step j w g m) v (λ g e. act_step-IsExclusive j w g m e v)
  happen-IsExclusive m (reports j c) v =
      worker_step j m (λ g. report_step j c g m) v (λ g e. report_step-IsExclusive j c g m e v)
  happen-IsExclusive m (releases j) v =
      worker_step j m (λ g. some (release_step j g m)) v (λ g _. release_step-IsExclusive j g m v)

  -- In every interleaving of the monitor's ticks, the steps of its goroutines and the calls of the
  -- tracker by others, from a monitor that is so and whose actions do not panic: nothing panics, no
  -- two goroutines work on one job, a job is claimed exactly while a goroutine has it, and the
  -- tracker is well-formed.
  pub happen_all-IsExclusive :
      (m : Monitor W) (es : List (Happening W))
      → IsExclusive m
      → Ensures IsExclusive (happen_all m es)
  unfolding happen_all
  happen_all-IsExclusive m [] v = v
  happen_all-IsExclusive m (e ∷ es) v =
      Ensures-bind IsExclusive IsExclusive _ _ (happen-IsExclusive m e v)
        (λ m' w. happen_all-IsExclusive m' es w)
