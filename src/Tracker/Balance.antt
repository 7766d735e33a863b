-- ===== src/Tracker/Balance.antt =====
-- tracker.go: every operation keeps metrics.TasksInFlight in step with the jobs.
use etl_gardener.Base.{
  ℕ, ◌+◌, ◌≡◌, ◌≢◌, ap, String, some, ◌∷◌, arith, str_eq, lookup, weigh, Ensures, Ensures-bind,
  total_bind, if_cases, Bool-cases, inl, inr, ◌∙◌,
}
use etl_gardener.Job.{Job, Job_discrete}
use etl_gardener.Metrics.{Series, in_flight_dec, incs, decs}
use etl_gardener.Status
use etl_gardener.Status.{Status, StateInfo, series}
use etl_gardener.Status.Safe.{HasHistory, state-IsTotal, is_done-IsTotal, label-IsTotal}
use etl_gardener.Tracker.{
  Tracker, find, get_status, on_job, on_job_cases, replace_status, update_job, start_job, readd_job,
  add_job, set_detail, set_status, heartbeat, fail_job, set_job_error, failure_metric,
  job_already_exists,
}
use etl_gardener.Tracker.Valid.{IsValid, found-HasHistory, failure_metric-IsValid}
use etl_gardener.Tracker.History.{
  Follows, stays, moves, detailed_status-Follows, next_status-Follows, failed_status-Follows,
  heartbeat-Follows,
}
use etl_gardener.Tracker.Gauge.{
  Balanced, After, weight, weight_of, in_flight, weight_done, replace_status-Balanced,
  start_job-Balanced,
}

update_found :
    (c : ℕ → ℕ) (tr : Tracker) (job : Job) (new s : Status)
    → find job tr ≡ some s
    → update_job c tr job new ≡ replace_status c tr job new s
unfolding update_job get_status
update_found c tr job new s e = rw (e, on_job)

Follows-HasHistory : {s t : Status} → Follows s t → HasHistory t
Follows-HasHistory (stays x y older e f g) = λ q. cc
Follows-HasHistory (moves x y z older e f g i) = λ q. cc

module _ (k : Series) (open_series : k.label ≢ Status.complete) where
  owed :
      (c : ℕ → ℕ) (tr : Tracker) (job : Job) (s : Status) (lbl : String)
      → find job tr ≡ some s
      → Status.label s ≡ some lbl
      → Balanced k tr
      → let es = in_flight_dec (series job lbl) ∷ tr.events in
        incs k es + weigh Job_discrete (weight k) job (find job tr)
        ≡ decs k es + in_flight k tr.jobs
  unfolding incs decs weight weight_of
  owed c tr job s lbl e q b =
      let w = ap (weigh Job_discrete (weight k) job) e in
      let l = ap (weight_of k job) q in omega (arith, w, l, b)

  readd_job-Balanced :
      (c : ℕ → ℕ) (tr : Tracker) (job : Job) (s : Status)
      → find job tr ≡ some s
      → HasHistory s
      → Balanced k tr
      → Ensures (After k) (readd_job c tr job s)
  unfolding readd_job
  readd_job-Balanced c tr job s e h b =
      let w = ap (weigh Job_discrete (weight k) job) e in
      total_bind (After k) _ _ (is_done-IsTotal s h) λ done p.
        total_bind (After k) _ _ (state-IsTotal s h) λ st _.
          total_bind (After k) _ _ (label-IsTotal s h) λ lbl q. elim (Bool-cases done) [
            | inl t ↦ rw t (
                start_job-Balanced k open_series c tr job
                  (omega (arith, w, weight_done k open_series job s (p ∙ ap some t), b)))
            | inr f ↦ rw f (
                if_cases (Ensures (After k)) (str_eq st Status.failed) _
                  (some (tr, some job_already_exists))
                  (start_job-Balanced k open_series c _ job (owed c tr job s lbl e q b)) b)
          ]

  failure_metric_jobs :
      (tr : Tracker) (job : Job) (err : String) → (failure_metric tr job err).jobs ≡ tr.jobs
  unfolding failure_metric
  failure_metric_jobs tr job err = ground arith

  failure_metric-Balanced :
      (tr : Tracker) (job : Job) (err : String)
      → Balanced k tr
      → Balanced k (failure_metric tr job err)
  unfolding failure_metric incs decs
  failure_metric-Balanced tr job err b = ground arith

  update_job-Balanced :
      (c : ℕ → ℕ) (tr : Tracker) (job : Job) (new s : Status)
      → IsValid tr
      → find job tr ≡ some s
      → Follows s new
      → (Status.state s ≡ some Status.failed → Status.state new ≡ some Status.failed)
      → Balanced k tr
      → Ensures (After k) (update_job c tr job new)
  update_job-Balanced c tr job new s v e w r b = rw (update_found c tr job new s e) (
      replace_status-Balanced k open_series c tr job new s e (found-HasHistory tr job v e)
        (Follows-HasHistory w) w r b)

  module _ (c : ℕ → ℕ) (tr : Tracker) (job : Job) (v : IsValid tr) (b : Balanced k tr) where
    pub add_job-Balanced : Ensures (After k) (add_job c tr job)
    unfolding add_job
    add_job-Balanced =
        on_job_cases (Ensures (After k)) tr job (start_job c tr job) (λ s. readd_job c tr job s)
          (λ e.
            start_job-Balanced k open_series c tr job
              (omega (arith, ap (weigh Job_discrete (weight k) job) e, b)))
          λ s e. readd_job-Balanced c tr job s e (found-HasHistory tr job v e) b

    pub set_detail-Balanced : (text : String) → Ensures (After k) (set_detail c tr job text)
    unfolding set_detail
    set_detail-Balanced text =
        on_job_cases (Ensures (After k)) tr job _ _ (λ _. b)
          λ s e.
            Ensures-bind (λ new. Follows s new × (Status.state new ≡ Status.state s)) (After k) _ _
              (detailed_status-Follows s (found-HasHistory tr job v e) c text)
              λ new w. update_job-Balanced c tr job new s v e w.0 (λ r. w.1 ∙ r) b

    pub set_status-Balanced :
        (st text : String)
        → ((s : Status)
            → find job tr ≡ some s
            → Status.state s ≡ some Status.failed
            → st ≡ Status.failed)
        → Ensures (After k) (set_status c tr job st text)
    unfolding set_status incs decs
    set_status-Balanced st text live =
        on_job_cases (Ensures (After k)) tr job _ _ (λ _. b)
          λ s e.
            Ensures-bind (λ new. Follows s new × (Status.state new ≡ some st)) (After k) _ _
              (next_status-Follows s (found-HasHistory tr job v e) c st text)
              λ new w.
                update_job-Balanced c tr job new s v e w.0 (λ r. w.1 ∙ ap some (live s e r)) b

    pub heartbeat-Balanced : Ensures (After k) (heartbeat c tr job)
    unfolding heartbeat
    heartbeat-Balanced =
        on_job_cases (Ensures (After k)) tr job _ _ (λ _. b)
          λ s e.
            update_job-Balanced c tr job (record s { heartbeat_time = c 0 }) s v e
              (heartbeat-Follows s (found-HasHistory tr job v e) (c 0))
              (λ r. unfold Status.state in r) b

    pub set_job_error-Balanced : (err : String) → Ensures (After k) (set_job_error c tr job err)
    unfolding set_job_error fail_job
    set_job_error-Balanced err =
        on_job_cases (Ensures (After k)) tr job _ _ (λ _. b)
          λ s e.
            let h = found-HasHistory tr job v e in
            total_bind (After k) _ _ (state-IsTotal s h) λ old _.
              Ensures-bind (λ new. Follows s new × (Status.state new ≡ some Status.failed))
                (After k) _ _ (failed_status-Follows s h c old err)
                λ new w.
                  update_job-Balanced c (failure_metric tr job err) job new s
                    (failure_metric-IsValid tr job err v)
                    (ap (lookup Job_discrete job) (failure_metric_jobs tr job err) ∙ e) w.0
                    (λ _. w.1) (failure_metric-Balanced tr job err b)
