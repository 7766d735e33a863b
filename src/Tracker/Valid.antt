-- ===== src/Tracker/Valid.antt =====
-- Well-formed trackers: what every operation keeps, and why none of them panics.
use etl_gardener.Base.{
  ℕ, ◌≤◌, ◌≡◌, String, Option, some, List, [], ◌∷◌, arith, Unique, Values, length, Ensures,
  Ensures-bind, IsTotal, total_bind, if_cases, str_eq, insert-Unique, delete-Unique, lookup-Values,
  insert-Values, delete-Values,
}
use etl_gardener.Job.{Job, Job_discrete}
use etl_gardener.Metrics.{Event, in_flight_dec, warning}
use etl_gardener.Status
use etl_gardener.Status.{Status}
use etl_gardener.Status.Safe.{
  HasHistory, state-IsTotal, label-IsTotal, is_done-IsTotal, update_metrics-IsTotal,
  set_detail-HasHistory, new_state-HasHistory,
}
use etl_gardener.Tracker.{
  Tracker, job_already_exists, Run, Error, find, on_job_cases, replace_status, log_events,
  readd_job, detailed_status, fail_job, start_job, add_job, put_status, update_job, set_detail,
  next_status, set_status, heartbeat, failed_status, failure_metric, set_job_error,
  max_unique_err_strings,
}

pub record IsValid (tr : Tracker) : Type 0 where
  pub unique : Unique Job_discrete tr.jobs
  pub started : Values Job_discrete HasHistory tr.jobs
  pub limited : length tr.err_strings ≤ max_unique_err_strings

abbrev pub Good : Tracker × Option Error → Type 0
Good r = IsValid r.0

abbrev pub Keeps : Run → Type 0
Keeps = Ensures Good

start_job-IsValid : (c : ℕ → ℕ) (tr : Tracker) (job : Job) → IsValid tr → Keeps (start_job c tr job)
unfolding start_job Status.update_metrics Status.new_status
start_job-IsValid c tr job v = record {
  unique = insert-Unique Job_discrete job _ tr.jobs v.unique;
  started = insert-Values Job_discrete HasHistory job _ tr.jobs (λ e. cc) v.started;
  limited = v.limited;
}

put_status-IsValid :
    (now : ℕ) (tr : Tracker) (job : Job) (new : Status)
    → IsValid tr
    → HasHistory new
    → Keeps (put_status now tr job new)
unfolding put_status Status.is_done
put_status-IsValid now tr job new v h = ground (
  arith,
  insert-Unique Job_discrete job new tr.jobs v.unique,
  insert-Values Job_discrete HasHistory job new tr.jobs h v.started,
  delete-Unique Job_discrete job tr.jobs v.unique,
  delete-Values Job_discrete HasHistory job tr.jobs v.started,
)

pub log_events-IsValid : (es : List Event) (tr : Tracker) → IsValid tr → IsValid (log_events es tr)
log_events-IsValid es tr v = record { unique = v.unique; started = v.started; limited = v.limited }

pub found-HasHistory :
    (tr : Tracker) (job : Job) {s : Status} → IsValid tr → find job tr ≡ some s → HasHistory s
found-HasHistory tr job v e = lookup-Values Job_discrete HasHistory job tr.jobs v.started e

replace_status-IsValid :
    (c : ℕ → ℕ) (tr : Tracker) (job : Job) (new old : Status)
    → IsValid tr
    → HasHistory new
    → HasHistory old
    → Keeps (replace_status c tr job new old)
unfolding replace_status
replace_status-IsValid c tr job new old v h g =
    total_bind Good _ _ (state-IsTotal old g) λ before _.
      total_bind Good _ _ (state-IsTotal new h) λ after _.
        total_bind Good _ _
          (if_cases IsTotal (str_eq before after) _ _ tt (update_metrics-IsTotal new h (c 2) job))
          λ es _. put_status-IsValid (c 3) (log_events es tr) job new (log_events-IsValid es tr v) h

update_job-IsValid :
    (c : ℕ → ℕ) (tr : Tracker) (job : Job) (new : Status)
    → IsValid tr
    → HasHistory new
    → Keeps (update_job c tr job new)
unfolding update_job
update_job-IsValid c tr job new v h =
    on_job_cases Keeps tr job _ _ (λ _. v)
      λ old e. replace_status-IsValid c tr job new old v h (found-HasHistory tr job v e)

pub detailed_status-HasHistory :
    (c : ℕ → ℕ) (text : String) (s : Status)
    → HasHistory s
    → Ensures HasHistory (detailed_status c text s)
unfolding detailed_status
detailed_status-HasHistory c text s h =
    Ensures-bind (λ r. HasHistory r.0) HasHistory _ _ (set_detail-HasHistory s h (c 0) text)
      (λ d k. k)

next_status-HasHistory :
    (c : ℕ → ℕ) (st text : String) (s : Status)
    → HasHistory s
    → Ensures HasHistory (next_status c st text s)
unfolding next_status Status.set_detail Status.new_state
next_status-HasHistory c st text s h = ground arith

failed_status-HasHistory :
    (c : ℕ → ℕ) (old err : String) (s : Status)
    → HasHistory s
    → Ensures HasHistory (failed_status c old err s)
unfolding failed_status
failed_status-HasHistory c old err s h =
    Ensures-bind (λ r. HasHistory r.0) HasHistory _ _ (new_state-HasHistory s h (c 0) _)
      λ n k.
        Ensures-bind (λ r. HasHistory r.0) HasHistory _ _ (set_detail-HasHistory n.0 k (c 1) _)
          (λ d g. g)

readd_job-IsValid :
    (c : ℕ → ℕ) (tr : Tracker) (job : Job) (s : Status)
    → IsValid tr
    → HasHistory s
    → Keeps (readd_job c tr job s)
unfolding readd_job
readd_job-IsValid c tr job s v h = total_bind Good _ _ (is_done-IsTotal s h) λ done _.
    total_bind Good _ _ (state-IsTotal s h) λ st _. total_bind Good _ _ (label-IsTotal s h) λ lbl _.
      if_cases Keeps done _ _ (start_job-IsValid c tr job v) (
        if_cases Keeps (str_eq st Status.failed) _ (some (tr, some job_already_exists))
          (start_job-IsValid c _ job
            (log_events-IsValid (in_flight_dec (Status.series job lbl) ∷ []) tr v))
          v)

pub failure_metric-IsValid :
    (tr : Tracker) (job : Job) (err : String) → IsValid tr → IsValid (failure_metric tr job err)
unfolding failure_metric
failure_metric-IsValid tr job err v = ground arith

module _ (c : ℕ → ℕ) (tr : Tracker) (job : Job) (v : IsValid tr) where
  pub add_job-IsValid : Keeps (add_job c tr job)
  unfolding add_job
  add_job-IsValid =
      on_job_cases Keeps tr job (start_job c tr job) (λ s. readd_job c tr job s)
        (λ _. start_job-IsValid c tr job v)
        λ s e. readd_job-IsValid c tr job s v (found-HasHistory tr job v e)

  pub set_detail-IsValid : (text : String) → Keeps (set_detail c tr job text)
  unfolding set_detail
  set_detail-IsValid text =
      on_job_cases Keeps tr job _ _ (λ _. v)
        λ s e.
          Ensures-bind HasHistory Good _ _
            (detailed_status-HasHistory c text s (found-HasHistory tr job v e))
            λ new h. update_job-IsValid c tr job new v h

  pub set_status-IsValid : (st text : String) → Keeps (set_status c tr job st text)
  unfolding set_status
  set_status-IsValid st text =
      on_job_cases Keeps tr job _ _
        (λ _. log_events-IsValid (warning (Status.series job "NoSuchJob") ∷ []) tr v)
        λ s e.
          Ensures-bind HasHistory Good _ _
            (next_status-HasHistory c st text s (found-HasHistory tr job v e))
            λ new h. update_job-IsValid c tr job new v h

  pub heartbeat-IsValid : Keeps (heartbeat c tr job)
  unfolding heartbeat
  heartbeat-IsValid =
      on_job_cases Keeps tr job _ _ (λ _. v)
        λ s e. update_job-IsValid c tr job _ v (found-HasHistory tr job v e)

  pub set_job_error-IsValid : (err : String) → Keeps (set_job_error c tr job err)
  unfolding set_job_error fail_job
  set_job_error-IsValid err =
      on_job_cases Keeps tr job _ _ (λ _. v)
        λ s e.
          let h = found-HasHistory tr job v e in
          total_bind Good _ _ (state-IsTotal s h) λ old _.
            Ensures-bind HasHistory Good _ _ (failed_status-HasHistory c old err s h) λ new g.
              update_job-IsValid c (failure_metric tr job err) job new
                (failure_metric-IsValid tr job err v) g
