-- ===== src/Tracker/Frame.antt =====
-- tracker.go, UpdateJob: what it leaves under its job, and that it leaves the other jobs alone.
use etl_gardener.Base.{
  ℕ, ◌≡◌, ◌≢◌, true, Option, none, some, List, arith, str_eq, lookup-insert, lookup-delete, Unique,
  Ensures, total_bind, if_cases, if◌then◌else◌, ltb,
}
use etl_gardener.Job.{Job, Job_discrete}
use etl_gardener.Metrics.{Event}
use etl_gardener.Status
use etl_gardener.Status.{Status, StateInfo, series}
use etl_gardener.Status.Safe.{HasHistory, state-IsTotal, is_done-IsTotal, update_metrics-IsTotal}
use etl_gardener.Tracker.{
  Tracker, Error, Run, find, on_job, log_events, put_status, replace_status, update_job, start_job,
  get_status,
}
use etl_gardener.Tracker.Valid.{IsValid, found-HasHistory}

-- What a run that started from `tr` says of another job.
abbrev pub Same : Job → Tracker → Tracker × Option Error → Type 0
Same j tr r = find j r.0 ≡ find j tr

module _ (c : ℕ → ℕ) (tr : Tracker) (job j : Job) (other : job ≢ j)
    (u : Unique Job_discrete tr.jobs) where
  start_job-Same : Ensures (Same j tr) (start_job c tr job)
  unfolding start_job Status.update_metrics Status.new_status
  start_job-Same =
      ground (arith, lookup-insert Job_discrete job j (Status.new_status (c 0)) tr.jobs)

  put_status-Same :
      (now : ℕ) (es : List Event) (new : Status)
      → HasHistory new
      → Ensures (Same j tr) (put_status now (log_events es tr) job new)
  unfolding put_status
  put_status-Same now es new h = total_bind (Same j tr) _ _ (is_done-IsTotal new h) λ done _.
      ground (
        arith,
        lookup-insert Job_discrete job j new tr.jobs,
        lookup-delete Job_discrete job j tr.jobs u,
      )

  replace_status-Same :
      (new old : Status)
      → HasHistory new
      → HasHistory old
      → Ensures (Same j tr) (replace_status c tr job new old)
  unfolding replace_status
  replace_status-Same new old h g = total_bind (Same j tr) _ _ (state-IsTotal old g) λ before _.
      total_bind (Same j tr) _ _ (state-IsTotal new h) λ after _.
        total_bind (Same j tr) _ _
          (if_cases (Ensures (λ _. Unit)) (str_eq before after) _ _ tt
            (update_metrics-IsTotal new h (c 2) job))
          λ es _. put_status-Same (c 3) es new h

-- What is found under the job itself after the last part of UpdateJob: nothing, if the job is
-- complete and there is no cleanup delay.
abbrev pub kept : Tracker → Status → Option Status
kept tr new = elim (Status.is_done new) [
  | some true ↦ if ltb 0 tr.cleanup_delay then some new else none
  | _ ↦ some new
]

put_status-find :
    (now : ℕ) (es : List Event) (tr : Tracker) (job : Job) (new : Status)
    → Unique Job_discrete tr.jobs
    → HasHistory new
    → Ensures
        (λ r. (r.1 ≡ none) × (find job r.0 ≡ kept tr new))
        (put_status now (log_events es tr) job new)
unfolding put_status
put_status-find now es tr job new u h =
    total_bind (λ r. (r.1 ≡ none) × (find job r.0 ≡ kept tr new)) _ _ (is_done-IsTotal new h)
      λ done q. ground (
        arith,
        lookup-insert Job_discrete job job new tr.jobs,
        lookup-delete Job_discrete job job tr.jobs u,
      )

-- No error, the job stands with `o`, and the other jobs are as they were in `tr`.
abbrev pub Placed : Tracker → Job → Option Status → Tracker × Option Error → Type 0
Placed tr job o r =
    (r.1 ≡ none) × (find job r.0 ≡ o) × ((j : Job) → job ≢ j → find j r.0 ≡ find j tr)

with_frame :
    (tr : Tracker) (job : Job) (o : Option Status) (r : Run)
    → Ensures (λ r. (r.1 ≡ none) × (find job r.0 ≡ o)) r
    → ((j : Job) → job ≢ j → Ensures (Same j tr) r)
    → Ensures (Placed tr job o) r
with_frame tr job o none h k = absurd h
with_frame tr job o (some r) h k = (h.0, h.1, k)

pub update_job-Placed :
    (c : ℕ → ℕ) (tr : Tracker) (job : Job) (new old : Status)
    → IsValid tr
    → HasHistory new
    → find job tr ≡ some old
    → Ensures (Placed tr job (kept tr new)) (update_job c tr job new)
unfolding update_job replace_status get_status
update_job-Placed c tr job new old v h e =
    let g = found-HasHistory tr job v e in
    let P = Placed tr job (kept tr new) in
    rw (e, on_job)
      (total_bind P _ _ (state-IsTotal old g) λ before _.
        total_bind P _ _ (state-IsTotal new h) λ after _.
          total_bind P _ _
            (if_cases (Ensures (λ _. Unit)) (str_eq before after) _ _ tt
              (update_metrics-IsTotal new h (c 2) job))
            λ es _.
              with_frame tr job (kept tr new) _ (put_status-find (c 3) es tr job new v.unique h)
                (λ j i. put_status-Same c tr job j i v.unique (c 3) es new h))
