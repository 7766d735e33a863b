-- ===== src/Tracker/Reports.antt =====
-- tracker.go: the two outcomes of SetStatus, SetDetail, Heartbeat and SetJobError.
use etl_gardener.Base.{
  ℕ, ◌≡◌, refl, String, Option, none, some, Ensures, Ensures-bind, Ensures-mono, total_bind, arith,
  ◌>>=◌, lookup, ap, ◌∙◌,
}
use etl_gardener.Job.{Job, Job_discrete}
use etl_gardener.Status
use etl_gardener.Status.{Status}
use etl_gardener.Status.Safe.{HasHistory, state-IsTotal}
use etl_gardener.Tracker.{
  Tracker, Error, find, on_job_cases, update_job, set_detail, set_status, heartbeat, fail_job,
  set_job_error, failure_metric, job_not_found,
}
use etl_gardener.Tracker.Frame.{Placed, kept, update_job-Placed}
use etl_gardener.Tracker.Valid.{IsValid, found-HasHistory, failure_metric-IsValid}
use etl_gardener.Tracker.History.{
  Follows, detailed_status-Follows, next_status-Follows, failed_status-Follows, heartbeat-Follows,
}

-- The outcomes of a call on `job`: no such job, and nothing changed in the map; or its status `old`
-- was replaced by a `new` one with `Q old new`, which goes if it is complete and there is no cleanup
-- delay, and the other jobs are as they were.
pub data Reported (tr : Tracker) (job : Job) (Q : Status → Status → Type 0)
    (r : Tracker × Option Error) : Type 0 where
  missing : find job tr ≡ none → r.1 ≡ some job_not_found → r.0.jobs ≡ tr.jobs → Reported tr job Q r
  replaced :
      (old new : Status)
      → find job tr ≡ some old
      → Q old new
      → Placed tr job (kept tr new) r
      → Reported tr job Q r

-- The new status follows on the old one and ends in the state `st`.
abbrev pub MovesTo : String → Status → Status → Type 0
MovesTo st old new = Follows old new × (Status.state new ≡ some st)

abbrev pub KeepsState : Status → Status → Type 0
KeepsState old new = Follows old new × (Status.state new ≡ Status.state old)

state-HasHistory : (s : Status) (st : String) → Status.state s ≡ some st → HasHistory s
unfolding Status.state
state-HasHistory s st e h = ground arith

keeps_lem :
    (old new : Status) → HasHistory old → Status.state new ≡ Status.state old → HasHistory new
unfolding Status.state
keeps_lem old new h e g = ground arith

heartbeat_state :
    (s : Status) (now : ℕ) → Status.state (record s { heartbeat_time = now }) ≡ Status.state s
unfolding Status.state
heartbeat_state s now = refl

placed_lem :
    (tr tr' : Tracker) (job : Job) (new : Status) (r : Tracker × Option Error)
    → tr'.jobs ≡ tr.jobs
    → tr'.cleanup_delay ≡ tr.cleanup_delay
    → Placed tr' job (kept tr' new) r
    → Placed tr job (kept tr new) r
placed_lem tr tr' job new r same delay p = (
  p.0,
  p.1 ∙ ap (λ d. kept (record tr { cleanup_delay = d }) new) delay,
  λ j i. p.2 j i ∙ ap (lookup Job_discrete j) same,
)

-- What the call of UpdateJob at the end of each operation gives.
update_with :
    (c : ℕ → ℕ) (tr tr' : Tracker) (job : Job) (Q : Status → Status → Type 0) (old : Status)
    (o : Option Status)
    → IsValid tr'
    → tr'.jobs ≡ tr.jobs
    → tr'.cleanup_delay ≡ tr.cleanup_delay
    → find job tr ≡ some old
    → Ensures (λ new. HasHistory new × Q old new) o
    → Ensures (Reported tr job Q) (do new ← o; update_job c tr' job new)
update_with c tr tr' job Q old o v same delay e h =
    Ensures-bind (λ new. HasHistory new × Q old new) (Reported tr job Q) o _ h
      λ new g.
        Ensures-mono (Placed tr' job (kept tr' new)) (Reported tr job Q) _
          (update_job-Placed c tr' job new old v g.0 (ap (lookup Job_discrete job) same ∙ e))
          λ r p. replaced old new e g.1 (placed_lem tr tr' job new r same delay p)

Moves-HasHistory :
    (st : String) (old : Status) (o : Option Status)
    → Ensures (MovesTo st old) o
    → Ensures (λ new. HasHistory new × MovesTo st old new) o
Moves-HasHistory st old o h =
    Ensures-mono (MovesTo st old) (λ new. HasHistory new × MovesTo st old new) o h
      λ new g. (state-HasHistory new st g.1, g)

Keeps-HasHistory :
    (old : Status) (o : Option Status)
    → HasHistory old
    → Ensures (KeepsState old) o
    → Ensures (λ new. HasHistory new × KeepsState old new) o
Keeps-HasHistory old o k h =
    Ensures-mono (KeepsState old) (λ new. HasHistory new × KeepsState old new) o h
      λ new g. (keeps_lem old new k g.1, g)

failure_metric-frame :
    (tr : Tracker) (job : Job) (err : String)
    → ((failure_metric tr job err).jobs ≡ tr.jobs)
      × ((failure_metric tr job err).cleanup_delay ≡ tr.cleanup_delay)
unfolding failure_metric
failure_metric-frame tr job err = ground arith

module _ (c : ℕ → ℕ) (tr : Tracker) (job : Job) (v : IsValid tr) where
  -- SetStatus on a well-formed tracker returns. If it knows the job, then without an error, and the
  -- job's status is replaced by one that follows on it and has the state asked for, or is deleted
  -- where that state is complete and there is no cleanup delay, and other jobs stay. If not, it is
  -- the error that there is no such job, and no job changes.
  pub set_status-Reported :
      (st text : String) → Ensures (Reported tr job (MovesTo st)) (set_status c tr job st text)
  unfolding set_status
  set_status-Reported st text =
      on_job_cases (Ensures (Reported tr job (MovesTo st))) tr job _ _ (λ e. missing e refl refl)
        λ s e.
          let h = found-HasHistory tr job v e in
          update_with c tr tr job (MovesTo st) s _ v refl refl e
            (Moves-HasHistory st s _ (next_status-Follows s h c st text))

  -- SetDetail likewise, and the state stays.
  pub set_detail-Reported :
      (text : String) → Ensures (Reported tr job KeepsState) (set_detail c tr job text)
  unfolding set_detail
  set_detail-Reported text =
      on_job_cases (Ensures (Reported tr job KeepsState)) tr job _ _ (λ e. missing e refl refl)
        λ s e.
          let h = found-HasHistory tr job v e in
          update_with c tr tr job KeepsState s _ v refl refl e
            (Keeps-HasHistory s _ h (detailed_status-Follows s h c text))

  -- Heartbeat likewise, and the state stays.
  pub heartbeat-Reported : Ensures (Reported tr job KeepsState) (heartbeat c tr job)
  unfolding heartbeat
  heartbeat-Reported =
      on_job_cases (Ensures (Reported tr job KeepsState)) tr job _ _ (λ e. missing e refl refl)
        λ s e.
          let h = found-HasHistory tr job v e in
          Ensures-mono (Placed tr job (kept tr _)) (Reported tr job KeepsState) _
            (update_job-Placed c tr job _ s v h e)
            λ r p. replaced s _ e (heartbeat-Follows s h (c 0), heartbeat_state s (c 0)) p

  -- SetJobError on a well-formed tracker returns. If it knows the job, then without an error, and the
  -- job's status is replaced by one that follows on it and has the state `failed`, and other jobs
  -- stay. If not, it is the error that there is no such job, and no job changes.
  pub set_job_error-Reported :
      (err : String)
      → Ensures (Reported tr job (MovesTo Status.failed)) (set_job_error c tr job err)
  unfolding set_job_error fail_job
  set_job_error-Reported err =
      on_job_cases (Ensures (Reported tr job (MovesTo Status.failed))) tr job _ _
        (λ e. missing e refl refl)
        λ s e.
          let h = found-HasHistory tr job v e in
          let tr' = failure_metric tr job err in
          let (same, delay) = failure_metric-frame tr job err in
          total_bind (Reported tr job (MovesTo Status.failed)) _ _ (state-IsTotal s h) λ old _.
            update_with c tr tr' job (MovesTo Status.failed) s _
              (failure_metric-IsValid tr job err v) same delay e
              (Moves-HasHistory Status.failed s _ (failed_status-Follows s h c old err))
