-- ===== src/Ops.antt =====
-- ops/ops.go and ops/errors.go: the monitor, which applies an action to each job in a state that has
-- one. `W` is the type of what the conditions and actions see of the world outside. The error of an
-- outcome is its text.
pub mod Claims
pub mod Exclusion
pub mod Updates
pub mod Actions
pub mod Verdicts
pub mod Standard
use etl_gardener.Base.{
  ℕ, Bool, true, false, String, Option, none, some, List, [], ◌∷◌, ◌++◌, not, ◌&&◌, concat, str_eq,
  if◌then◌else◌, ◌>>=◌, lookup, insert, delete, String_discrete,
}
use etl_gardener.Job.{Job, Job_discrete}
use etl_gardener.Metrics.{Event}
use etl_gardener.Status
use etl_gardener.Status.{Status}
use etl_gardener.Tracker as Tracking
use etl_gardener.Tracker.{Tracker, Run, Error, JobMap, Call, get_state, log_events, step}

pub record Outcome : Type 0 where
  pub job : Job
  pub error : Option String
  pub retry : Bool
  pub detail : String

abbrev is_nil : Option String → Bool
is_nil none = true
is_nil (some _) = false

unfoldable pub should_retry : Outcome → Bool
should_retry o = not (is_nil o.error) && o.retry

-- Outcome.IsDone
unfoldable pub is_done : Outcome → Bool
is_done o = is_nil o.error

-- The text of an error, as %v prints it.
abbrev error_text : Option String → String
error_text none = "<nil>"
error_text (some e) = e

-- Outcome.Error
unfoldable pub outcome_error : Outcome → String
outcome_error o =
    if o.retry
    then concat (error_text o.error) (concat " (Retry: " (concat o.detail ")"))
    else if is_nil o.error
    then ""
    else concat (error_text o.error) (concat " (Fail: " (concat o.detail ")"))

unfoldable pub failure : Job → String → String → Outcome
failure job err detail = record { job = job; error = some err; retry = false; detail = detail }

unfoldable pub retry : Job → String → String → Outcome
retry job err detail = record { job = job; error = some err; retry = true; detail = detail }

unfoldable pub success : Job → String → Outcome
success job detail = record { job = job; error = none; retry = false; detail = detail }

-- An error overrides the implicit detail.
abbrev detail_of : Outcome → String
detail_of o =
    if str_eq o.detail "-" then elim o.error [ none ↦ o.detail | some e ↦ e ] else o.detail

-- What UpdateJob returns, from a call of the tracker: the tracker, the text and the error.
abbrev reported : String → Run → Option (Tracker × String × Option Error)
reported text o = do r ← o; some (r.0, elim r.1 [ none ↦ text | some _ ↦ "set status error" ], r.1)

-- Monitor.UpdateJob
unfoldable pub update_job :
    (ℕ → ℕ) → Tracker → Outcome → String → Option (Tracker × String × Option Error)
unfolding is_done should_retry
update_job c tr o state =
    if is_done o
    then reported "done" (Tracking.set_status c tr o.job state (detail_of o))
    else if should_retry o
    then reported "retry" (Tracking.set_detail c tr o.job (detail_of o))
    else reported "fail" (Tracking.set_job_error c tr o.job (detail_of o))

-- An action function gives an outcome and the updates of the metrics that it makes.
pub record Action (W : Type 0) : Type 0 where
  pub from_state : String
  pub next_state : String
  pub condition : Option (W → Job → Bool)
  pub action : Option (W → Job → ℕ → Option (Outcome × List Event))
  pub annotation : String

-- A goroutine of tryApplyAction: it is in its condition or action, or has the outcome, or is done.
pub data Phase : Type 0 where
  acting releasing : Phase
  updating : Outcome → Phase

pub record Worker (W : Type 0) : Type 0 where
  pub applied : Action W
  pub status : Status
  pub phase : Phase

-- The monitor with its tracker, and the goroutines that it has started, each with its job.
pub record Monitor (W : Type 0) : Type 0 where
  pub actions : List (String × Action W)
  pub tk : Tracker
  pub job_claims : List (Job × Unit {0})
  pub workers : List (Job × Worker W)

unfoldable pub new_monitor : {W : Type 0} → Tracker → Monitor W
new_monitor tr = record { actions = []; tk = tr; job_claims = []; workers = [] }

-- What the world does next: a tick of Watch, a step of the goroutine of a job (the end of its
-- condition and action, its call of UpdateJob, its release), or a call of the tracker by others.
pub data Happening (W : Type 0) : Type 0 where
  ticks : (ℕ → ℕ) → Happening W
  acts : Job → W → Happening W
  reports : Job → (ℕ → ℕ) → Happening W
  releases : Job → Happening W
  calls : (ℕ → ℕ) → Call → Happening W

module _ {W : Type 0} where
  unfoldable pub add_action :
      String
      → Option (W → Job → Bool)
      → Option (W → Job → ℕ → Option (Outcome × List Event))
      → String
      → String
      → Monitor W
      → Monitor W
  add_action state cond op success_state annotation m =
      let a : Action W = record {
        from_state = state;
        next_state = success_state;
        condition = cond;
        action = op;
        annotation = annotation;
      } in
      record m { actions = insert String_discrete state a m.actions }

  -- tryClaimJob; `none` is the nil that says that the job is claimed.
  unfoldable pub try_claim_job : Job → Monitor W → Option (Monitor W)
  try_claim_job j m = elim (lookup Job_discrete j m.job_claims) [
    | some _ ↦ none
    | none ↦ some (record m { job_claims = insert Job_discrete j tt m.job_claims })
  ]

  -- tryApplyAction
  unfoldable pub try_apply_action : Action W → Job → Status → Monitor W → Monitor W
  unfolding try_claim_job
  try_apply_action a j s m = elim (try_claim_job j m) [
    | none ↦ m
    | some m' ↦
        let w : Worker W = record { applied = a; status = s; phase = acting } in
        record m' { workers = (j, w) ∷ m'.workers }
  ]

  -- The loop of Watch over the jobs.
  unfoldable pub watch_jobs : JobMap → Monitor W → Option (Monitor W)
  unfolding try_apply_action
  watch_jobs [] m = some m
  watch_jobs ((j, s) ∷ jobs) m = do
    st ← Status.state s
    elim (lookup String_discrete st m.actions) [
      | none ↦ watch_jobs jobs m
      | some a ↦ watch_jobs jobs (try_apply_action a j s m)
    ]

  -- One tick of Watch.
  unfoldable pub watch : (ℕ → ℕ) → Monitor W → Option (Monitor W)
  unfolding watch_jobs
  watch c m = do r ← get_state (c 0) m.tk; watch_jobs r.1 (record m { tk = r.0 })

  -- The condition and the action of a goroutine: its next phase, and the updates of the metrics.
  unfoldable pub act : W → Job → Worker W → Option (Phase × List Event)
  act w j g =
      if elim g.applied.condition [ none ↦ true | some holds ↦ holds w j ]
      then elim g.applied.action [
        | none ↦ some (releasing, [])
        | some f ↦ do t ← Status.state_change_time g.status; r ← f w j t; some (updating r.0, r.1)
      ]
      else some (releasing, [])

  abbrev set_phase : Job → Phase → Worker W → Monitor W → Monitor W
  set_phase j p g m = record m {
    workers = insert Job_discrete j (record g { phase = p }) m.workers;
  }

  -- A step of the goroutine of `j` in its phase; other steps than the one due do not happen.
  unfoldable pub act_step : Job → W → Worker W → Monitor W → Option (Monitor W)
  unfolding act
  act_step j w g m = elim g.phase [
    | acting ↦ do r ← act w j g; some (set_phase j r.0 g (record m { tk = log_events r.1 m.tk }))
    | releasing ↦ some m
    | updating o ↦ some m
  ]

  unfoldable pub report_step : Job → (ℕ → ℕ) → Worker W → Monitor W → Option (Monitor W)
  unfolding update_job
  report_step j c g m = elim g.phase [
    | acting ↦ some m
    | releasing ↦ some m
    | updating o ↦ do
      r ← update_job c m.tk o g.applied.next_state
      some (set_phase j releasing g (record m { tk = r.0 }))
  ]

  -- The releaser is deferred: it runs at the goroutine's end.
  unfoldable pub release_step : Job → Worker W → Monitor W → Monitor W
  release_step j g m = elim g.phase [
    | acting ↦ m
    | updating o ↦ m
    | releasing ↦ record m {
      job_claims = delete Job_discrete j m.job_claims;
      workers = delete Job_discrete j m.workers;
    }
  ]

  unfoldable pub happen : Monitor W → Happening W → Option (Monitor W)
  unfolding watch act_step report_step release_step
  happen m (ticks c) = watch c m
  happen m (calls c call) = do tr ← step c m.tk call; some (record m { tk = tr })
  happen m (acts j w) = elim (lookup Job_discrete j m.workers) [
    | none ↦ some m
    | some g ↦ act_step j w g m
  ]
  happen m (reports j c) = elim (lookup Job_discrete j m.workers) [
    | none ↦ some m
    | some g ↦ report_step j c g m
  ]
  happen m (releases j) = elim (lookup Job_discrete j m.workers) [
    | none ↦ some m
    | some g ↦ some (release_step j g m)
  ]

  unfoldable pub happen_all : Monitor W → List (Happening W) → Option (Monitor W)
  unfolding happen
  happen_all m [] = some m
  happen_all m (e ∷ es) = do m' ← happen m e; happen_all m' es
