-- ===== src/Tracker.antt =====
-- tracker/tracker.go: the tracker's state and its operations.
-- An operation takes the tracker and returns the new one, with the source's error, if any; `none`
-- is a panic. `c i` is the i-th reading of the clock that an operation can make. The package's
-- metrics and its set of error strings are fields of the tracker.
pub mod Valid
pub mod Sweep
pub mod Touched
pub mod History
pub mod Frame
pub mod Moves
pub mod Gap
pub mod Reports
pub mod Admits
pub mod Gauge
pub mod Balance
pub mod SweepBalance
pub mod Runs
use etl_gardener.Base.{
  ℕ, ◌+◌, ◌-◌, Bool, true, false, ◌&&◌, ◌||◌, String, Option, none, some, List, [], ◌∷◌, ◌++◌,
  str_eq, concat, if◌then◌else◌, ◌>>=◌, ltb, length, int_inc, lookup, insert, delete, Option-cases,
  inl, inr, ◌≡◌,
}
use etl_gardener.Job.{Job, Job_discrete}
use etl_gardener.Metrics.{Event, in_flight_dec, started, completed, fail, warning}
use etl_gardener.Status
use etl_gardener.Status.{Status, StateInfo, failed, new_status, series}

-- The error values that the package declares.
pub data Error : Type 0 where
  client_is_nil job_already_exists job_not_found job_is_obsolete : Error
  invalid_state_transition not_yet_implemented no_change : Error

abbrev pub JobMap : Type 0
JobMap = List (Job × Status)

pub record Tracker : Type 0 where
  pub last_modified : ℕ
  pub last_job : Job
  pub jobs : JobMap
  pub expiration_time : ℕ
  pub cleanup_delay : ℕ
  pub events : List Event
  pub err_strings : List String

abbrev pub find : Job → Tracker → Option Status
find job tr = lookup Job_discrete job tr.jobs

-- What an operation returns, or its panic.
abbrev pub Run : Type 0
Run = Option (Tracker × Option Error)

abbrev pub log_events : List Event → Tracker → Tracker
log_events es tr = record tr { events = es ++ tr.events }

unfoldable pub num_jobs : Tracker → ℕ
num_jobs tr = length tr.jobs

-- GetStatus
unfoldable pub get_status : Tracker → Job → Option Status
get_status tr job = find job tr

-- A lookup and its two outcomes.
abbrev pub on_job {ℓ} : {A : Type ℓ} → Tracker → Job → A → (Status → A) → A
on_job tr job missing found = elim (get_status tr job) [ none ↦ missing | some s ↦ found s ]

-- The rule for it.
pub on_job_cases {ℓ κ} :
    {A : Type ℓ} (P : A → Type κ) (tr : Tracker) (job : Job) (missing : A) (found : Status → A)
    → (find job tr ≡ none → P missing)
    → ((s : Status) → find job tr ≡ some s → P (found s))
    → P (on_job tr job missing found)
unfolding get_status
on_job_cases P tr job missing found m f = elim (Option-cases (find job tr)) [
  | inl e ↦ rw (e, on_job) (m e)
  | inr (s, e) ↦ rw (e, on_job) (f s e)
]

-- The last part of AddJob: the job is (re)started with a fresh status.
unfoldable pub start_job : (ℕ → ℕ) → Tracker → Job → Run
start_job c tr job = do
  let status = new_status (c 0)
  moved ← Status.update_metrics (c 2) job status
  some (
    record tr {
      last_job = job;
      last_modified = c 1;
      jobs = insert Job_discrete job status tr.jobs;
      events = moved ++ started job.experiment job.datatype ∷ tr.events;
    },
    none,
  )

-- AddJob, where the tracker has the job with status `s`.
unfoldable pub readd_job : (ℕ → ℕ) → Tracker → Job → Status → Run
readd_job c tr job s = do
  done ← Status.is_done s
  st ← Status.state s
  lbl ← Status.label s
  (if done
      then start_job c tr job
      else if str_eq st failed
      then start_job c (log_events (in_flight_dec (series job lbl) ∷ []) tr) job
      else some (tr, some job_already_exists))

unfoldable pub add_job : (ℕ → ℕ) → Tracker → Job → Run
unfolding get_status
add_job c tr job = on_job tr job (start_job c tr job) (λ s. readd_job c tr job s)

-- The last part of UpdateJob: a complete job is counted, and deleted if there is no cleanup delay.
unfoldable pub put_status : ℕ → Tracker → Job → Status → Run
put_status now tr job new = do
  done ← Status.is_done new
  let tr' = record tr { last_modified = now }
  let counted = log_events (completed job.experiment job.datatype ∷ []) tr'
  some (
    (if done
        then (if ltb 0 tr.cleanup_delay
            then record counted { jobs = insert Job_discrete job new tr.jobs }
            else record counted { jobs = delete Job_discrete job tr.jobs })
        else record tr' { jobs = insert Job_discrete job new tr.jobs }),
    none,
  )

-- UpdateJob, where the tracker has the job with status `old`.
unfoldable pub replace_status : (ℕ → ℕ) → Tracker → Job → Status → Status → Run
replace_status c tr job new old = do
  before ← Status.state old
  after ← Status.state new
  moved ← if str_eq before after then some [] else Status.update_metrics (c 2) job new
  put_status (c 3) (log_events moved tr) job new

unfoldable pub update_job : (ℕ → ℕ) → Tracker → Job → Status → Run
unfolding get_status
update_job c tr job new =
    on_job tr job (some (tr, some job_not_found)) (λ old. replace_status c tr job new old)

-- What SetDetail makes of the status that it read.
unfoldable pub detailed_status : (ℕ → ℕ) → String → Status → Option Status
detailed_status c detail s = do
  d ← Status.set_detail (c 0) detail s
  let s' = d.0
  some (record s' { update_count = int_inc s'.update_count })

unfoldable pub set_detail : (ℕ → ℕ) → Tracker → Job → String → Run
unfolding get_status
set_detail c tr job detail =
    on_job tr job (some (tr, some job_not_found))
      (λ s. do new ← detailed_status c detail s; update_job c tr job new)

-- What SetStatus makes of the status that it read.
unfoldable pub next_status : (ℕ → ℕ) → String → String → Status → Option Status
next_status c st detail s = do
  last ← Status.last_state_info s
  d ← Status.set_detail (c 0) detail s
  n ← if str_eq st last.state then some d else Status.new_state (c 1) st d.0
  let s' = n.0
  some (record s' { update_count = int_inc s'.update_count })

unfoldable pub set_status : (ℕ → ℕ) → Tracker → Job → String → String → Run
unfolding get_status
set_status c tr job st detail =
    on_job tr job (some (log_events (warning (series job "NoSuchJob") ∷ []) tr, some job_not_found))
      (λ s. do new ← next_status c st detail s; update_job c tr job new)

unfoldable pub heartbeat : (ℕ → ℕ) → Tracker → Job → Run
unfolding get_status
heartbeat c tr job =
    on_job tr job (some (tr, some job_not_found))
      (λ s. update_job c tr job (record s { heartbeat_time = c 0 }))

-- maxUniqueErrStrings
abbrev pub max_unique_err_strings : ℕ
max_unique_err_strings = 10

unfoldable pub contains : List String → String → Bool
contains [] a = false
contains (x ∷ xs) a = str_eq x a || contains xs a

-- Job.failureMetric: which error strings become labels.
unfoldable pub failure_metric : Tracker → Job → String → Tracker
unfolding contains
failure_metric tr job err =
    if contains tr.err_strings err
    then log_events (fail (series job err) ∷ []) tr
    else if ltb (length tr.err_strings) max_unique_err_strings
    then log_events (fail (series job err) ∷ []) (record tr { err_strings = err ∷ tr.err_strings })
    else log_events (fail (series job "generic") ∷ []) tr

-- What SetJobError makes of the status that it read, whose state is `old`.
unfoldable pub failed_status : (ℕ → ℕ) → String → String → Status → Option Status
failed_status c old err s = do
  n ← Status.new_state (c 0) failed s
  d ← Status.set_detail (c 1) (concat old (concat ": " err)) n.0
  some d.0

-- SetJobError, where the tracker has the job with status `s`.
unfoldable pub fail_job : (ℕ → ℕ) → Tracker → Job → String → Status → Run
fail_job c tr job err s = do
  old ← Status.state s
  new ← failed_status c old err s
  update_job c (failure_metric tr job err) job new

unfoldable pub set_job_error : (ℕ → ℕ) → Tracker → Job → String → Run
unfolding get_status
set_job_error c tr job err =
    on_job tr job (some (tr, some job_not_found)) (λ s. fail_job c tr job err s)

-- The test of GetState: expired, or complete for longer than the cleanup delay.
unfoldable pub is_obsolete : ℕ → Tracker → Status → Option Bool
is_obsolete now tr s = do
  updated ← Status.detail_time s
  done ← Status.is_done s
  some (
      (ltb 0 tr.expiration_time && ltb tr.expiration_time (now - updated))
      || (done && ltb tr.cleanup_delay (now - updated)))

-- The loop of GetState: the entries kept, the events newest first, and whether one was deleted.
unfoldable pub sweep : ℕ → Tracker → JobMap → Option (JobMap × List Event × Bool)
unfolding is_obsolete
sweep now tr [] = some ([], [], false)
sweep now tr ((j, s) ∷ m) = do
  gone ← is_obsolete now tr s
  done ← Status.is_done s
  lbl ← Status.label s
  rest ← sweep now tr m
  some (
      if gone
      then (rest.0, (if done then rest.1 else rest.1 ++ in_flight_dec (series j lbl) ∷ []), true)
      else ((j, s) ∷ rest.0, rest.1, rest.2))

-- The tracker after GetState, and the three results.
unfoldable pub get_state : ℕ → Tracker → Option (Tracker × JobMap × Job × ℕ)
unfolding sweep
get_state now tr = do
  kept ← sweep now tr tr.jobs
  let modified = if kept.2 then now else tr.last_modified
  let tr' = record tr { jobs = kept.0; last_modified = modified; events = kept.1 ++ tr.events }
  some (tr', kept.0, tr.last_job, modified)

-- NumFailed: the count of `failed` among the states of the jobs that GetState returns.
unfoldable pub count_state : String → JobMap → Option ℕ
count_state st [] = some 0
count_state st ((j, s) ∷ m) = do
  state ← Status.state s
  rest ← count_state st m
  some (if str_eq state st then rest + 1 else rest)

unfoldable pub num_failed : ℕ → Tracker → Option (Tracker × ℕ)
unfolding get_state count_state
num_failed now tr = do r ← get_state now tr; n ← count_state failed r.1; some (r.0, n)

-- LastJob
unfoldable pub last_job : Tracker → Job
last_job tr = tr.last_job

-- The calls that other components make.
pub data Call : Type 0 where
  adds : Job → Call
  details : Job → String → Call
  updates : Job → String → String → Call
  beats : Job → Call
  errors : Job → String → Call
  looks : Call

-- One call, with its readings of the clock; GetState makes one reading of its own.
unfoldable pub step : (ℕ → ℕ) → Tracker → Call → Option Tracker
step c tr (adds job) = do r ← add_job c tr job; some r.0
step c tr (details job detail) = do r ← set_detail c tr job detail; some r.0
step c tr (updates job st detail) = do r ← set_status c tr job st detail; some r.0
step c tr (beats job) = do r ← heartbeat c tr job; some r.0
step c tr (errors job err) = do r ← set_job_error c tr job err; some r.0
step c tr looks = do r ← get_state (c 0) tr; some r.0

-- A history of calls, each with its own readings.
unfoldable pub run : Tracker → List ((ℕ → ℕ) × Call) → Option Tracker
run tr [] = some tr
run tr ((c, call) ∷ cs) = do tr' ← step c tr call; run tr' cs
