-- ===== src/Lib.antt =====
-- etl-gardener: the service that hands out reprocessing jobs and tracks them.
--
-- A parser asks the job service for a job (job-service/job-service.go). The service cycles through
-- the configured job specs, one date after another, and gives yesterday's date precedence. It adds
-- each job to the tracker (tracker/tracker.go), which keeps a status with a history of states
-- (tracker/job.go) for each. The parser and the monitor move jobs from state to state in the
-- tracker, and the tracker drops the jobs that are complete or stale. Prometheus vectors
-- (metrics/metrics.go) follow all this. The command (cmd/gardener/gardener.go) starts this in its mode
-- `manager`; in the mode `legacy` it starts the dispatcher (reproc/dispatch.go), whose tasks
-- (state/state.go) an executor (rex/rex.go) takes from state to state over task queues.
--
-- The files:
--   Base        tests, lists over native numbers, Go's maps as association lists, and decimal numbers
--   Job         tracker/job.go: Job, JobWithTarget, Target
--   Metrics     metrics/metrics.go: the updates of the vectors, as a list of events
--   Status      tracker/job.go: State, StateInfo, Status and its methods; Status/Safe: its panics
--   Tracker     tracker/tracker.go: Tracker and its methods (AddJob is add_job, and so on).
--               Valid is about well-formed trackers, History about the history of a status,
--               Frame, Moves and Reports about what an update leaves in the map, Admits about
--               AddJob, Gap about a call within Heartbeat, Sweep about GetState,
--               Touched about the time of the last modification, Gauge, Balance and
--               SweepBalance about TasksInFlight, Runs about histories of calls
--   Persistence persistence/persistence.go: the Saver interface; Datastore is DatastoreSaver, and Backed
--               shows that it is a Saver
--   Page        tracker/job.go: the texts of jobs and statuses, and WriteHTML; Table is about its rows
--   Config      config/config.go: the configuration
--   Service     job-service/job-service.go: NextJob, NewJobService and what they call. Ready is
--               about the indices, Dates about the dates, Resumed about a restart. Rounds is a
--               reference that keeps lists in place of indices, and Order relates NextJob to it
--   Handler     tracker/handler.go, and JobHandler of job-service/job-service.go. Replies is about the
--               codes, Dispatch about JobHandler, and Urls about the URLs that a parser posts to
--   Store       Sync and InitTracker of tracker/tracker.go, loadJobMap and UnmarshalJSON of
--               tracker/job.go. Recovery is about what is loaded, Synced about what is saved,
--               Saving is saveEvery, Saved about it with the calls between its ticks, and
--               Lost about a call within a Sync
--   Ops         ops/ops.go, ops/errors.go: Outcome, Monitor, Watch and the goroutines. Updates is about
--               UpdateJob, Claims and Exclusion about the claims on jobs. Actions is ops/actions.go,
--               Verdicts about its outcomes, and Standard about NewStandardMonitor
--   Task        state/state.go: Task, its saves, ParsePrefix and Process, of the older pipeline, where
--               an executor takes a task from state to state. Loop is about the loop of Process; Saver
--               is DatastoreSaver and the page, and Stored about it and the end of Process
--   World       code that is handed the world outside and gives a result and the world after it
--   TaskQueue   cloud/tq/tq.go: QueueHandler and the statistics of a task queue; Waiting is
--               WaitForEmptyQueue, and Emptied and Quiet about it; Posting is PostAll and what it
--               calls, and Accounts about its counts
--   Bq          cloud/bq: AnnotatedTable; Caches, Sanity and Listing are cloud/bq/sanity.go, Floats its
--               float32; Kept, Checks and Copies are about SanityCheckAndCopy, Backoff about WaitForJob
--               and CachedDetail. Stable is WaitForStableTable of cloud/bq/dedup.go, and Buffers about
--               it; Operations is Dedup and cloud/bq/ops.go
--   Rex         rex/rex.go: what the executor acts on; Steps and Executor are its steps, Next and finish
--               among them; Kept and Rises are about the task that a step leaves, and Process about the
--               loop of Process with this executor
--   Dispatch    reproc/dispatch.go: the terminator, TaskHandler and RestartTasks; Pool and Restarts are
--               about who has a queue; Dates is findNextRecentDay, doDispatchLoop and the restart date,
--               and Calendar about them; Waits is AddTask, and Launch is RunDispatchLoop
--   Gardener    cmd/gardener/gardener.go: LoadEnv and taskHandlerFromEnv. Required is about the variables,
--               Queues about the queues that they name; Posted is about the URLs of
--               a parser; Main is main in its two modes, Mux the handlers
--               that it registers, and Serving and Started are about the requests
--   Client      client/client.go: post and NextJob; Obtained is about it with JobHandler
--   Commands    cmd/load/load.go and cmd/copy/copy.go
--   Tests       runs on concrete inputs
--
-- A time is its number of nanoseconds since Go's zero time, and a reading of the clock is an
-- argument: `c i` is the i-th reading that an operation can make, and no order of the readings is
-- assumed but where it is written (InOrder of Store.Saving). The readings of one sweep of GetState
-- are taken as one. A duration is such a number too, and those of the source that are compared are
-- never below 0, so that a difference that stops at 0 compares as in the source. `none` is a panic,
-- or the end of the process. UpdateCount wraps as a 64-bit int. The lists that the loops run over
-- are their measure, except for the loop of Process: its fuel is the number of rounds, and one
-- round per state up to Done is enough where each step of the executor raises the state. A map is
-- an association list, and its order is one of those that Go may choose.
--
-- World, TaskQueue, Bq, Rex and Dispatch.Waits hand the world outside from call to call: a clock is
-- read from it, and what a call changes in it is known only by named laws. The waits there end when the
-- outside says so; their fuel is the number of rounds, and what is stated of a return is stated for every
-- fuel. 17 rounds are enough for WaitForEmptyQueue once the queue is reported empty, as each takes 20
-- seconds or more. The loops on dates have fuel for the days that they pass. float32 is rounded on
-- natural numbers, with 128 doublings for numbers below 2 ^ 152. PostAll runs over the list of what
-- its iterator gives. In Rex the parts of the world that the calls act on lie side by side.
--
-- The tracker's lock makes GetStatus and UpdateJob atomic. A method that calls the two is modelled as
-- one step, which is what the source does when no other call comes between them; Tracker.Gap has a
-- call between them. Sync lets the lock go after its GetState: in Store.Saving calls may come between
-- that and the end of the Sync, before or after its reading of lastTry.
--
-- The monitor's goroutines are steps of their own: the end of the condition and the action, the call
-- of UpdateJob, and the release. A list of happenings is one interleaving of them with the ticks of
-- Watch and the calls of others. Two instants that are equal are one Go time.
--
-- The datastore's client is a record of its calls with laws: what a Put or a Delete without an error
-- leaves, and that a call touches its own key only. After one with an error, either may hold. A task
-- is stored without its saver, and with its times to the precision of the datastore. Gardener
-- takes flags, errors of constructors and what is stored as values, and the requests as a list, one
-- after another; the steps of the monitor and of the dispatcher are those of Ops and Dispatch.
--
-- Not modelled: logs, the markup of HTML, JSON, YAML and the queries' SQL; the servers for the status and
-- for Prometheus, and the shutdown; the clients of the datastore, Cloud Storage, BigQuery and the task
-- queues, which are parameters; api/api.go, which only declares types that no code uses.
pub mod Base
pub mod Job
pub mod Metrics
pub mod Status
pub mod Persistence
pub mod Page
pub mod Service
pub mod Config
pub mod Handler
pub mod Store
pub mod Ops
pub mod Task
pub mod World
pub mod TaskQueue
pub mod Bq
pub mod Rex
pub mod Dispatch
pub mod Gardener
pub mod Client
pub mod Commands
pub mod Tracker
pub mod Tests
