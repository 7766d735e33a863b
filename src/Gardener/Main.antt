-- ===== src/Gardener/Main.antt =====
-- gardener.go: main. The ends of the process (os.Exit and
-- rtx.Must) and a panic are `none`. The servers for the status and for Prometheus, and the shutdown, are
-- left out, as is the monitor, whose steps are those of Ops.
use etl_gardener.Base.{
  ℕ, ◌⊎◌, inl, inr, Bool, true, false, String, Option, none, some, List, str_eq, if◌then◌else◌,
  ◌>>=◌, ltb, concat,
}
use Prim.Native.String.{len, slice}
use etl_gardener.Tracker.{Tracker, last_job}
use etl_gardener.Persistence.{Saver}
use etl_gardener.Service as Jobs
use etl_gardener.Service.{Service, NewService, new_job_service}
use etl_gardener.Config.{GardenerConfig, config_sources, config_start_date}
use etl_gardener.Store.{Datastore, init_tracker}
use etl_gardener.Handler.{status_ok, internal_server_error}
use etl_gardener.Task.{Task}
use etl_gardener.Dispatch.{TaskHandler}
use etl_gardener.Dispatch.Launch.{run_dispatch_loop}
use etl_gardener.Gardener.{
  Environment, BqConfig, FromEnv, negative_length, not_created, created, new_bq_config,
  task_handler_from_env,
}

-- healthCheck: the code and the body.
unfoldable pub health_check : Bool → ℕ × String
health_check true = (status_ok, "ok")
health_check false = (internal_server_error, "{\"message\": \"Internal server error.\"}")

-- The line of Status about the release.
unfoldable pub release_line : Environment → String
release_line env =
    if ltb (len env.commit) 8
    then concat "Release: " (concat env.release " <br>  Commit: unknown\n")
    else concat "Release: " (
        concat env.release (
          concat " <br>  Commit: <a href=\"https://github.com/m-lab/etl-gardener/tree/"
            (concat env.commit (concat "\">" (concat (slice env.commit 0 7) "</a><br>\n")))))

-- What the process is once it serves: globalTracker, the job service with its store, and the handler of the
-- legacy mode with the date that its loop starts at.
pub record Server (P S : Type 0) : Type 0 where
  pub healthy : Bool
  pub tracker : Option Tracker
  pub service : Option (Service P × S)
  pub dispatcher : Option (TaskHandler × ℕ)
  pub config : BqConfig

-- A job service that was created; rtx.Must or log.Fatal ends the process else.
abbrev pub must_create : {P : Type 0} → NewService P → Option (Service P)
must_create (Jobs.created svc) = some svc
must_create _ = none

-- What main meets outside: clocks, flags, errors, the stores, the configuration and the saved tasks.
pub record Start (E S : Type 0) : Type 0 where
  pub tracker_now : ℕ
  pub service_now : ℕ
  pub expiration : ℕ
  pub cleanup : ℕ
  pub client_err : Option String
  pub entity : E
  pub saver_err : Option String
  pub store : S
  pub gardener : GardenerConfig
  pub project : String
  pub exec_err : Option String
  pub task_saver_err : Option String
  pub loop_err : Option String
  pub tasks : String ⊎ List Task
  pub fuel : ℕ

module _ {P : Type 0} (sv : Saver) (ds : Datastore) (zero_pdt : P)
    (parse_pdt : String → Option P) where
  -- mustStandardTracker, by the error of datastore.NewClient; `cleanup` and `expiration` are the flags.
  unfoldable pub must_standard_tracker : ℕ → ℕ → ℕ → Option String → ds.Entity → Option Tracker
  must_standard_tracker now expiration cleanup (some err) entity = none
  must_standard_tracker now expiration cleanup none entity =
      init_tracker ds now expiration cleanup (some entity)

  -- mustCreateJobService, by the error of NewDatastoreSaver. The tracker, the context and the saver are not
  -- nil.
  unfoldable pub must_create_job_service :
      ℕ → Tracker → GardenerConfig → String → Option String → sv.Store → Option (Service P)
  must_create_job_service now tr cfg project (some err) store = none
  must_create_job_service now tr cfg project none store =
      let last = last_job tr in
      must_create (
        new_job_service sv zero_pdt parse_pdt now true last.date (config_start_date cfg) project
          (config_sources cfg) store)

  -- The case manager of main.
  unfoldable pub start_manager : Environment → Start ds.Entity sv.Store → Option (Server P sv.Store)
  unfolding must_standard_tracker must_create_job_service new_bq_config
  start_manager env o = do
    tr ← must_standard_tracker o.tracker_now o.expiration o.cleanup o.client_err o.entity
    svc ← must_create_job_service o.service_now tr o.gardener o.project o.saver_err o.store
    let config = new_bq_config env
    some (record {
      healthy = true;
      tracker = some tr;
      service = some (svc, o.store);
      dispatcher = none;
      config = record config { bq_batch_dataset = "batch"; bq_final_dataset = "base_tables" };
    })

  -- What RunDispatchLoop leads to.
  abbrev pub dispatching : BqConfig → String ⊎ (TaskHandler × ℕ) → Option (Server P sv.Store)
  dispatching config (inl err) = some (record {
    healthy = false;
    tracker = none;
    service = none;
    dispatcher = none;
    config = config;
  })
  dispatching config (inr d) = some (record {
    healthy = true;
    tracker = none;
    service = none;
    dispatcher = some d;
    config = config;
  })

  -- What taskHandlerFromEnv leads to.
  abbrev pub dispatch_with :
      (String → String)
      → Environment
      → Start ds.Entity sv.Store
      → FromEnv
      → Option (Server P sv.Store)
  dispatch_with trim_space env o negative_length = none
  dispatch_with trim_space env o (not_created err) = none
  dispatch_with trim_space env o (created config th) = do
    r ← run_dispatch_loop o.fuel trim_space o.loop_err o.tasks th env.start_date env.date_skip
    dispatching config r

  -- The case legacy of main.
  unfoldable pub start_legacy :
      (String → String) → Environment → Start ds.Entity sv.Store → Option (Server P sv.Store)
  start_legacy trim_space env o =
      dispatch_with trim_space env o (task_handler_from_env env o.exec_err o.task_saver_err)

  abbrev pub start_mode :
      (String → String) → Environment → Start ds.Entity sv.Store → Option (Server P sv.Store)
  start_mode trim_space env o =
      if str_eq env.service_mode "manager"
      then start_manager env o
      else if str_eq env.service_mode "legacy"
      then start_legacy trim_space env o
      else none

  -- main, after LoadEnv has given `env`.
  unfoldable pub main :
      (String → String) → Environment → Start ds.Entity sv.Store → Option (Server P sv.Store)
  unfolding start_manager start_legacy
  main trim_space env o = elim env.error [ some err ↦ none | none ↦ start_mode trim_space env o ]
