-- ===== src/Gardener.antt =====
-- cmd/gardener/gardener.go: the environment of the service, and the handler of the legacy mode. A
-- variable of the environment is missing (`none`), or has a text. `trim_space` is strings.TrimSpace and
-- `parse_day` is time.Parse with the layout 20060102 (`none` is its error, which comes with time 0).
pub mod Required
pub mod Queues
pub mod Main
pub mod Mux
pub mod Posted
pub mod Serving
pub mod Started
use etl_gardener.Base.{
  ℕ, zero, suc, ◌+◌, String, Option, none, some, List, [], ◌∷◌, ℤ, pos, negsuc, atoi, decimal,
  concat, str_eq, if◌then◌else◌,
}
use etl_gardener.Dispatch.{TaskHandler, new_task_handler}

-- The errors, by their texts.
abbrev pub err_no_project : String
err_no_project = "No env var for Project"

abbrev pub err_no_queue_base : String
err_no_queue_base = "No env var for QueueBase"

abbrev pub err_no_num_queues : String
err_no_num_queues = "No env var for NumQueues"

abbrev pub err_no_start_date : String
err_no_start_date = "No env var for StartDate"

abbrev pub err_invalid_date_skip : String
err_invalid_date_skip = "Invalid DATE_SKIP value"

abbrev pub err_bad_start_date : String
err_bad_start_date = "Bad StartDate"

abbrev pub err_no_experiment : String
err_no_experiment = "No env var for Experiment"

abbrev pub err_no_bucket : String
err_no_bucket = "No env var for Bucket"

pub record Environment : Type 0 where
  pub error : Option String
  pub project : String
  pub commit : String
  pub release : String
  pub service_mode : String
  pub bucket : String
  pub batch_dataset : String
  pub final_dataset : String
  pub queue_base : String
  pub experiment : String
  pub num_queues : ℤ
  pub start_date : ℕ
  pub date_skip : ℤ

-- The variable env at the start.
abbrev pub zero_environment : Environment
zero_environment = record {
  error = none;
  project = "";
  commit = "";
  release = "";
  service_mode = "";
  bucket = "";
  batch_dataset = "";
  final_dataset = "";
  queue_base = "";
  experiment = "";
  num_queues = pos 0;
  start_date = 0;
  date_skip = pos 0;
}

-- A text, or the empty one.
abbrev pub or_empty : Option String → String
or_empty none = ""
or_empty (some v) = v

abbrev pub or_zero : Option ℤ → ℤ
or_zero none = pos 0
or_zero (some n) = n

-- What a lookup of a variable that is needed leaves of the error.
abbrev pub unless_found : Option String → String → Option String → Option String
unless_found none err before = some err
unless_found (some v) err before = before

abbrev pub unless_parsed : Option ℤ → String → Option String → Option String
unless_parsed none err before = some err
unless_parsed (some n) err before = before

-- cloud.BQConfig; its Config is the project, and the client and options are left out.
pub record BqConfig : Type 0 where
  pub project : String
  pub bq_project : String
  pub bq_batch_dataset : String
  pub bq_final_dataset : String

-- SERVICE_MODE, or its default.
abbrev pub mode_of : Option String → String
mode_of none = "legacy"
mode_of (some mode) = mode

module _ (get : String → Option String) (trim_space : String → String)
    (parse_day : String → Option ℕ) where
  -- The statements of loadEnvVarsForTaskQueue, one after another. Where Atoi fails on a number that is
  -- out of range, the source keeps the nearest one, and the model 0; both with an error.
  unfoldable pub load_queue_base : Environment → Environment
  load_queue_base env = record env {
    queue_base = or_empty (get "QUEUE_BASE");
    error = unless_found (get "QUEUE_BASE") err_no_queue_base env.error;
  }

  unfoldable pub load_num_queues : Environment → Environment
  load_num_queues env =
      let n = atoi (or_empty (get "NUM_QUEUES")) in
      record env { num_queues = or_zero n; error = unless_parsed n err_no_num_queues env.error }

  -- The source tests again whether the variable was found, not whether it was parsed.
  abbrev pub day_or_zero : Option String → Environment → ℕ
  day_or_zero none env = env.start_date
  day_or_zero (some text) env = elim (parse_day text) [ none ↦ 0 | some d ↦ d ]

  unfoldable pub load_start_date : Environment → Environment
  load_start_date env = record env {
    start_date = day_or_zero (get "START_DATE") env;
    error = unless_found (get "START_DATE") err_no_start_date env.error;
  }

  unfoldable pub load_date_skip : Environment → Environment
  load_date_skip env =
      let text = or_empty (get "DATE_SKIP") in
      if str_eq text "" then env else record env {
        date_skip = or_zero (atoi text);
        error = unless_parsed (atoi text) err_invalid_date_skip env.error;
      }

  unfoldable pub load_experiment : Environment → Environment
  load_experiment env =
      let text = or_empty (get "EXPERIMENT") in
      if str_eq text ""
      then record env { error = some err_no_experiment }
      else record env { experiment = trim_space text }

  unfoldable pub load_bucket : Environment → Environment
  load_bucket env =
      let text = or_empty (get "TASKFILE_BUCKET") in
      if str_eq text ""
      then record env { error = some err_no_bucket }
      else record env { bucket = text }

  -- loadEnvVarsForTaskQueue
  unfoldable pub load_env_vars_for_task_queue : Environment → Environment
  unfolding load_queue_base load_num_queues load_start_date load_date_skip load_experiment
      load_bucket
  load_env_vars_for_task_queue env =
      load_bucket
        (load_experiment (load_date_skip (load_start_date (load_num_queues (load_queue_base env)))))

  -- LoadEnv up to its switch.
  unfoldable pub load_common : Environment → Environment
  load_common env = record env {
    commit = or_empty (get "GIT_COMMIT");
    release = or_empty (get "RELEASE_TAG");
    batch_dataset = or_empty (get "DATASET");
    final_dataset = or_empty (get "FINAL_DATASET");
    project = or_empty (get "PROJECT");
    service_mode = mode_of (get "SERVICE_MODE");
    error = unless_found (get "PROJECT") err_no_project env.error;
  }

  -- LoadEnv
  unfoldable pub load_env : Environment → Environment
  unfolding load_common load_env_vars_for_task_queue
  load_env env =
      let common = load_common env in
      if str_eq common.service_mode "legacy" then load_env_vars_for_task_queue common else common

-- NewBQConfig
unfoldable pub new_bq_config : Environment → BqConfig
new_bq_config env = record {
  project = env.project;
  bq_project = env.project;
  bq_batch_dataset = env.batch_dataset;
  bq_final_dataset = env.final_dataset;
}

-- The loop that names the queues, from the `i`-th on.
unfoldable pub names_from : String → ℕ → ℕ → List String
names_from base i zero = []
names_from base i (suc n) = concat base (decimal i) ∷ names_from base (i + 1) n

-- What taskHandlerFromEnv comes to: the panic of make with a negative length, an error, or a handler.
pub data FromEnv : Type 0 where
  negative_length : FromEnv
  not_created : String → FromEnv
  created : BqConfig → TaskHandler → FromEnv

abbrev pub queued : BqConfig → String → Option String → ℤ → FromEnv
queued config base saver_err (negsuc n) = negative_length
queued config base (some err) (pos n) = not_created err
queued config base none (pos n) = created config (new_task_handler (names_from base 0 n))

-- taskHandlerFromEnv, by the errors of NewReprocessingExecutor and of NewDatastoreSaver.
unfoldable pub task_handler_from_env : Environment → Option String → Option String → FromEnv
unfolding new_bq_config names_from
task_handler_from_env env (some err) saver_err = not_created err
task_handler_from_env env none saver_err =
    queued (new_bq_config env) env.queue_base saver_err env.num_queues
