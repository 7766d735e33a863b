-- ===== src/Tests/GardenerRuns.antt =====
-- cmd/gardener/gardener.go and the table of tracker/job.go: runs on concrete inputs.
use etl_gardener.Base.{
  ℕ, true, ◌≡◌, refl, ◌↔◌, String, Option, none, some, List, [], ◌∷◌, pos, negsuc, atoi, decimal,
  str_eq, if◌then◌else◌, Ensures, inr,
}
use etl_gardener.Job.{Job, JobWithTarget, target}
use etl_gardener.Status.{Status}
use etl_gardener.Persistence.{Key}
use etl_gardener.Service.{new_job_service}
use etl_gardener.Tracker.{last_job}
use etl_gardener.Page.{Entry, write_html}
use etl_gardener.Page.Table.{Shows, Orders, write_html-Orders}
use etl_gardener.Config.{config_sources, config_start_date}
use etl_gardener.Store.{SaverStruct, init_tracker}
use etl_gardener.Gardener.{Environment, zero_environment, BqConfig, load_env}
use etl_gardener.Gardener.Required.{Complete, load_env-Complete}
use etl_gardener.Gardener.Main.{Server, Start, main}
use etl_gardener.Gardener.Mux.{Call, handle_all}
use etl_gardener.Gardener.Serving.{IsServing}
use etl_gardener.Gardener.Started.{main-Serves}
use etl_gardener.Tests.ServiceRuns.{memory}
use etl_gardener.Tests.HandlerRuns.{disk, fresh}
use etl_gardener.Tests.TrackerRuns.{small, small-IsValid}

read_back : atoi "-12" ≡ some (negsuc 11)
unfolding atoi
read_back = refl

decimal_written : decimal 1203 ≡ "1203"
unfolding decimal
decimal_written = refl

-- An environment of the legacy mode.
abbrev variables : String → Option String
variables name =
    if str_eq name "PROJECT"
    then some "mlab"
    else if str_eq name "QUEUE_BASE"
    then some "etl-"
    else if str_eq name "NUM_QUEUES"
    then some "2"
    else if str_eq name "START_DATE"
    then some "2019-01-01"
    else if str_eq name "EXPERIMENT"
    then some "ndt"
    else if str_eq name "TASKFILE_BUCKET"
    then some "archive"
    else none

-- No date parses, which LoadEnv does not mind.
abbrev no_day : String → Option ℕ
no_day text = none

load_env-Complete_example :
    ((load_env variables (λ s. s) no_day zero_environment).error ≡ none) ↔ Complete variables
load_env-Complete_example = load_env-Complete variables (λ s. s) no_day

bad_start_date : (load_env variables (λ s. s) no_day zero_environment).error ≡ none
unfolding load_env atoi
bad_start_date = refl

abbrev legacy : Environment
legacy = record zero_environment { queue_base = "etl-"; num_queues = pos 2; experiment = "ndt" }

abbrev legacy_config : BqConfig
legacy_config = record {
  project = "";
  bq_project = "";
  bq_batch_dataset = "";
  bq_final_dataset = "";
}

abbrev manager : Environment
manager = record zero_environment { project = "mlab"; service_mode = "manager" }

abbrev outside : Start (Option (SaverStruct (List (Job × Status)))) (Key → Option ℕ)
outside = record {
  tracker_now = 9;
  service_now = 950000000000000;
  expiration = 100;
  cleanup = 10;
  client_err = none;
  entity = none;
  saver_err = none;
  store = λ k. none;
  gardener = record {
    start_date = 86400000000000;
    tracker = record { timeout = 0 };
    monitor = record { polling_interval = 0 };
    sources =
        record { bucket = "b"; experiment = "ndt"; datatype = "t"; filter = ""; target = "x.y" }
        ∷ [];
  };
  project = "mlab";
  exec_err = none;
  task_saver_err = none;
  loop_err = none;
  tasks = inr [];
  fuel = 0;
}

abbrev specs : List (JobWithTarget String)
specs =
    record {
      job = record { bucket = "b"; experiment = "ndt"; datatype = "t"; date = 0; filter = "" };
      target_table = "mlab.x.y";
      target_bucket_and_prefix = "";
    }
    ∷ []

abbrev pub server : Server String (Key → Option ℕ)
server = record {
  healthy = true;
  tracker = some fresh;
  service = some (
    record {
      job_specs = specs;
      start_date = 86400000000000;
      date = 86400000000000;
      next_index = 0;
      yesterday = record {
        job_specs = specs;
        date = 777600000000000;
        delay = 37800000000000;
        next_index = 0;
      };
    },
    λ k. none,
  );
  dispatcher = none;
  config = record {
    project = "mlab";
    bq_project = "mlab";
    bq_batch_dataset = "batch";
    bq_final_dataset = "base_tables";
  };
}

serves : main memory disk "" (λ t. some t) (λ s. s) manager outside ≡ some server
unfolding main new_job_service init_tracker last_job config_sources config_start_date target
serves = refl

abbrev asks : Call
asks = record {
  path = "/job";
  request = record { is_post = true; form = none };
  first = λ i. 950000000000000;
  second = λ i. 950000000000000;
}

main-Serves_example : Ensures (IsServing memory) (
    handle_all memory
      (λ layout t. layout)
      (λ text. none)
      server
      (asks ∷ asks ∷ record asks { path = "/status" } ∷ []))
main-Serves_example =
    main-Serves memory disk "" (λ t. some t) (λ s. s) manager outside (λ layout t. layout)
      (λ text. none) (asks ∷ asks ∷ record asks { path = "/status" } ∷ []) server serves

write_html-Orders_example :
    Ensures
      (λ page. (l : List Entry) × Orders small.jobs l × Shows (λ layout t. layout) l page.rows)
      (write_html (λ layout t. layout) small.jobs)
write_html-Orders_example =
    write_html-Orders (λ layout t. layout) small.jobs small-IsValid.unique small-IsValid.started
