-- ===== src/Rex.antt =====
-- rex/rex.go: ReprocessingExecutor, which takes a task from state to state. The parts of the world that
-- it acts on (the tasks' store, the task queues, BigQuery for a copy, for the streaming buffer and for
-- the dedup query) lie side by side, and a call acts on one of them. Logs and metrics are left out.
pub mod Steps
pub mod Executor
pub mod Kept
pub mod Rises
pub mod Process
use etl_gardener.Base.{
  ℕ, suc, zero, ◌+◌, ◌*◌, Bool, true, false, String, Option, none, some, List, [], ◌∷◌, ltb, ◌==◌,
  str_eq, ◌&&◌, not, concat, text_contains, if◌then◌else◌,
}
use etl_gardener.World.{M, ◌>>=◌, give, change}
use etl_gardener.Task
use etl_gardener.Task.{Task, Prefix, parse_prefix, path, set_error}
use etl_gardener.TaskQueue
use etl_gardener.TaskQueue.{
  Config, NewHandler, new_failed, new_handler, QueueHandler, new_queue_handler, eof,
}
use etl_gardener.TaskQueue.Posting.{Item, post_day, get_bucket}
use etl_gardener.TaskQueue.Waiting.{wait_for_empty_queue}
use etl_gardener.Bq
use etl_gardener.Bq.{Table, new_annotated_table}
use etl_gardener.Bq.Sanity.{sanity_check_and_copy}
use etl_gardener.Bq.Stable.{StableOutside, wait_for_stable_table}
use etl_gardener.Bq.Operations.{DedupOutside, dedup}

-- A status of the dedup job: an error of Status, an error of the job, or none and whether it is done.
pub data DedupStatus : Type 0 where
  no_status job_error : String → DedupStatus
  job_status : Bool → DedupStatus

-- The parts of the world. `store` also has the clock and the terminator; its Next is not used. Of the
-- rest: GetBatchDS and GetFinalDS give an error or none, `attrs` and `objects` are Cloud Storage,
-- DirToTablename and the text operations are those of libraries, and the last five are about jobs and
-- tables of BigQuery.
pub record RexOutside : Type 1 where
  pub store : Task.Outside
  pub queues : TaskQueue.Outside
  pub tables : Bq.Outside
  pub buffers : StableOutside
  pub dedups : DedupOutside
  pub is_test : Bool
  pub trim_space : String → String
  pub submatches : String → Option (String × String × String × String)
  pub parse_date : String → Option ℕ
  pub without_slashes : String → String
  pub dir_to_tablename : String → String
  pub skip_string : String
  pub sleep : ℕ → store.World → store.World
  pub rand_intn : ℕ → store.World → ℕ × store.World
  pub prefix_error : String → String
  pub batch_ds : store.World → Option String × store.World
  pub final_ds : store.World → Option String × store.World
  pub attrs : String → store.World → Option String × store.World
  pub objects : String → String → queues.World → List Item × queues.World
  pub job_id : dedups.World → String
  pub job_from_id : String → store.World → Option String × store.World
  pub dedup_status : store.World → DedupStatus × store.World
  pub job_wait : store.World → Option String × store.World
  pub delete_table : String → store.World → Option String × store.World

-- cloud.BQConfig, as far as it is used here.
pub record BqConfig : Type 0 where
  pub config : Config
  pub bq_project : String
  pub bq_batch_dataset : String
  pub bq_final_dataset : String

-- The fuel of the waits: for parsing and for an empty queue, for a stable table, for the dedup job, and
-- for the copy.
pub record Fuel : Type 0 where
  pub parsing : ℕ
  pub queue : ℕ
  pub stable : ℕ
  pub job : ℕ
  pub copy : ℕ

abbrev pub err_dataset_names_match : String
err_dataset_names_match = "Dataset names should not be the same"

-- state.ErrBQRateLimitExceeded, ErrTableNotFound and ErrRowsFromOtherPartition
abbrev pub err_rate_limit : String
err_rate_limit = "Bigquery rateLimitExceeded"

abbrev pub err_table_not_found : String
err_table_not_found = "Not found: Table"

abbrev pub err_other_partition : String
err_other_partition = "Rows belong to different partition"
