-- ===== src/Bq.antt =====
-- cloud/bq/sanity.go: AnnotatedTable and its caches, GetTableDetail, GetPartitionInfo. What BigQuery
-- answers is an `Outside`. A context is given or nil; a time is a number of nanoseconds, 0 being
-- time.Time{}. A method gives the table with what it has cached. Logs are left out.
pub mod Floats
pub mod Caches
pub mod Sanity
pub mod Kept
pub mod Checks
pub mod Copies
pub mod Backoff
pub mod Listing
pub mod Stable
pub mod Buffers
pub mod Operations
use etl_gardener.Base.{
  ℕ, suc, Bool, true, false, String, Option, none, some, List, [], ◌∷◌, ◌==◌, str_eq, ◌||◌, concat,
  if◌then◌else◌,
}
use etl_gardener.World.{M, ◌>>=◌, give, act, panic}

pub record Detail : Type 0 where
  pub partition_id : String
  pub task_file_count : ℕ
  pub test_count : ℕ

-- bigquery.TableMetadata, its fields that are read
pub record TableMetadata : Type 0 where
  pub is_regular : Bool
  pub last_modified_time : ℕ

-- dataset.PartitionInfo
pub record PartitionInfo : Type 0 where
  pub partition_id : String
  pub creation_time : ℕ
  pub last_modified : ℕ

-- bqiface.Table, by its names
pub record Table : Type 0 where
  pub project_id : String
  pub dataset_id : String
  pub table_id : String

-- The two parts of a Go result (value, error).
abbrev pub Pair : Type 0 → Type 0
Pair A = Option A × Option String

-- A status of a job: an error, not yet done, or done with an error or none.
pub data JobStatus : Type 0 where
  status_failed : String → JobStatus
  running : JobStatus
  finished : Option String → JobStatus

-- The queries: the counts of distinct tests and task files (the two fields, the dataset, the table
-- and the where clause), and the summary of a partition (the table and the partition).
pub data Query : Type 0 where
  counts : String → String → String → String → String → Query
  partition_summary : String → String → Query

-- What BigQuery answers: Metadata of a table, QueryAndParse of the counts and of a partition (which
-- fill a struct), the start of a copy from the first table to the second, and the status of a job.
-- `split_dollar` is strings.Split at "$", `text_size` the len of a text, and `submatch` gives the three
-- groups of denseDateSuffix.
pub record Outside : Type 1 where
  pub World : Type 0
  pub metadata : Table → World → Pair TableMetadata × World
  pub query_detail : Query → World → (Detail × Option String) × World
  pub query_partition : Query → World → (PartitionInfo × Option String) × World
  pub run_copy : Table → Table → World → Option String × World
  pub job_status : World → JobStatus × World
  pub sleep : ℕ → World → World
  pub split_dollar : String → List String
  pub text_size : String → ℕ
  pub submatch : String → Option (String × String × String)

-- AnnotatedTable; of the dataset only whether there is one.
pub record AnnotatedTable : Type 0 where
  pub table : Table
  pub has_dataset : Bool
  pub meta : Option TableMetadata
  pub detail : Option Detail
  pub p_info : Option PartitionInfo
  pub err : Option String

unfoldable pub new_annotated_table : Table → Bool → AnnotatedTable
new_annotated_table t ds = record {
  table = t;
  has_dataset = ds;
  meta = none;
  detail = none;
  p_info = none;
  err = none;
}

abbrev pub err_nil_context : String
err_nil_context = "Could not be completed without context"

abbrev pub err_no_dataset : String
err_no_dataset = "No dataset available"

abbrev pub err_not_regular_table : String
err_not_regular_table = "Not a regular table"

-- iterator.Done
abbrev pub iterator_done : String
iterator_done = "no more items in iterator"

abbrev pub empty_detail : Detail
empty_detail = record { partition_id = ""; task_file_count = 0; test_count = 0 }

abbrev pub empty_info : PartitionInfo
empty_info = record { partition_id = ""; creation_time = 0; last_modified = 0 }

-- The query that GetTableDetail chooses.
unfoldable pub choose_query : String → String → String → Query
choose_query ds name where_clause =
    if str_eq name "tcpinfo"
    then counts "UUID" "ParseInfo.TaskFileName" ds name where_clause
    else if str_eq name "ndt5" || str_eq name "ndt7"
    then counts "test_id" "ParseInfo.TaskFileName" ds name where_clause
    else if str_eq name "traceroute"
    then counts "Parseinfo.Filename" "ParseInfo.TaskFileName" ds name where_clause
    else counts "test_id" "task_filename" ds name where_clause

pub record TableNameParts : Type 0 where
  pub prefix : String
  pub is_partitioned : Bool
  pub yyyymmdd : String

abbrev no_parts : TableNameParts
no_parts = record { prefix = ""; is_partitioned = false; yyyymmdd = "" }

module _ (out : Outside) where
  -- The where clause for the parts of a table name, or the error.
  abbrev pub where_of : List String → Pair String
  where_of [] = (some "", none)
  where_of (name ∷ []) = (some "", none)
  where_of (name ∷ part ∷ _) =
      if out.text_size part == 8
      then (
        some (concat "where _PARTITIONTIME = PARSE_TIMESTAMP(\"%Y%m%d\",\"" (concat part "\")")),
        none,
      )
      else (none, some (concat "Invalid partition string: " part))

  abbrev pub query_for : Table → List String → Pair String → M out.World (Pair Detail)
  query_for t [] q w = none
  query_for t (name ∷ _) (none, err) w = some ((none, err), w)
  query_for t (name ∷ _) (some clause, err) w =
      let r = out.query_detail (choose_query t.dataset_id name clause) w in
      some ((some r.0.0, r.0.1), r.1)

  -- GetTableDetail: with an error of the query it gives a detail too.
  unfoldable pub get_table_detail : Table → M out.World (Pair Detail)
  get_table_detail t = let parts = out.split_dollar t.table_id in query_for t parts (where_of parts)

  -- getTableParts
  unfoldable pub get_table_parts : String → TableNameParts × Option String
  get_table_parts name =
      let invalid : TableNameParts × Option String =
        (no_parts, some (concat "Invalid template suffix: " name)) in
      elim (out.submatch name) [
        | none ↦ invalid
        | some m ↦
            if out.text_size m.2 == 8
            then (record { prefix = m.0; is_partitioned = str_eq m.1 "$"; yyyymmdd = m.2 }, none)
            else invalid
      ]
