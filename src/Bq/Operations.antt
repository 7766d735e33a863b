-- ===== src/Bq/Operations.antt =====
-- cloud/bq/dedup.go: Dedup, and cloud/bq/ops.go: TableOps. The texts of the queries are told apart by the
-- template, and the started job is left out of the results. Logs are left out.
use etl_gardener.Base.{
  ℕ, Bool, true, false, not, ◌||◌, String, Option, none, some, List, [], ◌∷◌, str_eq, concat,
  text_contains, has_prefix, if◌then◌else◌,
}
use etl_gardener.World.{M}
use etl_gardener.Job.{Job}
use etl_gardener.Bq.Stable.{err_table_not_found}

-- The query templates of dedup.go
pub data Template : Type 0 where
  ndt sidestream switch traceroute tcpinfo ndt_result : Template

-- The switch of Dedup on the prefix of the TableID.
unfoldable pub template_for : String → Option Template
template_for id =
    if has_prefix id "sidestream"
    then some sidestream
    else if has_prefix id "ndt5" || has_prefix id "ndt7"
    then some ndt_result
    else if has_prefix id "ndt"
    then some ndt
    else if has_prefix id "switch"
    then some switch
    else if has_prefix id "traceroute"
    then some traceroute
    else if has_prefix id "tcpinfo"
    then some tcpinfo
    else none

-- Metadata of the destination tells whether it is partitioned, and its error; `run` starts the query of
-- a template on a source, and gives its error.
pub record DedupOutside : Type 1 where
  pub World : Type 0
  pub metadata : World → (Bool × Option String) × World
  pub run : Template → String → World → Option String × World

module _ (out : DedupOutside) where
  abbrev pub run_template : String → Option Template → M out.World (Option String)
  run_template src none w = some (some "Unknown table type", w)
  run_template src (some t) w = some (out.run t src w)

  abbrev pub check_whole : String → String → Bool × Option String → M out.World (Option String)
  check_whole src id (true, none) w = some (some "Destination table must specify partition", w)
  check_whole src id (false, none) w = run_template src (template_for id) w
  check_whole src id (_, some e) w = run_template src (template_for id) w

  -- Dedup, with the TableID of the destination
  unfoldable pub dedup : String → String → M out.World (Option String)
  dedup src id w =
      let r = out.metadata w in
      let whole = check_whole src id r.0 r.1 in
      if text_contains id "$" then run_template src (template_for id) w else whole

-- Where TableOps acts: the text of the query template for it, whether Query or Table gives nil, and the
-- errors of the jobs that are started and of Delete. `format_date` is Format("20060102").
pub record Client : Type 1 where
  pub World : Type 0
  pub format_date : ℕ → String
  pub no_query : String → Bool
  pub no_table : String → String → Bool
  pub run_query : Bool → String → World → Option String × World
  pub run_load : String → String × String → World → Option String × World
  pub run_copy : String × String → String × String → World → Option String × World
  pub delete : String × String → World → Option String × World

pub record TableOps : Type 0 where
  pub has_client : Bool
  pub load_source : String
  pub project : String
  pub date : String
  pub job : Job
  pub partition_keys : List (String × String)
  pub order_keys : String

abbrev pub err_datatype_not_supported : String
err_datatype_not_supported = "Datatype not supported"

-- NewTableOpsWithClient: the table operations, or none with ErrDatatypeNotSupported.
unfoldable pub new_table_ops_with_client : Bool → Job → String → String → Option TableOps
new_table_ops_with_client has_client job project load_source =
    let ops : TableOps = record {
      has_client = has_client;
      load_source = load_source;
      project = project;
      date = "date";
      job = job;
      partition_keys = ("id", "id") ∷ [];
      order_keys = "";
    } in
    if str_eq job.datatype "annotation"
    then some ops
    else if str_eq job.datatype "ndt7"
    then some ops
    else none

abbrev nil_query : String
nil_query = "Query must not be nil"

abbrev nil_client : String
nil_client = "BqClient must not be nil"

module _ (c : Client) where
  abbrev partition : TableOps → String
  partition ops = concat ops.job.datatype (concat "$" (c.format_date ops.job.date))

  abbrev tmp : TableOps → String
  tmp ops = concat "tmp_" ops.job.experiment

  -- TableOps.Dedup; `make_query` is the template of dedupQuery, executed.
  unfoldable pub dedup_table : (TableOps → String) → TableOps → Bool → M c.World (Option String)
  dedup_table make_query ops dry_run w =
      let qs = make_query ops in
      if str_eq qs ""
      then some (some nil_query, w)
      else if not ops.has_client
      then some (some nil_client, w)
      else if c.no_query qs
      then some (some nil_query, w)
      else some (c.run_query dry_run qs w)

  -- TableOps.LoadToTmp
  unfoldable pub load_table_to_tmp : TableOps → Bool → M c.World (Option String)
  load_table_to_tmp ops dry_run w =
      if dry_run
      then some (some "dryrun not implemented", w)
      else if not ops.has_client
      then some (some nil_client, w)
      else if c.no_table (tmp ops) ops.job.datatype
      then some (some err_table_not_found, w)
      else some (c.run_load ops.load_source (tmp ops, ops.job.datatype) w)

  -- TableOps.CopyToRaw: from the partition of the tmp_ table to that of the raw_ table.
  unfoldable pub copy_table_to_raw : TableOps → Bool → M c.World (Option String)
  copy_table_to_raw ops dry_run w =
      if dry_run
      then some (some "dryrun not implemented", w)
      else if not ops.has_client
      then some (some nil_client, w)
      else some
          (c.run_copy (tmp ops, partition ops) (concat "raw_" ops.job.experiment, partition ops) w)

  -- TableOps.DeleteTmp
  unfoldable pub delete_tmp_table : TableOps → M c.World (Option String)
  delete_tmp_table ops w =
      if not ops.has_client
      then some (some nil_client, w)
      else some (c.delete (tmp ops, partition ops) w)
