-- ===== src/Tests/ActionsRuns.antt =====
-- actions.go: runs in an environment where BigQuery does what it is asked for.
use etl_gardener.Base.{ap, none, some, [], Ensures}
use etl_gardener.Ops.Actions.{
  Environment, JobStatus, Waited, waited, wait_failed, query_details, load_func, dedup_func,
  copy_func, delete_func,
}
use etl_gardener.Ops.Verdicts.{Judged, expected, wait_verdict, succeeds, StatsKnown, actions-Judged}
use etl_gardener.Tests.TrackerRuns.{ndt}

abbrev finished : JobStatus
finished = record { err = none; errors = []; statistics = some query_details }

abbrev bigquery : Environment
bigquery = record {
  table_ops = λ j. none;
  dedup = λ j. none;
  load_to_tmp = λ j. none;
  copy_to_raw = λ j. some "quota";
  delete_tmp = λ j. none;
  wait = λ j. waited finished;
  summary = λ label details. label;
}

abbrev status_of : Waited → JobStatus
status_of (waited s) = s
status_of (wait_failed _ _) = finished

bigquery-StatsKnown : StatsKnown bigquery
bigquery-StatsKnown j s e n = let f = ap (λ w. (status_of w).statistics) e in cc (f, n)

actions-Judged_example :
    let after = wait_verdict (waited finished) in
    Ensures (Judged ndt (expected none none after)) (load_func bigquery ndt 0)
    × Ensures (Judged ndt (expected none none after)) (dedup_func bigquery ndt 0)
    × Ensures (Judged ndt (expected none (some "quota") after)) (copy_func bigquery ndt 0)
    × Ensures (Judged ndt (expected none none succeeds)) (delete_func bigquery ndt 0)
actions-Judged_example = actions-Judged bigquery ndt 0 bigquery-StatsKnown
