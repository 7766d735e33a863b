-- ===== src/Tests/TableRuns.antt =====
-- cloud/bq: tables of two days, a job that is done at its third status, and a table without a buffer.
use etl_gardener.Base.{
  ℕ, ◌+◌, ◌*◌, ◌≤◌, ◌<◌, ◌≡◌, ◌≢◌, refl, true, false, some, none, List, [], ◌∷◌, String, arith,
  if◌then◌else◌, ltb, All,
}
use etl_gardener.World.{Returns}
use etl_gardener.Bq.{
  Outside, AnnotatedTable, running, finished, get_table_detail, empty_info, empty_detail,
}
use etl_gardener.Bq.Floats.{below_99_percent, below_99_percent-near}
use etl_gardener.Bq.Sanity.{sanity_check_and_copy, wait_for_job}
use etl_gardener.Bq.Kept.{Counts}
use etl_gardener.Bq.Checks.{Big, Later}
use etl_gardener.Bq.Copies.{SameDates, sanity_check_and_copy-Passed}
use etl_gardener.Bq.Backoff.{Naps, Moderate, wait_for_job-Moderate}
use etl_gardener.Bq.Stable.{StableOutside, wait_for_stable_table}
use etl_gardener.Bq.Buffers.{Told, Verdict, wait_for_stable_table-Verdict}
use etl_gardener.Bq.Operations.{DedupOutside}

-- The world: the copies, the statuses so far, and the sleeps.
abbrev pub BqWorld : Type 0
BqWorld = ℕ × ℕ × List ℕ

abbrev pub bigquery : Outside
bigquery = record {
  World = BqWorld;
  metadata = λ t w. ((some (record { is_regular = true; last_modified_time = 5 }), none), w);
  query_detail =
      λ q w. ((record { partition_id = ""; task_file_count = 3; test_count = 1000 }, none), w);
  query_partition = λ q w. ((empty_info, none), w);
  run_copy = λ s d w. (none, (w.0 + 1, w.1, w.2));
  job_status = λ w. (if ltb w.1 2 then running else finished none, (w.0, w.1 + 1, w.2));
  sleep = λ d w. (w.0, w.1, d ∷ w.2);
  split_dollar = λ t. "ndt7" ∷ "20200101" ∷ [];
  text_size = λ t. 8;
  submatch = λ t. some ("ndt7", "$", "20200101");
}

bigquery-Counts : Counts bigquery (λ w. w.0)
bigquery-Counts = record {
  metadata_keeps = λ t w. refl;
  metadata_error = λ t w e h. absurd (cc h);
  query_keeps = λ q w. refl;
}

abbrev table : String → AnnotatedTable
table ds = record {
  table = record { project_id = "mlab"; dataset_id = ds; table_id = "ndt7$20200101" };
  has_dataset = true;
  meta = none;
  detail = none;
  p_info = none;
  err = none;
}

sanity_check_and_copy-Passed_example :
    Returns
      (λ r w'.
        w'.0 ≢ 0
        → SameDates bigquery (λ w. w.0) bigquery-Counts "ndt7$20200101" "ndt7$20200101"
          × Big r.1 r.2
          × Later r.1 r.2)
      (sanity_check_and_copy bigquery 5 true (table "batch") (table "base") (0, 0, []))
sanity_check_and_copy-Passed_example =
    sanity_check_and_copy-Passed bigquery (λ w. w.0) bigquery-Counts 5 true (table "batch")
      (table "base") (0, 0, [])

below_99_percent-near_example :
    (99001 * 100 ≤ 100000 * 99001 → below_99_percent 99001 100 ≡ false)
    × (100000 * 99001 < 98999 * 100 → below_99_percent 99001 100 ≡ true)
below_99_percent-near_example = below_99_percent-near 99001 100

bigquery-Naps : Naps bigquery (λ w. w.2)
bigquery-Naps = record { sleep_adds = λ d w. refl; status_keeps = λ w. refl }

wait_for_job-Moderate_example :
    Returns
      (λ _ w'. All (Moderate bigquery (λ w. w.2) bigquery-Naps 1000000000) w'.2)
      (wait_for_job bigquery 5 1000000000 (0, 0, []))
wait_for_job-Moderate_example =
    wait_for_job-Moderate bigquery (λ w. w.2) bigquery-Naps 5 1000000000 (0, 0, []) (omega arith) tt

-- A query that fails.
abbrev broken : Outside
broken = record bigquery { query_detail = λ q w. ((empty_detail, some "backendError"), w) }

broken-detail :
    get_table_detail broken (table "batch").table (0, 0, [])
    ≡ some ((some empty_detail, some "backendError"), (0, 0, []))
unfolding get_table_detail
broken-detail = refl

-- The world is the time; the buffer is empty from the start.
abbrev pub streaming : StableOutside
streaming = record {
  World = ℕ;
  metadata = λ w. ((true, none), w);
  context_error = λ w. none;
  clock = λ w. w;
  sleep = λ d w. w + d;
  rand_intn = λ n w. (4, w);
  is_test = false;
}

streaming-Told : Told streaming (λ w. 0) (λ w. 0) (λ w. false)
streaming-Told = record {
  told = λ w. (omega arith, refl);
  pause_keeps = λ w. (refl, refl);
  metadata_later = λ w. omega arith;
  pause_later = λ w. omega arith;
}

wait_for_stable_table-Verdict_example :
    Returns
      (Verdict streaming (λ w. 0) (λ w. 0) (λ w. false) streaming-Told)
      (wait_for_stable_table streaming 500 100)
wait_for_stable_table-Verdict_example =
    wait_for_stable_table-Verdict streaming (λ w. 0) (λ w. 0) (λ w. false) streaming-Told 500 100
      (omega arith) (omega arith)

-- The world is the number of queries; the destination is partitioned.
abbrev pub destination : DedupOutside
destination = record {
  World = ℕ;
  metadata = λ w. ((true, none), w);
  run = λ t src w. (none, w + 1);
}
