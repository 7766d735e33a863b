-- ===== src/Tests/RexRuns.antt =====
-- rex/rex.go: an executor whose task has no queue to wait for, as there is no HTTP client.
use etl_gardener.Base.{◌+◌, ◌<◌, arith, true, false, none, some, [], IsTotal, if_cases, ◌==◌}
use etl_gardener.World.{Returns}
use etl_gardener.Task.{Task, state_done}
use etl_gardener.TaskQueue.{new_queue_handler}
use etl_gardener.Rex.{RexOutside, BqConfig, Fuel, job_status}
use etl_gardener.Rex.Steps.{Worlds, fail, advance, queue, wait_for_parsing, dedup_task}
use etl_gardener.Rex.Executor.{next, stabilize, finish}
use etl_gardener.Rex.Rises.{Raised, next-Raised}
use etl_gardener.Tests.TaskRuns.{steady, task}
use etl_gardener.Tests.QueueRuns.{pusher}
use etl_gardener.Tests.TableRuns.{bigquery, streaming, destination}

abbrev services : RexOutside
services = record {
  store = steady;
  queues = pusher;
  tables = bigquery;
  buffers = streaming;
  dedups = destination;
  is_test = false;
  trim_space = λ s. s;
  submatches = λ s. some ("archive", "ndt", "ndt7", "2020/01/01");
  parse_date = λ s. some 5;
  without_slashes = λ s. "20200101";
  dir_to_tablename = λ s. s;
  skip_string = "";
  sleep = λ d w. w + d;
  rand_intn = λ n w. (3, w);
  prefix_error = λ s. "Invalid test path";
  batch_ds = λ w. (some "unavailable", w);
  final_ds = λ w. (none, w);
  attrs = λ s w. (none, w);
  objects = λ d p w. ([], w);
  job_id = λ w. "job";
  job_from_id = λ s w. (none, w);
  dedup_status = λ w. (job_status true, w);
  job_wait = λ w. (none, w);
  delete_table = λ s w. (none, w);
}

abbrev config : BqConfig
config = record {
  config = record { http_client = false; project = "mlab" };
  bq_project = "mlab";
  bq_batch_dataset = "batch";
  bq_final_dataset = "base";
}

abbrev enough : Fuel
enough = record { parsing = 3; queue = 20; stable = 500; job = 3; copy = 5 }

abbrev start : Worlds services
start = (0, 0, (0, 0, []), 0, 0)

next-Raised_example :
    Returns (Raised services config enough task) (next services config enough task start)
next-Raised_example = next-Raised services config enough task start (omega arith)

next-IsTotal :
    (w : Worlds services) (t : Task)
    → t.state < state_done
    → IsTotal (next services config enough t w)
unfolding next advance fail queue wait_for_parsing dedup_task stabilize finish new_queue_handler
next-IsTotal (w, q, b, s, d) t h = if_cases IsTotal (t.state == 1) _ _ tt (
    if_cases IsTotal (t.state == 2) _ _ tt (
      if_cases IsTotal (t.state == 3) _ _ tt (
        if_cases IsTotal (t.state == 4) _ _ tt (
          if_cases IsTotal (t.state == 5) _ _ tt (
            if_cases IsTotal (t.state == 6) _ _ tt (
              if_cases IsTotal (t.state == 7) _ _ tt
                (if_cases IsTotal (t.state == 0) _ _ tt tt)))))))
