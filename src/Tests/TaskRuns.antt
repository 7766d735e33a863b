-- ===== src/Tests/TaskRuns.antt =====
-- state.go: a run of an executor that takes one state after another.
use etl_gardener.Base.{ℕ, ◌+◌, ◌≤◌, refl, true, false, none, some, arith, Ensures}
use etl_gardener.Task.{Task, Outside, process_loop}
use etl_gardener.Task.Loop.{Executes, process_loop-Once}

abbrev pub steady : Outside
steady = record {
  World = ℕ;
  clock = λ w. w;
  save_task = λ t w. (w + 1, none);
  delete_task = λ t w. (w + 1, none);
  notified = λ w. false;
  next = λ w t. some (w + 1, record t { state = t.state + 1; queue = "" }, none);
}

steady-Executes : Executes steady
steady-Executes = record { rises = λ w t h e. (omega arith, omega (arith, h), λ q. refl) }

abbrev pub task : Task
task = record {
  name = "gs://archive/ndt/2017/06/01/";
  experiment = "ndt";
  date = 0;
  state = 1;
  queue = "queue-1";
  job_id = "";
  err_msg = "";
  err_info = "";
  update_time = 0;
  has_saver = true;
}

process_loop-Once_example : Ensures (λ r. r.2 ≤ 1) (process_loop steady 7 0 task 0)
process_loop-Once_example =
    process_loop-Once steady steady-Executes 7 0 task 0 (omega arith) (omega arith)
      (omega arith, λ n. refl)
