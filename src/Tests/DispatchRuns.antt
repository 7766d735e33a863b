-- ===== src/Tests/DispatchRuns.antt =====
-- reproc/dispatch.go: two queues and two tasks.
use etl_gardener.Base.{
  ℕ, ◌+◌, ◌*◌, ◌<◌, ◌≡◌, ◌≢◌, inl, inr, refl, sym, ◌-◌, arith, true, false, none, some, String,
  List, [], ◌∷◌, Ensures, Bool-cases, str_eq, eq_iff, All,
}
use etl_gardener.World.{Returns}
use etl_gardener.Job.{day, truncate}
use etl_gardener.Dispatch.{
  happen_all, restart_tasks, new_task_handler, added, processed_to, stopped_at, Happening,
}
use etl_gardener.Dispatch.Pool.{count, total, Whenever}
use etl_gardener.Dispatch.Restarts.{IsSingle, restarted-Single}
use etl_gardener.Dispatch.Dates.{
  find_next_recent_day, restart_date, do_dispatch_loop, first_dates, hour, daily_delay,
}
use etl_gardener.Dispatch.Calendar.{LastBefore, FirstAfter, MayAsk, dates-found, dispatch-MayAsk}
use etl_gardener.Dispatch.Waits.{DispatchOutside, Starts, Released, add_task, add_task-Released}
use etl_gardener.Tests.TaskRuns.{task}

abbrev queues : List String
queues = "queue-1" ∷ "queue-2" ∷ []

queues-IsSingle : IsSingle queues
queues-IsSingle q = elim (Bool-cases (str_eq "queue-1" q)) [
  | inr a ↦ elim (Bool-cases (str_eq "queue-2" q)) [
    | inl b ↦ rw (a, b) (omega arith)
    | inr b ↦ rw (a, b) (omega arith)
  ]
  | inl a ↦ rw (sym ((eq_iff "queue-1" q).0 a)) (omega arith)
]

abbrev run : List Happening
run =
    added task
    ∷ processed_to 0 (record task { queue = "queue-2"; state = 3 })
    ∷ processed_to 0 (record task { queue = ""; state = 4 })
    ∷ stopped_at 0
    ∷ []

restarted-Single_example :
    Whenever
      (λ th. total "queue-2" th ≡ count "queue-2" queues)
      (happen_all run (restart_tasks (λ s. s) (task ∷ task ∷ []) (new_task_handler queues)).0)
restarted-Single_example =
    restarted-Single (λ s. s) queues (task ∷ task ∷ []) run "queue-2" queues-IsSingle
      (λ e. absurd (cc e))

abbrev skip : ℕ
skip = 1

dates-found_example :
    Ensures
      (λ d.
        (skip ≡ 0 → d ≡ truncate (50 * day - (2 * hour + daily_delay)) day)
        × (0 < skip
            → LastBefore
                (truncate (50 * day - (2 * hour + daily_delay)) day)
                (10 * day)
                ((1 + skip) * day)
                d))
      (find_next_recent_day 100 (50 * day) (10 * day) skip)
    × Ensures
        (FirstAfter (20 * day) (10 * day) ((1 + skip) * day))
        (restart_date 100 (20 * day) ((1 + skip) * day) (10 * day))
dates-found_example =
    dates-found 100 (50 * day) (10 * day) (20 * day) skip (omega arith) (omega arith) (omega arith)

dispatch-MayAsk_example : All (MayAsk (truncate (10 * day) day) (5 * day) (50 * day)) (
    do_dispatch_loop
      (record { now1 = 49 * day; now2 = 50 * day; ends = false }
        ∷ record { now1 = 50 * day; now2 = 50 * day; ends = true }
        ∷ [])
      (5 * day)
      0
      (first_dates (10 * day) (48 * day))
      [])
dispatch-MayAsk_example =
    dispatch-MayAsk
      (record { now1 = 49 * day; now2 = 50 * day; ends = false }
        ∷ record { now1 = 50 * day; now2 = 50 * day; ends = true }
        ∷ [])
      (10 * day) (5 * day) (48 * day) 0 (50 * day)
      ((omega arith, omega arith), ((omega arith, omega arith), tt))

-- The world is the number of starts; the previous task is done.
abbrev outside : DispatchOutside
outside = record {
  World = ℕ;
  clock = λ w. 0;
  get_task_status = λ t w. ((record t { state = 7 }, none), w);
  tick_first = λ d w. (true, w);
  receive = λ w. (some "queue-1", w);
  start = λ t w. w + 1;
}

outside-Starts : Starts outside (λ w. w)
outside-Starts = record {
  status_keeps = λ t w. refl;
  tick_keeps = λ d w. refl;
  receive_keeps = λ w. refl;
}

add_task-Released_example :
    Returns
      (λ e w'. w' ≢ 4 → Released outside (λ w. w) outside-Starts task)
      (add_task outside 3 (inr task) 4)
add_task-Released_example = add_task-Released outside (λ w. w) outside-Starts 3 task 4
