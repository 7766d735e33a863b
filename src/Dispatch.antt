-- ===== src/Dispatch.antt =====
-- reproc/dispatch.go: the terminator, the pool of task queues that TaskHandler recycles, RestartTasks, and
-- the dates of the dispatch loop. A time is in nanoseconds. Logs and metrics are left out.
pub mod Pool
pub mod Restarts
pub mod Dates
pub mod Calendar
pub mod Waits
pub mod Launch
use etl_gardener.Base.{
  ℕ, suc, zero, ◌+◌, Bool, true, false, not, ◌||◌, String, Option, none, some, List, [], ◌∷◌, ◌++◌,
  ltb, str_eq, if◌then◌else◌,
}
use etl_gardener.Task.{Task}

-- The once of Terminator, and whether its channel is closed.
pub record Terminator : Type 0 where
  pub once : Bool
  pub terminating : Bool

abbrev pub new_terminator : Terminator
new_terminator = record { once = false; terminating = false }

-- close panics on a channel that is closed.
abbrev close_channel : Terminator → Option Terminator
close_channel t = if t.terminating then none else some (record { once = true; terminating = true })

-- Terminate
unfoldable pub terminate : Terminator → Option Terminator
terminate t = if t.once then some t else close_channel t

-- TaskHandler: the channel of queues, the tasks whose Process runs, and those whose Process has ended,
-- each as it is then.
pub record TaskHandler : Type 0 where
  pub task_queues : List String
  pub running : List Task
  pub ended : List Task

-- NewTaskHandler
unfoldable pub new_task_handler : List String → TaskHandler
new_task_handler queues = record { task_queues = queues; running = []; ended = [] }

-- StartTask
abbrev pub start_task : Task → TaskHandler → TaskHandler
start_task t th = record th { running = t ∷ th.running }

-- waitForQueue and StartTask in AddTask: the first queue of the channel; none if it blocks.
abbrev take_queue : List String → Task → TaskHandler → Option TaskHandler
take_queue [] t th = none
take_queue (q ∷ queues) t th =
    some (start_task (record t { queue = q }) (record th { task_queues = queues }))

unfoldable pub add_with_queue : Task → TaskHandler → Option TaskHandler
add_with_queue t th = take_queue th.task_queues t th

-- A running task, by its place, and the others.
abbrev pub pick : ℕ → List Task → Option (Task × List Task)
pick n [] = none
pick zero (t ∷ ts) = some (t, ts)
pick (suc n) (t ∷ ts) = elim (pick n ts) [ none ↦ none | some r ↦ some (r.0, t ∷ r.1) ]

-- A step of Process to `t'`, after which doneWithQueue is called if the queue is given up.
abbrev processed : Task → Option (Task × List Task) → TaskHandler → Option TaskHandler
processed t' none th = none
processed t' (some (t, others)) th =
    let moved = record th { running = t' ∷ others } in
    let returned = record th {
      task_queues = th.task_queues ++ (t.queue ∷ []);
      running = t' ∷ others;
    } in
    if str_eq t'.queue t.queue
    then some moved
    else if str_eq t'.queue ""
    then some returned
    else none

unfoldable pub process_task : ℕ → Task → TaskHandler → Option TaskHandler
process_task n t' th = processed t' (pick n th.running) th

-- The end of Process, which does not call doneWithQueue.
abbrev stopped : Option (Task × List Task) → TaskHandler → Option TaskHandler
stopped none th = none
stopped (some (t, others)) th = some (record th { running = others; ended = t ∷ th.ended })

unfoldable pub end_task : ℕ → TaskHandler → Option TaskHandler
end_task n th = stopped (pick n th.running) th

-- The queues as the keys of a map.
abbrev pub member : String → List String → Bool
member q [] = false
member q (x ∷ xs) = str_eq x q || member q xs

abbrev pub remove : String → List String → List String
remove q [] = []
remove q (x ∷ xs) = let rest = remove q xs in if str_eq x q then rest else x ∷ rest

-- The loop of RestartTasks that takes all queues from the channel.
unfoldable pub drain : List String → List String → List String
drain [] queues = queues
drain (q ∷ qs) queues = drain qs (if member q queues then queues else q ∷ queues)

pub record Restart : Type 0 where
  pub queues : List String
  pub started : List Task
  pub max_date : ℕ

-- The start of a task in RestartTasks.
abbrev pub restarted : Task → List String → Restart → Restart
restarted t queues r = record {
  queues = queues;
  started = t ∷ r.started;
  max_date = if ltb r.max_date t.date then t.date else r.max_date;
}

-- The body of its loop over the tasks; `trim_space` is strings.TrimSpace.
unfoldable pub restart_one : (String → String) → Task → Restart → Restart
restart_one trim_space t r =
    if not (str_eq t.err_info "") || not (str_eq t.err_msg "")
    then r
    else if str_eq t.queue ""
    then restarted t r.queues r
    else if not (str_eq (trim_space t.queue) t.queue)
    then r
    else if member t.queue r.queues
    then restarted t (remove t.queue r.queues) r
    else r

unfoldable pub restart_loop : (String → String) → List Task → Restart → Restart
restart_loop trim_space [] r = r
restart_loop trim_space (t ∷ ts) r = restart_loop trim_space ts (restart_one trim_space t r)

-- RestartTasks: the handler, and the latest date. The unused queues go back in one of the orders that Go
-- may choose.
unfoldable pub restart_tasks : (String → String) → List Task → TaskHandler → TaskHandler × ℕ
restart_tasks trim_space tasks th =
    let r =
      restart_loop trim_space tasks
        (record { queues = drain th.task_queues []; started = th.running; max_date = 0 }) in
    (record th { task_queues = r.queues; running = r.started }, r.max_date)

-- What may happen to the handler once it runs.
pub data Happening : Type 0 where
  added : Task → Happening
  processed_to : ℕ → Task → Happening
  stopped_at : ℕ → Happening

unfoldable pub happen : Happening → TaskHandler → Option TaskHandler
unfolding add_with_queue process_task end_task
happen (added t) th = add_with_queue t th
happen (processed_to n t) th = process_task n t th
happen (stopped_at n) th = end_task n th

unfoldable pub happen_all : List Happening → TaskHandler → Option TaskHandler
happen_all [] th = some th
happen_all (e ∷ es) th = elim (happen e th) [ none ↦ none | some th' ↦ happen_all es th' ]
