-- ===== src/Dispatch/Launch.antt =====
-- reproc/dispatch.go: RunDispatchLoop up to the start of the loop.
use etl_gardener.Base.{
  ℕ, ◌+◌, ◌*◌, ◌⊎◌, inl, inr, String, Option, none, some, List, ℤ, pos, negsuc, ltb, if◌then◌else◌,
}
use etl_gardener.Job.{day}
use etl_gardener.Task.{Task}
use etl_gardener.Dispatch.{TaskHandler, restart_tasks}
use etl_gardener.Dispatch.Dates.{restart_date}

-- The first date after the latest one; where the step is not positive the loop ends at once or never.
-- `none` is the end of the fuel, or a loop that does not end.
unfoldable pub move_start : ℕ → ℕ → ℤ → ℕ → Option ℕ
move_start fuel max_date (pos skip) start = restart_date fuel max_date ((1 + skip) * day) start
move_start fuel max_date (negsuc n) start = if ltb max_date start then some start else none

-- RunDispatchLoop: an error of the datastore, or the handler and the date that doDispatchLoop starts at.
abbrev pub launch : TaskHandler → Option ℕ → Option (String ⊎ (TaskHandler × ℕ))
launch th none = none
launch th (some date) = some (inr (th, date))

unfoldable pub run_dispatch_loop :
    ℕ
    → (String → String)
    → Option String
    → String ⊎ List Task
    → TaskHandler
    → ℕ
    → ℤ
    → Option (String ⊎ (TaskHandler × ℕ))
unfolding move_start
run_dispatch_loop fuel trim_space (some err) fetched th start skip = some (inl err)
run_dispatch_loop fuel trim_space none (inl err) th start skip = some (inl err)
run_dispatch_loop fuel trim_space none (inr tasks) th start skip =
    let r = restart_tasks trim_space tasks th in launch r.0 (move_start fuel r.1 skip start)
