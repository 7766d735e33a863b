-- ===== src/Task.antt =====
-- state/state.go: a task, its saves, and the loop that processes it. `W` is the world outside: the
-- store, the clock, the executor and the terminator are functions of it. A task with no saver is not
-- modelled apart from the error. The metrics are left out.
pub mod Loop
pub mod Saver
pub mod Stored
use etl_gardener.Base.{
  ℕ, suc, zero, ◌+◌, Bool, true, false, String, Option, none, some, str_eq, not, ◌&&◌, ◌==◌,
  if◌then◌else◌, concat, ◌>>=◌,
}

-- The states, which are numbers.
abbrev pub invalid : ℕ
invalid = 0

abbrev pub initializing : ℕ
initializing = 1

abbrev pub queuing : ℕ
queuing = 2

abbrev pub processing : ℕ
processing = 3

abbrev pub state_stabilizing : ℕ
state_stabilizing = 4

abbrev pub state_deduplicating : ℕ
state_deduplicating = 5

abbrev pub state_finishing : ℕ
state_finishing = 6

abbrev pub state_done : ℕ
state_done = 7

-- The errors, by their texts.
abbrev pub task_suspended : String
task_suspended = "task suspended"

abbrev pub no_saver : String
no_saver = "Task.saver is nil"

pub record Task : Type 0 where
  pub name : String
  pub experiment : String
  pub date : ℕ
  pub state : ℕ
  pub queue : String
  pub job_id : String
  pub err_msg : String
  pub err_info : String
  pub update_time : ℕ
  pub has_saver : Bool

-- The world: a reading of the clock, SaveTask and DeleteTask (the error is a text), whether the
-- notify channel is closed, and Next, which changes the task and may give an error, or not return.
pub record Outside : Type 1 where
  pub World : Type 0
  pub clock : World → ℕ
  pub save_task : Task → World → World × Option String
  pub delete_task : Task → World → World × Option String
  pub notified : World → Bool
  pub next : World → Task → Option (World × Task × Option String)

module _ (out : Outside) where
  abbrev store_task : Task → out.World → out.World × Task × Option String
  store_task t w =
      if t.has_saver
      then ((out.save_task t w).0, t, (out.save_task t w).1)
      else (w, t, some no_saver)

  -- Task.Save; without a saver the task stays as it is.
  unfoldable pub save : out.World → Task → out.World × Task × Option String
  save w t =
      if t.has_saver
      then store_task (record t { update_time = out.clock w }) w
      else (w, t, some no_saver)

  -- Task.Update; without a saver the task is changed all the same.
  unfoldable pub update : out.World → Task → ℕ → out.World × Task × Option String
  update w t st = store_task (record t { state = st; update_time = out.clock w }) w

  -- Task.Delete
  unfoldable pub delete_saved : out.World → Task → out.World × Option String
  delete_saved w t = if t.has_saver then out.delete_task t w else (w, some no_saver)

  -- Task.SetError
  unfoldable pub set_error : out.World → Task → String → String → out.World × Task × Option String
  set_error w t err info =
      if t.has_saver
      then store_task (record t { err_msg = err; err_info = info; update_time = out.clock w }) w
      else (w, t, some no_saver)

  -- Whether the queue was given back by a step from `t` to `t'`.
  abbrev pub gave_queue : Task → Task → Bool
  gave_queue t t' = not (str_eq t.queue "") && str_eq t'.queue ""

  -- What follows a call of Next from `t`, where `rest` is the rest of the loop.
  abbrev pub end_step :
      (out.World → Task → ℕ → Option (out.World × Task × ℕ))
      → Task
      → ℕ
      → out.World × Task × Option String
      → Option (out.World × Task × ℕ)
  end_step rest t given (w, t', some _) = some (w, t', given)
  end_step rest t given (w, t', none) = rest w t' (if gave_queue t t' then given + 1 else given)

  -- The loop of Process, with the number of calls of doneWithQueue; `none` is the end of the fuel, or a
  -- call of Next that does not return.
  unfoldable pub process_loop : ℕ → out.World → Task → ℕ → Option (out.World × Task × ℕ)
  unfolding set_error
  process_loop zero w t given = none
  process_loop (suc fuel) w t given =
      let stopped = set_error w t task_suspended "Terminating" in
      let step = out.next w t >>= end_step (process_loop fuel) t given in
      if t.state == state_done
      then some (w, t, given)
      else if out.notified w
      then some (stopped.0, stopped.1, given)
      else step

  -- The last part of Process: the state entry is deleted if there is no error.
  unfoldable pub finish_task : out.World → Task → out.World
  unfolding delete_saved
  finish_task w t = if str_eq t.err_msg "" then (delete_saved w t).0 else w

-- StateNames, with the empty text for another number
unfoldable pub state_name : ℕ → String
state_name st =
    if st == 0
    then "Invalid"
    else if st == 1
    then "Initializing"
    else if st == 2
    then "Queuing"
    else if st == 3
    then "Processing"
    else if st == 4
    then "Stabilizing"
    else if st == 5
    then "Deduplicating"
    else if st == 6
    then "Finishing"
    else if st == 7
    then "Done"
    else ""

pub record Prefix : Type 0 where
  pub bucket : String
  pub experiment : String
  pub data_type : String
  pub date_path : String
  pub date : ℕ

-- Prefix.Path
unfoldable pub path : Prefix → String
path p =
    let rest = concat p.data_type (concat "/" (concat p.date_path "/")) in
    if str_eq p.experiment "" then rest else concat p.experiment (concat "/" rest)

-- `submatches` gives the four groups of prefixPattern, and `parse_date` is time.Parse with the
-- layout 2006/01/02.
module _ (submatches : String → Option (String × String × String × String))
    (parse_date : String → Option ℕ) where
  -- Task.ParsePrefix; `none` is its error.
  unfoldable pub parse_prefix : String → Option Prefix
  parse_prefix name = do
    fields ← submatches name
    date ← parse_date fields.3
    some (record {
      bucket = fields.0;
      experiment = fields.1;
      data_type = fields.2;
      date_path = fields.3;
      date = date;
    })

  -- NewTask; `none` is an error of ParsePrefix or of the date.
  unfoldable pub new_task : ℕ → String → String → String → Bool → Option Task
  unfolding parse_prefix
  new_task now exp_name name queue has_saver = do
    prefix ← parse_prefix name
    date ← parse_date prefix.date_path
    some (record {
      name = name;
      experiment = exp_name;
      date = date;
      state = initializing;
      queue = queue;
      job_id = "";
      err_msg = "";
      err_info = "";
      update_time = now;
      has_saver = has_saver;
    })

-- What FetchTask gives: a task, datastore.ErrNoSuchEntity, or another error with a task.
pub data Fetched : Type 0 where
  found no_such_entity : Task → Fetched
  fetch_failed : Task → String → Fetched

-- GetTaskStatus: the task and the error; `fetched` is none if the saver is not a DatastoreSaver, and
-- `empty` is the zero value.
unfoldable pub get_task_status : Task → Option Fetched → Task × Option String
get_task_status empty none = (empty, none)
get_task_status empty (some (found t)) = (t, none)
get_task_status empty (some (no_such_entity t)) = (t, none)
get_task_status empty (some (fetch_failed t err)) = (t, some err)
