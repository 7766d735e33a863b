-- ===== src/Task/Saver.antt =====
-- state/state.go: DatastoreSaver, which keeps tasks in the datastore.
use etl_gardener.Base.{
  ℕ, ◌⊎◌, inl, inr, Bool, false, String, Option, none, some, List, [], ◌∷◌, concat,
}
use etl_gardener.Persistence.Datastore.{DatastoreKey, Client, Got, got, no_such_entity, get_failed}
use etl_gardener.Task as States
use etl_gardener.Task.{Task, Outside, Fetched, found, fetch_failed, get_task_status, state_name}

-- The zero value of Task
abbrev pub zero_task : Task
zero_task = record {
  name = "";
  experiment = "";
  date = 0;
  state = 0;
  queue = "";
  job_id = "";
  err_msg = "";
  err_info = "";
  update_time = 0;
  has_saver = false;
}

-- The fields of a task that are exported, which are those that the datastore keeps; the saver is not.
pub record StoredTask : Type 0 where
  pub name : String
  pub experiment : String
  pub date : ℕ
  pub state : ℕ
  pub queue : String
  pub job_id : String
  pub err_msg : String
  pub err_info : String
  pub update_time : ℕ

-- A task that is loaded has no saver.
abbrev pub loaded : StoredTask → Task
loaded s = record {
  name = s.name;
  experiment = s.experiment;
  date = s.date;
  state = s.state;
  queue = s.queue;
  job_id = s.job_id;
  err_msg = s.err_msg;
  err_info = s.err_info;
  update_time = s.update_time;
  has_saver = false;
}

abbrev pub all_loaded : List StoredTask → List Task
all_loaded [] = []
all_loaded (s ∷ ss) = loaded s ∷ all_loaded ss

abbrev pub loaded_results : String ⊎ List StoredTask → String ⊎ List Task
loaded_results (inl err) = inl err
loaded_results (inr ss) = inr (all_loaded ss)

-- `kept_time` is a time as the datastore keeps it, to its precision. `query` gives the tasks whose
-- Experiment is a text, or an error.
module _ (c : Client StoredTask) (kept_time : ℕ → ℕ) (namespace : String)
    (query : String → String → c.World → String ⊎ List StoredTask) where
  abbrev pub stored : Task → StoredTask
  stored t = record {
    name = t.name;
    experiment = t.experiment;
    date = kept_time t.date;
    state = t.state;
    queue = t.queue;
    job_id = t.job_id;
    err_msg = t.err_msg;
    err_info = t.err_info;
    update_time = kept_time t.update_time;
  }

  abbrev pub task_key : String → DatastoreKey
  task_key name = record { kind = "task"; name = name; namespace = namespace }

  -- After a call without an error comes the error of its context.
  abbrev pub checked : Option String × c.World → c.World × Option String
  checked (some err, w) = (w, some err)
  checked (none, w) = (w, c.expired w)

  -- DatastoreSaver.SaveTask
  unfoldable pub save_task : Task → c.World → c.World × Option String
  save_task t w = checked (c.put (task_key t.name) (stored t) w)

  -- DatastoreSaver.DeleteTask
  unfoldable pub delete_task : Task → c.World → c.World × Option String
  delete_task t w = checked (c.delete (task_key t.name) w)

  abbrev pub as_fetched : Got StoredTask → Fetched
  as_fetched (got s) = found (loaded s)
  as_fetched no_such_entity = States.no_such_entity zero_task
  as_fetched (get_failed err) = fetch_failed zero_task err

  -- DatastoreSaver.FetchTask
  unfoldable pub fetch_task : String → c.World → Fetched
  fetch_task name w = as_fetched (c.get (task_key name) w)

  -- DatastoreSaver.FetchAllTasks
  unfoldable pub fetch_all_tasks : String → c.World → String ⊎ List Task
  fetch_all_tasks expt w = loaded_results (query namespace expt w)

  -- Task.GetTaskStatus, where the saver is a DatastoreSaver
  unfoldable pub task_status : Task → c.World → Task × Option String
  unfolding fetch_task
  task_status t w = get_task_status zero_task (some (fetch_task t.name w))

  -- The world that Process meets, with this saver.
  abbrev pub saved_outside :
      (c.World → ℕ)
      → (c.World → Bool)
      → (c.World → Task → Option (c.World × Task × Option String))
      → Outside
  saved_outside clock notified next = record {
    World = c.World;
    clock = clock;
    save_task = save_task;
    delete_task = delete_task;
    notified = notified;
    next = next;
  }

  -- WriteHTMLStatusTo: its lines, and its error. `format` gives the text of a task.
  abbrev pub lines : (Task → String) → List Task → List String
  lines format [] = "</div>\n" ∷ []
  lines format (t ∷ ts) = concat (format t) "</br>\n" ∷ lines format ts

  abbrev pub written :
      (Task → String) → String → String ⊎ List Task → c.World → List String × Option String
  written format project (inl err) w = (
    concat "Error executing Datastore query: " (concat err "\n")
        ∷ concat "Project: " (concat project "\n")
        ∷ [],
    some err,
  )
  written format project (inr ts) w = elim (c.expired w) [
    | some err ↦ ("Context error executing Datastore query: <nil>\n" ∷ [], none)
    | none ↦ ("<div>\nTask State</br>\n" ∷ lines format ts, none)
  ]

  unfoldable pub write_task_status_to :
      (Task → String) → Option String → String → String → c.World → List String × Option String
  unfolding fetch_all_tasks
  write_task_status_to format (some err) project expt w =
      (concat "Error creating Datastore client: " (concat err "\n") ∷ [], some err)
  write_task_status_to format none project expt w =
      written format project (fetch_all_tasks expt w) w

-- Task.String; `format` is Time.Format.
unfoldable pub task_string : (String → ℕ → String) → Task → String
task_string format t = concat "{" (
    concat t.name (
      concat ": " (
        concat (state_name t.state) (
          concat ", " (
            concat (format "Mon15:04:05.0" t.update_time) (
              concat ", Q:" (
                concat t.queue (
                  concat ", J:" (
                    concat t.job_id (
                      concat ", E:"
                        (concat t.err_msg (concat " (" (concat t.err_info ")}")))))))))))))
