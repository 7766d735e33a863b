-- ===== src/Tests/StoreRuns.antt =====
-- The datastore as a function from keys: tasks of state.go, and the objects of the job service.
use etl_gardener.Base.{
  ◌-◌, ◌%◌, ite, if_pos, if_neg, ℕ, ◌≡◌, ◌⊎◌, inr, refl, true, false, String, Option, none, some,
  List, [], ◌∷◌, arith, Ensures, String_discrete,
}
use etl_gardener.Persistence.Datastore.{save_object, DatastoreKey, Client, Got, got, no_such_entity}
use etl_gardener.Task.{get_task_status, finish_task}
use etl_gardener.Task.Saver.{StoredTask, delete_task, fetch_task, task_status}
use etl_gardener.Dispatch.Waits.{may_restart}
use etl_gardener.Task.Stored.{Ended, done, finish_task-Restarts}
use etl_gardener.Persistence.{Saver}
use etl_gardener.Service.{SourceConfig, service_key, next_job, new_job_service}
use etl_gardener.Service.Resumed.{Resumes, next_job-Resumes}
use etl_gardener.Persistence.Backed.{object, datastore_saver}
use etl_gardener.Tests.TaskRuns.{task}
use etl_gardener.Tests.ServiceRuns.{service, service-IsReady, clock}

DatastoreKey_discrete : Discrete DatastoreKey
DatastoreKey_discrete = hlevel String_discrete

abbrev found_at : {V : Type 0} → Option V → Got V
found_at none = no_such_entity
found_at (some v) = got v

found_at-got : {V : Type 0} (o : Option V) (v : V) → found_at o ≡ got v → o ≡ some v
found_at-got none v e = cc
found_at-got (some u) v e = cc

found_at-no_such_entity : {V : Type 0} (o : Option V) → found_at o ≡ no_such_entity → o ≡ none
found_at-no_such_entity none e = refl
found_at-no_such_entity (some u) e = cc

abbrev Table : Type 0 → Type 0
Table V = DatastoreKey → Option V

abbrev write : {V : Type 0} → DatastoreKey → Option V → Table V → Table V
write k o w j = ite (DatastoreKey_discrete k j) o (w j)

abbrev store : (V : Type 0) → Client V
store V = record {
  World = Table V;
  entity = λ w k. w k;
  put = λ k v w. (none, write k (some v) w);
  delete = λ k w. (none, write k none w);
  get = λ k w. found_at (w k);
  get_keys = λ kind namespace w. inr [];
  get_multi = λ keys w. inr [];
  expired = λ w. none;
  put_stores = λ k v w e. if_pos (DatastoreKey_discrete k k) refl (some v) (w k);
  put_keeps = λ k j v w n. if_neg (DatastoreKey_discrete k j) n (some v) (w j);
  delete_removes = λ k w e. if_pos (DatastoreKey_discrete k k) refl none (w k);
  delete_keeps = λ k j w n. if_neg (DatastoreKey_discrete k j) n none (w j);
  get_tells = λ k v w e. found_at-got (w k) v e;
  get_misses = λ k w e. found_at-no_such_entity (w k) e;
}

abbrev nothing : {V : Type 0} → Table V
nothing k = none

-- A time without the part below a microsecond.
abbrev microseconds : ℕ → ℕ
microseconds t = t - t % 1000

abbrev no_tasks : String → String → Table StoredTask → String ⊎ List StoredTask
no_tasks namespace expt w = inr []

-- What Process leaves of the task that has no error.
abbrev after : Table StoredTask
after = (delete_task (store StoredTask) microseconds "gardener" no_tasks task nothing).0

ended :
    Ended
      (store StoredTask)
      microseconds
      "gardener"
      no_tasks
      (λ w. 5)
      (λ w. false)
      (λ w t. none)
      task
      nothing
      after
unfolding delete_task finish_task
ended = done refl refl refl

finish_task-Restarts_example :
    may_restart 7 (task_status (store StoredTask) microseconds "gardener" no_tasks task after).0
    ≡ true
unfolding task_status fetch_task delete_task get_task_status DatastoreKey_discrete String_discrete
finish_task-Restarts_example =
    finish_task-Restarts (store StoredTask) microseconds "gardener" no_tasks (λ w. 5) (λ w. false)
      (λ w t. none) 7 task nothing after refl ended refl

saved : (d : ℕ) → (save_object (store ℕ) "gardener" (object service_key d) nothing).0 ≡ none
unfolding save_object
saved d = refl

abbrev sources : List SourceConfig
sources =
    record { bucket = "b"; experiment = "ndt"; datatype = "t"; filter = ""; target = "raw.t" } ∷ []

abbrev saver : Saver
saver = datastore_saver (store ℕ) "gardener"

next_job-Resumes_example :
    Ensures
      (λ r.
        Resumes saver r.1.date r.2
          (new_job_service saver "" some 960000000000000 true 0 86400000000000 "base" sources r.2))
      (next_job saver clock service nothing)
next_job-Resumes_example =
    next_job-Resumes saver "" some clock 960000000000000 0 service nothing true "base" sources
      service-IsReady (omega arith) (omega arith) (omega arith) (λ d. saved d)
