-- ===== src/Store.antt =====
-- tracker.go and job.go: how the tracker is saved to the datastore, and recovered from it.
-- The datastore under the tracker's key, and the JSON form of the jobs, are parameters.
pub mod Recovery
pub mod Synced
pub mod Saving
pub mod Saved
pub mod Lost
use etl_gardener.Base.{
  ℕ, ◌≡◌, Bool, true, false, Option, none, some, List, [], ◌∷◌, ◌++◌, if◌then◌else◌, ◌>>=◌, ltb,
  insert,
}
use etl_gardener.Job.{Job, Job_discrete}
use etl_gardener.Metrics.{Event, started, in_flight_inc}
use etl_gardener.Status
use etl_gardener.Status.{Status, series}
use etl_gardener.Tracker.{Tracker, JobMap, get_state}

-- `B` is the type of the JSON form.
pub record SaverStruct (B : Type 0) : Type 0 where
  pub save_time : ℕ
  pub last_init : Job
  pub jobs : B

-- `marshal` is json.Marshal on the pairs of a job map, `unmarshal` is json.Unmarshal (`none` is an
-- error of either), and `put` and `get` are those of the client.
pub record Datastore : Type 1 where
  pub Bytes : Type 0
  pub Entity : Type 0
  pub marshal : List (Job × Status) → Option Bytes
  pub unmarshal : Bytes → Option (List (Job × Status))
  pub put : SaverStruct Bytes → Entity → Option Entity
  pub get : Entity → Option (SaverStruct Bytes)
  -- What was encoded is decoded again.
  pub unmarshal-marshal :
      (ps : List (Job × Status)) {b : Bytes} → marshal ps ≡ some b → unmarshal b ≡ some ps
  -- What was put is what the next get returns.
  pub get-put :
      (v : SaverStruct Bytes) (e : Entity) {e' : Entity} → put v e ≡ some e' → get e' ≡ some v

-- The loop of UnmarshalJSON, which adds the pairs to a map.
unfoldable pub add_pairs : List (Job × Status) → JobMap → JobMap
add_pairs [] jobs = jobs
add_pairs ((j, s) ∷ pairs) jobs = add_pairs pairs (insert Job_discrete j s jobs)

-- The test of loadJobMap for an empty history.
unfoldable pub all_started : JobMap → Bool
all_started [] = true
all_started ((j, s) ∷ m) = elim s.history [ [] ↦ false | ◌∷◌ _ _ ↦ all_started m ]

-- What loadJobMap comes to: an error, the end of the process, or a map and the last job.
pub data Loaded : Type 0 where
  not_loaded load_failed : Loaded
  loaded : JobMap → Job → Loaded

-- The events of InitTracker.
unfoldable pub init_events : JobMap → Option (List Event)
init_events [] = some []
init_events ((j, s) ∷ m) = do
  done ← Status.is_done s
  lbl ← Status.label s
  rest ← init_events m
  some (
      if done
      then rest
      else rest ++ in_flight_inc (series j lbl) ∷ started j.experiment j.datatype ∷ [])

-- The zero value of Job
abbrev pub zero_job : Job
zero_job = record { bucket = ""; experiment = ""; datatype = ""; date = 0; filter = "" }

module _ (ds : Datastore) where
  -- loadFromDatastore and loadJobMap; without a client the entity is `none`.
  unfoldable pub load_job_map : Option ds.Entity → Loaded
  unfolding add_pairs all_started
  load_job_map none = not_loaded
  load_job_map (some entity) = elim (ds.get entity) [
    | none ↦ not_loaded
    | some v ↦ elim (ds.unmarshal v.jobs) [
      | none ↦ load_failed
      | some pairs ↦
          if all_started (add_pairs pairs [])
          then loaded (add_pairs pairs []) v.last_init
          else load_failed
    ]
  ]

  -- The last part of InitTracker; no error string is known to a process that starts.
  unfoldable pub tracker_from : ℕ → ℕ → ℕ → JobMap → Job → Option Tracker
  unfolding init_events
  tracker_from now expiration cleanup jobs last = do
    es ← init_events jobs
    some (record {
      last_modified = now;
      last_job = last;
      jobs = jobs;
      expiration_time = expiration;
      cleanup_delay = cleanup;
      events = es;
      err_strings = [];
    })

  -- InitTracker; `none` is the end of the process.
  unfoldable pub init_tracker : ℕ → ℕ → ℕ → Option ds.Entity → Option Tracker
  unfolding load_job_map tracker_from
  init_tracker now expiration cleanup entity = elim (load_job_map entity) [
    | not_loaded ↦ tracker_from now expiration cleanup [] zero_job
    | load_failed ↦ none
    | loaded jobs last ↦ tracker_from now expiration cleanup jobs last
  ]

  -- Sync after its GetState, whose results are `jobs`, `last` and `modified`: the entity, the time of the
  -- last save, and whether there was no error.
  unfoldable pub end_sync : (ℕ → ℕ) → ℕ → JobMap → Job → ℕ → ds.Entity → ds.Entity × ℕ × Bool
  end_sync c last_save jobs last modified entity =
      let put =
        λ (b : ds.Bytes). ds.put (record { save_time = c 2; last_init = last; jobs = b }) entity in
      if ltb modified last_save then (entity, last_save, true) else elim (ds.marshal jobs >>= put) [
        | none ↦ (entity, last_save, false)
        | some saved ↦ (saved, c 1, true)
      ]

  abbrev pub with_tracker : Tracker → ds.Entity × ℕ × Bool → Tracker × ds.Entity × ℕ × Bool
  with_tracker tr e = (tr, e.0, e.1, e.2)

  -- Sync, where no call comes between its GetState and its end: the tracker, and the rest as above.
  unfoldable pub sync : (ℕ → ℕ) → ℕ → Tracker → ds.Entity → Option (Tracker × ds.Entity × ℕ × Bool)
  unfolding end_sync
  sync c last_save tr entity = do
    r ← get_state (c 0) tr
    some (with_tracker r.0 (end_sync c last_save r.1 r.2 r.3 entity))
