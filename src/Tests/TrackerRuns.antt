-- ===== src/Tests/TrackerRuns.antt =====
-- tracker.go: runs on a small tracker.
use etl_gardener.Base.{
  ℕ, ◌≡◌, refl, none, some, List, [], ◌∷◌, arith, Ensures, lookup, ◌↔◌, str_eq, if_pos,
  String_discrete, total, if◌then◌else◌, not, ◌&&◌, ltb,
}
use etl_gardener.Job.{Job, Job_discrete}
use etl_gardener.Metrics.{Series, Series_discrete, incs, decs, in_flight_inc}
use etl_gardener.Status
use etl_gardener.Status.{Status, StateInfo}
use etl_gardener.Tracker.{
  Tracker, Call, adds, updates, beats, errors, looks, find, get_state, set_status, run,
}
use etl_gardener.Tracker.Valid.{IsValid}
use etl_gardener.Tracker.Gauge.{Balanced, weight, weight_of}
use etl_gardener.Tracker.Frame.{Placed}
use etl_gardener.Tracker.Runs.{run-IsValid, AllKeepFailed, run-Balanced}
use etl_gardener.Tracker.Sweep.{get_state_keeps, IsFresh}
use etl_gardener.Tracker.Moves.{set_status-Placed, moved_status}
use etl_gardener.Tracker.Gap.{heartbeat_around, heartbeat_around-loses}

abbrev pub ndt : Job
ndt = record { bucket = "archive"; experiment = "ndt"; datatype = "tcpinfo"; date = 0; filter = "" }

abbrev switch : Job
switch = record {
  bucket = "archive";
  experiment = "utilization";
  datatype = "switch";
  date = 0;
  filter = "";
}

abbrev started_info : StateInfo
started_info = record { state = Status.init; start = 5; detail_time = 5; detail = "" }

abbrev pub started_status : Status
started_status = record { heartbeat_time = 0; update_count = 0; history = started_info ∷ [] }

abbrev pub ndt_init : Series
ndt_init = record { experiment = "ndt"; datatype = "tcpinfo"; label = "init" }

abbrev pub small : Tracker
small = record {
  last_modified = 5;
  last_job = ndt;
  jobs = (ndt, started_status) ∷ [];
  expiration_time = 100;
  cleanup_delay = 10;
  events = in_flight_inc ndt_init ∷ [];
  err_strings = [];
}

abbrev pub clock : ℕ → ℕ
clock i = 7

pub small-IsValid : IsValid small
unfolding lookup
small-IsValid = record { unique = (refl, tt); started = (λ e. cc, tt); limited = omega arith }

abbrev calls : List ((ℕ → ℕ) × Call)
calls =
    (clock, updates ndt Status.parsing "go")
    ∷ (clock, adds switch)
    ∷ (clock, errors switch "timeout")
    ∷ (clock, beats ndt)
    ∷ (clock, looks)
    ∷ []

run-IsValid_example : Ensures IsValid (run small calls)
run-IsValid_example = run-IsValid small calls small-IsValid

small-find : find ndt small ≡ some started_status
unfolding lookup
small-find = if_pos (Job_discrete ndt ndt) refl (some started_status) none

calls-keep : AllKeepFailed small calls
unfolding Status.state
calls-keep =
    (λ s e f. cc (small-find, e, f), λ t _. (tt, λ t _. (tt, λ t _. (tt, λ t _. (tt, λ t _. tt)))))

pub small-Balanced : Balanced ndt_init small
unfolding incs decs total weight weight_of Status.label Series_discrete String_discrete
small-Balanced = refl

run-Balanced_example : Ensures (Balanced ndt_init) (run small calls)
run-Balanced_example =
    run-Balanced ndt_init small calls (λ e. cc) small-IsValid calls-keep small-Balanced

get_state_keeps_example :
    Ensures
      (λ r.
        IsValid r.0
        × (r.0.jobs ≡ r.1)
        × (r.2 ≡ small.last_job)
        × ((j : Job) (s : Status)
            → (lookup Job_discrete j r.1 ≡ some s)
              ↔ ((find j small ≡ some s) × IsFresh 60 small s)))
      (get_state 60 small)
get_state_keeps_example = get_state_keeps 60 small small-IsValid

set_status-Placed_example :
    Ensures
      (Placed small ndt (
        if str_eq Status.parsing Status.complete && not (ltb 0 small.cleanup_delay)
        then none
        else some (moved_status clock Status.parsing "go" started_status started_info [])))
      (set_status clock small ndt Status.parsing "go")
set_status-Placed_example =
    set_status-Placed clock small ndt Status.parsing "go" started_status started_info []
      small-IsValid small-find refl (λ e. cc)

-- A parser's heartbeat around the first change of state of its job.
heartbeat_around-loses_example :
    Ensures
      (λ r. (r.1 ≡ none) × (find ndt r.0 ≡ some (record started_status { heartbeat_time = 7 })))
      (heartbeat_around clock clock small ndt Status.parsing "go")
unfolding Status.is_done Status.last_state_info
heartbeat_around-loses_example =
    heartbeat_around-loses clock clock small ndt Status.parsing "go" started_status started_info []
      small-IsValid small-find refl (λ e. cc) refl refl
