-- ===== src/Tests/HandlerRuns.antt =====
-- handler.go, JobHandler, Sync and InitTracker: runs.
use etl_gardener.Base.{
  ◌≡◌, refl, sym, Bool, true, concat, str_eq, if◌then◌else◌, String, Option, none, some, List, [],
  Ensures,
}
use etl_gardener.Job.{Job}
use etl_gardener.Status.{Status}
use etl_gardener.Tracker.{Tracker, add_job}
use etl_gardener.Tracker.Reports.{MovesTo}
use etl_gardener.Tracker.Admits.{Added, add_job-Added}
use etl_gardener.Handler.{Request, update, job_handler}
use etl_gardener.Handler.Replies.{Answer, update-Answer}
use etl_gardener.Handler.Dispatch.{Served, job_handler-Served}
use etl_gardener.Client.{next_job}
use etl_gardener.Client.Obtained.{Obtained, reply_with, next_job-Obtained}
use etl_gardener.Store.{zero_job, SaverStruct, Datastore, init_tracker}
use etl_gardener.Store.Recovery.{Ready, init_tracker-Ready}
use etl_gardener.Store.Synced.{Synced}
use etl_gardener.Tests.TrackerRuns.{small, ndt, clock, small-IsValid, ndt_init}
use etl_gardener.Tests.ServiceRuns.{memory, service, empty, service-IsReady}

abbrev parse_job : String → Option Job
parse_job text = if str_eq text "ndt" then some ndt else none

abbrev post : Request
post = record { is_post = true; form = some (λ key. if str_eq key "job" then "ndt" else "loading") }

update-Answer_example :
    Ensures
      (Answer parse_job small post (λ form. form "state" ≡ "") (λ form. MovesTo (form "state")))
      (update parse_job clock small post)
update-Answer_example = update-Answer parse_job clock small post small-IsValid

job_handler-Served_example :
    Ensures
      (Served memory clock clock service empty small post)
      (job_handler memory clock clock service empty small post)
job_handler-Served_example =
    job_handler-Served memory clock clock service empty small post service-IsReady small-IsValid

add_job-Added_example : Ensures (Added 7 small ndt) (add_job clock small ndt)
add_job-Added_example = add_job-Added clock small ndt small-IsValid

-- The wire form of a job, which the client keeps as it is.
abbrev wire : Job → String
wire j = concat j.experiment (concat "/" j.datatype)

abbrev keep_wire : Bool → String → String → String × Option String
keep_wire strict body job = (body, none)

next_job-Obtained_example :
    Ensures
      (λ r.
        Obtained ""
          (λ n. "Bad Request")
          keep_wire
          wire
          wire
          (λ j. refl)
          7
          small
          r.2
          (next_job "" (λ n. "Bad Request") keep_wire (reply_with wire r.3 r.4)))
      (job_handler memory clock clock service empty small post)
next_job-Obtained_example =
    next_job-Obtained "" (λ n. "Bad Request") keep_wire wire wire (λ j. refl) memory clock clock
      service empty small post refl service-IsReady small-IsValid

-- A datastore that keeps the last document.
abbrev pub disk : Datastore
disk = record {
  Bytes = List (Job × Status);
  Entity = Option (SaverStruct (List (Job × Status)));
  marshal = λ ps. some ps;
  unmarshal = λ b. some b;
  put = λ v e. some (some v);
  get = λ e. e;
  unmarshal-marshal = λ ps e. sym e;
  get-put = λ v e p. cc p;
}

abbrev pub fresh : Tracker
fresh = record {
  last_modified = 9;
  last_job = zero_job;
  jobs = [];
  expiration_time = 100;
  cleanup_delay = 10;
  events = [];
  err_strings = [];
}

starts-fresh : init_tracker disk 9 100 10 none ≡ some fresh
unfolding init_tracker
starts-fresh = refl

init_tracker-Ready_example : Ready disk ndt_init fresh
init_tracker-Ready_example = init_tracker-Ready disk ndt_init 9 100 10 none fresh starts-fresh
