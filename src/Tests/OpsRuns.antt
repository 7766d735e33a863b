-- ===== src/Tests/OpsRuns.antt =====
-- ops.go: runs of a monitor with one action.
use etl_gardener.Base.{
  true, false, ensured, refl, none, some, List, [], ◌∷◌, Ensures, lookup, IsTotal,
}
use etl_gardener.Tracker.{adds}
use etl_gardener.Tests.TrackerRuns.{small, ndt, clock, small-IsValid}
use etl_gardener.Ops.{
  Outcome, Action, Monitor, Happening, ticks, acts, reports, releases, calls, happen_all,
  update_job,
}
use etl_gardener.Ops.Claims.{IsExclusive}
use etl_gardener.Ops.Exclusion.{happen_all-IsExclusive}
use etl_gardener.Ops.Updates.{Applied, update_job-Applied}

abbrev parse : Action (Unit {0})
parse = record {
  from_state = "init";
  next_state = "parsing";
  condition = none;
  action = some (λ w j t. some (record { job = j; error = none; retry = false; detail = "-" }, []));
  annotation = "";
}

abbrev monitor : Monitor (Unit {0})
monitor = record { actions = ("init", parse) ∷ []; tk = small; job_claims = []; workers = [] }

monitor-IsExclusive : IsExclusive monitor
unfolding lookup
monitor-IsExclusive = record {
  one_worker = tt;
  one_claim = tt;
  claimed = λ j. (λ e. refl, λ e. refl);
  valid = small-IsValid;
  actions_safe = (λ f e w j t. ensured (λ g. IsTotal (g w j t)) parse.action f e tt, tt);
  workers_safe = tt;
}

abbrev happenings : List (Happening (Unit {0}))
happenings =
    ticks clock
    ∷ acts ndt tt
    ∷ ticks clock
    ∷ reports ndt clock
    ∷ releases ndt
    ∷ calls clock (adds ndt)
    ∷ []

happen_all-IsExclusive_example : Ensures IsExclusive (happen_all monitor happenings)
happen_all-IsExclusive_example = happen_all-IsExclusive monitor happenings monitor-IsExclusive

abbrev timeout : Outcome
timeout = record { job = ndt; error = some "timeout"; retry = true; detail = "-" }

update_job-Applied_example :
    Ensures (Applied small timeout "loading") (update_job clock small timeout "loading")
update_job-Applied_example = update_job-Applied clock small timeout "loading" small-IsValid
