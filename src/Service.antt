-- ===== src/Service.antt =====
-- job-service/job-service.go: the service that hands out jobs, one job spec and date after another.
-- `P` is the type of partitioned tables of a job's target; the saver is a parameter. The first two
-- arguments that are numbers are readings of the clock. `none` is the panic of an index out of range.
pub mod Ready
pub mod Dates
pub mod Rounds
pub mod Order
pub mod Resumed
use etl_gardener.Base.{
  ℕ, ◌+◌, ◌-◌, ◌*◌, ◌/◌, Bool, String, Option, none, some, List, [], ◌∷◌, concat, if◌then◌else◌,
  ◌>>=◌, ltb, leb, ◌==◌, length, get_elem?,
}
use etl_gardener.Job.{Job, JobWithTarget, day, truncate, target}
use etl_gardener.Persistence.{Saver, Key, try_save, try_fetch}

-- time.Hour
abbrev pub hour : ℕ
hour = 3600000000000

-- config.SourceConfig
pub record SourceConfig : Type 0 where
  pub bucket : String
  pub experiment : String
  pub datatype : String
  pub filter : String
  pub target : String

pub record YesterdaySource (P : Type 0) : Type 0 where
  pub job_specs : List (JobWithTarget P)
  pub date : ℕ
  pub delay : ℕ
  pub next_index : ℕ

pub record Service (P : Type 0) : Type 0 where
  pub job_specs : List (JobWithTarget P)
  pub start_date : ℕ
  pub date : ℕ
  pub next_index : ℕ
  pub yesterday : YesterdaySource P

-- GetKind and GetName of the two objects.
abbrev pub yesterday_key : Key
yesterday_key = record { kind = "job.YesterdaySource"; name = "singleton" }

abbrev pub service_key : Key
service_key = record { kind = "job.Service"; name = "singleton" }

-- A copy of a job spec, with the date set.
abbrev pub dated : {P : Type 0} → ℕ → JobWithTarget P → JobWithTarget P
dated d spec = let job = spec.job in record spec { job = record job { date = d } }

-- What NewJobService comes to: an error, the end of the process, or a service.
pub data NewService (P : Type 0) : Type 0 where
  invalid_start_date nil_parameter no_jobs_specified : NewService P
  created : Service P → NewService P

module _ {P : Type 0} (sv : Saver) where
  -- YesterdaySource.nextJob: the job, if one is due.
  unfoldable pub yesterday_job :
      ℕ
      → YesterdaySource P
      → sv.Store
      → Option (Option (JobWithTarget P) × YesterdaySource P × sv.Store)
  yesterday_job now y store =
      if ltb (now - y.date) (day + y.delay) then some (none, y, store) else do
        spec ← get_elem? y.job_specs y.next_index
        let job = dated y.date spec
        let i = y.next_index + 1
        let next = truncate (y.date + day) day
        some (
            if leb (length y.job_specs) i
            then (
              some job,
              record y { next_index = 0; date = next },
              try_save sv yesterday_key next store,
            )
            else (some job, record y { next_index = i }, store))

  unfoldable pub init_yesterday : ℕ → sv.Store → ℕ → List (JobWithTarget P) → YesterdaySource P
  init_yesterday now store delay specs = record {
    job_specs = specs;
    date = try_fetch sv yesterday_key store (truncate now day - day);
    delay = delay;
    next_index = 0;
  }

  unfoldable pub advance_date : ℕ → Service P → Service P
  advance_date now svc =
      let next = truncate (svc.date + day) day in
      record svc {
        date = if ltb (now - next) (36 * hour) then svc.start_date else next;
        next_index = 0;
      }

  -- The last part of NextJob, where no job of yesterday is due.
  unfoldable pub next_spec :
      ℕ → Service P → sv.Store → Option (JobWithTarget P × Service P × sv.Store)
  next_spec now svc store = do
    spec ← get_elem? svc.job_specs svc.next_index
    let job = dated svc.date spec
    let moved = record svc { next_index = svc.next_index + 1 }
    let advanced = advance_date now moved
    some (
        if leb (length svc.job_specs) moved.next_index
        then (job, advanced, try_save sv service_key advanced.date store)
        else (job, moved, store))

  -- NextJob. `c 0` is the reading of nextJob, and `c 1` that of advanceDate.
  unfoldable pub next_job :
      (ℕ → ℕ) → Service P → sv.Store → Option (JobWithTarget P × Service P × sv.Store)
  unfolding next_spec yesterday_job advance_date
  next_job c svc store = do
    y ← yesterday_job (c 0) svc.yesterday store
    let svc' = record svc { yesterday = y.1 }
    elim y.0 [ some j ↦ some (j, svc', y.2) | none ↦ next_spec (c 1) svc' y.2 ]

  -- recoverDate: `last` is the date of the tracker's last job.
  unfoldable pub recover_date : ℕ → sv.Store → Service P → Service P
  recover_date last store svc =
      let found = try_fetch sv service_key store last in
      record svc { date = if ltb found svc.start_date then svc.start_date else found }

  module _ (zero_pdt : P) (parse_pdt : String → Option P) where
    -- The loop over the sources: those with a bad target are left out.
    unfoldable pub specs_of : String → List SourceConfig → List (JobWithTarget P)
    specs_of base [] = []
    specs_of base (s ∷ sources) =
        let job : Job = record {
          bucket = s.bucket;
          experiment = s.experiment;
          datatype = s.datatype;
          date = 0;
          filter = s.filter;
        } in
        elim (target zero_pdt parse_pdt job (concat base (concat "." s.target))) [
          | none ↦ specs_of base sources
          | some jt ↦ jt ∷ specs_of base sources
        ]

    unfoldable pub service_from : ℕ → ℕ → ℕ → sv.Store → List (JobWithTarget P) → NewService P
    service_from now last start_date store [] = no_jobs_specified
    service_from now last start_date store (spec ∷ specs) =
        let delay = 10 * hour + 30 * (hour / 60) in
        created (
          recover_date last store (record {
            job_specs = spec ∷ specs;
            start_date = start_date;
            date = 0;
            next_index = 0;
            yesterday = init_yesterday now store delay (spec ∷ specs);
          }))

    -- `no_nil` says that the tracker, the context and the saver are not nil, and `last` is the
    -- date of the tracker's last job.
    unfoldable pub new_job_service :
        ℕ → Bool → ℕ → ℕ → String → List SourceConfig → sv.Store → NewService P
    unfolding specs_of service_from init_yesterday recover_date
    new_job_service now no_nil last start_date base sources store =
        if start_date == 0
        then invalid_start_date
        else if no_nil
        then service_from now last start_date store (specs_of base sources)
        else nil_parameter
