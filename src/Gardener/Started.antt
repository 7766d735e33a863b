-- ===== src/Gardener/Started.antt =====
-- gardener.go: the server that main starts answers every request.
use etl_gardener.Base.{
  ℕ, ◌>>=◌, ◌≡◌, ◌⊎◌, refl, inl, inr, true, String, Option, none, some, List, str_eq, if_cases,
  Ensures, Option-cases, subst,
}
use etl_gardener.Job.{Job}
use etl_gardener.Metrics.{Series}
use etl_gardener.Config.{GardenerConfig, config_sources, config_start_date}
use etl_gardener.Dispatch.Launch.{run_dispatch_loop}
use etl_gardener.Tracker.{last_job, Tracker}
use etl_gardener.Tracker.Valid.{IsValid}
use etl_gardener.Persistence.{Saver}
use etl_gardener.Service.{Service, NewService, new_job_service}
use etl_gardener.Service as Jobs
use etl_gardener.Service.Ready.{IsReady}
use etl_gardener.Service.Dates.{Starts, new_job_service-Starts}
use etl_gardener.Store.{Datastore, init_tracker}
use etl_gardener.Store.Recovery.{init_tracker-Ready}
use etl_gardener.Dispatch.{TaskHandler}
use etl_gardener.Dispatch.Pool.{Whenever}
use etl_gardener.Gardener.{Environment, BqConfig, FromEnv, negative_length, not_created, created}
use etl_gardener.Gardener.Main.{
  Server, Start, start_manager, start_legacy, dispatch_with, dispatching, main, must_create,
  must_standard_tracker, must_create_job_service,
}
use etl_gardener.Gardener.Mux.{Call, handle_all}
use etl_gardener.Gardener.Serving.{IsServing, handle_all_serves}

whenever :
    {A : Type 0} (P : A → Type 0) (o : Option A) → ((a : A) → o ≡ some a → P a) → Whenever P o
whenever P none h = tt
whenever P (some a) h = h a refl

Whenever-bind :
    {A B : Type 0} (P : A → Type 0) (Q : B → Type 0) (o : Option A) (f : A → Option B)
    → Whenever P o
    → ((a : A) → P a → Whenever Q (f a))
    → Whenever Q (o >>= f)
Whenever-bind P Q none f h k = tt
Whenever-bind P Q (some a) f h k = k a h

module _ {P : Type 0} (sv : Saver) (ds : Datastore) (zero_pdt : P)
    (parse_pdt : String → Option P) where
  created-IsReady :
      (start : ℕ) (n : NewService P)
      → Starts sv start n
      → Whenever (λ svc. IsReady svc) (must_create n)
  created-IsReady start (Jobs.created svc) h = h.0
  created-IsReady start Jobs.invalid_start_date h = tt
  created-IsReady start Jobs.nil_parameter h = tt
  created-IsReady start Jobs.no_jobs_specified h = tt

  job_service-IsReady :
      (now : ℕ) (tr : Tracker) (cfg : GardenerConfig) (project : String) (err : Option String)
      (store : sv.Store)
      → Whenever
          (λ svc. IsReady svc)
          (must_create_job_service sv ds zero_pdt parse_pdt now tr cfg project err store)
  unfolding must_create_job_service
  job_service-IsReady now tr cfg project (some err) store = tt
  job_service-IsReady now tr cfg project none store = created-IsReady (config_start_date cfg) _ (
      new_job_service-Starts sv zero_pdt parse_pdt now (last_job tr).date (config_start_date cfg)
        true project (config_sources cfg) store)

  standard_tracker-IsValid :
      (now expiration cleanup : ℕ) (err : Option String) (entity : ds.Entity)
      → Whenever IsValid
          (must_standard_tracker sv ds zero_pdt parse_pdt now expiration cleanup err entity)
  unfolding must_standard_tracker
  standard_tracker-IsValid now expiration cleanup (some err) entity = tt
  standard_tracker-IsValid now expiration cleanup none entity =
      let k : Series = record { experiment = ""; datatype = ""; label = "" } in
      whenever IsValid (init_tracker ds now expiration cleanup (some entity))
        λ t e. (init_tracker-Ready ds k now expiration cleanup (some entity) t e).0

  manager_serves :
      (env : Environment) (o : Start ds.Entity sv.Store)
      → Whenever (IsServing sv) (start_manager sv ds zero_pdt parse_pdt env o)
  unfolding start_manager
  manager_serves env o =
      Whenever-bind IsValid (IsServing sv) _ _
        (standard_tracker-IsValid o.tracker_now o.expiration o.cleanup o.client_err o.entity)
        λ tr v.
          Whenever-bind (λ svc. IsReady svc) (IsServing sv) _ _
            (job_service-IsReady o.service_now tr o.gardener o.project o.saver_err o.store)
            λ svc w. (v, w)

  dispatching_none :
      (config : BqConfig) (r : String ⊎ (TaskHandler × ℕ))
      → Whenever (IsServing sv) (dispatching sv ds zero_pdt parse_pdt config r)
  dispatching_none config (inl err) = (tt, tt)
  dispatching_none config (inr d) = (tt, tt)

  dispatching_serves :
      (trim_space : String → String) (env : Environment) (o : Start ds.Entity sv.Store)
      (h : FromEnv)
      → Whenever (IsServing sv) (dispatch_with sv ds zero_pdt parse_pdt trim_space env o h)
  dispatching_serves trim_space env o negative_length = tt
  dispatching_serves trim_space env o (not_created err) = tt
  dispatching_serves trim_space env o (created config th) =
      Whenever-bind (λ _. Unit {0}) (IsServing sv)
        (run_dispatch_loop o.fuel trim_space o.loop_err o.tasks th env.start_date env.date_skip) _
        (whenever (λ _. Unit {0}) _ λ _ _. tt) λ r _. dispatching_none config r

  main_serves :
      (trim_space : String → String) (env : Environment) (o : Start ds.Entity sv.Store)
      → Whenever (IsServing sv) (main sv ds zero_pdt parse_pdt trim_space env o)
  unfolding main start_legacy
  main_serves trim_space env o = elim (Option-cases env.error) [
    | inr (err, e) ↦ rw e tt
    | inl e ↦ rw e (
        if_cases (Whenever (IsServing sv)) (str_eq env.service_mode "manager") _ _
          (manager_serves env o)
          (if_cases (Whenever (IsServing sv)) (str_eq env.service_mode "legacy") _ _
            (dispatching_serves trim_space env o _) tt))
  ]

  -- Once main serves, whatever the environment, the datastore, the saver and the configuration hold, every
  -- sequence of requests is answered without a panic, and leaves a well-formed tracker, and a job service
  -- that is ready, where there are these.
  pub main-Serves :
      (trim_space : String → String) (env : Environment) (o : Start ds.Entity sv.Store)
      (format : String → ℕ → String) (parse_job : String → Option Job) (es : List Call)
      (srv : Server P sv.Store)
      → main sv ds zero_pdt parse_pdt trim_space env o ≡ some srv
      → Ensures (IsServing sv) (handle_all sv format parse_job srv es)
  main-Serves trim_space env o format parse_job es srv e =
      handle_all_serves sv format parse_job es srv
        (subst (Whenever (IsServing sv)) e (main_serves trim_space env o))
