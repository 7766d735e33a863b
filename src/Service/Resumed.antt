-- ===== src/Service/Resumed.antt =====
-- job-service.go: a job service that is started anew goes on with the date that the last one had saved.
use etl_gardener.Base.{
  ℕ, suc, ◌+◌, ◌-◌, ◌<◌, ◌≤◌, ◌≡◌, ◌⊎◌, inl, inr, Bool, true, String, Option, none, some, List, [],
  ◌∷◌, ltb, leb, ◌==◌, length, get_elem?_total, Ensures, Option-cases, arith, if_cases, if_rule,
}
use etl_gardener.Job.{JobWithTarget, day}
use etl_gardener.Persistence.{Saver, try_save, try_fetch}
use etl_gardener.Service.{
  Service, NewService, created, service_key, yesterday_job, advance_date, next_spec, next_job,
  recover_date, service_from, new_job_service, SourceConfig,
}
use etl_gardener.Service.Ready.{IsReady}
use etl_gardener.Service.Dates.{advance_date-Advances}

ltb_absurd : (d start : ℕ) → start ≤ d → ltb d start ≡ true → ⊥
ltb_absurd d start l b = ground arith

module _ {P : Type 0} (sv : Saver) where
  -- A service that has the date, or that was not created, or whose Fetch of the date gave an error.
  abbrev pub Resumes : ℕ → sv.Store → NewService P → Type 0
  Resumes date store (created svc) = (sv.fetch service_key store ≡ none) ⊎ (svc.date ≡ date)
  Resumes date store _ = Unit

  recovered :
      (last date : ℕ) (store : sv.Store) (svc : Service P)
      → sv.held store service_key ≡ some date
      → svc.start_date ≤ date
      → (sv.fetch service_key store ≡ none) ⊎ ((recover_date sv last store svc).date ≡ date)
  unfolding recover_date
  recovered last date store svc h l = elim (Option-cases (sv.fetch service_key store)) [
    | inl e ↦ inl e
    | inr (d, e) ↦
        let t = sv.fetch_tells service_key store d e in
        let q : d ≡ date = cc (t, h) in
        let f : try_fetch sv service_key store last ≡ date = rw (e, try_fetch) q in
        inr (
          if_rule (λ x. x ≡ date) (ltb (try_fetch sv service_key store last) svc.start_date) _ _
            (λ b.
              let below : ltb date svc.start_date ≡ true = rw f at b in
              absurd (ltb_absurd date svc.start_date l below))
            (λ b. f))
  ]

  module _ (zero_pdt : P) (parse_pdt : String → Option P) where
    service_from-Resumes :
        (now last start date : ℕ) (store : sv.Store) (specs : List (JobWithTarget P))
        → sv.held store service_key ≡ some date
        → start ≤ date
        → Resumes date store (service_from sv zero_pdt parse_pdt now last start store specs)
    unfolding service_from
    service_from-Resumes now last start date store [] h l = tt
    service_from-Resumes now last start date store (spec ∷ specs) h l =
        recovered last date store _ h l

    new_job_service-Resumes :
        (now last start date : ℕ) (no_nil : Bool) (base : String) (sources : List SourceConfig)
        (store : sv.Store)
        → sv.held store service_key ≡ some date
        → start ≤ date
        → Resumes date store
            (new_job_service sv zero_pdt parse_pdt now no_nil last start base sources store)
    unfolding new_job_service
    new_job_service-Resumes now last start date no_nil base sources store h l =
        if_cases (Resumes date store) (start == 0) _ _ tt (
          if_cases (Resumes date store) no_nil _ _
            (service_from-Resumes now last start date store _ h l) tt)

    next_spec-Resumes :
        (c now last : ℕ) (svc : Service P) (store : sv.Store) (no_nil : Bool) (base : String)
        (sources : List SourceConfig)
        → svc.next_index < length svc.job_specs
        → suc svc.next_index ≡ length svc.job_specs
        → svc.start_date ≤ svc.date
        → ((d : ℕ) → (sv.save service_key d store).0 ≡ none)
        → Ensures
            (λ r. Resumes r.1.date r.2 (
              new_job_service sv zero_pdt parse_pdt now no_nil last svc.start_date base sources
                r.2))
            (next_spec sv c svc store)
    unfolding next_spec
    next_spec-Resumes c now last svc store no_nil base sources i e l ok =
        let (spec, g) = get_elem?_total svc.job_specs svc.next_index i in
        let moved : Service P = record svc { next_index = svc.next_index + 1 } in
        let next = advance_date sv c moved in
        let a = advance_date-Advances sv c moved l in
        let whole : leb (length svc.job_specs) (svc.next_index + 1) ≡ true = ground (arith, e) in
        rw g (
          rw whole (
            new_job_service-Resumes now last svc.start_date next.date no_nil base sources
              (try_save sv service_key next.date store)
              (sv.save_holds service_key next.date store (ok next.date)) a.1))

    -- On a ready service whose date has not fallen below the start date, the call of NextJob that hands out
    -- the last job spec of a date, at a reading before yesterday is due, where Save gives no error: a service
    -- that NewJobService then creates anew, with the same start date, has the date that this service has
    -- gone on to, if Fetch gives no error.
    pub next_job-Resumes :
        (c : ℕ → ℕ) (now last : ℕ) (svc : Service P) (store : sv.Store) (no_nil : Bool)
        (base : String) (sources : List SourceConfig)
        → IsReady svc
        → suc svc.next_index ≡ length svc.job_specs
        → svc.start_date ≤ svc.date
        → c 0 < svc.yesterday.date + (day + svc.yesterday.delay)
        → ((d : ℕ) → (sv.save service_key d store).0 ≡ none)
        → Ensures
            (λ r. Resumes r.1.date r.2 (
              new_job_service sv zero_pdt parse_pdt now no_nil last svc.start_date base sources
                r.2))
            (next_job sv c svc store)
    unfolding next_job yesterday_job
    next_job-Resumes c now last svc store no_nil base sources v e l early ok =
        let y = svc.yesterday in
        let not_due : ltb (c 0 - y.date) (day + y.delay) ≡ true = ground (arith, early) in
        rw not_due
          (next_spec-Resumes (c 1) now last svc store no_nil base sources v.spec_ready e l ok)
