-- ===== src/Service/Dates.antt =====
-- job-service.go: the dates that a service hands out.
use etl_gardener.Base.{
  ℕ, ◌+◌, ◌-◌, ◌*◌, ◌<◌, ◌≤◌, ◌≡◌, ◌⊎◌, inl, inr, refl, Bool, String, Option, none, some, List, [],
  ◌∷◌, ltb, leb, ◌==◌, length, get_elem?_total, Ensures, Ensures-mono, Ensures-bind, Bool-cases,
  arith, if_cases,
}
use etl_gardener.Job.{JobWithTarget, day, truncate}
use etl_gardener.Persistence.{Saver}
use etl_gardener.Service.{
  YesterdaySource, Service, NewService, created, hour, yesterday_job, init_yesterday, advance_date,
  next_spec, next_job, recover_date, service_from, new_job_service, SourceConfig,
}
use etl_gardener.Service.Ready.{IsReady}

later : (d : ℕ) → d < truncate (d + day) day
later d = ground arith

-- The start date is fixed and never passed. A change of the date is to the start date, or to a date
-- at least 36 hours before the reading `now`.
abbrev pub Advances : {P : Type 0} → ℕ → Service P → Service P → Type 0
Advances now svc t =
    (t.start_date ≡ svc.start_date)
    × (svc.start_date ≤ t.date)
    × ((t.date ≡ svc.date) ⊎ (t.date ≡ svc.start_date) ⊎ (t.date + 36 * hour ≤ now))

-- A job has the date of the service, or that of yesterday, with a day and the delay gone by.
abbrev pub Issued : {P : Type 0} → ℕ → Service P → JobWithTarget P → Type 0
Issued now svc jt =
    (jt.job.date ≡ svc.date)
    ⊎ ((jt.job.date ≡ svc.yesterday.date)
        × (svc.yesterday.date + (day + svc.yesterday.delay) ≤ now))

module _ {P : Type 0} (sv : Saver) where
  pub advance_date-Advances :
      (now : ℕ) (svc : Service P)
      → svc.start_date ≤ svc.date
      → Advances now svc (advance_date sv now svc)
  unfolding advance_date
  advance_date-Advances now svc h =
      let l = later svc.date in
      elim (Bool-cases (ltb (now - truncate (svc.date + day) day) (36 * hour))) [
        | inl b ↦ rw b (refl, omega arith, inr (inl refl))
        | inr b ↦ rw b (refl, omega (arith, h, l), inr (inr (ground (arith, b))))
      ]

  next_spec-Advances :
      (now : ℕ) (svc : Service P) (store : sv.Store)
      → svc.next_index < length svc.job_specs
      → svc.start_date ≤ svc.date
      → Ensures (λ r. Advances now svc r.1 × (r.0.job.date ≡ svc.date)) (next_spec sv now svc store)
  unfolding next_spec
  next_spec-Advances now svc store i h =
      let (spec, e) = get_elem?_total svc.job_specs svc.next_index i in
      rw e (elim (Bool-cases (leb (length svc.job_specs) (svc.next_index + 1))) [
        | inl b ↦
            rw b
              (advance_date-Advances now (record svc { next_index = svc.next_index + 1 }) h, refl)
        | inr b ↦ rw b ((refl, h, inl refl), refl)
      ])

  abbrev YesterdayDue : ℕ → YesterdaySource P → Option (JobWithTarget P) → Type 0
  YesterdayDue now y none = Unit
  YesterdayDue now y (some jt) = (jt.job.date ≡ y.date) × (y.date + (day + y.delay) ≤ now)

  yesterday_job-Due :
      (now : ℕ) (y : YesterdaySource P) (store : sv.Store)
      → y.next_index < length y.job_specs
      → Ensures (λ r. YesterdayDue now y r.0) (yesterday_job sv now y store)
  unfolding yesterday_job
  yesterday_job-Due now y store h =
      let (spec, e) = get_elem?_total y.job_specs y.next_index h in
      rw e (elim (Bool-cases (ltb (now - y.date) (day + y.delay))) [
        | inl b ↦ rw b tt
        | inr b ↦ rw b (elim (Bool-cases (leb (length y.job_specs) (y.next_index + 1))) [
          | inl a ↦ rw a (refl, ground (arith, b))
          | inr a ↦ rw a (refl, ground (arith, b))
        ])
      ])

  due_or_next :
      (c : ℕ → ℕ) (svc : Service P) (y : YesterdaySource P) (store : sv.Store)
      (due : Option (JobWithTarget P))
      → svc.next_index < length svc.job_specs
      → svc.start_date ≤ svc.date
      → YesterdayDue (c 0) svc.yesterday due
      → Ensures
          (λ r. Advances (c 1) svc r.1 × Issued (c 0) svc r.0)
          (elim due [
            | some j ↦ some (j, record svc { yesterday = y }, store)
            | none ↦ next_spec sv (c 1) (record svc { yesterday = y }) store
          ])
  due_or_next c svc y store none i h d =
      Ensures-mono (λ r. Advances (c 1) svc r.1 × (r.0.job.date ≡ svc.date)) _ _
        (next_spec-Advances (c 1) (record svc { yesterday = y }) store i h) λ r g. (g.0, inl g.1)
  due_or_next c svc y store (some j) i h d = ((refl, h, inl refl), inr d)

  -- NextJob on a ready service whose date has not fallen below the start date hands out a job with
  -- the date of the service, or with that of yesterday if a day and the delay have gone by since.
  -- The start date stays and the date does not fall below it; the date changes at most to the start
  -- date, or to a date 36 hours or more before the reading of the clock.
  pub next_job-Advances :
      (c : ℕ → ℕ) (svc : Service P) (store : sv.Store)
      → IsReady svc
      → svc.start_date ≤ svc.date
      → Ensures (λ r. Advances (c 1) svc r.1 × Issued (c 0) svc r.0) (next_job sv c svc store)
  unfolding next_job
  next_job-Advances c svc store v h =
      Ensures-bind {A = Option (JobWithTarget P) × YesterdaySource P × sv.Store}
        (λ r. YesterdayDue (c 0) svc.yesterday r.0)
        (λ r. Advances (c 1) svc r.1 × Issued (c 0) svc r.0) _ _
        (yesterday_job-Due (c 0) svc.yesterday store v.yesterday_ready)
        λ y d. due_or_next c svc y.1 y.2 y.0 v.spec_ready h d

  -- What NewJobService creates.
  abbrev pub Starts : ℕ → NewService P → Type 0
  Starts start_date (created svc) =
      IsReady svc
      × (svc.start_date ≡ start_date)
      × (svc.start_date ≤ svc.date)
      × (svc.next_index ≡ 0)
  Starts start_date _ = Unit

  recover_date-start :
      (last : ℕ) (store : sv.Store) (svc : Service P)
      → svc.start_date ≤ (recover_date sv last store svc).date
  unfolding recover_date
  recover_date-start last store svc = ground arith

  module _ (zero_pdt : P) (parse_pdt : String → Option P) where
    service_from-Starts :
        (now last start_date : ℕ) (store : sv.Store) (specs : List (JobWithTarget P))
        → Starts start_date (service_from sv zero_pdt parse_pdt now last start_date store specs)
    unfolding service_from recover_date init_yesterday
    service_from-Starts now last start_date store [] = tt
    service_from-Starts now last start_date store (spec ∷ specs) = (
      record { spec_ready = omega arith; yesterday_ready = omega arith },
      refl,
      ground arith,
      refl,
    )

    -- A service that NewJobService creates is ready for NextJob, begins with the first job spec,
    -- and its date is not before the start date, whatever the saver and the tracker remember.
    pub new_job_service-Starts :
        (now last start_date : ℕ) (no_nil : Bool) (base : String) (sources : List SourceConfig)
        (store : sv.Store)
        → Starts start_date
            (new_job_service sv zero_pdt parse_pdt now no_nil last start_date base sources store)
    unfolding new_job_service
    new_job_service-Starts now last start_date no_nil base sources store =
        if_cases (Starts start_date) (start_date == 0) _ _ tt (
          if_cases (Starts start_date) no_nil _ _ (service_from-Starts now last start_date store _)
            tt)
