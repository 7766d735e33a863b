-- ===== src/Service/Ready.antt =====
-- job-service.go: a service never indexes past its job specs, and the dates that it hands out.
use etl_gardener.Base.{
  ℕ, ◌+◌, ◌-◌, ◌<◌, inl, inr, Option, none, some, ltb, leb, length, get_elem?_total, Ensures,
  Ensures-bind, Bool-cases, arith,
}
use etl_gardener.Job.{JobWithTarget, day}
use etl_gardener.Persistence.{Saver}
use etl_gardener.Service.{
  YesterdaySource, Service, yesterday_job, advance_date, next_spec, next_job,
}

-- The index is one of the job specs.
pub record IsReady {P : Type 0} (svc : Service P) : Type 0 where
  pub spec_ready : svc.next_index < length svc.job_specs
  pub yesterday_ready : svc.yesterday.next_index < length svc.yesterday.job_specs

module _ {P : Type 0} (sv : Saver) where
  next_spec-IsReady :
      (now : ℕ) (svc : Service P) (store : sv.Store)
      → IsReady svc
      → Ensures (λ r. IsReady r.1) (next_spec sv now svc store)
  unfolding next_spec advance_date
  next_spec-IsReady now svc store v =
      let (spec, e) = get_elem?_total svc.job_specs svc.next_index v.spec_ready in
      let i = v.spec_ready in
      let y = v.yesterday_ready in
      rw e (elim (Bool-cases (leb (length svc.job_specs) (svc.next_index + 1))) [
        | inl b ↦ rw b record { spec_ready = omega (arith, i); yesterday_ready = y }
        | inr b ↦ rw b record { spec_ready = ground (arith, b); yesterday_ready = y }
      ])

  pub yesterday_job-ready :
      (now : ℕ) (y : YesterdaySource P) (store : sv.Store)
      → y.next_index < length y.job_specs
      → Ensures (λ r. r.1.next_index < length r.1.job_specs) (yesterday_job sv now y store)
  unfolding yesterday_job
  yesterday_job-ready now y store h =
      let (spec, e) = get_elem?_total y.job_specs y.next_index h in
      rw e (elim (Bool-cases (ltb (now - y.date) (day + y.delay))) [
        | inl b ↦ rw b h
        | inr b ↦ rw b (elim (Bool-cases (leb (length y.job_specs) (y.next_index + 1))) [
          | inl a ↦ rw a (omega (arith, h))
          | inr a ↦ rw a (ground (arith, a))
        ])
      ])

  due_or_next :
      (c : ℕ → ℕ) (svc : Service P) (store : sv.Store) (due : Option (JobWithTarget P))
      → IsReady svc
      → Ensures
          (λ r. IsReady r.1)
          (elim due [ some j ↦ some (j, svc, store) | none ↦ next_spec sv (c 1) svc store ])
  due_or_next c svc store none v = next_spec-IsReady (c 1) svc store v
  due_or_next c svc store (some j) v = v

  -- NextJob on a service whose two indices lie within their job specs does not panic, and both
  -- indices lie within them again.
  pub next_job-IsReady :
      (c : ℕ → ℕ) (svc : Service P) (store : sv.Store)
      → IsReady svc
      → Ensures (λ r. IsReady r.1) (next_job sv c svc store)
  unfolding next_job
  next_job-IsReady c svc store v =
      Ensures-bind (λ r. r.1.next_index < length r.1.job_specs) (λ r. IsReady r.1) _ _
        (yesterday_job-ready (c 0) svc.yesterday store v.yesterday_ready)
        λ y h.
          let moved : Service P = record svc { yesterday = y.1 } in
          let w : IsReady moved = record { spec_ready = v.spec_ready; yesterday_ready = h } in
          due_or_next c moved y.2 y.0 w
