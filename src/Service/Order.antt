-- ===== src/Service/Order.antt =====
-- job-service.go: NextJob hands out the jobs in the order of the reference in Service/Rounds.antt.
use etl_gardener.Base.{
  ℕ, suc, ◌∙◌, sym, subst, ◌+◌, ◌-◌, ◌<◌, ◌≡◌, refl, true, false, ap, Option, none, some, List, [],
  ◌∷◌, ◌++◌, map, if◌then◌else◌, ◌>>=◌, ltb, leb, length, drop, get_elem?, get_elem?_total, Ensures,
  Ensures-bind, Ensures-step, Ensures-mono, All, arith, if_rule,
}
use etl_gardener.Job.{JobWithTarget, day, truncate}
use etl_gardener.Persistence.{Saver}
use etl_gardener.Service.{
  YesterdaySource, Service, dated, yesterday_job, advance_date, next_spec, next_job,
}
use etl_gardener.Service.Ready.{IsReady, next_job-IsReady}
use etl_gardener.Service.Rounds.{
  Plan, date_after, pop, pop_yesterday, pop_current, plan_next, plan_run, round_of, plan_of,
  plan_later, plan_due, pop_from-drop, left, IsEarly, plan_round,
}

module _ {P : Type 0} where
  current-drop :
      (now : ℕ) (svc : Service P) {spec : JobWithTarget P}
      → get_elem? svc.job_specs svc.next_index ≡ some spec
      → pop_current now (plan_of svc)
        ≡ some (
          dated svc.date spec,
          record (plan_of svc) {
            current =
                if leb (length svc.job_specs) (svc.next_index + 1)
                then record {
                  specs = svc.job_specs;
                  todo = svc.job_specs;
                  date = date_after now svc.start_date svc.date;
                }
                else record {
                  specs = svc.job_specs;
                  todo = drop (svc.next_index + 1) svc.job_specs;
                  date = svc.date;
                };
          },
        )
  unfolding pop_current pop plan_of
  current-drop now svc e =
      rw
        (pop_from-drop svc.job_specs (date_after now svc.start_date svc.date) svc.date svc.job_specs
          svc.next_index e)
        refl

  module _ (sv : Saver) where
    advance-date :
        (now : ℕ) (svc : Service P)
        → (advance_date sv now svc).date ≡ date_after now svc.start_date svc.date
    unfolding advance_date date_after
    advance-date now svc = ground arith

    next_spec-refines :
        (now : ℕ) (svc : Service P) (store : sv.Store)
        → IsReady svc
        → Ensures
            (λ r. pop_current now (plan_of svc) ≡ some (r.0, plan_of r.1))
            (next_spec sv now svc store)
    unfolding next_spec plan_of advance_date
    next_spec-refines now svc store v =
        let (spec, e) = get_elem?_total svc.job_specs svc.next_index v.spec_ready in
        let d = advance-date now svc in
        let l = current-drop now svc e in
        rw e (
          if_rule
            (λ (x : JobWithTarget P × Service P × sv.Store).
              pop_current now (plan_of svc) ≡ some (x.0, plan_of x.1))
            (leb (length svc.job_specs) (svc.next_index + 1)) _ _ (λ b. l ∙ rw b (rw (← d) refl))
            λ b. l ∙ rw b refl)

    yesterday-drop :
        (y : YesterdaySource P) {spec : JobWithTarget P} (next : ℕ)
        → get_elem? y.job_specs y.next_index ≡ some spec
        → pop next (round_of y)
          ≡ some (
            dated y.date spec,
            if leb (length y.job_specs) (y.next_index + 1)
                then record { specs = y.job_specs; todo = y.job_specs; date = next }
                else record {
                  specs = y.job_specs;
                  todo = drop (y.next_index + 1) y.job_specs;
                  date = y.date;
                },
          )
    unfolding pop round_of
    yesterday-drop y next e = pop_from-drop y.job_specs next y.date y.job_specs y.next_index e

    -- What nextJob has done, by the reference.
    abbrev Popped : ℕ → YesterdaySource P → Option (JobWithTarget P) → YesterdaySource P → Type 0
    Popped now y none y' = (ltb now (y.date + (day + y.delay)) ≡ true) × (y' ≡ y)
    Popped now y (some jt) y' =
        (ltb now (y.date + (day + y.delay)) ≡ false)
        × (pop (truncate (y.date + day) day) (round_of y) ≡ some (jt, round_of y'))
        × (y'.delay ≡ y.delay)

    yesterday_rounds :
        (now : ℕ) (y : YesterdaySource P) (store : sv.Store)
        → y.next_index < length y.job_specs
        → Ensures (λ r. Popped now y r.0 r.1) (yesterday_job sv now y store)
    unfolding yesterday_job round_of
    yesterday_rounds now y store h =
        let (spec, e) = get_elem?_total y.job_specs y.next_index h in
        let l = yesterday-drop y (truncate (y.date + day) day) e in
        rw e (
          if_rule (Ensures (λ r. Popped now y r.0 r.1)) (ltb (now - y.date) (day + y.delay)) _ _
            (λ b. (ground (arith, b), refl))
            λ b.
              if_rule
                (λ (r : Option (JobWithTarget P) × YesterdaySource P × sv.Store).
                  Popped now y r.0 r.1)
                (leb (length y.job_specs) (y.next_index + 1)) _ _
                (λ a. (ground (arith, b), l ∙ rw a refl, refl))
                λ a. (ground (arith, b), l ∙ rw a refl, refl))

    due_or_next :
        (c : ℕ → ℕ) (svc : Service P) (y : YesterdaySource P) (store : sv.Store)
        (due : Option (JobWithTarget P))
        → IsReady svc
        → Popped (c 0) svc.yesterday due y
        → Ensures
            (λ r. plan_next c (plan_of svc) ≡ some (r.0, plan_of r.1))
            (elim due [
              | some j ↦ some (j, record svc { yesterday = y }, store)
              | none ↦ next_spec sv (c 1) (record svc { yesterday = y }) store
            ])
    unfolding plan_of pop_yesterday
    due_or_next c svc y store none v h =
        subst
          (λ z.
            Ensures (λ r. plan_next c (plan_of svc) ≡ some (r.0, plan_of r.1))
              (next_spec sv (c 1) (record svc { yesterday = z }) store))
          (sym h.1) (rw (plan_later c (plan_of svc) h.0) (next_spec-refines (c 1) svc store v))
    due_or_next c svc y store (some j) v h = plan_due c (plan_of svc) h.0 ∙ rw h.1 (rw h.2 refl)

    -- NextJob on a ready service does what the reference does.
    next_job-refines :
        (c : ℕ → ℕ) (svc : Service P) (store : sv.Store)
        → IsReady svc
        → Ensures
            (λ r. plan_next c (plan_of svc) ≡ some (r.0, plan_of r.1))
            (next_job sv c svc store)
    unfolding next_job
    next_job-refines c svc store v =
        Ensures-bind {A = Option (JobWithTarget P) × YesterdaySource P × sv.Store}
          (λ r. Popped (c 0) svc.yesterday r.0 r.1)
          (λ r. plan_next c (plan_of svc) ≡ some (r.0, plan_of r.1)) _ _
          (yesterday_rounds (c 0) svc.yesterday store v.yesterday_ready)
          λ y d. due_or_next c svc y.1 y.2 y.0 v d

    -- Calls of NextJob, one after another.
    abbrev pub hand_out :
        List (ℕ → ℕ) → Service P → sv.Store → Option (List (JobWithTarget P) × Service P × sv.Store)
    hand_out [] svc store = some ([], svc, store)
    hand_out (c ∷ cs) svc store = do
      r ← next_job sv c svc store
      rest ← hand_out cs r.1 r.2
      some (r.0 ∷ rest.0, rest.1, rest.2)

    -- Calls of NextJob on a service whose two indices lie within their job specs do not panic, and
    -- hand out, one after another, the jobs of the reference: yesterday's specs in their order while
    -- yesterday is due, else the specs of the date in theirs, and a round begins only when the one
    -- before has none left. What the service has left is what the reference has.
    pub hand_out-refines :
        (cs : List (ℕ → ℕ)) (svc : Service P) (store : sv.Store)
        → IsReady svc
        → Ensures
            (λ r. IsReady r.1 × (plan_run cs (plan_of svc) ≡ some (r.0, plan_of r.1)))
            (hand_out cs svc store)
    unfolding plan_run
    hand_out-refines [] svc store v = (v, refl)
    hand_out-refines (c ∷ cs) svc store v =
        Ensures-step {A = JobWithTarget P × Service P × sv.Store} (λ r. IsReady r.1)
          (λ r. plan_next c (plan_of svc) ≡ some (r.0, plan_of r.1))
          (λ r. IsReady r.1 × (plan_run (c ∷ cs) (plan_of svc) ≡ some (r.0, plan_of r.1))) _ _
          (next_job-IsReady sv c svc store v) (next_job-refines c svc store v)
          λ r _ w e.
            Ensures-bind {A = List (JobWithTarget P) × Service P × sv.Store}
              (λ s. IsReady s.1 × (plan_run cs (plan_of r.1) ≡ some (s.0, plan_of s.1)))
              (λ s. IsReady s.1 × (plan_run (c ∷ cs) (plan_of svc) ≡ some (s.0, plan_of s.1))) _ _
              (hand_out-refines cs r.1 r.2 w) λ s h. (h.0, rw e (rw h.1 refl))

    whole_round :
        (cs : List (ℕ → ℕ)) (c : ℕ → ℕ) (p : Plan P) (l : List (JobWithTarget P))
        → suc (length cs) ≡ length l
        → All (IsEarly p) cs
        → IsEarly p c
        → plan_run (cs ++ c ∷ []) (left p l)
          ≡ some (
            map (dated p.current.date) l,
            record p {
              current = record {
                specs = p.current.specs;
                todo = p.current.specs;
                date = date_after (c 1) p.start_date p.current.date;
              };
            },
          )
    whole_round cs c p [] e h l = absurd (omega (arith, e))
    whole_round cs c p (spec ∷ rest) e h l = plan_round p cs c spec rest (omega (arith, e)) h l

    -- On a ready service whose index is 0, as many calls of NextJob as there are job specs, at
    -- readings before yesterday is due, do not panic and hand out each job spec once, in its order,
    -- with the date of the service. Then all are left again, for the next day, or for the start
    -- date where the next day is less than 36 hours before the last reading.
    pub hand_out-round :
        (cs : List (ℕ → ℕ)) (c : ℕ → ℕ) (svc : Service P) (store : sv.Store)
        → IsReady svc
        → svc.next_index ≡ 0
        → suc (length cs) ≡ length svc.job_specs
        → All (IsEarly (plan_of svc)) cs
        → IsEarly (plan_of svc) c
        → Ensures
            (λ r.
              (r.0 ≡ map (dated svc.date) svc.job_specs)
              × (plan_of r.1 ≡ record (plan_of svc) {
                current = record {
                  specs = svc.job_specs;
                  todo = svc.job_specs;
                  date = date_after (c 1) svc.start_date svc.date;
                };
              }))
            (hand_out (cs ++ c ∷ []) svc store)
    unfolding plan_of
    hand_out-round cs c svc store v z e h l =
        Ensures-mono {A = List (JobWithTarget P) × Service P × sv.Store}
          (λ r. IsReady r.1 × (plan_run (cs ++ c ∷ []) (plan_of svc) ≡ some (r.0, plan_of r.1))) _ _
          (hand_out-refines (cs ++ c ∷ []) svc store v)
          λ r k.
            let w = whole_round cs c (plan_of svc) svc.job_specs e h l in
            let d : drop svc.next_index svc.job_specs ≡ svc.job_specs = rw z refl in
            let q : left (plan_of svc) svc.job_specs ≡ plan_of svc =
              ap (left (plan_of svc)) (sym d) in
            let t = sym k.1 ∙ ap (plan_run (cs ++ c ∷ [])) (sym q) ∙ w in (cc t, cc t)
