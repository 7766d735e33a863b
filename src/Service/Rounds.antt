-- ===== src/Service/Rounds.antt =====
-- job-service.go: the order in which NextJob hands out the jobs. The reference keeps, instead of an
-- index, the job specs that are left in the round of a date.
use etl_gardener.Base.{
  ℕ, zero, suc, ◌+◌, ◌*◌, ◌≡◌, refl, true, false, Option, none, some, List, [], ◌∷◌, ◌++◌, map,
  if◌then◌else◌, ◌>>=◌, ltb, leb, length, drop, get_elem?, All, arith,
}
use etl_gardener.Job.{JobWithTarget, day, truncate}
use etl_gardener.Service.{YesterdaySource, Service, hour, dated}

-- The round of a date over the job specs, of which `todo` are left.
pub record DateRound (P : Type 0) : Type 0 where
  pub specs : List (JobWithTarget P)
  pub todo : List (JobWithTarget P)
  pub date : ℕ

pub record Plan (P : Type 0) : Type 0 where
  pub current : DateRound P
  pub yesterday : DateRound P
  pub start_date : ℕ
  pub delay : ℕ

-- The date after `d`, and the start date where that is less than 36 hours ago.
unfoldable pub date_after : ℕ → ℕ → ℕ → ℕ
date_after now start d =
    let next = truncate (d + day) day in if ltb now (next + 36 * hour) then start else next

module _ {P : Type 0} where
  -- The first spec that is left, with the date of the round. After the last one comes the round of
  -- the date `next`.
  unfoldable pub pop_from :
      List (JobWithTarget P)
      → ℕ
      → ℕ
      → List (JobWithTarget P)
      → Option (JobWithTarget P × DateRound P)
  pop_from specs next d [] = none
  pop_from specs next d (spec ∷ []) =
      some (dated d spec, record { specs = specs; todo = specs; date = next })
  pop_from specs next d (spec ∷ s ∷ rest) =
      some (dated d spec, record { specs = specs; todo = s ∷ rest; date = d })

  unfoldable pub pop : ℕ → DateRound P → Option (JobWithTarget P × DateRound P)
  unfolding pop_from
  pop next r = pop_from r.specs next r.date r.todo

  unfoldable pub pop_yesterday : Plan P → Option (JobWithTarget P × Plan P)
  unfolding pop
  pop_yesterday p = do
    r ← pop (truncate (p.yesterday.date + day) day) p.yesterday
    some (r.0, record p { yesterday = r.1 })

  unfoldable pub pop_current : ℕ → Plan P → Option (JobWithTarget P × Plan P)
  unfolding pop date_after
  pop_current now p = do
    r ← pop (date_after now p.start_date p.current.date) p.current
    some (r.0, record p { current = r.1 })

  -- The reference of NextJob.
  unfoldable pub plan_next : (ℕ → ℕ) → Plan P → Option (JobWithTarget P × Plan P)
  unfolding pop_yesterday pop_current
  plan_next c p =
      if ltb (c 0) (p.yesterday.date + (day + p.delay))
      then pop_current (c 1) p
      else pop_yesterday p

  unfoldable pub plan_run : List (ℕ → ℕ) → Plan P → Option (List (JobWithTarget P) × Plan P)
  unfolding plan_next
  plan_run [] p = some ([], p)
  plan_run (c ∷ cs) p = do r ← plan_next c p; rest ← plan_run cs r.1; some (r.0 ∷ rest.0, rest.1)

  -- What a service has left.
  unfoldable pub round_of : YesterdaySource P → DateRound P
  round_of y = record { specs = y.job_specs; todo = drop y.next_index y.job_specs; date = y.date }

  unfoldable pub plan_of : Service P → Plan P
  unfolding round_of
  plan_of svc = record {
    current = record {
      specs = svc.job_specs;
      todo = drop svc.next_index svc.job_specs;
      date = svc.date;
    };
    yesterday = round_of svc.yesterday;
    start_date = svc.start_date;
    delay = svc.yesterday.delay;
  }

  pub plan_later :
      (c : ℕ → ℕ) (p : Plan P)
      → ltb (c 0) (p.yesterday.date + (day + p.delay)) ≡ true
      → plan_next c p ≡ pop_current (c 1) p
  unfolding plan_next
  plan_later c p h = rw h refl

  pub plan_due :
      (c : ℕ → ℕ) (p : Plan P)
      → ltb (c 0) (p.yesterday.date + (day + p.delay)) ≡ false
      → plan_next c p ≡ pop_yesterday p
  unfolding plan_next
  plan_due c p h = rw h refl

  pub pop_from-drop :
      (specs : List (JobWithTarget P)) (next d : ℕ) (l : List (JobWithTarget P)) (i : ℕ)
      {spec : JobWithTarget P}
      → get_elem? l i ≡ some spec
      → pop_from specs next d (drop i l)
        ≡ some (
          dated d spec,
          if leb (length l) (i + 1)
              then record { specs = specs; todo = specs; date = next }
              else record { specs = specs; todo = drop (i + 1) l; date = d },
        )
  unfolding pop_from
  pop_from-drop specs next d [] i e = cc
  pop_from-drop specs next d (x ∷ []) zero e = ground arith
  pop_from-drop specs next d (x ∷ y ∷ l) zero e = ground arith
  pop_from-drop specs next d (x ∷ l) (suc i) e = ground (arith, pop_from-drop specs next d l i e)

  -- A plan whose current round has these specs left.
  abbrev pub left : Plan P → List (JobWithTarget P) → Plan P
  left p l = record p {
    current = record { specs = p.current.specs; todo = l; date = p.current.date };
  }

  -- A reading at which yesterday is not due.
  abbrev pub IsEarly : Plan P → (ℕ → ℕ) → Type 0
  IsEarly p c = ltb (c 0) (p.yesterday.date + (day + p.delay)) ≡ true

  -- While yesterday is not due, the reference hands out what is left of the round.
  pub plan_round :
      (p : Plan P) (cs : List (ℕ → ℕ)) (c : ℕ → ℕ) (spec : JobWithTarget P)
      (rest : List (JobWithTarget P))
      → length cs ≡ length rest
      → All (IsEarly p) cs
      → IsEarly p c
      → plan_run (cs ++ c ∷ []) (left p (spec ∷ rest))
        ≡ some (
          map (dated p.current.date) (spec ∷ rest),
          record p {
            current = record {
              specs = p.current.specs;
              todo = p.current.specs;
              date = date_after (c 1) p.start_date p.current.date;
            };
          },
        )
  unfolding plan_run pop_current pop pop_from
  plan_round p [] c spec [] e h l = rw (plan_later c (left p (spec ∷ [])) l) refl
  plan_round p [] c spec (s ∷ rest) e h l = absurd (omega (arith, e))
  plan_round p (d ∷ cs) c spec [] e h l = absurd (omega (arith, e))
  plan_round p (d ∷ cs) c spec (s ∷ rest) e h l =
      rw (plan_later d (left p (spec ∷ s ∷ rest)) h.0)
        (rw (plan_round p cs c s rest (omega (arith, e)) h.1 l) refl)
