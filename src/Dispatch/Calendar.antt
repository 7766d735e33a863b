-- ===== src/Dispatch/Calendar.antt =====
-- The dates of the dispatcher: the loops on them end, and where; and which dates are asked for.
use native.Mathlib.Nat.{add-mul}
use etl_gardener.Base.{
  ℕ, suc, zero, ◌+◌, ◌-◌, ◌*◌, ◌≤◌, ◌<◌, ◌≡◌, ◌⊎◌, inl, inr, refl, arith, Bool, true, false, List,
  [], ◌∷◌, All, Ensures, Ensures-mono, if_rule, ltb, ◌==◌, ◌&&◌,
}
use etl_gardener.Job.{day, truncate}
use etl_gardener.Dispatch.Dates.{
  hour, daily_delay, recent_loop, find_next_recent_day, restart_date, Dates, first_dates,
  recent_request, next_dates, DispatchRound, requested, do_dispatch_loop,
}

-- A date that is some steps after `start`.
abbrev pub Steps : ℕ → ℕ → ℕ → Type 0
Steps start step d = (k : ℕ) × (d ≡ start + k * step)

Steps-next : (start step d : ℕ) → Steps (start + step) step d → Steps start step d
Steps-next start step d (k, e) = (k + 1, let a = add-mul k 1 step in omega (arith, e, a))

-- The last date of the sequence before `yesterday`, or its first one.
abbrev pub LastBefore : ℕ → ℕ → ℕ → ℕ → Type 0
LastBefore yesterday start step d =
    ((d ≡ start) ⊎ (d < yesterday)) × (yesterday ≤ d + step) × Steps start step d

recent_loop-LastBefore :
    (fuel yesterday step start : ℕ)
    → day ≤ step
    → 0 < fuel
    → yesterday ≤ start + fuel * day
    → Ensures (LastBefore yesterday start step) (recent_loop fuel yesterday step start)
unfolding recent_loop
recent_loop-LastBefore zero yesterday step start s p h = absurd (omega (arith, p))
recent_loop-LastBefore (suc fuel) yesterday step start s p h =
    if_rule (Ensures (LastBefore yesterday start step)) (ltb (start + step) yesterday) _ _
      (λ a.
        let l : start + step < yesterday = ground (arith, a) in
        Ensures-mono (LastBefore yesterday (start + step) step) (LastBefore yesterday start step) _
          (recent_loop-LastBefore fuel yesterday step (start + step) s (omega (arith, s, h, l))
            (omega (arith, s, h)))
          (λ d g. (
            inr (elim g.0 [ inl e ↦ omega (arith, e, l) | inr b ↦ b ]),
            g.1,
            Steps-next start step d g.2,
          )))
      (λ a. (inl refl, ground (arith, a), (0, omega arith)))

-- The first date of the sequence after `max_date`.
abbrev pub FirstAfter : ℕ → ℕ → ℕ → ℕ → Type 0
FirstAfter max_date start step d =
    (max_date < d) × ((d ≡ start) ⊎ (d ≤ max_date + step)) × Steps start step d

restart_date-FirstAfter :
    (fuel max_date step start : ℕ)
    → day ≤ step
    → 0 < fuel
    → max_date + day < start + fuel * day
    → Ensures (FirstAfter max_date start step) (restart_date fuel max_date step start)
unfolding restart_date
restart_date-FirstAfter zero max_date step start s p h = absurd (omega (arith, p))
restart_date-FirstAfter (suc fuel) max_date step start s p h =
    if_rule (Ensures (FirstAfter max_date start step)) (ltb max_date start) _ _
      (λ a. (ground (arith, a), inl refl, (0, omega arith)))
      (λ a.
        let l : start ≤ max_date = ground (arith, a) in
        Ensures-mono (FirstAfter max_date (start + step) step) (FirstAfter max_date start step) _
          (restart_date-FirstAfter fuel max_date step (start + step) s (omega (arith, h, l))
            (omega (arith, s, h)))
          (λ d g. (
            g.0,
            inr (elim g.1 [ inl e ↦ omega (arith, e, l) | inr b ↦ b ]),
            Steps-next start step d g.2,
          )))

-- With days to skip, findNextRecentDay returns, for fuel for the days from the start: the last date
-- before yesterday of those that lie 1 + DATE_SKIP days apart from the start on, or the start. With none
-- to skip it returns yesterday, and RunDispatchLoop finds the first date of such a sequence that is after
-- the latest date seen.
pub dates-found :
    (fuel now start max_date skip : ℕ)
    → let step = (1 + skip) * day in
      let yesterday = truncate (now - (2 * hour + daily_delay)) day in
      0 < fuel
      → yesterday ≤ start + fuel * day
      → max_date + day < start + fuel * day
      → Ensures
          (λ d. (skip ≡ 0 → d ≡ yesterday) × (0 < skip → LastBefore yesterday start step d))
          (find_next_recent_day fuel now start skip)
        × Ensures (FirstAfter max_date start step) (restart_date fuel max_date step start)
unfolding find_next_recent_day
dates-found fuel now start max_date skip p h k =
    let step = (1 + skip) * day in
    let yesterday = truncate (now - (2 * hour + daily_delay)) day in
    let Found =
      λ (d : ℕ). (skip ≡ 0 → d ≡ yesterday) × (0 < skip → LastBefore yesterday start step d) in
    (
      if_rule (Ensures Found) (skip == 0) _ _ (λ a. (λ e. refl, λ l. absurd (ground (arith, a, l))))
          (λ a.
            Ensures-mono (LastBefore yesterday start step) Found _
              (recent_loop-LastBefore fuel yesterday step start (omega arith) p h)
              (λ d g. (λ e. absurd (ground (arith, a, e)), λ l. g))),
      restart_date-FirstAfter fuel max_date step start (omega arith) p k,
    )

-- The dates that may be asked for: the first one, the restart date, and those whose 24 hours ended at
-- least dailyDelay before `latest`.
abbrev pub MayAsk : ℕ → ℕ → ℕ → ℕ → Type 0
MayAsk first restart latest d = (d ≡ first) ⊎ ((d ≡ restart) ⊎ (d + day + daily_delay < latest))

abbrev pub IsRead : ℕ → DispatchRound → Type 0
IsRead latest r = (r.now1 ≤ latest) × (r.now2 ≤ latest)

next_dates-MayAsk :
    (first restart latest now1 now2 skip : ℕ) (d : Dates)
    → now2 ≤ latest
    → MayAsk first restart latest (next_dates now1 now2 restart skip d).next
unfolding next_dates
next_dates-MayAsk first restart latest now1 now2 skip d h =
    let next = d.next + (1 + skip) * day in
    if_rule (MayAsk first restart latest) (ltb (now2 - next) (72 * hour)) _ _ (λ a. inr (inl refl))
      (λ a. let g : next + 72 * hour ≤ now2 = ground (arith, a) in inr (inr (omega (arith, g, h))))

late : (n : ℕ) (b : Bool) → ltb (day + daily_delay) n && b ≡ true → day + daily_delay < n
late n true e = ground (arith, e)
late n false e = absurd (ground (arith, e))

recent_request-MayAsk :
    (first restart latest now : ℕ) (d : Dates) (dates : List ℕ)
    → now ≤ latest
    → All (MayAsk first restart latest) dates
    → All (MayAsk first restart latest) (requested (recent_request now d) dates)
unfolding recent_request
recent_request-MayAsk first restart latest now d dates h k =
    if_rule (λ o. All (MayAsk first restart latest) (requested o dates))
      (ltb (day + daily_delay) (now - d.next_recent) && ltb (d.next + hour) d.next_recent) _ _
      (λ a. let g = late (now - d.next_recent) _ a in (inr (inr (omega (arith, g, h))), k)) (λ a. k)

do_dispatch_loop-MayAsk :
    (rs : List DispatchRound) (first restart skip latest : ℕ) (d : Dates) (dates : List ℕ)
    → All (IsRead latest) rs
    → MayAsk first restart latest d.next
    → All (MayAsk first restart latest) dates
    → All (MayAsk first restart latest) (do_dispatch_loop rs restart skip d dates)
unfolding do_dispatch_loop
do_dispatch_loop-MayAsk [] first restart skip latest d dates h m k = k
do_dispatch_loop-MayAsk (r ∷ rs) first restart skip latest d dates h m k =
    let asked : All (MayAsk first restart latest)
        (d.next ∷ requested (recent_request r.now1 d) dates) =
      (m, recent_request-MayAsk first restart latest r.now1 d dates h.0.0 k) in
    if_rule (All (MayAsk first restart latest)) r.ends _ _ (λ a. asked)
      (λ a.
        do_dispatch_loop-MayAsk rs first restart skip latest
          (next_dates r.now1 r.now2 restart skip d) _ h.1
          (next_dates-MayAsk first restart latest r.now1 r.now2 skip d h.0.1) asked)

-- doDispatchLoop asks AddTask only for the first date, for the restart date, and for days that ended more
-- than dailyDelay before the latest reading of the clock.
pub dispatch-MayAsk :
    (rs : List DispatchRound) (start restart recent skip latest : ℕ)
    → All (IsRead latest) rs
    → All
        (MayAsk (truncate start day) restart latest)
        (do_dispatch_loop rs restart skip (first_dates start recent) [])
unfolding first_dates
dispatch-MayAsk rs start restart recent skip latest h =
    do_dispatch_loop-MayAsk rs (truncate start day) restart skip latest (first_dates start recent)
      [] h (inl refl) tt
