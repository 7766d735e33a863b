-- ===== src/Dispatch/Dates.antt =====
-- reproc/dispatch.go: findNextRecentDay, doDispatchLoop and the restart date of RunDispatchLoop. A date is a
-- time in UTC, so that AddDate with days adds multiples of 24 hours. DATE_SKIP is at least 0. The time of
-- a reading of the clock is an argument.
use etl_gardener.Base.{
  ℕ, suc, zero, ◌+◌, ◌-◌, ◌*◌, ◌/◌, Bool, ◌&&◌, Option, none, some, List, [], ◌∷◌, ltb, ◌==◌,
  if◌then◌else◌,
}
use etl_gardener.Job.{day, truncate}

abbrev pub hour : ℕ
hour = 3600000000000

-- dailyDelay
abbrev pub daily_delay : ℕ
daily_delay = 10 * hour + hour / 2

-- The loop of findNextRecentDay, on fuel: the last date before it would pass `yesterday`.
unfoldable pub recent_loop : ℕ → ℕ → ℕ → ℕ → Option ℕ
recent_loop zero yesterday step current = none
recent_loop (suc fuel) yesterday step current =
    let rest = recent_loop fuel yesterday step (current + step) in
    if ltb (current + step) yesterday then rest else some current

-- findNextRecentDay
unfoldable pub find_next_recent_day : ℕ → ℕ → ℕ → ℕ → Option ℕ
find_next_recent_day fuel now start skip =
    let yesterday = truncate (now - (2 * hour + daily_delay)) day in
    let loop = recent_loop fuel yesterday ((1 + skip) * day) start in
    if skip == 0 then some yesterday else loop

-- The loop of RunDispatchLoop that moves the restart date after the latest date.
unfoldable pub restart_date : ℕ → ℕ → ℕ → ℕ → Option ℕ
restart_date zero max_date step date = none
restart_date (suc fuel) max_date step date =
    let rest = restart_date fuel max_date step (date + step) in
    if ltb max_date date then some date else rest

-- The dates of doDispatchLoop: `next`, and `next_recent`.
pub record Dates : Type 0 where
  pub next : ℕ
  pub next_recent : ℕ

unfoldable pub first_dates : ℕ → ℕ → Dates
first_dates start recent = record { next = truncate start day; next_recent = recent }

-- The date that a round adds a task for before its next one, if it does.
unfoldable pub recent_request : ℕ → Dates → Option ℕ
recent_request now d =
    if ltb (day + daily_delay) (now - d.next_recent) && ltb (d.next + hour) d.next_recent
    then some d.next_recent
    else none

-- The dates after a round that goes on: `now1` and `now2` are its two readings of the clock.
unfoldable pub next_dates : ℕ → ℕ → ℕ → ℕ → Dates → Dates
next_dates now1 now2 restart skip d =
    let step = (1 + skip) * day in
    let next = d.next + step in
    record {
      next = if ltb (now2 - next) (72 * hour) then restart else next;
      next_recent =
          if ltb (day + daily_delay) (now1 - d.next_recent)
          then d.next_recent + step
          else d.next_recent;
    }

-- A round, by its readings, and whether AddTask of `next` ends the loop.
pub record DispatchRound : Type 0 where
  pub now1 : ℕ
  pub now2 : ℕ
  pub ends : Bool

-- doDispatchLoop: the dates that AddTask is called with, the latest one first; the rounds are given.
abbrev pub requested : Option ℕ → List ℕ → List ℕ
requested none dates = dates
requested (some d) dates = d ∷ dates

unfoldable pub do_dispatch_loop : List DispatchRound → ℕ → ℕ → Dates → List ℕ → List ℕ
do_dispatch_loop [] restart skip d dates = dates
do_dispatch_loop (r ∷ rs) restart skip d dates =
    let asked = d.next ∷ requested (recent_request r.now1 d) dates in
    let rest = do_dispatch_loop rs restart skip (next_dates r.now1 r.now2 restart skip d) asked in
    if r.ends then asked else rest
