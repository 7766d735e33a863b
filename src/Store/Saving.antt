-- ===== src/Store/Saving.antt =====
-- tracker.go, saveEvery: the tracker between the calls of other components and the ticks that save it.
use etl_gardener.Base.{ℕ, ◌≤◌, List, [], ◌∷◌, Option, some, ◌>>=◌}
use etl_gardener.Tracker.{Tracker, Call, step, run, get_state}
use etl_gardener.Store.{Datastore, end_sync}

-- A call, or a tick of saveEvery, with its readings of the clock; and for a tick the calls that come between
-- the GetState of its Sync and the end of that Sync.
pub data Turn : Type 0 where
  calls : (ℕ → ℕ) → Call → Turn
  ticks : (ℕ → ℕ) → List ((ℕ → ℕ) × Call) → Turn

module _ (ds : Datastore) where
  -- `last_save` is the variable of the goroutine of saveEvery.
  pub record Saving : Type 0 where
    pub tracker : Tracker
    pub entity : ds.Entity
    pub last_save : ℕ

  -- The zero value of lastSave
  unfoldable pub save_every : Tracker → ds.Entity → Saving
  save_every tr entity = record { tracker = tr; entity = entity; last_save = 0 }

  -- An error of Sync is logged, and the loop goes on.
  unfoldable pub turn : Saving → Turn → Option Saving
  turn s (calls c call) = do
    tr ← step c s.tracker call
    some (record { tracker = tr; entity = s.entity; last_save = s.last_save })
  turn s (ticks c between) = do
    r ← get_state (c 0) s.tracker
    tr ← run r.0 between
    let e = end_sync ds c s.last_save r.1 r.2 r.3 s.entity
    some (record { tracker = tr; entity = e.0; last_save = e.1 })

  unfoldable pub turns : Saving → List (Turn × ℕ) → Option Saving
  turns s [] = some s
  turns s ((x, end_time) ∷ xs) = do s' ← turn s x; turns s' xs

-- The readings of calls are not before `t` and not after `end_time`.
abbrev pub AllBetween : ℕ → ℕ → List ((ℕ → ℕ) × Call) → Type 0
AllBetween t end_time [] = Unit
AllBetween t end_time ((c, call) ∷ cs) =
    ((n : ℕ) → (t ≤ c n) × (c n ≤ end_time)) × AllBetween t end_time cs

-- The readings of a turn are not before `t` and not after `end_time`, and the calls within a Sync come
-- after its reading of lastTry, which is `c 1`.
abbrev pub Between : ℕ → ℕ → Turn → Type 0
Between t end_time (calls c call) = (n : ℕ) → (t ≤ c n) × (c n ≤ end_time)
Between t end_time (ticks c between) =
    ((n : ℕ) → (t ≤ c n) × (c n ≤ end_time)) × AllBetween (c 1) end_time between

-- Each turn, with its end, comes after those before it, and the first not before `t`.
abbrev pub InOrder : ℕ → List (Turn × ℕ) → Type 0
InOrder t [] = Unit
InOrder t ((x, end_time) ∷ xs) = Between t end_time x × InOrder end_time xs
