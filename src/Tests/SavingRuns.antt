-- ===== src/Tests/SavingRuns.antt =====
-- tracker.go, saveEvery: ticks, with an update or a heartbeat of a job while the first of them saves.
use etl_gardener.Base.{
  String_discrete, ℕ_discrete, insert, ap, lookup, some, true, ◌≡◌, ◌≢◌, ◌+◌, ◌*◌, ◌>>=◌, refl, ℕ,
  none, List, [], ◌∷◌, ◌++◌, arith, Ensures,
}
use etl_gardener.Tracker.{
  heartbeat, update_job, replace_status, put_status, updates, beats, step, run, find, get_state,
  Tracker,
}
use etl_gardener.Store.{sync, end_sync}
use etl_gardener.Store.Saving.{turn, Turn, ticks, turns, save_every, InOrder}
use etl_gardener.Store.Saved.{Durable, save_every-Durable}
use etl_gardener.Store.Lost.{Lost, sync_around-loses}
use etl_gardener.Job.{Job_discrete}
use etl_gardener.Status
use etl_gardener.Status.{Status}
use etl_gardener.Tests.TrackerRuns.{started_status, ndt, small, small-IsValid}
use etl_gardener.Tests.HandlerRuns.{disk}

abbrev at : ℕ → ℕ → ℕ
at t n = t

-- An update of the job comes while the Sync of the first tick writes.
abbrev history : List (Turn × ℕ)
history = (ticks (at 7) ((at 8, updates ndt "loading" "-") ∷ []), 8) ∷ []

history-InOrder : InOrder 7 (history ++ (ticks (at 9) [], 9) ∷ [])
history-InOrder = (
  ((λ n. (omega arith, omega arith)), ((λ n. (omega arith, omega arith)), tt)),
  (((λ n. (omega arith, omega arith)), tt), tt),
)

save_every-Durable_example :
    Ensures
      (λ s. Ensures (Durable disk) (sync disk (at 9) s.last_save s.tracker s.entity))
      (turns disk (save_every disk small none) history)
save_every-Durable_example =
    save_every-Durable disk small none 7 history (at 9) 9 small-IsValid history-InOrder

-- A heartbeat at 8, between GetState at 7 and lastTry at 9.
abbrev rising : ℕ → ℕ
rising n = 7 + 2 * n

abbrev beaten : Tracker
beaten = record small {
  last_modified = 8;
  jobs = (ndt, record started_status { heartbeat_time = 8 }) ∷ [];
}

beaten_differs : find ndt beaten ≢ find ndt small
unfolding lookup Job_discrete String_discrete ℕ_discrete
beaten_differs e =
    let same : record started_status { heartbeat_time = 8 } ≡ started_status = cc e in
    absurd (omega (arith, ap (λ (x : Status). x.heartbeat_time) same))

read_small : get_state (rising 0) small ≡ some (small, small.jobs, ndt, 5)
unfolding get_state Status.detail_time Status.is_done Status.label
read_small = refl

beat_small : run small ((at 8, beats ndt) ∷ []) ≡ some beaten
unfolding run step heartbeat lookup Job_discrete String_discrete ℕ_discrete update_job
    replace_status Status.state put_status Status.is_done insert
beat_small = refl

read_beaten : get_state (at 10 0) beaten ≡ some (beaten, beaten.jobs, ndt, 8)
unfolding get_state Status.detail_time Status.is_done Status.label
read_beaten = refl

saves : (end_sync disk rising 0 small.jobs ndt 5 none).2 ≡ true
unfolding end_sync
saves = refl

sync_around-loses_example : Ensures (Lost disk ndt) (
    turn disk (save_every disk small none) (ticks rising ((at 8, beats ndt) ∷ [])) >>= λ s'.
    sync disk (at 10) s'.last_save s'.tracker s'.entity)
unfolding save_every
sync_around-loses_example =
    sync_around-loses disk rising (at 10) (save_every disk small none) ((at 8, beats ndt) ∷ []) ndt
      (small, small.jobs, ndt, 5) (beaten, beaten.jobs, ndt, 8) beaten small-IsValid read_small
      beat_small read_beaten (omega arith) saves (omega arith) beaten_differs
