-- ===== src/TaskQueue/Emptied.antt =====
-- WaitForEmptyQueue: what it has seen when it returns without an error.
use etl_gardener.Base.{ℕ, ◌+◌, ◌*◌, ◌≤◌, ◌<◌, ◌≡◌, ◌⊎◌, String, Option, none, some}
use etl_gardener.World.{Returns}
use etl_gardener.TaskQueue.{
  Outside, QueueHandler, QueueStatistics, get_taskqueue_stats, reply_stats, lift, minute, stats_url,
  Config,
}
use etl_gardener.TaskQueue.Waiting.{Round, returned, again}

-- The clock does not go back, and a sleep takes at least its time.
pub record Clocked (out : Outside) : Type 0 where
  pub get_later : (url : String) (w : out.World) → out.clock w ≤ out.clock (out.get url w).1
  pub rand_later : (n : ℕ) (w : out.World) → out.clock w ≤ out.clock (out.rand_intn n w).1
  pub sleep_later : (d : ℕ) (w : out.World) → out.clock w + d ≤ out.clock (out.sleep d w)
  pub observe_later :
      (label : String) (d : ℕ) (w : out.World)
      → out.clock w ≤ out.clock (out.observe_recovery label d w)

module _ (out : Outside) (qh : QueueHandler) (x : Clocked out) where
  lift-later :
      (n : ℕ) (o : Option (QueueStatistics × Option String)) (w : out.World)
      → n ≤ out.clock w
      → Returns (λ _ w'. n ≤ out.clock w') (lift out o w)
  lift-later n none w h = tt
  lift-later n (some r) w h = h

  pub get_taskqueue_stats-later :
      (config : Config) (name : String) (w : out.World)
      → Returns (λ _ w'. out.clock w ≤ out.clock w') (get_taskqueue_stats out config name w)
  unfolding get_taskqueue_stats
  get_taskqueue_stats-later config name w =
      let r = out.get (stats_url config.project name) w in
      let later = x.get_later (stats_url config.project name) w in
      lift-later (out.clock w) (reply_stats out r.0) r.1 later

-- `busy` is the time of the last report, without an error, of a queue that was not empty: a report of
-- one sets it, and nothing else that the waits do changes it.
pub record Watched (out : Outside) (qh : QueueHandler) (busy : out.World → ℕ) : Type 0 where
  pub sets_busy :
      (w1 w2 : out.World) (s : QueueStatistics)
      → get_taskqueue_stats out qh.config qh.queue w1 ≡ some ((s, none), w2)
      → 0 < s.tasks + s.in_flight
      → busy w2 ≡ out.clock w2
  pub keeps_busy :
      (w1 w2 : out.World) (s : QueueStatistics)
      → get_taskqueue_stats out qh.config qh.queue w1 ≡ some ((s, none), w2)
      → s.tasks + s.in_flight ≡ 0
      → busy w2 ≡ busy w1
  pub rand_keeps : (n : ℕ) (w : out.World) → busy (out.rand_intn n w).1 ≡ busy w
  pub sleep_keeps : (d : ℕ) (w : out.World) → busy (out.sleep d w) ≡ busy w
  pub observe_keeps :
      (label : String) (d : ℕ) (w : out.World) → busy (out.observe_recovery label d w) ≡ busy w

module _ (out : Outside) (qh : QueueHandler) (busy : out.World → ℕ) where
  -- A report of an empty queue, after `start`: tasks were executed in the last minute, or it comes more
  -- than 5 minutes after `start` and after each report of a queue that was not empty.
  abbrev pub SeenEmpty : ℕ → Type 0
  SeenEmpty start =
      (w1 : out.World) × (w2 : out.World) × (s : QueueStatistics) × (get_taskqueue_stats out
          qh.config qh.queue w1
        ≡ some ((s, none), w2))
      × (s.tasks + s.in_flight ≡ 0)
      × ((0 < s.executed_1_minute)
          ⊎ ((start + 5 * minute < out.clock w2) × (busy w2 + 5 * minute < out.clock w2)))

  abbrev pub Emptied : ℕ → Option String → Type 0
  Emptied start err = err ≡ none → SeenEmpty start

  abbrev Judged : ℕ → Round → out.World → Type 0
  Judged start (returned err) w = Emptied start err
  Judged start (again last was) w = (start ≤ last) × (start ≤ out.clock w) × (busy w ≤ last)
