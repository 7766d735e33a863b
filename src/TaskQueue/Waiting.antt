-- ===== src/TaskQueue/Waiting.antt =====
-- cloud/tq/tq.go: WaitForEmptyQueue. Its fuel is the number of rounds of the loop. The counts of a report
-- are at least 0, and their sum is far below the bound of an int.
use etl_gardener.Base.{
  ℕ, suc, zero, ◌+◌, ◌-◌, ◌*◌, Bool, true, false, String, Option, none, some, ltb, if◌then◌else◌,
}
use etl_gardener.World.{M, ◌>>=◌, give, act, change, panic}
use etl_gardener.TaskQueue.{
  Outside, QueueHandler, QueueStatistics, get_taskqueue_stats, err_terminated, second, minute,
}

-- What a round of WaitForEmptyQueue does: it returns, or goes on with the time of the last report
-- that was not empty and with previousWasEmpty.
pub data Round : Type 0 where
  returned : Option String → Round
  again : ℕ → Bool → Round

module _ (out : Outside) (qh : QueueHandler) where
  -- What follows a report without an error.
  unfoldable pub judge : QueueStatistics → ℕ → Bool → M out.World Round
  judge s last was_empty w =
      let now = out.clock w in
      let recovered = out.observe_recovery "recovered" (out.clock w - now) w in
      let timeout = out.observe_recovery "5 minute timeout" (out.clock w - last) w in
      if ltb 0 (s.tasks + s.in_flight)
      then some (again now false, if was_empty then recovered else w)
      else if ltb 0 s.executed_1_minute
      then some (returned none, w)
      else if ltb (5 * minute) (out.clock w - last)
      then some (returned none, timeout)
      else some (again last true, w)

  abbrev pub judge_report : QueueStatistics × Option String → ℕ → Bool → M out.World Round
  judge_report (s, some err) last was_empty = give (returned (some err))
  judge_report (s, none) last was_empty = judge s last was_empty

  -- The body of the loop of WaitForEmptyQueue, up to its sleep.
  unfoldable pub wait_round : ℕ → Bool → M out.World Round
  wait_round last was_empty w =
      if out.terminated w
      then some (returned (some err_terminated), w)
      else (get_taskqueue_stats out qh.config qh.queue >>= λ r. judge_report r last was_empty) w

  abbrev pub pause : M out.World (Unit {0})
  pause = do n ← act (out.rand_intn 20); change (out.sleep ((20 + n) * second))

  -- The end of a round: a return, or the sleep and the rounds that follow.
  abbrev pub end_round :
      (ℕ → Bool → M out.World (Option String)) → Round → M out.World (Option String)
  end_round rest (returned err) = give err
  end_round rest (again last was_empty) = pause >>= λ _. rest last was_empty

  unfoldable pub wait_loop : ℕ → ℕ → Bool → M out.World (Option String)
  wait_loop zero last was_empty = panic
  wait_loop (suc fuel) last was_empty = do
    r ← wait_round last was_empty
    end_round (wait_loop fuel) r

  -- WaitForEmptyQueue; `none` is the end of the fuel, which is the number of rounds, or a panic.
  unfoldable pub wait_for_empty_queue : ℕ → M out.World (Option String)
  wait_for_empty_queue fuel w = wait_loop fuel (out.clock w) false w
