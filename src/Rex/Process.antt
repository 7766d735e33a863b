-- ===== src/Rex/Process.antt =====
-- The loop of Process in state/state.go with the executor of rex/rex.go.
use etl_gardener.Base.{◌≤◌, ◌<◌, refl, arith, String, Option, none, some, Ensures, IsTotal}
use etl_gardener.World.{Returns}
use etl_gardener.Task.{Task, state_done, process_loop}
use etl_gardener.Task.Loop.{Raises, Executes, process_loop-Once}
use etl_gardener.Rex.{RexOutside, BqConfig, Fuel}
use etl_gardener.Rex.Steps.{Worlds}
use etl_gardener.Rex.Executor.{next, executor, give_step}
use etl_gardener.Rex.Rises.{Raised, next-Raised}

module _ (out : RexOutside) (cfg : BqConfig) (fuel : Fuel) where
  give_step-Raises :
      (t : Task) (o : Option ((Option String × Task) × Worlds out))
      → IsTotal o
      → Returns (Raised out cfg fuel t) o
      → Ensures (λ r. Raises t (r.1, r.2)) (give_step out cfg fuel o)
  give_step-Raises t none h k = absurd h
  give_step-Raises t (some ((e, t'), w)) h k = k

  -- The loop of Process with the executor returns within a round per state, and gives back the queue at
  -- most once, for a task in one of the states up to Done whose queue has not been given back; the steps
  -- of the executor return.
  pub process_executor-Once :
      ((w : Worlds out) (t : Task) → t.state < state_done → IsTotal (next out cfg fuel t w))
      → (w : Worlds out) (t : Task) → t.state ≤ state_done
      → Ensures (λ r. r.2 ≤ 1) (process_loop (executor out cfg fuel) 8 w t 0)
  process_executor-Once total w t h =
      let x : Executes (executor out cfg fuel) = record {
        rises = λ w' t' l.
            give_step-Raises t' (next out cfg fuel t' w') (total w' t' l)
              (next-Raised out cfg fuel t' w' l);
      } in
      process_loop-Once (executor out cfg fuel) x 8 w t 0 h (omega arith) (omega arith, λ n. refl)
