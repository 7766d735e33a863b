-- ===== src/Gardener/Queues.antt =====
-- gardener.go, taskHandlerFromEnv: the queues that it names, in the handler of the legacy mode.
use etl_gardener.Task.{Task}
