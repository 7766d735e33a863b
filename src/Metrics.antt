-- ===== src/Metrics.antt =====
-- metrics/metrics.go as the tracker uses it: the updates of the Prometheus vectors, kept as a list
-- with the newest first. A counter or gauge is what the list adds up to.
use etl_gardener.Base.{ℕ, ◌+◌, ◌≡◌, String, String_discrete, List, [], ◌∷◌, ◌++◌, ite, arith}

-- The values of the labels experiment, datatype and the last one: a state, an error or a warning.
pub record Series : Type 0 where
  pub experiment : String
  pub datatype : String
  pub label : String

unfoldable pub Series_discrete : Discrete Series
Series_discrete = hlevel String_discrete

pub data Event : Type 0 where
  -- metrics.StateDate, set to the job's date
  state_date : Series → ℕ → Event
  -- metrics.StateTimeHistogram: the state's start, and the time of the observation
  state_time : Series → ℕ → ℕ → Event
  -- metrics.TasksInFlight
  in_flight_inc in_flight_dec : Series → Event
  -- metrics.StartedCount and metrics.CompletedCount
  started completed : String → String → Event
  -- metrics.FailCount and metrics.WarningCount
  fail warning : Series → Event

-- How often TasksInFlight was raised, and lowered, for a series.
unfoldable pub incs : Series → List Event → ℕ
incs k [] = 0
incs k (in_flight_inc s ∷ es) = ite (Series_discrete s k) 1 0 + incs k es
incs k (_ ∷ es) = incs k es

unfoldable pub decs : Series → List Event → ℕ
decs k [] = 0
decs k (in_flight_dec s ∷ es) = ite (Series_discrete s k) 1 0 + decs k es
decs k (_ ∷ es) = decs k es

pub incs-append : (k : Series) (es fs : List Event) → incs k (es ++ fs) ≡ incs k es + incs k fs
unfolding incs
incs-append k [] fs = omega arith
incs-append k (in_flight_inc s ∷ es) fs = omega (arith, incs-append k es fs)
incs-append k (_ ∷ es) fs = incs-append k es fs

pub decs-append : (k : Series) (es fs : List Event) → decs k (es ++ fs) ≡ decs k es + decs k fs
unfolding decs
decs-append k [] fs = omega arith
decs-append k (in_flight_dec s ∷ es) fs = omega (arith, decs-append k es fs)
decs-append k (_ ∷ es) fs = decs-append k es fs
