-- ===== src/Status.antt =====
-- tracker/job.go: the states, their history and the operations of `Status`.
-- A `State` is a text, as in the source. `History` is kept with the newest entry first, so the
-- source's History[len-1] is the head. The result `none` is the panic of an index out of range.
-- Each reading of the clock is an argument.
pub mod Safe
use etl_gardener.Base.{
  ℕ, Bool, String, Option, none, some, List, [], ◌∷◌, ◌++◌, str_eq, concat, last?, if◌then◌else◌,
  ◌>>=◌,
}
use etl_gardener.Job.{Job}
use etl_gardener.Metrics.{Series, Event, state_date, state_time, in_flight_inc, in_flight_dec}

-- The constants of type State.
abbrev pub init : String
init = "init"

abbrev pub parsing : String
parsing = "parsing"

abbrev pub parse_error : String
parse_error = "parseError"

abbrev pub parse_complete : String
parse_complete = "postProcessing"

abbrev pub stabilizing : String
stabilizing = "stabilizing"

abbrev pub loading : String
loading = "loading"

abbrev pub deduplicating : String
deduplicating = "deduplicating"

abbrev pub copying : String
copying = "copying"

abbrev pub joining : String
joining = "joining"

abbrev pub deleting : String
deleting = "deleting"

abbrev pub finishing : String
finishing = "finishing"

abbrev pub failed : String
failed = "failed"

abbrev pub complete : String
complete = "complete"

pub record StateInfo : Type 0 where
  pub state : String
  pub start : ℕ
  pub detail_time : ℕ
  pub detail : String

unfoldable pub new_state_info : ℕ → String → StateInfo
new_state_info now state = record { state = state; start = now; detail_time = now; detail = "" }

-- StateInfo.setDetail
unfoldable pub set_info_detail : ℕ → String → StateInfo → StateInfo
set_info_detail now detail si = record si {
  detail_time = now;
  detail = if str_eq detail "-" then si.detail else detail;
}

pub record Status : Type 0 where
  pub heartbeat_time : ℕ
  pub update_count : ℕ
  pub history : List StateInfo

abbrev newest : List StateInfo → Option StateInfo
newest [] = none
newest (si ∷ _) = some si

abbrev penultimate : List StateInfo → String
penultimate (_ ∷ old ∷ _) = old.state
penultimate _ = init

unfoldable pub last_state_info : Status → Option StateInfo
last_state_info s = newest s.history

unfoldable pub state : Status → Option String
unfolding last_state_info
state s = do si ← last_state_info s; some si.state

unfoldable pub prev : Status → String
prev s = penultimate s.history

unfoldable pub label : Status → Option String
unfolding state prev
label s = do
  st ← state s
  some (if str_eq st failed then concat (prev s) (concat "-" failed) else st)

-- The text of the newest entry, or of the one before it if that is empty.
abbrev detail_in : List StateInfo → Option String
detail_in [] = none
detail_in (si ∷ []) = some si.detail
detail_in (si ∷ old ∷ _) = some (if str_eq si.detail "" then old.detail else si.detail)

unfoldable pub detail : Status → Option String
detail s = detail_in s.history

unfoldable pub detail_time : Status → Option ℕ
unfolding last_state_info
detail_time s = do si ← last_state_info s; some si.detail_time

unfoldable pub state_change_time : Status → Option ℕ
unfolding last_state_info
state_change_time s = do si ← last_state_info s; some si.start

unfoldable pub start_time : Status → Option ℕ
start_time s = do si ← last? s.history; some si.start

-- The copy on write: the newest entry is replaced, the older ones are shared.
abbrev detail_history : ℕ → String → List StateInfo → List StateInfo
detail_history now detail [] = []
detail_history now detail (si ∷ older) = set_info_detail now detail si ∷ older

unfoldable pub set_detail : ℕ → String → Status → Option (Status × StateInfo)
unfolding last_state_info set_info_detail
set_detail now detail s = do
  result ← last_state_info s
  some (
    (if str_eq detail "-" then s else record s { history = detail_history now detail s.history }),
    result,
  )

-- Status.Error
unfoldable pub status_error : Status → Option String
unfolding last_state_info
status_error s = do ls ← last_state_info s; some (if str_eq ls.state failed then ls.detail else "")

abbrev pub series : Job → String → Series
series job label = record { experiment = job.experiment; datatype = job.datatype; label = label }

-- What the metrics record of the state that was left, if there is one.
abbrev left_state : ℕ → Job → List StateInfo → List Event
left_state now job (_ ∷ old ∷ _) =
    in_flight_dec (series job old.state) ∷ state_time (series job old.state) old.start now ∷ []
left_state now job _ = []

-- Status.updateMetrics: the events it adds, newest first.
unfoldable pub update_metrics : ℕ → Job → Status → Option (List Event)
unfolding last_state_info label
update_metrics now job s = do
  new ← last_state_info s
  lbl ← label s
  some (
      in_flight_inc (series job lbl)
      ∷ (left_state now job s.history ++ state_date (series job new.state) job.date ∷ []))

-- Status.NewState
unfoldable pub new_state : ℕ → String → Status → Option (Status × StateInfo)
unfolding last_state_info new_state_info
new_state now st s = do
  old ← last_state_info s
  some (
    (if str_eq old.state st then s else record s { history = new_state_info now st ∷ s.history }),
    old,
  )

unfoldable pub is_done : Status → Option Bool
unfolding last_state_info
is_done s = do si ← last_state_info s; some (str_eq si.state complete)

unfoldable pub new_status : ℕ → Status
new_status now = record {
  heartbeat_time = 0;
  update_count = 0;
  history = record { state = init; start = now; detail_time = now; detail = "" } ∷ [];
}
