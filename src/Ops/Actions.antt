-- ===== src/Ops/Actions.antt =====
-- ops/actions.go: the actions of the standard monitor. What BigQuery and the bq package answer is an
-- `Environment`, in which an action is run. The histograms of costs and sizes are left out.
use etl_gardener.Base.{
  ℕ, Bool, false, String, Option, none, some, List, [], ◌∷◌, ◌++◌, ◌&&◌, ◌==◌, concat,
  text_contains, if◌then◌else◌, ◌>>=◌,
}
use etl_gardener.Job.{Job}
use etl_gardener.Metrics.{Event, warning}
use etl_gardener.Status
use etl_gardener.Status.{series}
use etl_gardener.Tracker.{Tracker}
use etl_gardener.Ops.{Outcome, Monitor, failure, retry, success, is_done, new_monitor, add_action}

-- An error of Wait: a googleapi.Error with its code, or another one.
pub data WaitError : Type 0 where
  api_error : ℕ → String → WaitError
  other_error : String → WaitError

abbrev wait_text : WaitError → String
wait_text (api_error _ text) = text
wait_text (other_error text) = text

-- Statistics.Details, by its type
pub data Details : Type 0 where
  query_details load_details other_details : Details

-- bigquery.JobStatus: Err(), the messages of Errors, and Statistics, which may be nil.
pub record JobStatus : Type 0 where
  pub err : Option String
  pub errors : List String
  pub statistics : Option Details

-- What bqJob.Wait returns: an error and maybe a status, or a status, which is then not nil.
pub data Waited : Type 0 where
  wait_failed : WaitError → Option JobStatus → Waited
  waited : JobStatus → Waited

-- The error of tableOps, of the start of each BigQuery job, and of DeleteTmp, if there is one; what
-- Wait returns; and the text that an action makes of the statistics.
pub record Environment : Type 0 where
  pub table_ops : Job → Option String
  pub dedup : Job → Option String
  pub load_to_tmp : Job → Option String
  pub copy_to_raw : Job → Option String
  pub delete_tmp : Job → Option String
  pub wait : Job → Waited
  pub summary : String → Details → String

-- What an action gives, or its panic.
abbrev pub Result : Type 0
Result = Option (Outcome × List Event)

-- newStateFunc
unfoldable pub new_state_func : String → Job → Outcome
new_state_func detail j = success j detail

-- The test of waitAndCheck for http.StatusBadRequest and a streaming buffer
unfoldable pub is_streaming : WaitError → Bool
is_streaming (api_error code text) = code == 400 && text_contains text "streaming buffer"
is_streaming (other_error text) = false

-- waitAndCheck after its call of Wait: the status, if there is one, the outcome and the warnings.
unfoldable pub check_waited : Waited → Job → String → Option JobStatus × Outcome × List Event
unfolding is_streaming
check_waited (wait_failed e status) j label =
    if is_streaming e
    then (
      none,
      retry j (wait_text e) "waiting for empty streaming buffer",
      warning (series j (concat label "WaitingForStreamingBuffer")) ∷ [],
    )
    else (
      status,
      failure j (wait_text e) "unknown error",
      warning (series j (concat label "UnknownError")) ∷ [],
    )
check_waited (waited status) j label = elim status.err [
  | some e ↦ (
    some status,
    failure j e "unknown error",
    warning (series j (concat label "UnknownStatusError")) ∷ [],
  )
  | none ↦ (some status, success j "-", [])
]

-- waitAndCheck
unfoldable pub wait_and_check : Environment → Job → String → Option JobStatus × Outcome × List Event
unfolding check_waited
wait_and_check env j label = check_waited (env.wait j) j label

-- The last part of dedupFunc, with the status; nil statistics are dereferenced.
unfoldable pub dedup_done : Environment → Job → Option JobStatus → List Event → Result
dedup_done env j none es = some (failure j "nil status" "-", es)
dedup_done env j (some status) es = do
  details ← status.statistics
  some (
    success j (elim details [
      | query_details ↦ env.summary "dedup" query_details
      | _ ↦ "Could not convert Detail to QueryStatistics"
    ]),
    es,
  )

unfoldable pub dedup_func : Environment → Job → ℕ → Result
unfolding wait_and_check dedup_done
dedup_func env j changed = elim (env.table_ops j) [
  | some e ↦ some (failure j e "-", [])
  | none ↦ elim (env.dedup j) [
    | some e ↦ some (retry j e "-", [])
    | none ↦
        let r = wait_and_check env j "Dedup" in
        if is_done r.1 then dedup_done env j r.0 r.2 else some (r.1, r.2)
  ]
]

-- What handleLoadError adds to the label for an error, and the message after it.
abbrev load_label : String → String
load_label e =
    if text_contains e "Please look into"
    then "-PleaseLookInto"
    else if text_contains e "No such field:"
    then "GCS load failed - missing field"
    else "UnknownStatusError"

abbrev next_message : String → String → String
next_message msg e =
    if text_contains e "Please look into"
    then msg
    else if text_contains e "No such field:"
    then e
    else msg

-- Its loop: the message and the warnings, newest first.
unfoldable pub load_errors : Job → String → String → List String → String × List Event
load_errors j label msg [] = (msg, [])
load_errors j label msg (e ∷ errors) =
    let rest = load_errors j label (next_message msg e) errors in
    (rest.0, rest.1 ++ warning (series j (concat label (load_label e))) ∷ [])

unfoldable pub handle_load_error : String → Job → String → JobStatus → Outcome × List Event
unfolding load_errors
handle_load_error label j err status =
    let r = load_errors j label "unknown error" status.errors in (failure j err r.0, r.1)

-- The text that loadFunc and copyFunc make of the statistics
unfoldable pub load_message : Environment → Option Details → String
load_message env none = "nil stats"
load_message env (some load_details) = env.summary "load" load_details
load_message env (some _) = "Load statistics unknown type"

unfoldable pub copy_message : Environment → Option Details → String
copy_message env none = "nil stats"
copy_message env (some details) = env.summary "copy" details

-- A status that is there: its statistics are read without a test for nil.
abbrev pub with_status : Option JobStatus → (Option Details → String) → Job → List Event → Result
with_status status message j es = do s ← status; some (success j (message s.statistics), es)

unfoldable pub load_func : Environment → Job → ℕ → Result
unfolding wait_and_check load_message
load_func env j changed = elim (env.table_ops j) [
  | some e ↦ some (failure j e "-", [])
  | none ↦ elim (env.load_to_tmp j) [
    | some e ↦ some (retry j e "-", [])
    | none ↦
        let r = wait_and_check env j "Load" in
        if is_done r.1 then with_status r.0 (load_message env) j r.2 else some (r.1, r.2)
  ]
]

unfoldable pub copy_func : Environment → Job → ℕ → Result
unfolding wait_and_check copy_message
copy_func env j changed = elim (env.table_ops j) [
  | some e ↦ some (failure j e "-", [])
  | none ↦ elim (env.copy_to_raw j) [
    | some e ↦ some (retry j e "-", [])
    | none ↦
        let r = wait_and_check env j "Copy" in
        if is_done r.1 then with_status r.0 (copy_message env) j r.2 else some (r.1, r.2)
  ]
]

unfoldable pub delete_func : Environment → Job → ℕ → Result
delete_func env j changed = elim (env.table_ops j) [
  | some e ↦ some (failure j e "-", [])
  | none ↦ elim (env.delete_tmp j) [
    | some e ↦ some (retry j e "-", [])
    | none ↦ some (success j "Successfully deleted partition", [])
  ]
]

-- NewStandardMonitor; `view` is the environment that a condition or action meets.
unfoldable pub new_standard_monitor : {W : Type 0} → (W → Environment) → Tracker → Monitor W
unfolding add_action new_monitor new_state_func load_func dedup_func copy_func delete_func
new_standard_monitor {W} view tr =
    let parsed : W → Job → ℕ → Result = λ w j t. some (new_state_func "-" j, []) in
    let load : W → Job → ℕ → Result = λ w. load_func (view w) in
    let dedup : W → Job → ℕ → Result = λ w. dedup_func (view w) in
    let copy : W → Job → ℕ → Result = λ w. copy_func (view w) in
    let delete : W → Job → ℕ → Result = λ w. delete_func (view w) in
    let m0 : Monitor W = new_monitor tr in
    let m1 =
      add_action Status.parse_complete none (some parsed) Status.loading "Changing to Loading" m0 in
    let m2 = add_action Status.loading none (some load) Status.deduplicating "Loading" m1 in
    let m3 = add_action Status.deduplicating none (some dedup) Status.copying "Deduplicating" m2 in
    let m4 = add_action Status.copying none (some copy) Status.deleting "Copying" m3 in
    add_action Status.deleting none (some delete) Status.complete "Deleting" m4
