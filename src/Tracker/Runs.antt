-- ===== src/Tracker/Runs.antt =====
-- tracker.go over a whole history of calls, of any components in any order.
use etl_gardener.Base.{ℕ, ◌≡◌, ◌≢◌, some, List, [], ◌∷◌, Ensures, Ensures-bind, Ensures-step}
use etl_gardener.Metrics.{Series}
use etl_gardener.Status
use etl_gardener.Status.{Status}
use etl_gardener.Tracker.{
  find, Tracker, Call, adds, details, updates, beats, errors, looks, step, run,
}
use etl_gardener.Tracker.Valid.{
  IsValid, Good, add_job-IsValid, set_detail-IsValid, set_status-IsValid, heartbeat-IsValid,
  set_job_error-IsValid,
}
use etl_gardener.Tracker.Gauge.{Balanced, After}
use etl_gardener.Tracker.Balance.{
  add_job-Balanced, set_detail-Balanced, set_status-Balanced, heartbeat-Balanced,
  set_job_error-Balanced,
}
use etl_gardener.Tracker.SweepBalance.{get_state-Balanced}
use etl_gardener.Tracker.Sweep.{get_state-IsValid}

-- One call.
pub step-IsValid :
    (c : ℕ → ℕ) (tr : Tracker) (call : Call) → IsValid tr → Ensures IsValid (step c tr call)
unfolding step
step-IsValid c tr (adds job) v =
    Ensures-bind Good IsValid _ _ (add_job-IsValid c tr job v) (λ r g. g)
step-IsValid c tr (details job text) v =
    Ensures-bind Good IsValid _ _ (set_detail-IsValid c tr job v text) (λ r g. g)
step-IsValid c tr (updates job st text) v =
    Ensures-bind Good IsValid _ _ (set_status-IsValid c tr job v st text) (λ r g. g)
step-IsValid c tr (beats job) v =
    Ensures-bind Good IsValid _ _ (heartbeat-IsValid c tr job v) (λ r g. g)
step-IsValid c tr (errors job err) v =
    Ensures-bind Good IsValid _ _ (set_job_error-IsValid c tr job v err) (λ r g. g)
step-IsValid c tr looks v =
    Ensures-bind (λ r. IsValid r.0) IsValid _ _ (get_state-IsValid (c 0) tr v) (λ r g. g)

-- Every history of calls on a well-formed tracker runs without a panic and leaves it well-formed: no
-- job stands twice, each has a history, and at most ten error strings are kept for labels.
pub run-IsValid :
    (tr : Tracker) (cs : List ((ℕ → ℕ) × Call)) → IsValid tr → Ensures IsValid (run tr cs)
unfolding run
run-IsValid tr [] v = v
run-IsValid tr ((c, call) ∷ cs) v =
    Ensures-bind IsValid IsValid _ _ (step-IsValid c tr call v) (λ t w. run-IsValid t cs w)

-- An update of a failed job keeps it failed; other calls are free.
abbrev pub KeepsFailed : Tracker → Call → Type 0
KeepsFailed tr (updates job st text) =
    (s : Status) → find job tr ≡ some s → Status.state s ≡ some Status.failed → st ≡ Status.failed
KeepsFailed tr _ = Unit

-- One call.
pub step-Balanced :
    (k : Series) (c : ℕ → ℕ) (tr : Tracker) (call : Call)
    → k.label ≢ Status.complete
    → IsValid tr
    → KeepsFailed tr call
    → Balanced k tr
    → Ensures (Balanced k) (step c tr call)
unfolding step
step-Balanced k c tr (adds job) o v f b =
    Ensures-bind (After k) (Balanced k) _ _ (add_job-Balanced k o c tr job v b) (λ r g. g)
step-Balanced k c tr (details job text) o v f b =
    Ensures-bind (After k) (Balanced k) _ _ (set_detail-Balanced k o c tr job v b text) (λ r g. g)
step-Balanced k c tr (updates job st text) o v f b =
    Ensures-bind (After k) (Balanced k) _ _ (set_status-Balanced k o c tr job v b st text f)
      (λ r g. g)
step-Balanced k c tr (beats job) o v f b =
    Ensures-bind (After k) (Balanced k) _ _ (heartbeat-Balanced k o c tr job v b) (λ r g. g)
step-Balanced k c tr (errors job err) o v f b =
    Ensures-bind (After k) (Balanced k) _ _ (set_job_error-Balanced k o c tr job v b err) (λ r g. g)
step-Balanced k c tr looks o v f b =
    Ensures-bind (λ r. Balanced k r.0) (Balanced k) _ _ (get_state-Balanced k o (c 0) tr v b)
      (λ r g. g)

-- Each call of a history meets `KeepsFailed` at the tracker that it finds.
abbrev pub AllKeepFailed : Tracker → List ((ℕ → ℕ) × Call) → Type 0
AllKeepFailed tr [] = Unit
AllKeepFailed tr ((c, call) ∷ cs) =
    KeepsFailed tr call × ((t : Tracker) → step c tr call ≡ some t → AllKeepFailed t cs)

-- From a well-formed tracker in which the gauge TasksInFlight for a series is the number of jobs with
-- its labels, it is so after every history of calls of which none sets a failed job to another state.
-- The label `complete` is excepted.
pub run-Balanced :
    (k : Series) (tr : Tracker) (cs : List ((ℕ → ℕ) × Call))
    → k.label ≢ Status.complete
    → IsValid tr
    → AllKeepFailed tr cs
    → Balanced k tr
    → Ensures (Balanced k) (run tr cs)
unfolding run
run-Balanced k tr [] o v f b = b
run-Balanced k tr ((c, call) ∷ cs) o v f b =
    Ensures-step IsValid (Balanced k) (Balanced k) _ _ (step-IsValid c tr call v)
      (step-Balanced k c tr call o v f.0 b) λ t e w g. run-Balanced k t cs o w (f.1 t e) g
