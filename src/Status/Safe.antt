-- ===== src/Status/Safe.antt =====
-- tracker/job.go: a status whose history is not empty has an entry for LastStateInfo to return, and
-- no method of it panics.
use etl_gardener.Base.{ℕ, String, Ensures, IsTotal, arith, ◌≢◌, []}
use etl_gardener.Job.{Job}
use etl_gardener.Status
use etl_gardener.Status.{Status}

-- LastStateInfo has an entry to return.
abbrev pub HasHistory : Status → Type 0
HasHistory s = s.history ≢ []

-- No operation on a status with a history panics.
module _ (s : Status) (h : HasHistory s) where
  pub state-IsTotal : IsTotal (Status.state s)
  unfolding Status.state
  state-IsTotal = ground arith

  pub label-IsTotal : IsTotal (Status.label s)
  unfolding Status.label
  label-IsTotal = ground arith

  pub is_done-IsTotal : IsTotal (Status.is_done s)
  unfolding Status.is_done
  is_done-IsTotal = ground arith

  pub detail_time-IsTotal : IsTotal (Status.detail_time s)
  unfolding Status.detail_time
  detail_time-IsTotal = ground arith

  pub state_change_time-IsTotal : IsTotal (Status.state_change_time s)
  unfolding Status.state_change_time
  state_change_time-IsTotal = ground arith

  pub update_metrics-IsTotal : (now : ℕ) (job : Job) → IsTotal (Status.update_metrics now job s)
  unfolding Status.update_metrics
  update_metrics-IsTotal now job = ground arith

  pub set_detail-HasHistory :
      (now : ℕ) (text : String) → Ensures (λ r. HasHistory r.0) (Status.set_detail now text s)
  unfolding Status.set_detail
  set_detail-HasHistory now text = ground arith

  pub new_state-HasHistory :
      (now : ℕ) (st : String) → Ensures (λ r. HasHistory r.0) (Status.new_state now st s)
  unfolding Status.new_state
  new_state-HasHistory now st = ground arith

  pub last_state_info-IsTotal : IsTotal (Status.last_state_info s)
  unfolding Status.last_state_info
  last_state_info-IsTotal = ground arith
