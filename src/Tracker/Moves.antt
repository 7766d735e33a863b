-- ===== src/Tracker/Moves.antt =====
-- tracker.go, SetStatus: what a change of state leaves in the tracker.
use etl_gardener.Base.{
  ℕ, ◌≡◌, ◌≢◌, ◌∙◌, not, ◌&&◌, String, none, some, List, ◌∷◌, arith, eq_iff, str_eq, Ensures,
  Ensures-mono, if◌then◌else◌, int_inc, ltb, Bool-cases, inl, inr,
}
use etl_gardener.Job.{Job}
use etl_gardener.Status
use etl_gardener.Status.{Status, StateInfo, series}
use etl_gardener.Tracker.{Tracker, find, on_job, set_status, next_status, get_status}
use etl_gardener.Tracker.Frame.{Placed, kept, update_job-Placed}
use etl_gardener.Tracker.Valid.{IsValid}

-- The entry that SetStatus leaves behind, with the detail that it was given.
abbrev pub left_entry : ℕ → String → StateInfo → StateInfo
left_entry now text x = if str_eq text "-" then x else record x { detail_time = now; detail = text }

abbrev pub fresh_entry : ℕ → String → StateInfo
fresh_entry now st = record { state = st; start = now; detail_time = now; detail = "" }

-- What SetStatus makes of a status whose history is `x ∷ older`.
abbrev pub moved_status : (ℕ → ℕ) → String → String → Status → StateInfo → List StateInfo → Status
moved_status c st text s x older = record s {
  update_count = int_inc s.update_count;
  history = fresh_entry (c 1) st ∷ left_entry (c 0) text x ∷ older;
}

next_status_lem :
    (c : ℕ → ℕ) (st text : String) (s : Status) (x : StateInfo) (older : List StateInfo)
    → s.history ≡ x ∷ older
    → st ≢ x.state
    → next_status c st text s
      ≡ some (record s {
        update_count = int_inc s.update_count;
        history =
            record { state = st; start = c 1; detail_time = c 1; detail = "" }
            ∷ left_entry (c 0) text x
            ∷ older;
      })
unfolding next_status Status.set_detail Status.new_state
next_status_lem c st text s x older e i = elim (Bool-cases (str_eq text "-")) [
  | inl b ↦ rw (e, b) (ground (arith, eq_iff st x.state, eq_iff x.state st))
  | inr b ↦ rw (e, b) (ground (arith, eq_iff st x.state, eq_iff x.state st))
]

kept_moved :
    (tr : Tracker) (n : ℕ) (s : Status) (z : StateInfo) (older : List StateInfo)
    → let new = record s { update_count = n; history = z ∷ older } in
      kept tr new
      ≡ (if str_eq z.state Status.complete && not (ltb 0 tr.cleanup_delay) then none else some new)
unfolding Status.is_done
kept_moved tr n s z older = ground arith

-- SetStatus with a new state, on a job of the tracker: the entry that was the newest keeps its state
-- and start and takes the detail (unless it is "-"), an entry of the new state with no detail comes
-- after it, and the update is counted. A job that becomes complete is deleted if there is no
-- cleanup delay. No other job changes.
pub set_status-Placed :
    (c : ℕ → ℕ) (tr : Tracker) (job : Job) (st text : String) (s : Status) (x : StateInfo)
    (older : List StateInfo)
    → IsValid tr
    → find job tr ≡ some s
    → s.history ≡ x ∷ older
    → st ≢ x.state
    → Ensures
        (Placed tr job (
          if str_eq st Status.complete && not (ltb 0 tr.cleanup_delay)
          then none
          else some (moved_status c st text s x older)))
        (set_status c tr job st text)
unfolding set_status get_status
set_status-Placed c tr job st text s x older v e p i =
    let below = left_entry (c 0) text x ∷ older in
    let new = moved_status c st text s x older in
    rw (e, on_job)
      (rw (next_status_lem c st text s x older p i) (
        Ensures-mono (Placed tr job (kept tr new)) _ _
          (update_job-Placed c tr job new s v (λ q. cc) e)
          λ r h. (h.0, h.1 ∙ kept_moved tr _ s (fresh_entry (c 1) st) below, h.2)))
