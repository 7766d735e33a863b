-- ===== src/Tracker/Gap.antt =====
-- tracker.go, Heartbeat: another call between its GetStatus and its UpdateJob.
use etl_gardener.Base.{
  ℕ, ◌≡◌, ◌≢◌, ◌∙◌, refl, false, not, ◌&&◌, String, Option, none, some, List, ◌∷◌, str_eq, Ensures,
  Ensures-step, Ensures-mono, if◌then◌else◌, ltb, ◌>>=◌,
}
use etl_gardener.Job.{Job}
use etl_gardener.Status
use etl_gardener.Status.{Status, StateInfo}
use etl_gardener.Tracker.{
  Tracker, Run, find, on_job, set_status, update_job, get_status, job_not_found,
}
use etl_gardener.Tracker.Frame.{Placed, kept, update_job-Placed}
use etl_gardener.Tracker.Moves.{set_status-Placed, moved_status}
use etl_gardener.Tracker.Valid.{IsValid, Good, set_status-IsValid, found-HasHistory}

-- Heartbeat, with a whole SetStatus after its GetStatus and before its UpdateJob.
unfoldable pub heartbeat_around : (ℕ → ℕ) → (ℕ → ℕ) → Tracker → Job → String → String → Run
unfolding get_status
heartbeat_around c d tr job st text = on_job tr job (some (tr, some job_not_found)) (λ s. do
  r ← set_status d tr job st text
  update_job c r.0 job (record s { heartbeat_time = c 0 }))

kept_other : (tr : Tracker) (s : Status) → Status.is_done s ≡ some false → kept tr s ≡ some s
kept_other tr s h = rw (h, kept) refl

-- The heartbeat time does not matter to IsDone.
kept_beaten :
    (tr : Tracker) (s : Status) (now : ℕ)
    → Status.is_done s ≡ some false
    → kept tr (record s { heartbeat_time = now }) ≡ some (record s { heartbeat_time = now })
unfolding Status.is_done Status.last_state_info
kept_beaten tr s now h = kept_other tr (record s { heartbeat_time = now }) h

-- When a SetStatus that changes the state of a job, to one other than complete, falls between the
-- GetStatus and the UpdateJob of a Heartbeat, both return without an error and the change is lost: the
-- job, which was not complete, stands with the status that it had before, and the new heartbeat time.
pub heartbeat_around-loses :
    (c d : ℕ → ℕ) (tr : Tracker) (job : Job) (st text : String) (s : Status) (x : StateInfo)
    (older : List StateInfo)
    → IsValid tr
    → find job tr ≡ some s
    → s.history ≡ x ∷ older
    → st ≢ x.state
    → str_eq st Status.complete ≡ false
    → Status.is_done s ≡ some false
    → Ensures
        (λ r. (r.1 ≡ none) × (find job r.0 ≡ some (record s { heartbeat_time = c 0 })))
        (heartbeat_around c d tr job st text)
unfolding heartbeat_around get_status
heartbeat_around-loses c d tr job st text s x older v e p i n h =
    let moved : Option Status =
      if str_eq st Status.complete && not (ltb 0 tr.cleanup_delay)
      then none
      else some (moved_status d st text s x older) in
    let still : moved ≡ some (moved_status d st text s x older) = rw n refl in
    let s' = record s { heartbeat_time = c 0 } in
    rw (e, on_job)
      (Ensures-step Good (Placed tr job moved) (λ r. (r.1 ≡ none) × (find job r.0 ≡ some s'))
        (set_status d tr job st text) _ (set_status-IsValid d tr job v st text)
        (set_status-Placed d tr job st text s x older v e p i)
        (λ r q w m.
          Ensures-mono (Placed r.0 job (kept r.0 s'))
            (λ r'. (r'.1 ≡ none) × (find job r'.0 ≡ some s')) _
            (update_job-Placed c r.0 job s' (moved_status d st text s x older) w
              (found-HasHistory tr job v e) (m.1 ∙ still))
            (λ r' u. (u.0, u.1 ∙ kept_beaten r.0 s (c 0) h))))
