-- ===== src/Handler/Dispatch.antt =====
-- job-service.go, JobHandler: the service and the tracker together.
use etl_gardener.Base.{
  ℕ, ◌≡◌, refl, Bool, true, false, Option, none, some, Ensures, Ensures-bind, Ensures-step,
  if◌then◌else◌,
}
use etl_gardener.Job.{Job, JobWithTarget}
use etl_gardener.Status
use etl_gardener.Tracker.{Tracker, Error, find}
use etl_gardener.Tracker.Valid.{IsValid, Good, add_job-IsValid}
use etl_gardener.Tracker.Admits.{Admits, Added, taken, refused, add_job-Added}
use etl_gardener.Persistence.{Saver}
use etl_gardener.Service.{Service}
use etl_gardener.Service.Ready.{IsReady, next_job-IsReady}
use etl_gardener.Handler.{
  Request, dispatch_job, job_handler, status_ok, internal_server_error, method_not_allowed,
}

-- The outcomes of JobHandler, and what the tracker has then. The second reading of the clock `now` is
-- that of NewStatus.
pub data Dispatched {P : Type 0} (now : ℕ) (svc : Service P) (tr : Tracker) (req : Request)
    (svc' : Service P) (tr' : Tracker) (code : ℕ) (job : Option Job) : Type 0 where
  not_post :
      req.is_post ≡ false
      → svc' ≡ svc
      → tr' ≡ tr
      → code ≡ method_not_allowed
      → job ≡ none
      → Dispatched now svc tr req svc' tr' code job
  sent :
      (j : Job)
      → req.is_post ≡ true
      → code ≡ status_ok
      → job ≡ some j
      → Admits tr j
      → find j tr' ≡ some (Status.new_status now)
      → tr'.last_job ≡ j
      → Dispatched now svc tr req svc' tr' code job
  exists :
      req.is_post ≡ true
      → code ≡ internal_server_error
      → job ≡ none
      → tr' ≡ tr
      → Dispatched now svc tr req svc' tr' code job

module _ {P : Type 0} (sv : Saver) (c d : ℕ → ℕ) (svc : Service P) (store : sv.Store) (tr : Tracker)
    (req : Request) where
  abbrev pub Served : Service P × sv.Store × Tracker × ℕ × Option Job → Type 0
  Served r = IsReady r.0 × IsValid r.2 × Dispatched (d 0) svc tr req r.0 r.2 r.3 r.4

  answered :
      (svc' : Service P) (store' : sv.Store) (job : Job) (r : Tracker × Option Error)
      → req.is_post ≡ true
      → IsReady svc'
      → IsValid r.0
      → Added (d 0) tr job r
      → let answer : ℕ × Option Job = elim r.1 [
        | none ↦ (status_ok, some job)
        | some _ ↦ (internal_server_error, none)
      ] in
        Served (svc', store', r.0, answer.0, answer.1)
  answered svc' store' job r p w v (taken a e f l o) = rw e (w, v, sent job p refl refl a f l)
  answered svc' store' job r p w v (refused s f g h e k) = rw e (w, v, exists p refl refl k)

  dispatch_job-Served :
      req.is_post ≡ true
      → IsReady svc
      → IsValid tr
      → Ensures Served (dispatch_job sv c d svc store tr)
  unfolding dispatch_job
  dispatch_job-Served p w v =
      Ensures-bind {A = JobWithTarget P × Service P × sv.Store} (λ n. IsReady n.1) Served _ _
        (next_job-IsReady sv c svc store w)
        λ n u.
          Ensures-step Good (Added (d 0) tr n.0.job) Served _ _ (add_job-IsValid d tr n.0.job v)
            (add_job-Added d tr n.0.job v) λ r _ g a. answered n.1 n.2 n.0.job r p u g a

  -- JobHandler, on a ready service and a well-formed tracker, returns and leaves them so. To a method
  -- other than POST it replies 405, and changes nothing. Else it replies 200 with a job that the
  -- tracker did not have in flight, and that it now has with a fresh status and as its last job; or
  -- it replies 500 and leaves the tracker as it was.
  pub job_handler-Served :
      IsReady svc → IsValid tr → Ensures Served (job_handler sv c d svc store tr req)
  unfolding job_handler
  job_handler-Served w v = by_method req.is_post refl
    where
      by_method :
          (post : Bool)
          → req.is_post ≡ post
          → Ensures Served (
              if post
              then dispatch_job sv c d svc store tr
              else some (svc, store, tr, method_not_allowed, none))
      by_method true p = dispatch_job-Served p w v
      by_method false p = (w, v, not_post p refl refl refl refl)
