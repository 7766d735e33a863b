-- ===== src/Handler.antt =====
-- tracker/handler.go: the HTTP handlers that a parser calls, and JobHandler of
-- job-service/job-service.go, which gives it a job. A handler returns the status code of its reply.
-- `parse_job` is json.Unmarshal for a Job.
pub mod Replies
pub mod Dispatch
pub mod Urls
use etl_gardener.Base.{
  ℕ, Bool, true, false, String, Option, none, some, str_eq, if◌then◌else◌, ◌>>=◌,
}
use etl_gardener.Job.{Job, JobWithTarget}
use etl_gardener.Status
use etl_gardener.Tracker as Tracking
use etl_gardener.Tracker.{Tracker, Run, Error}
use etl_gardener.Persistence.{Saver}
use etl_gardener.Service.{Service, next_job}

-- Of a request: whether its method is POST, and what Form.Get finds after ParseForm (`none` is an
-- error of ParseForm; a key that is missing has the value "").
pub record Request : Type 0 where
  pub is_post : Bool
  pub form : Option (String → String)

-- http.StatusOK and the other codes that are used
abbrev pub status_ok : ℕ
status_ok = 200

abbrev pub bad_request : ℕ
bad_request = 400

abbrev pub method_not_allowed : ℕ
method_not_allowed = 405

abbrev pub gone : ℕ
gone = 410

abbrev pub unprocessable_entity : ℕ
unprocessable_entity = 422

abbrev pub failed_dependency : ℕ
failed_dependency = 424

abbrev pub internal_server_error : ℕ
internal_server_error = 500

-- The reply after a call of the tracker.
abbrev pub reply : Run → Option (Tracker × ℕ)
reply o = do r ← o; some (r.0, elim r.1 [ none ↦ status_ok | some _ ↦ gone ])

module _ (parse_job : String → Option Job) where
  unfoldable pub get_job : String → Option Job
  get_job text = if str_eq text "" then none else parse_job text

  -- Handler.heartbeat
  unfoldable pub heartbeat : (ℕ → ℕ) → Tracker → Request → Option (Tracker × ℕ)
  unfolding get_job
  heartbeat c tr req =
      if req.is_post
      then elim req.form [
        | none ↦ some (tr, bad_request)
        | some form ↦ elim (get_job (form "job")) [
          | none ↦ some (tr, unprocessable_entity)
          | some job ↦ reply (Tracking.heartbeat c tr job)
        ]
      ]
      else some (tr, method_not_allowed)

  -- Handler.update
  unfoldable pub update : (ℕ → ℕ) → Tracker → Request → Option (Tracker × ℕ)
  unfolding get_job
  update c tr req =
      if req.is_post
      then elim req.form [
        | none ↦ some (tr, bad_request)
        | some form ↦ elim (get_job (form "job")) [
          | none ↦ some (tr, unprocessable_entity)
          | some job ↦
              if str_eq (form "state") ""
              then some (tr, failed_dependency)
              else reply (Tracking.set_status c tr job (form "state") (form "detail"))
        ]
      ]
      else some (tr, method_not_allowed)

  -- Handler.errorFunc
  unfoldable pub error_func : (ℕ → ℕ) → Tracker → Request → Option (Tracker × ℕ)
  unfolding get_job
  error_func c tr req =
      if req.is_post
      then elim req.form [
        | none ↦ some (tr, bad_request)
        | some form ↦ elim (get_job (form "job")) [
          | none ↦ some (tr, unprocessable_entity)
          | some job ↦
              if str_eq (form "error") ""
              then some (tr, failed_dependency)
              else reply (Tracking.set_status c tr job Status.parse_error (form "error"))
        ]
      ]
      else some (tr, method_not_allowed)

-- The part of Service.JobHandler after its test of the method.
unfoldable pub dispatch_job :
    {P : Type 0}
    → (sv : Saver) → (ℕ → ℕ)
    → (ℕ → ℕ)
    → Service P
    → sv.Store
    → Tracker
    → Option (Service P × sv.Store × Tracker × ℕ × Option Job)
dispatch_job sv c d svc store tr = do
  n ← next_job sv c svc store
  let jt = n.0
  r ← Tracking.add_job d tr jt.job
  let answer : ℕ × Option Job = elim r.1 [
    | none ↦ (status_ok, some jt.job)
    | some _ ↦ (internal_server_error, none)
  ]
  some (n.1, n.2, r.0, answer.0, answer.1)

-- Service.JobHandler with the tracker as its jobAdder: the service, the store, the tracker, the code
-- and the job in the reply. The reply reaches the client.
unfoldable pub job_handler :
    {P : Type 0}
    → (sv : Saver) → (ℕ → ℕ)
    → (ℕ → ℕ)
    → Service P
    → sv.Store
    → Tracker
    → Request
    → Option (Service P × sv.Store × Tracker × ℕ × Option Job)
unfolding dispatch_job
job_handler sv c d svc store tr req =
    if req.is_post
    then dispatch_job sv c d svc store tr
    else some (svc, store, tr, method_not_allowed, none)
