-- ===== src/Ops/Updates.antt =====
-- ops.go, UpdateJob: what an outcome does to the job in the tracker.
use etl_gardener.Base.{
  ℕ, ◌≡◌, ◌≢◌, refl, Bool, true, false, String, Option, none, some, arith, Ensures, Ensures-bind,
  Ensures-mono, ◌↔◌, Bool-cases, inl, inr, if_cases, if◌then◌else◌,
}
use etl_gardener.Job.{Job}
use etl_gardener.Status
use etl_gardener.Status.{Status}
use etl_gardener.Tracker.{Tracker, Run, Error, find, job_not_found, set_detail, set_job_error}
use etl_gardener.Tracker.Valid.{
  IsValid, Good, set_status-IsValid, set_detail-IsValid, set_job_error-IsValid,
}
use etl_gardener.Tracker.Frame.{Placed, kept}
use etl_gardener.Tracker.Reports.{
  Reported, missing, replaced, MovesTo, KeepsState, set_status-Reported, set_detail-Reported,
  set_job_error-Reported,
}
use etl_gardener.Ops.{Outcome, update_job, should_retry, is_done, reported, detail_of}

reported-IsValid :
    (text : String) (o : Run) → Ensures Good o → Ensures (λ r. IsValid r.0) (reported text o)
reported-IsValid text o h = Ensures-bind Good (λ r. IsValid r.0) o _ h (λ r g. g)

pub update_job-IsValid :
    (c : ℕ → ℕ) (tr : Tracker) (o : Outcome) (st : String)
    → IsValid tr
    → Ensures (λ r. IsValid r.0) (update_job c tr o st)
unfolding update_job
update_job-IsValid c tr o st v =
    if_cases (Ensures (λ r. IsValid r.0)) (is_done o) _ _
      (reported-IsValid "done" _ (set_status-IsValid c tr o.job v st _))
      (if_cases (Ensures (λ r. IsValid r.0)) (should_retry o) _ _
        (reported-IsValid "retry" _ (set_detail-IsValid c tr o.job v _))
        (reported-IsValid "fail" _ (set_job_error-IsValid c tr o.job v _)))

-- What is reported of a call of the tracker: the text and no error, and the job's status is replaced
-- by one with `Q`; or the error that there is no such job, and no job changes.
pub data Told (tr : Tracker) (job : Job) (Q : Status → Status → Type 0) (text : String)
    (r : Tracker × String × Option Error) : Type 0 where
  unknown :
      find job tr ≡ none
      → r.1 ≡ "set status error"
      → r.2 ≡ some job_not_found
      → r.0.jobs ≡ tr.jobs
      → Told tr job Q text r
  known :
      (old new : Status)
      → find job tr ≡ some old
      → Q old new
      → r.1 ≡ text
      → r.2 ≡ none
      → Placed tr job (kept tr new) (r.0, none)
      → Told tr job Q text r

-- The three kinds of outcome: success, retry and failure.
pub data Applied (tr : Tracker) (o : Outcome) (state : String) (r : Tracker × String × Option Error)
    : Type 0 where
  succeeded : o.error ≡ none → Told tr o.job (MovesTo state) "done" r → Applied tr o state r
  retried :
      o.error ≢ none → o.retry ≡ true → Told tr o.job KeepsState "retry" r → Applied tr o state r
  gave_up :
      o.error ≢ none
      → o.retry ≡ false
      → Told tr o.job (MovesTo Status.failed) "fail" r
      → Applied tr o state r

reported-Told :
    (tr : Tracker) (job : Job) (Q : Status → Status → Type 0) (text : String) (o : Run)
    → Ensures (Reported tr job Q) o
    → Ensures (Told tr job Q text) (reported text o)
reported-Told tr job Q text o h = Ensures-bind (Reported tr job Q) (Told tr job Q text) o _ h λ r k.
    elim k [
      | missing a b s ↦ unknown a (rw b refl) b s
      | replaced old new a q s ↦ known old new a q (rw s.0 refl) s.0 (refl, s.1, s.2)
    ]

tells :
    (tr : Tracker) (o : Outcome) (state : String) (Q : Status → Status → Type 0) (text : String)
    (r : Run)
    → ((x : Tracker × String × Option Error) → Told tr o.job Q text x → Applied tr o state x)
    → Ensures (Reported tr o.job Q) r
    → Ensures (Applied tr o state) (reported text r)
tells tr o state Q text r f h =
    Ensures-mono (Told tr o.job Q text) (Applied tr o state) _ (reported-Told tr o.job Q text r h) f

is_done_iff : (o : Outcome) → (is_done o ≡ true) ↔ (o.error ≡ none)
unfolding is_done
is_done_iff o = (λ e. ground arith, λ e. ground arith)

-- UpdateJob on a well-formed tracker returns. Success moves the job to the state given and returns
-- "done"; an error that may be retried keeps the job's state and returns "retry"; another error
-- moves it to `failed` and returns "fail". Only this job changes. If the tracker does not know
-- the job, no job changes, and there is the tracker's error.
pub update_job-Applied :
    (c : ℕ → ℕ) (tr : Tracker) (o : Outcome) (state : String)
    → IsValid tr
    → Ensures (Applied tr o state) (update_job c tr o state)
unfolding update_job
update_job-Applied c tr o state v = elim (Bool-cases (is_done o)) [
  | inl b ↦ rw b (
      tells tr o state (MovesTo state) "done" _ (λ x t. succeeded ((is_done_iff o).0 b) t)
        (set_status-Reported c tr o.job v state _))
  | inr b ↦
      let n : o.error ≢ none = λ e. cc ((is_done_iff o).1 e, b) in rw b (by_retry n o.retry refl)
]
  where
    by_retry :
        o.error ≢ none
        → (r : Bool) → o.retry ≡ r
        → Ensures (Applied tr o state) (
            if r
            then reported "retry" (set_detail c tr o.job (detail_of o))
            else reported "fail" (set_job_error c tr o.job (detail_of o)))
    by_retry n true e =
        tells tr o state KeepsState "retry" _ (λ x t. retried n e t)
          (set_detail-Reported c tr o.job v _)
    by_retry n false e =
        tells tr o state (MovesTo Status.failed) "fail" _ (λ x t. gave_up n e t)
          (set_job_error-Reported c tr o.job v _)
