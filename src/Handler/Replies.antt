-- ===== src/Handler/Replies.antt =====
-- handler.go: the code of each reply and the state of the tracker after it.
use etl_gardener.Base.{
  ℕ, ◌≡◌, refl, Bool, true, false, String, Option, none, some, eq_iff, str_eq, if◌then◌else◌,
  Ensures, Ensures-bind, Bool-cases, Option-cases, inl, inr,
}
use etl_gardener.Job.{Job}
use etl_gardener.Status
use etl_gardener.Status.{Status}
use etl_gardener.Tracker.{Tracker, Run, find}
use etl_gardener.Tracker.Valid.{IsValid}
use etl_gardener.Tracker.Frame.{Placed, kept}
use etl_gardener.Tracker.Reports.{
  Reported, missing, replaced, MovesTo, KeepsState, set_status-Reported, heartbeat-Reported,
}
use etl_gardener.Handler.{
  Request, reply, get_job, heartbeat, update, error_func, status_ok, bad_request,
  method_not_allowed, gone, unprocessable_entity, failed_dependency,
}

-- The replies of a handler: the code, and why. `blank` says which forms lack a value that the
-- handler needs, and `Q` what becomes of the job's status.
pub data Answer (parse_job : String → Option Job) (tr : Tracker) (req : Request)
    (blank : (String → String) → Type 0) (Q : (String → String) → Status → Status → Type 0)
    (r : Tracker × ℕ) : Type 0 where
  not_post :
      req.is_post ≡ false → r.1 ≡ method_not_allowed → r.0 ≡ tr → Answer parse_job tr req blank Q r
  bad_form :
      req.is_post ≡ true
      → req.form ≡ none
      → r.1 ≡ bad_request
      → r.0 ≡ tr
      → Answer parse_job tr req blank Q r
  bad_job :
      (form : String → String)
      → req.is_post ≡ true
      → req.form ≡ some form
      → get_job parse_job (form "job") ≡ none
      → r.1 ≡ unprocessable_entity
      → r.0 ≡ tr
      → Answer parse_job tr req blank Q r
  no_value :
      (form : String → String) (job : Job)
      → req.is_post ≡ true
      → req.form ≡ some form
      → get_job parse_job (form "job") ≡ some job
      → blank form
      → r.1 ≡ failed_dependency
      → r.0 ≡ tr
      → Answer parse_job tr req blank Q r
  no_job :
      (form : String → String) (job : Job)
      → req.is_post ≡ true
      → req.form ≡ some form
      → get_job parse_job (form "job") ≡ some job
      → find job tr ≡ none
      → r.1 ≡ gone
      → r.0.jobs ≡ tr.jobs
      → Answer parse_job tr req blank Q r
  done :
      (form : String → String) (job : Job) (old new : Status)
      → req.is_post ≡ true
      → req.form ≡ some form
      → get_job parse_job (form "job") ≡ some job
      → ¬ blank form
      → find job tr ≡ some old
      → Q form old new
      → r.1 ≡ status_ok
      → Placed tr job (kept tr new) (r.0, none)
      → Answer parse_job tr req blank Q r

module _ (parse_job : String → Option Job) (c : ℕ → ℕ) (tr : Tracker) (req : Request)
    (v : IsValid tr) where
  replied :
      (blank : (String → String) → Type 0) (Q : (String → String) → Status → Status → Type 0)
      (form : String → String) (job : Job) (o : Run)
      → req.is_post ≡ true
      → req.form ≡ some form
      → get_job parse_job (form "job") ≡ some job
      → ¬ blank form
      → Ensures (Reported tr job (Q form)) o
      → Ensures (Answer parse_job tr req blank Q) (reply o)
  replied blank Q form job o p f g n h =
      Ensures-bind (Reported tr job (Q form)) (Answer parse_job tr req blank Q) o _ h λ r k.
        elim k [
          | missing a b s ↦ no_job form job p f g a (rw b refl) s
          | replaced old new a q s ↦
              done form job old new p f g n a q (rw s.0 refl) (refl, s.1, s.2)
        ]

  -- The cases that all handlers share.
  asked :
      (blank : (String → String) → Type 0) (Q : (String → String) → Status → Status → Type 0)
      (found : (String → String) → Job → Option (Tracker × ℕ)) (post : Bool)
      (given : Option (String → String))
      → req.is_post ≡ post
      → req.form ≡ given
      → ((form : String → String) (job : Job)
          → req.is_post ≡ true
          → req.form ≡ some form
          → get_job parse_job (form "job") ≡ some job
          → Ensures (Answer parse_job tr req blank Q) (found form job))
      → Ensures (Answer parse_job tr req blank Q) (
          if post
          then elim given [
            | none ↦ some (tr, bad_request)
            | some form ↦ elim (get_job parse_job (form "job")) [
              | none ↦ some (tr, unprocessable_entity)
              | some job ↦ found form job
            ]
          ]
          else some (tr, method_not_allowed))
  asked blank Q found false given p f k = not_post p refl refl
  asked blank Q found true none p f k = bad_form p f refl refl
  asked blank Q found true (some form) p f k =
      elim (Option-cases (get_job parse_job (form "job"))) [
        | inl g ↦ rw g (bad_job form p f g refl refl)
        | inr (job, g) ↦ rw g (k form job p f g)
      ]

  -- The heartbeat handler, on a well-formed tracker, replies: 405 to another method than POST, 400
  -- to a bad form, 422 to a job that does not parse, 410 to one that is not in the tracker, and no
  -- job changes; else 200, and the status of this job is replaced by one in the same state.
  pub heartbeat-Answer :
      Ensures
        (Answer parse_job tr req (λ form. ⊥) (λ form. KeepsState))
        (heartbeat parse_job c tr req)
  unfolding heartbeat
  heartbeat-Answer =
      asked (λ form. ⊥) (λ form. KeepsState) _ req.is_post req.form refl refl
        λ form job p f g.
          replied (λ form. ⊥) (λ form. KeepsState) form job _ p f g (λ n. n)
            (heartbeat-Reported c tr job v)

  -- A handler that needs a value under `key`.
  valued :
      (key : String) (Q : (String → String) → Status → Status → Type 0) (form : String → String)
      (job : Job) (o : Run)
      → req.is_post ≡ true
      → req.form ≡ some form
      → get_job parse_job (form "job") ≡ some job
      → Ensures (Reported tr job (Q form)) o
      → Ensures
          (Answer parse_job tr req (λ form. form key ≡ "") Q)
          (if str_eq (form key) "" then some (tr, failed_dependency) else reply o)
  valued key Q form job o p f g h = elim (Bool-cases (str_eq (form key) "")) [
    | inl b ↦ rw b (no_value form job p f g ((eq_iff (form key) "").0 b) refl refl)
    | inr b ↦ rw b (
        replied (λ form. form key ≡ "") Q form job o p f g (λ n. cc ((eq_iff (form key) "").1 n, b))
          h)
  ]

  -- The update handler, on a well-formed tracker, replies: 405 to another method than POST, 400 to a
  -- bad form, 422 to a job that does not parse, 424 to an empty state, 410 to a job that is not in
  -- the tracker, and no job changes; else 200, and this job's status moves to the state asked for.
  pub update-Answer :
      Ensures
        (Answer parse_job tr req (λ form. form "state" ≡ "") (λ form. MovesTo (form "state")))
        (update parse_job c tr req)
  unfolding update
  update-Answer =
      asked (λ form. form "state" ≡ "") (λ form. MovesTo (form "state")) _ req.is_post req.form refl
        refl
        λ form job p f g.
          valued "state" (λ form. MovesTo (form "state")) form job _ p f g
            (set_status-Reported c tr job v (form "state") (form "detail"))

  -- The error handler, on a well-formed tracker, replies: 405 to another method than POST, 400 to a
  -- bad form, 422 to a job that does not parse, 424 to an empty error, 410 to a job that is not in
  -- the tracker, and no job changes; else 200, and this job's status moves to the state `parseError`.
  pub error_func-Answer :
      Ensures
        (Answer parse_job tr req (λ form. form "error" ≡ "") (λ form. MovesTo Status.parse_error))
        (error_func parse_job c tr req)
  unfolding error_func
  error_func-Answer =
      asked (λ form. form "error" ≡ "") (λ form. MovesTo Status.parse_error) _ req.is_post req.form
        refl refl
        λ form job p f g.
          valued "error" (λ form. MovesTo Status.parse_error) form job _ p f g
            (set_status-Reported c tr job v Status.parse_error (form "error"))
