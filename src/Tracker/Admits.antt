-- ===== src/Tracker/Admits.antt =====
-- tracker.go, AddJob: which jobs it takes, and what it leaves in the tracker.
use etl_gardener.Base.{
  ℕ, lookup-insert_self, lookup-insert_ne, ◌≡◌, ◌≢◌, refl, String, Option, none, some, Bool-cases,
  inl, inr, arith, eq_iff, str_eq, Ensures, total_bind, lookup, ap, ◌∙◌, ◌⊎◌,
}
use etl_gardener.Job.{Job, Job_discrete}
use etl_gardener.Status
use etl_gardener.Status.{Status}
use etl_gardener.Status.Safe.{HasHistory, state-IsTotal, label-IsTotal, is_done-IsTotal}
use etl_gardener.Tracker.{
  Tracker, Error, find, on_job_cases, start_job, readd_job, add_job, job_already_exists,
}
use etl_gardener.Tracker.Valid.{IsValid, found-HasHistory}

-- A job that AddJob takes: it is not in the tracker, or its state is `complete` or `failed`.
abbrev pub Admits : Tracker → Job → Type 0
Admits tr job =
    (s : Status)
    → find job tr ≡ some s
    → (Status.state s ≡ some Status.complete) ⊎ (Status.state s ≡ some Status.failed)

-- The two outcomes of AddJob.
pub data Added (now : ℕ) (tr : Tracker) (job : Job) (r : Tracker × Option Error) : Type 0 where
  taken :
      Admits tr job
      → r.1 ≡ none
      → find job r.0 ≡ some (Status.new_status now)
      → r.0.last_job ≡ job
      → ((j : Job) → job ≢ j → find j r.0 ≡ find j tr)
      → Added now tr job r
  refused :
      (s : Status)
      → find job tr ≡ some s
      → Status.state s ≢ some Status.complete
      → Status.state s ≢ some Status.failed
      → r.1 ≡ some job_already_exists
      → r.0 ≡ tr
      → Added now tr job r

start_job-Added :
    (c : ℕ → ℕ) (tr tr' : Tracker) (job : Job)
    → tr'.jobs ≡ tr.jobs
    → Admits tr job
    → Ensures (Added (c 0) tr job) (start_job c tr' job)
unfolding start_job Status.update_metrics Status.new_status Status.label
start_job-Added c tr tr' job same a =
    let new = Status.new_status (c 0) in
    taken a refl (lookup-insert_self Job_discrete job new tr'.jobs) refl
      λ j i. lookup-insert_ne Job_discrete job j new tr'.jobs i ∙ ap (lookup Job_discrete j) same

is_done_state :
    (s : Status) (st : String)
    → Status.state s ≡ some st
    → Status.is_done s ≡ some (str_eq st Status.complete)
unfolding Status.is_done Status.state
is_done_state s st e = ground arith

same_status :
    (tr : Tracker) (job : Job) {s t : Status} → find job tr ≡ some s → find job tr ≡ some t → s ≡ t
same_status tr job e f = cc

readd_job-Added :
    (c : ℕ → ℕ) (tr : Tracker) (job : Job) (s : Status)
    → find job tr ≡ some s
    → HasHistory s
    → Ensures (Added (c 0) tr job) (readd_job c tr job s)
unfolding readd_job
readd_job-Added c tr job s e h =
    let A = Added (c 0) tr job in
    total_bind A _ _ (is_done-IsTotal s h) λ done p. total_bind A _ _ (state-IsTotal s h) λ st q.
      total_bind A _ _ (label-IsTotal s h) λ lbl _.
        let over : str_eq st Status.complete ≡ done = cc (p, is_done_state s st q) in
        let of =
          λ (t : Status) (g : find job tr ≡ some t). ap Status.state (same_status tr job g e) ∙ q in
        elim (Bool-cases done) [
          | inl b ↦ rw b (
              start_job-Added c tr tr job refl
                (λ t g. inl (of t g ∙ ap some ((eq_iff st Status.complete).0 (over ∙ b)))))
          | inr b ↦ elim (Bool-cases (str_eq st Status.failed)) [
            | inl f ↦
                rw (b, f)
                  (start_job-Added c tr _ job refl
                    (λ t g. inr (of t g ∙ ap some ((eq_iff st Status.failed).0 f))))
            | inr f ↦
                rw (b, f)
                  (refused s e (λ n. cc ((eq_iff st Status.complete).1 (cc (q, n)), over, b))
                    (λ n. cc ((eq_iff st Status.failed).1 (cc (q, n)), f)) refl refl)
          ]
        ]

-- AddJob on a well-formed tracker takes a job exactly if it is not in the tracker, or is complete or
-- failed. Then the job has a fresh status and is the last job, and other jobs stay. Otherwise the
-- error is that the job already exists, and the tracker is as it was.
pub add_job-Added :
    (c : ℕ → ℕ) (tr : Tracker) (job : Job)
    → IsValid tr
    → Ensures (Added (c 0) tr job) (add_job c tr job)
unfolding add_job
add_job-Added c tr job v =
    on_job_cases (Ensures (Added (c 0) tr job)) tr job (start_job c tr job)
      (λ s. readd_job c tr job s) (λ e. start_job-Added c tr tr job refl (λ s f. cc (e, f)))
      λ s e. readd_job-Added c tr job s e (found-HasHistory tr job v e)
