-- ===== src/Client/Obtained.antt =====
-- NextJob against JobHandler: what the client gets is what the tracker has.
use etl_gardener.Base.{
  ℕ, ◌≡◌, ◌≢◌, ◌⊎◌, inl, inr, refl, Bool, true, String, Option, none, some, Ensures, Ensures-mono,
}
use etl_gardener.Job.{Job}
use etl_gardener.Status
use etl_gardener.Tracker.{Tracker, find}
use etl_gardener.Tracker.Valid.{IsValid}
use etl_gardener.Tracker.Admits.{Admits}
use etl_gardener.Persistence.{Saver}
use etl_gardener.Service.{Service}
use etl_gardener.Service.Ready.{IsReady}
use etl_gardener.Handler.{Request, job_handler}
use etl_gardener.Handler.Dispatch.{Dispatched, not_post, sent, exists, Served, job_handler-Served}
use etl_gardener.Client.{Exchange, responded, next_job, post}

-- The reply of JobHandler on the wire; `encode` is json.Marshal of a job.
abbrev pub reply_with : (Job → String) → ℕ → Option Job → Exchange
reply_with encode code none = responded "" code none
reply_with encode code (some j) = responded (encode j) code none

module _ {J : Type 0} (zero_job : J) (status_text : ℕ → String)
    (decode : Bool → String → J → J × Option String) (encode : Job → String) (with_job : Job → J)
    (decode-encode : (j : Job) → decode true (encode j) zero_job ≡ (with_job j, none)) where
  -- The client has a job that the tracker did not have in flight, and that it now has with a fresh
  -- status; or it has an error, and the tracker is as before.
  abbrev pub Obtained : ℕ → Tracker → Tracker → J × Option String → Type 0
  Obtained now tr tr' r =
      ((j : Job) × (r ≡ (with_job j, none))
        × Admits tr j
        × (find j tr' ≡ some (Status.new_status now)))
      ⊎ ((r.1 ≢ none) × (tr' ≡ tr))

  obtained :
      {P : Type 0} (now : ℕ) (svc svc' : Service P) (tr tr' : Tracker) (req : Request) (code : ℕ)
      (job : Option Job)
      → req.is_post ≡ true
      → Dispatched now svc tr req svc' tr' code job
      → Obtained now tr tr' (next_job zero_job status_text decode (reply_with encode code job))
  unfolding next_job post
  obtained now svc svc' tr tr' req code job p (not_post n a b c e) = absurd (cc (p, n))
  obtained now svc svc' tr tr' req code job p (sent j q c e a f l) =
      rw (c, e) (inl (j, rw (decode-encode j) refl, a, f))
  obtained now svc svc' tr tr' req code job p (exists q c e k) =
      rw (c, e) (inr (λ n. absurd (cc n), k))

  -- NextJob, whose POST reaches JobHandler of a ready service and a well-formed tracker, gives a job that
  -- the tracker did not have in flight and now has with a fresh status, or an error, and then the
  -- tracker is as it was. Decode reads back what Marshal writes of a job.
  pub next_job-Obtained :
      {P : Type 0} (sv : Saver) (c d : ℕ → ℕ) (svc : Service P) (store : sv.Store) (tr : Tracker)
      (req : Request)
      → req.is_post ≡ true
      → IsReady svc
      → IsValid tr
      → Ensures
          (λ r.
            Obtained
              (d 0)
              tr
              r.2
              (next_job zero_job status_text decode (reply_with encode r.3 r.4)))
          (job_handler sv c d svc store tr req)
  next_job-Obtained sv c d svc store tr req p w v =
      Ensures-mono (Served sv c d svc store tr req)
        (λ r.
          Obtained (d 0) tr r.2 (next_job zero_job status_text decode (reply_with encode r.3 r.4)))
        _ (job_handler-Served sv c d svc store tr req w v)
        (λ r s. obtained (d 0) svc r.0 tr r.2 req r.3 r.4 p s.2)
