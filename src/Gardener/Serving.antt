-- ===== src/Gardener/Serving.antt =====
-- gardener.go: every request keeps the tracker well-formed and the job service ready.
use etl_gardener.Base.{
  ℕ, inl, inr, Bool, true, false, String, Option, none, some, List, [], ◌∷◌, str_eq, if_cases,
  if◌then◌else◌, Ensures, Ensures-bind, Ensures-mono, Option-cases, ◌||◌, subst,
}
use etl_gardener.Job.{Job}
use etl_gardener.Tracker.{Tracker, Run, JobMap, get_state}
use etl_gardener.Tracker.Valid.{IsValid, Good, heartbeat-IsValid, set_status-IsValid}
use etl_gardener.Tracker.Sweep.{get_state_keeps}
use etl_gardener.Persistence.{Saver}
use etl_gardener.Service.{Service}
use etl_gardener.Service.Ready.{IsReady}
use etl_gardener.Page.{JobRep, write_html, write_html_status_to}
use etl_gardener.Page.Table.{write_html-Orders}
use etl_gardener.Handler.{
  Request, reply, get_job, heartbeat, update, error_func, job_handler, bad_request,
  unprocessable_entity, method_not_allowed,
}
use etl_gardener.Handler.Dispatch.{Served, job_handler-Served}
use etl_gardener.Gardener.Main.{Server}
use etl_gardener.Gardener.Mux.{Call, tracked, serve_status, serve_job, handle, handle_all}

-- A property of what there is.
abbrev pub Held {ℓ} : {A : Type ℓ} → (A → Type 0) → Option A → Type 0
Held P none = Unit
Held P (some a) = P a

abbrev Keeps : Option (Tracker × ℕ) → Type 0
Keeps = Ensures (λ r. IsValid r.0)

replied : (o : Run) → Ensures Good o → Keeps (reply o)
replied o h = Ensures-bind Good (λ r. IsValid r.0) o _ h λ r v. v

module _ (parse_job : String → Option Job) (c : ℕ → ℕ) (tr : Tracker) (req : Request)
    (v : IsValid tr) where
  asked :
      (found : (String → String) → Job → Option (Tracker × ℕ)) (post : Bool)
      (given : Option (String → String))
      → ((form : String → String) (job : Job) → Keeps (found form job))
      → Keeps (
          if post
          then elim given [
            | none ↦ some (tr, bad_request)
            | some form ↦ elim (get_job parse_job (form "job")) [
              | none ↦ some (tr, unprocessable_entity)
              | some job ↦ found form job
            ]
          ]
          else some (tr, method_not_allowed))
  asked found false given k = v
  asked found true none k = v
  asked found true (some form) k = elim (Option-cases (get_job parse_job (form "job"))) [
    | inl g ↦ rw g v
    | inr (job, g) ↦ rw g (k form job)
  ]

  heartbeat-Keeps : Keeps (heartbeat parse_job c tr req)
  unfolding heartbeat
  heartbeat-Keeps =
      asked _ req.is_post req.form λ form job. replied _ (heartbeat-IsValid c tr job v)

  update-Keeps : Keeps (update parse_job c tr req)
  unfolding update
  update-Keeps = asked _ req.is_post req.form λ form job.
      if_cases Keeps (str_eq (form "state") "") _ _ v
        (replied _ (set_status-IsValid c tr job v (form "state") (form "detail")))

  error_func-Keeps : Keeps (error_func parse_job c tr req)
  unfolding error_func
  error_func-Keeps = asked _ req.is_post req.form λ form job.
      if_cases Keeps (str_eq (form "error") "") _ _ v
        (replied _ (set_status-IsValid c tr job v _ (form "error")))

write_html_status_to_keeps :
    (format : String → ℕ → String) (now : ℕ) (tr : Tracker)
    → IsValid tr
    → Ensures (λ r. IsValid r.0) (write_html_status_to format now tr)
unfolding write_html_status_to
write_html_status_to_keeps format now tr v =
    Ensures-bind {A = Tracker × JobMap × Job × ℕ} {B = Tracker × JobRep} _ (λ r. IsValid r.0)
      (get_state now tr) _ (get_state_keeps now tr v)
      λ r g.
        let u =
          subst (λ m. Ensures (λ _. Unit {0}) (write_html format m)) g.1
            (Ensures-mono _ (λ _. Unit {0}) (write_html format r.0.jobs)
              (write_html-Orders format r.0.jobs g.0.unique g.0.started) (λ _ _. tt)) in
        Ensures-bind {B = Tracker × JobRep} (λ _. Unit {0}) (λ r. IsValid r.0)
          (write_html format r.1) _ u λ page _. g.0

serve_status-Keeps :
    (format : String → ℕ → String) (e : Call) (tr : Tracker)
    → IsValid tr
    → Keeps (serve_status format e tr)
serve_status-Keeps format e tr v =
    Ensures-bind {A = Tracker × JobRep} (λ r. IsValid r.0) (λ r. IsValid r.0)
      (write_html_status_to format (e.first 0) tr) _
      (write_html_status_to_keeps format (e.first 0) tr v) λ r w. w

module _ {P : Type 0} (sv : Saver) where
  -- The tracker of the server is well-formed, and its job service ready.
  abbrev pub IsServing : Server P sv.Store → Type 0
  IsServing srv = Held IsValid srv.tracker × Held (λ x. IsReady x.0) srv.service

  tracked_serves :
      (f : Tracker → Option (Tracker × ℕ)) (held : Option Tracker) (srv : Server P sv.Store)
      → IsServing srv
      → Held IsValid held
      → ((tr : Tracker) → IsValid tr → Keeps (f tr))
      → Ensures (λ r. IsServing r.0) (tracked f held srv)
  tracked_serves f none srv s h k = s
  tracked_serves f (some tr) srv s h k =
      Ensures-bind (λ r. IsValid r.0) (λ r. IsServing r.0) (f tr) _ (k tr h) λ r v. (v, s.1)

  serve_job_serves :
      (format : String → ℕ → String) (parse_job : String → Option Job) (e : Call)
      (held : Option Tracker) (svc : Option (Service P × sv.Store)) (srv : Server P sv.Store)
      → IsServing srv
      → Held IsValid held
      → Held (λ x. IsReady x.0) svc
      → Ensures (λ r. IsServing r.0) (serve_job sv format parse_job e held svc srv)
  serve_job_serves format parse_job e none svc srv s h k = s
  serve_job_serves format parse_job e (some tr) none srv s h k =
      tracked_serves (serve_status format e) (some tr) srv s h (serve_status-Keeps format e)
  serve_job_serves format parse_job e (some tr) (some (x, store)) srv s h k =
      Ensures-bind (Served sv e.first e.second x store tr e.request) (λ r. IsServing r.0)
        (job_handler sv e.first e.second x store tr e.request) _
        (job_handler-Served sv e.first e.second x store tr e.request k h) λ r d. (d.1, d.0)

  handle_serves :
      (format : String → ℕ → String) (parse_job : String → Option Job) (srv : Server P sv.Store)
      (e : Call)
      → IsServing srv
      → Ensures (λ r. IsServing r.0) (handle sv format parse_job srv e)
  unfolding handle
  handle_serves format parse_job srv e s =
      let Q = λ (o : Option (Server P sv.Store × ℕ)). Ensures (λ r. IsServing r.0) o in
      if_cases Q (str_eq e.path "/job") _ _
        (serve_job_serves format parse_job e srv.tracker srv.service srv s s.0 s.1)
        (if_cases Q (str_eq e.path "/heartbeat") _ _
          (tracked_serves (λ tr. heartbeat parse_job e.first tr e.request) srv.tracker srv s s.0
            (λ tr v. heartbeat-Keeps parse_job e.first tr e.request v))
          (if_cases Q (str_eq e.path "/update") _ _
            (tracked_serves (λ tr. update parse_job e.first tr e.request) srv.tracker srv s s.0
              (λ tr v. update-Keeps parse_job e.first tr e.request v))
            (if_cases Q (str_eq e.path "/error") _ _
              (tracked_serves (λ tr. error_func parse_job e.first tr e.request) srv.tracker srv s
                s.0 (λ tr v. error_func-Keeps parse_job e.first tr e.request v))
              (if_cases Q (str_eq e.path "/alive" || str_eq e.path "/ready") _ _ s (
                tracked_serves (serve_status format e) srv.tracker srv s s.0
                  (serve_status-Keeps format e))))))

  pub handle_all_serves :
      (format : String → ℕ → String) (parse_job : String → Option Job) (es : List Call)
      (srv : Server P sv.Store)
      → IsServing srv
      → Ensures IsServing (handle_all sv format parse_job srv es)
  unfolding handle_all
  handle_all_serves format parse_job [] srv s = s
  handle_all_serves format parse_job (e ∷ es) srv s =
      Ensures-bind (λ r. IsServing r.0) IsServing (handle sv format parse_job srv e) _
        (handle_serves format parse_job srv e s) λ r t. handle_all_serves format parse_job es r.0 t
