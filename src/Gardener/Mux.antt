-- ===== src/Gardener/Mux.antt =====
-- gardener.go: the handlers that main registers, for the paths that they are registered for.
use etl_gardener.Base.{
  ℕ, String, Option, none, some, List, [], ◌∷◌, str_eq, if◌then◌else◌, ◌>>=◌, ◌||◌,
}
use etl_gardener.Job.{Job}
use etl_gardener.Tracker.{Tracker}
use etl_gardener.Persistence.{Saver}
use etl_gardener.Service.{Service}
use etl_gardener.Handler.{Request, heartbeat, update, error_func, job_handler, status_ok}
use etl_gardener.Page.{write_html_status_to}
use etl_gardener.Gardener.Main.{Server, health_check}

-- A request, with the clock's readings. The path is the one that the mux has cleaned.
pub record Call : Type 0 where
  pub path : String
  pub request : Request
  pub first : ℕ → ℕ
  pub second : ℕ → ℕ

-- A handler of the tracker. In the legacy mode it is not registered, and Status answers.
abbrev pub tracked :
    {P S : Type 0}
    → (Tracker → Option (Tracker × ℕ))
    → Option Tracker
    → Server P S
    → Option (Server P S × ℕ)
tracked f none srv = some (srv, status_ok)
tracked f (some tr) srv = do r ← f tr; some (record srv { tracker = some r.0 }, r.1)

-- Status, which asks the tracker for its state; `format` is Time.Format.
abbrev pub serve_status : (String → ℕ → String) → Call → Tracker → Option (Tracker × ℕ)
serve_status format e tr = do r ← write_html_status_to format (e.first 0) tr; some (r.0, status_ok)

module _ {P : Type 0} (sv : Saver) (format : String → ℕ → String)
    (parse_job : String → Option Job) where
  abbrev pub serve_job :
      Call
      → Option Tracker
      → Option (Service P × sv.Store)
      → Server P sv.Store
      → Option (Server P sv.Store × ℕ)
  serve_job e none held srv = some (srv, status_ok)
  serve_job e (some tr) none srv = tracked (serve_status format e) (some tr) srv
  serve_job e (some tr) (some (svc, store)) srv = do
    r ← job_handler sv e.first e.second svc store tr e.request
    some (record srv { tracker = some r.2; service = some (r.0, r.1) }, r.3)

  -- What the mux leads a request to: the server and the code of the reply.
  unfoldable pub handle : Server P sv.Store → Call → Option (Server P sv.Store × ℕ)
  unfolding health_check
  handle srv e =
      if str_eq e.path "/job"
      then serve_job e srv.tracker srv.service srv
      else if str_eq e.path "/heartbeat"
      then tracked (λ tr. heartbeat parse_job e.first tr e.request) srv.tracker srv
      else if str_eq e.path "/update"
      then tracked (λ tr. update parse_job e.first tr e.request) srv.tracker srv
      else if str_eq e.path "/error"
      then tracked (λ tr. error_func parse_job e.first tr e.request) srv.tracker srv
      else if str_eq e.path "/alive" || str_eq e.path "/ready"
      then some (srv, (health_check srv.healthy).0)
      else tracked (serve_status format e) srv.tracker srv

  unfoldable pub handle_all : Server P sv.Store → List Call → Option (Server P sv.Store)
  unfolding handle
  handle_all srv [] = some srv
  handle_all srv (e ∷ es) = do r ← handle srv e; handle_all r.0 es
