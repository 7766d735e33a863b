-- ===== src/Gardener/Posted.antt =====
-- gardener.go and tracker/handler.go: the URLs that a parser posts to, and the mux that leads them to the
-- handlers.
use etl_gardener.Base.{ℕ, ◌≡◌, ◌≢◌, ◌∙◌, ap, String, Option, some, [], ◌∷◌, List, ◌>>=◌}
use etl_gardener.Job.{Job}
use etl_gardener.Status
use etl_gardener.Persistence.{Saver}
use etl_gardener.Tracker as Tracking
use etl_gardener.Tracker.{Tracker, Run}
use etl_gardener.Handler.{reply}
use etl_gardener.Handler.Urls.{
  Url, update_url, heartbeat_url, error_url, Reads, posted, posted-Handled,
}
use etl_gardener.Gardener.Main.{Server}
use etl_gardener.Gardener.Mux.{Call, tracked, handle}

-- A POST of a URL, with no body, as the server meets it.
abbrev pub posted_call : (String → Option (List (String × String))) → Url → (ℕ → ℕ) → (ℕ → ℕ) → Call
posted_call parse_query url c d = record {
  path = url.path;
  request = posted parse_query url;
  first = c;
  second = d;
}

-- The server after a call of its tracker, and the code of the reply.
abbrev pub replied : {P S : Type 0} → Server P S → Run → Option (Server P S × ℕ)
replied srv o = do r ← reply o; some (record srv { tracker = some r.0 }, r.1)

tracked-replied :
    {P S : Type 0} (f : Tracker → Option (Tracker × ℕ)) (srv : Server P S) (tr : Tracker) (o : Run)
    → srv.tracker ≡ some tr
    → f tr ≡ reply o
    → tracked f srv.tracker srv ≡ replied srv o
tracked-replied {P} {S} f srv tr o t e =
    ap (λ x. tracked f x srv) t
    ∙ ap (λ (x : Option (Tracker × ℕ)). do r ← x; some (record srv { tracker = some r.0 }, r.1)) e

module _ {P : Type 0} (sv : Saver) (format : String → ℕ → String) (marshal : Job → String)
    (encode : List (String × String) → String) (parse_job : String → Option Job)
    (parse_query : String → Option (List (String × String))) (job : Job)
    (job_back : parse_job (marshal job) ≡ some job) (job_text : marshal job ≢ "") where
  -- On a server with a tracker, whatever else it has, and for URLs made from the base path "/": a POST of the
  -- URL of UpdateURL, with a state that is not empty, sets this state and detail of this job in the
  -- tracker; one of HeartbeatURL does the heartbeat of the job; and one of ErrorURL, with an error that
  -- is not empty, sets the state parseError with the error as the detail. The server replies to what
  -- the tracker gives. What was marshalled is not empty and is parsed again, and each query has the
  -- values that were encoded.
  pub posted_call-Served :
      (srv : Server P sv.Store) (tr : Tracker) (c d : ℕ → ℕ) (query state detail err : String)
      → srv.tracker ≡ some tr
      → state ≢ ""
      → err ≢ ""
      → Reads encode parse_query (("job", marshal job) ∷ ("state", state) ∷ ("detail", detail) ∷ [])
      → Reads encode parse_query (("job", marshal job) ∷ [])
      → Reads encode parse_query (("job", marshal job) ∷ ("error", err) ∷ [])
      → let base : Url = record { path = "/"; raw_query = query } in
        (handle sv format parse_job srv
            (posted_call parse_query (update_url marshal encode base job state detail) c d)
          ≡ replied srv (Tracking.set_status c tr job state detail))
        × (handle sv format parse_job srv
              (posted_call parse_query (heartbeat_url marshal encode base job) c d)
            ≡ replied srv (Tracking.heartbeat c tr job))
        × (handle sv format parse_job srv
              (posted_call parse_query (error_url marshal encode base job err) c d)
            ≡ replied srv (Tracking.set_status c tr job Status.parse_error err))
  unfolding handle update_url heartbeat_url error_url
  posted_call-Served srv tr c d query state detail err t n m ps qs rs =
      let base : Url = record { path = "/"; raw_query = query } in
      let (u, h, e) =
        posted-Handled marshal encode parse_job parse_query job job_back job_text c tr base state
          detail err n m ps qs rs in
      (
        tracked-replied _ srv tr (Tracking.set_status c tr job state detail) t u,
        tracked-replied _ srv tr (Tracking.heartbeat c tr job) t h,
        tracked-replied _ srv tr (Tracking.set_status c tr job Status.parse_error err) t e,
      )
