-- ===== src/Handler/Urls.antt =====
-- tracker/handler.go: the URLs that a parser posts to, and what the handlers make of them. `marshal` is
-- Job.Marshal, `encode` is Encode of url.Values, here the pairs in the order of Add, and `parse_query` is the
-- part of ParseForm that reads the query.
use etl_gardener.Base.{
  ℕ, ◌≡◌, ◌≢◌, refl, true, false, String, Option, none, some, List, [], ◌∷◌, concat, str_eq, eq_iff,
  if◌then◌else◌, Bool-cases, inl, inr,
}
use etl_gardener.Job.{Job}
use etl_gardener.Status
use etl_gardener.Tracker as Tracking
use etl_gardener.Tracker.{Tracker}
use etl_gardener.Handler.{Request, reply, get_job, heartbeat, update, error_func}

-- url.URL, as far as it is used.
pub record Url : Type 0 where
  pub path : String
  pub raw_query : String

-- url.Values.Get: the first value under the key, or the empty text
unfoldable pub form_get : List (String × String) → String → String
form_get [] k = ""
form_get ((j, v) ∷ ps) k = let rest = form_get ps k in if str_eq j k then v else rest

module _ (marshal : Job → String) (encode : List (String × String) → String) where
  -- UpdateURL
  unfoldable pub update_url : Url → Job → String → String → Url
  update_url base job state detail = record {
    path = concat base.path "update";
    raw_query = encode (("job", marshal job) ∷ ("state", state) ∷ ("detail", detail) ∷ []);
  }

  -- HeartbeatURL
  unfoldable pub heartbeat_url : Url → Job → Url
  heartbeat_url base job = record {
    path = concat base.path "heartbeat";
    raw_query = encode (("job", marshal job) ∷ []);
  }

  -- ErrorURL
  unfoldable pub error_url : Url → Job → String → Url
  error_url base job err = record {
    path = concat base.path "error";
    raw_query = encode (("job", marshal job) ∷ ("error", err) ∷ []);
  }

-- What a text is not the empty one means for the test.
not_empty : (s : String) → s ≢ "" → str_eq s "" ≡ false
not_empty s n = elim (Bool-cases (str_eq s "")) [
  | inl b ↦ absurd (n ((eq_iff s "").0 b))
  | inr b ↦ b
]

-- A query that is parsed has the values that were encoded.
abbrev pub Reads :
    (List (String × String) → String)
    → (String → Option (List (String × String)))
    → List (String × String)
    → Type 0
Reads encode parse_query ps =
    (qs : List (String × String)) × (parse_query (encode ps) ≡ some qs)
    × ((k : String) → form_get qs k ≡ form_get ps k)

-- A POST of a URL, with no body.
abbrev pub posted : (String → Option (List (String × String))) → Url → Request
posted parse_query url = record {
  is_post = true;
  form = elim (parse_query url.raw_query) [ none ↦ none | some ps ↦ some (form_get ps) ];
}

module _ (marshal : Job → String) (encode : List (String × String) → String)
    (parse_job : String → Option Job) (parse_query : String → Option (List (String × String)))
    (job : Job) (job_back : parse_job (marshal job) ≡ some job) (job_text : marshal job ≢ "") where
  got_job : (text : String) → text ≡ marshal job → get_job parse_job text ≡ some job
  unfolding get_job
  got_job text e = rw e (rw (not_empty (marshal job) job_text) job_back)

  -- What each handler makes of a POST of the URL that is meant for it.
  pub posted-Handled :
      (c : ℕ → ℕ) (tr : Tracker) (base : Url) (state detail err : String)
      → state ≢ ""
      → err ≢ ""
      → Reads encode parse_query (("job", marshal job) ∷ ("state", state) ∷ ("detail", detail) ∷ [])
      → Reads encode parse_query (("job", marshal job) ∷ [])
      → Reads encode parse_query (("job", marshal job) ∷ ("error", err) ∷ [])
      → (update parse_job c tr
            (posted parse_query (update_url marshal encode base job state detail))
          ≡ reply (Tracking.set_status c tr job state detail))
        × (heartbeat parse_job c tr (posted parse_query (heartbeat_url marshal encode base job))
            ≡ reply (Tracking.heartbeat c tr job))
        × (error_func parse_job c tr (posted parse_query (error_url marshal encode base job err))
            ≡ reply (Tracking.set_status c tr job Status.parse_error err))
  unfolding update_url heartbeat_url error_url update heartbeat error_func form_get
  posted-Handled c tr base state detail err n m (ps, p, f) (qs, q, g) (rs, r, h) = (
    rw p (
        rw (got_job (form_get ps "job") (f "job"))
          (rw (f "state") (rw (not_empty state n) (rw (f "detail") refl)))),
    rw q (rw (got_job (form_get qs "job") (g "job")) refl),
    rw r (rw (got_job (form_get rs "job") (h "job")) (rw (h "error") (rw (not_empty err m) refl))),
  )
