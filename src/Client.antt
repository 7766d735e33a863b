-- ===== src/Client.antt =====
-- client/client.go: post and NextJob. The HTTP client and the JSON decoder are parameters; logs and the
-- counter of errors are left out.
pub mod Obtained
use etl_gardener.Base.{ℕ, Bool, true, false, String, Option, none, some, ◌==◌, if◌then◌else◌}

-- What http.NewRequestWithContext and DefaultClient.Do give: an error of one of them, or a response with
-- what is read of its body, its status code, and the error of the reading.
pub data Exchange : Type 0 where
  request_failed do_failed : String → Exchange
  responded : String → ℕ → Option String → Exchange

-- post
unfoldable pub post : Exchange → String × ℕ × Option String
post (request_failed e) = ("", 0, some e)
post (do_failed e) = ("", 0, some e)
post (responded body status err) = (body, status, err)

-- `J` is the type of JobWithTarget, and `decode` is Decode into a job, with or without
-- DisallowUnknownFields.
module _ {J : Type 0} (zero_job : J) (status_text : ℕ → String)
    (decode : Bool → String → J → J × Option String) where
  -- The second try ignores unknown fields, and decodes into the job as the first one left it.
  abbrev pub decoded : String → J × Option String → J × Option String
  decoded b (j, none) = (j, none)
  decoded b (j, some e) = decode false b j

  abbrev pub job_of : String × ℕ × Option String → J × Option String
  job_of (b, status, some e) = (zero_job, some e)
  job_of (b, status, none) =
      let j = decoded b (decode true b zero_job) in
      if status == 200 then j else (zero_job, some (status_text status))

  -- NextJob, by what it exchanges with the service
  unfoldable pub next_job : Exchange → J × Option String
  unfolding post
  next_job x = job_of (post x)
