-- ===== src/Tests/UrlRuns.antt =====
-- handler.go: the URLs of one job, posted.
use etl_gardener.Base.{
  ℕ, ◌≡◌, ◌≢◌, refl, concat, str_eq, eq_iff, arith, if◌then◌else◌, String, Option, none, some, List,
  [], ◌∷◌,
}
use etl_gardener.Job.{Job}
use etl_gardener.Status
use etl_gardener.Tracker as Tracking
use etl_gardener.Tracker.{set_status}
use etl_gardener.Persistence.{Key}
use etl_gardener.Gardener.Main.{Server}
use etl_gardener.Gardener.Mux.{handle}
use etl_gardener.Gardener.Posted.{posted_call, replied, posted_call-Served}
use etl_gardener.Handler.Urls.{Url, update_url, heartbeat_url, error_url}
use etl_gardener.Tests.TrackerRuns.{small, ndt, clock}
use etl_gardener.Tests.ServiceRuns.{memory}
use etl_gardener.Tests.GardenerRuns.{server}

-- Queries of plain values, and the three that the URLs of one job have.
abbrev plain : List (String × String) → String
plain [] = ""
plain ((k, v) ∷ ps) = concat k (concat "=" (concat v (concat "&" (plain ps))))

abbrev moved : List (String × String)
moved = ("job", "ndt") ∷ ("state", "loading") ∷ ("detail", "-") ∷ []

abbrev beaten : List (String × String)
beaten = ("job", "ndt") ∷ []

abbrev erred : List (String × String)
erred = ("job", "ndt") ∷ ("error", "timeout") ∷ []

abbrev read_plain : String → Option (List (String × String))
read_plain text =
    if str_eq text "job=ndt&state=loading&detail=-&"
    then some moved
    else if str_eq text "job=ndt&"
    then some beaten
    else if str_eq text "job=ndt&error=timeout&"
    then some erred
    else none

abbrev home : Url
home = record { path = "/"; raw_query = "" }

abbrev name_of : Job → String
name_of j = "ndt"

named : name_of ndt ≢ ""
named = ground (arith, eq_iff "ndt" "")

loading-ne-empty : ◌≢◌ {A = String} "loading" ""
loading-ne-empty = ground (arith, eq_iff "loading" "")

timeout-ne-empty : ◌≢◌ {A = String} "timeout" ""
timeout-ne-empty = ground (arith, eq_iff "timeout" "")

abbrev serving : Server String (Key → Option ℕ)
serving = record server { tracker = some small }

abbrev layout_only : String → ℕ → String
layout_only layout t = layout

abbrev as_ndt : String → Option Job
as_ndt text = some ndt

posted_call-Served_example :
    (handle memory layout_only as_ndt serving
        (posted_call read_plain (update_url name_of plain home ndt "loading" "-") clock clock)
      ≡ replied serving (set_status clock small ndt "loading" "-"))
    × (handle memory layout_only as_ndt serving
          (posted_call read_plain (heartbeat_url name_of plain home ndt) clock clock)
        ≡ replied serving (Tracking.heartbeat clock small ndt))
    × (handle memory layout_only as_ndt serving
          (posted_call read_plain (error_url name_of plain home ndt "timeout") clock clock)
        ≡ replied serving (set_status clock small ndt Status.parse_error "timeout"))
posted_call-Served_example =
    posted_call-Served memory layout_only name_of plain as_ndt read_plain ndt refl named serving
      small clock clock "" "loading" "-" "timeout" refl loading-ne-empty timeout-ne-empty
      (moved, refl, λ k. refl) (beaten, refl, λ k. refl) (erred, refl, λ k. refl)
