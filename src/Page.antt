-- ===== src/Page.antt =====
-- tracker/job.go: the texts of jobs and of a status, and the table of WriteHTML. `format` is Time.Format.
-- The template is the list of the cells of its rows; html/template writes them, which escapes them.
-- `none` is a panic, or the error that the template makes of one.
pub mod Table
use etl_gardener.Base.{
  ℕ, suc, zero, ◌+◌, ◌-◌, ◌%◌, String, Bool, Option, none, some, List, [], ◌∷◌, ◌||◌, ℤ, pos,
  negsuc, concat, str_eq, ltb, leb, if◌then◌else◌, ◌>>=◌, last?,
}
use etl_gardener.Job.{Job, JobWithTarget}
use etl_gardener.Status as Statuses
use etl_gardener.Status.{Status}
use etl_gardener.Tracker.{Tracker, JobMap, get_state}

-- time.Second
abbrev second : ℕ
second = 1000000000

-- Duration.Round to a second, half of one up, of a duration that is not negative
abbrev pub rounded : ℕ → ℕ
rounded d = let r = d % second in if ltb (r + r) second then d - r else d + second - r

abbrev negated : ℕ → ℤ
negated zero = pos 0
negated (suc n) = negsuc n

-- The difference of two times, rounded.
unfoldable pub rounded_difference : ℕ → ℕ → ℤ
rounded_difference a b = if leb b a then pos (rounded (a - b)) else negated (rounded (b - a))

-- Status.Elapsed
unfoldable pub elapsed : Status → Option ℤ
unfolding rounded_difference
elapsed s = do
  t ← Statuses.detail_time s
  start ← Statuses.start_time s
  some (rounded_difference t start)

-- A row of the table.
pub record Row : Type 0 where
  pub job : String
  pub elapsed : ℤ
  pub update_time : String
  pub is_red : Bool
  pub state : String
  pub detail : String
  pub update_count : ℕ
  pub error : String

-- Pair, with the start time that the order goes by.
pub record Entry : Type 0 where
  pub start : ℕ
  pub job : Job
  pub status : Status

-- JobRep
pub record JobRep : Type 0 where
  pub title : String
  pub rows : List Row

-- The pairs in the order of their start times, in one of the orders that sort.Slice may choose.
unfoldable pub insert_by_start : Entry → List Entry → List Entry
insert_by_start p [] = p ∷ []
insert_by_start p (q ∷ ps) =
    let rest = q ∷ insert_by_start p ps in if ltb q.start p.start then rest else p ∷ q ∷ ps

unfoldable pub by_start : JobMap → Option (List Entry)
unfolding insert_by_start
by_start [] = some []
by_start ((j, s) ∷ m) = do
  t ← Statuses.start_time s
  rest ← by_start m
  some (insert_by_start (record { start = t; job = j; status = s }) rest)

module _ (format : String → ℕ → String) where
  -- Job.String
  unfoldable pub job_string : Job → String
  job_string j =
      concat (format "20060102" j.date) (concat ":" (concat j.experiment (concat "/" j.datatype)))

  -- JobWithTarget.String
  unfoldable pub target_string : {P : Type 0} → JobWithTarget P → String
  unfolding job_string
  target_string jt = concat (job_string jt.job) jt.job.filter

  -- Job.Path
  unfoldable pub job_path : Job → String
  job_path j =
      let date = format "2006/01/02/" j.date in
      concat "gs://" (
        concat j.bucket (
          concat "/" (
            concat j.experiment (
              concat "/"
                (if str_eq j.datatype "" then date else concat j.datatype (concat "/" date))))))

  -- Status.String
  unfoldable pub status_string : Status → Option String
  status_string s = do
    last ← Statuses.last_state_info s
    some (
        concat (format "01/02~15:04:05" last.detail_time)
          (concat " " (concat last.state (concat " (" (concat last.detail ")")))))

  -- A row of jobsTemplate.
  unfoldable pub row : Job → Status → Option Row
  unfolding job_string elapsed
  row j s = do
    age ← elapsed s
    t ← Statuses.detail_time s
    st ← Statuses.state s
    text ← Statuses.detail s
    err ← Statuses.status_error s
    some (record {
      job = job_string j;
      elapsed = age;
      update_time = format "01/02~15:04:05" t;
      is_red = str_eq st Statuses.init || str_eq st Statuses.parse_complete;
      state = st;
      detail = text;
      update_count = s.update_count;
      error = err;
    })

  unfoldable pub rows_of : List Entry → Option (List Row)
  unfolding row
  rows_of [] = some []
  rows_of (p ∷ ps) = do r ← row p.job p.status; rest ← rows_of ps; some (r ∷ rest)

  -- WriteHTML
  unfoldable pub write_html : JobMap → Option JobRep
  unfolding rows_of by_start
  write_html m = do
    pairs ← by_start m
    rs ← rows_of pairs
    some (record { title = "Jobs"; rows = rs })

  -- Tracker.WriteHTMLStatusTo
  unfoldable pub write_html_status_to : ℕ → Tracker → Option (Tracker × JobRep)
  unfolding write_html
  write_html_status_to now tr = do r ← get_state now tr; page ← write_html r.1; some (r.0, page)
