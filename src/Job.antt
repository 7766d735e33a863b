-- ===== src/Job.antt =====
-- tracker/job.go: jobs, their targets, and the limit on the number of distinct error strings.
-- A time is its number of nanoseconds since Go's zero time (January 1, year 1, UTC), so `Truncate`
-- rounds down to a multiple and `time.Time{}` is 0.
use text.Mathlib.Text.{starts_with}
use etl_gardener.Base.{
  ℕ, ◌-◌, ◌%◌, String, Option, none, some, if◌then◌else◌, String_discrete, ℕ_discrete,
}

pub record Job : Type 0 where
  pub bucket : String
  pub experiment : String
  pub datatype : String
  pub date : ℕ
  pub filter : String

unfoldable pub Job_discrete : Discrete Job
Job_discrete = hlevel (String_discrete, ℕ_discrete)

-- 24 * time.Hour
abbrev pub day : ℕ
day = 86400000000000

-- t.Truncate(d), for d above 0
abbrev pub truncate : ℕ → ℕ → ℕ
truncate t d = t - t % d

unfoldable pub new_job : String → String → String → ℕ → Job
new_job bucket exp typ date = record {
  bucket = bucket;
  experiment = exp;
  datatype = typ;
  date = truncate date day;
  filter = "";
}

-- `P` is the package bqx's type of partitioned tables.
pub record JobWithTarget (P : Type 0) : Type 0 where
  pub job : Job
  pub open job use *
  pub target_table : P
  pub target_bucket_and_prefix : String

-- `parse_pdt` is bqx.ParsePDT, and `zero_pdt` the zero value of its result type.
module _ {P : Type 0} (zero_pdt : P) (parse_pdt : String → Option P) where
  unfoldable pub target : Job → String → Option (JobWithTarget P)
  target j text =
      if starts_with text "gs://"
      then some (record { job = j; target_table = zero_pdt; target_bucket_and_prefix = text })
      else elim (parse_pdt text) [
        | none ↦ none
        | some pdt ↦ some (record { job = j; target_table = pdt; target_bucket_and_prefix = "" })
      ]
