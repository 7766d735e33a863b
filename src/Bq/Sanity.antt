-- ===== src/Bq/Sanity.antt =====
-- cloud/bq/sanity.go: the checks before a copy, WaitForJob and
-- SanityCheckAndCopy. `ctx` tells whether the context is not nil.
use etl_gardener.Base.{
  ℕ, suc, zero, ◌+◌, ◌*◌, Bool, false, String, Option, none, some, ltb, str_eq, ◌&&◌, if◌then◌else◌,
}
use etl_gardener.World.{M, ◌>>=◌, give, act}
use etl_gardener.Bq.{
  Outside, Detail, TableMetadata, Table, Pair, AnnotatedTable, TableNameParts, JobStatus,
  status_failed, running, finished, get_table_parts,
}
use etl_gardener.Bq.Floats.{below_99_percent}
use etl_gardener.Bq.Caches.{cached_meta, cached_detail, last_modified_time}

abbrev pub err_src_older_than_dest : String
err_src_older_than_dest = "Source older than destination partition"

abbrev pub err_too_few_tasks : String
err_too_few_tasks = "Too few tasks"

abbrev pub err_too_few_tests : String
err_too_few_tests = "Too few tests"

abbrev pub err_mismatched_partitions : String
err_mismatched_partitions = "Partition dates don't match"

-- IncludeTaskFileCountCheck
abbrev pub include_task_file_count_check : Bool
include_task_file_count_check = false

module _ (out : Outside) where
  -- The comparisons of checkAlmostAsBig; a nil detail is dereferenced all the same.
  unfoldable pub compare_details : Option Detail → Option Detail → Option (Option String)
  compare_details none other = none
  compare_details (some this) none = none
  compare_details (some this) (some other) =
      if include_task_file_count_check
        && below_99_percent this.task_file_count other.task_file_count
      then some (some err_too_few_tasks)
      else if below_99_percent this.test_count other.test_count
      then some (some err_too_few_tests)
      else some none

  abbrev pub with_tables :
      Option (Option String)
      → AnnotatedTable
      → AnnotatedTable
      → M out.World (Option String × AnnotatedTable × AnnotatedTable)
  with_tables none at other w = none
  with_tables (some e) at other w = some ((e, at, other), w)

  -- A check: its error, if there is one, and the two tables after it.
  abbrev pub Checked : Type 0
  Checked = M out.World (Option String × AnnotatedTable × AnnotatedTable)

  abbrev pub compared : Option Detail → Pair Detail → AnnotatedTable → AnnotatedTable → Checked
  compared d (d', some e) at other w = some ((some e, at, other), w)
  compared d (d', none) at other w = with_tables (compare_details d d') at other w

  abbrev pub compare_with : Bool → Pair Detail × AnnotatedTable → AnnotatedTable → Checked
  compare_with ctx ((d, some e), at) other w = some ((some e, at, other), w)
  compare_with ctx ((d, none), at) other w =
      (cached_detail out ctx other >>= λ s. compared d s.0 at s.1) w

  -- checkAlmostAsBig; the warnings are left out.
  unfoldable pub check_almost_as_big : Bool → AnnotatedTable → AnnotatedTable → Checked
  check_almost_as_big ctx at other = do r ← cached_detail out ctx at; compare_with ctx r other

  abbrev pub older_than : Bool → Pair TableMetadata × AnnotatedTable → AnnotatedTable → Checked
  older_than ctx ((m, some e), at) other w = some ((some e, at, other), w)
  older_than ctx ((none, none), at) other w = none
  older_than ctx ((some m, none), at) other w =
      (last_modified_time out ctx other >>= λ s.
      give (if ltb m.last_modified_time s.0 then some err_src_older_than_dest else none, at, s.1))
        w

  -- checkModifiedAfter
  unfoldable pub check_modified_after : Bool → AnnotatedTable → AnnotatedTable → Checked
  check_modified_after ctx at other = do r ← cached_meta out ctx at; older_than ctx r other

  -- What a status of the job leads to, where `rest` is the rest of the loop.
  abbrev pub end_status : M out.World (Option String) → JobStatus → M out.World (Option String)
  end_status rest (status_failed e) w = some (some e, w)
  end_status rest (finished e) w = some (e, w)
  end_status rest running w = rest w

  -- WaitForJob: the fuel of its loop is the number of rounds; `backoff` and `previous` as in the source.
  unfoldable pub job_loop : ℕ → ℕ → ℕ → ℕ → M out.World (Option String)
  job_loop zero max_backoff backoff previous w = none
  job_loop (suc fuel) max_backoff backoff previous w =
      let r = out.job_status w in
      let longer =
        job_loop fuel max_backoff (backoff + previous) backoff
          (out.sleep (backoff + previous) r.1) in
      let same = job_loop fuel max_backoff backoff previous (out.sleep backoff r.1) in
      end_status (λ _. if ltb backoff max_backoff then longer else same) r.0 r.1

  abbrev pub millisecond : ℕ
  millisecond = 1000000

  unfoldable pub wait_for_job : ℕ → ℕ → M out.World (Option String)
  wait_for_job fuel max_backoff w =
      job_loop fuel max_backoff (10 * millisecond) (10 * millisecond) w

  -- The error for the dates of the source and the destination, if there is one.
  unfoldable pub mismatch :
      TableNameParts × Option String → TableNameParts × Option String → Option String
  mismatch (src, some e) dest = some e
  mismatch (src, none) (dest, some e) = some e
  mismatch (src, none) (dest, none) =
      if str_eq dest.yyyymmdd src.yyyymmdd then none else some err_mismatched_partitions

  -- The log line of SanityCheckAndCopy, which asks for both times.
  unfoldable pub log_times :
      Bool → AnnotatedTable → AnnotatedTable → M out.World (AnnotatedTable × AnnotatedTable)
  log_times ctx src dest = do
    s ← last_modified_time out ctx src
    d ← last_modified_time out ctx dest
    give (s.1, d.1)

  -- The copy of SanityCheckAndCopy, and the wait for its job.
  unfoldable pub copy_and_wait : ℕ → Table → Table → M out.World (Option String)
  copy_and_wait fuel src dest = do
    e ← act (out.run_copy src dest)
    elim e as (λ _. M out.World (Option String)) [
      | some err ↦ give (some err)
      | none ↦ wait_for_job fuel (10000 * millisecond)
    ]

  -- What follows checkModifiedAfter.
  abbrev pub end_checks : ℕ → Bool → Option String × AnnotatedTable × AnnotatedTable → Checked
  end_checks fuel ctx (some e, src, dest) = do t ← log_times ctx src dest; give (some e, t.0, t.1)
  end_checks fuel ctx (none, src, dest) = do
    e ← copy_and_wait fuel src.table dest.table
    give (e, src, dest)

  -- What follows checkAlmostAsBig.
  abbrev pub end_counts : ℕ → Bool → Option String × AnnotatedTable × AnnotatedTable → Checked
  end_counts fuel ctx (some e, src, dest) = give (some e, src, dest)
  end_counts fuel ctx (none, src, dest) = do
    s ← check_modified_after ctx src dest
    end_checks fuel ctx s

  -- What follows the comparison of the dates.
  abbrev pub end_parts : ℕ → Bool → Option String → AnnotatedTable → AnnotatedTable → Checked
  end_parts fuel ctx (some e) src dest = give (some e, src, dest)
  end_parts fuel ctx none src dest = do r ← check_almost_as_big ctx src dest; end_counts fuel ctx r

  -- SanityCheckAndCopy; `fuel` is for the wait.
  unfoldable pub sanity_check_and_copy : ℕ → Bool → AnnotatedTable → AnnotatedTable → Checked
  sanity_check_and_copy fuel ctx src dest =
      end_parts fuel ctx
        (mismatch (get_table_parts out src.table.table_id)
          (get_table_parts out dest.table.table_id))
        src dest
