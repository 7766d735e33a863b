-- ===== src/Rex/Executor.antt =====
-- rex/rex.go: finish and Next, and the executor as what the loop of Process takes. Errors are compared by
-- their texts.
use etl_gardener.Base.{ℕ, true, String, Option, none, some, ◌==◌, str_eq, ◌||◌, not, if◌then◌else◌}
use etl_gardener.World.{M, ◌>>=◌}
use etl_gardener.Task
use etl_gardener.Task.{
  Task, initializing, queuing, processing, state_stabilizing, state_deduplicating, state_finishing,
  state_done, invalid, task_suspended,
}
use etl_gardener.Bq.{AnnotatedTable, new_annotated_table}
use etl_gardener.Bq.Sanity.{sanity_check_and_copy}
use etl_gardener.Bq.Stable.{wait_for_stable_table}
use etl_gardener.Rex.{RexOutside, BqConfig, Fuel, err_dataset_names_match, err_table_not_found}
use etl_gardener.Rex.Steps.{
  Worlds, Step, fail, advance, or_fail, call, done_with, with_names, prefix_of, in_tables,
  in_buffers, wait_for_parsing, queue, dedup_task, wait_for_dedup_job,
}

module _ (out : RexOutside) (cfg : BqConfig) (fuel : Fuel) where
  abbrev Act : Type 0
  Act = Task → Step out cfg fuel

  abbrev annotated : String → String → AnnotatedTable
  annotated ds id =
      new_annotated_table (record { project_id = cfg.bq_project; dataset_id = ds; table_id = id })
        true

  abbrev pub delete_source : String → Act
  delete_source src t =
      call out cfg fuel (out.delete_table src) t
      >>= or_fail out cfg fuel "TableDelete" (done_with out cfg fuel)

  abbrev pub end_copy :
      String → Task → Option String × AnnotatedTable × AnnotatedTable → Step out cfg fuel
  end_copy src t r = or_fail out cfg fuel "SanityCheckAndCopy" (delete_source src) (r.0, t)

  -- SanityCheckAndCopy from the batch dataset to the final one
  abbrev pub sanity_check :
      String → M (Worlds out) (Option String × AnnotatedTable × AnnotatedTable)
  sanity_check copy = in_tables out cfg fuel (
      sanity_check_and_copy out.tables fuel.copy true (annotated cfg.bq_batch_dataset copy)
        (annotated cfg.bq_final_dataset copy))

  -- The part of finish that checks, copies and deletes.
  unfoldable pub checked_copy : String → String → Act
  checked_copy src copy t = sanity_check copy >>= end_copy src t

  unfoldable pub copy_task : String → String → Act
  copy_task src copy t w =
      let same =
        fail out cfg fuel err_dataset_names_match "Cannot SanityCheckAndCopy to same dataset" t w in
      let copied =
        (call out cfg fuel out.final_ds t
            >>= or_fail out cfg fuel "GetFinalDS" (checked_copy src copy))
          w in
      if str_eq cfg.bq_final_dataset ""
      then some ((none, t), w)
      else if str_eq cfg.bq_batch_dataset cfg.bq_final_dataset
      then same
      else copied

  abbrev pub end_job_wait : String → String → Option String × Task → Step out cfg fuel
  end_job_wait src copy (none, t) w = copy_task src copy (record t { job_id = "" }) w
  end_job_wait src copy (some e, t) w =
      let failed = fail out cfg fuel e "job.Wait" t w in
      if str_eq e task_suspended then some ((some e, t), w) else failed

  abbrev pub read_job : String → String → Act
  read_job src copy t = call out cfg fuel out.job_wait t >>= end_job_wait src copy

  abbrev pub wait_job : String → String → Act
  wait_job src copy t =
      wait_for_dedup_job out cfg fuel t >>= or_fail out cfg fuel "waitForJob" (read_job src copy)

  abbrev pub find_job : String → String → Act
  find_job src copy t =
      call out cfg fuel (out.job_from_id t.job_id) t
      >>= or_fail out cfg fuel "JobFromID" (wait_job src copy)

  abbrev pub finish_source : Act
  finish_source t = with_names out cfg fuel "SourceAndDest" find_job t (prefix_of out cfg fuel t)

  -- finish
  unfoldable pub finish : Act
  finish t = call out cfg fuel out.batch_ds t >>= or_fail out cfg fuel "GetBatchDS" finish_source

  abbrev pub end_queue : ℕ × Option String × Task → Step out cfg fuel
  end_queue (files, some e, t) w = fail out cfg fuel e "rex.queue" t w
  end_queue (files, none, t) w =
      let empty = advance out cfg fuel state_done (record t { queue = "" }) w in
      let more = advance out cfg fuel processing t w in if files == 0 then empty else more

  abbrev pub end_stable : Task → Option String → Step out cfg fuel
  end_stable t none w = advance out cfg fuel state_deduplicating t w
  end_stable t (some e) w =
      let failed = fail out cfg fuel e "bq.WaitForStableTable" t w in
      let on = advance out cfg fuel state_deduplicating t w in
      if not (str_eq e err_table_not_found) || not out.is_test then failed else on

  abbrev pub wait_stable : String → String → Act
  wait_stable src dest t =
      in_buffers out cfg fuel (wait_for_stable_table out.buffers fuel.stable) >>= end_stable t

  abbrev pub stable_source : Act
  stable_source t =
      with_names out cfg fuel "task.SourceAndDest" wait_stable t (prefix_of out cfg fuel t)

  -- The case of Next for Stabilizing
  unfoldable pub stabilize : Act
  stabilize t =
      call out cfg fuel out.batch_ds t >>= or_fail out cfg fuel "rex.GetBatchDS" stable_source

  -- Processing, which gives up the queue, and Finishing, which forgets the job.
  abbrev pub leave_queue : Act
  leave_queue t = advance out cfg fuel state_stabilizing (record t { queue = "" })

  abbrev pub leave_job : Act
  leave_job t = advance out cfg fuel state_done (record t { job_id = "" })

  -- Next
  unfoldable pub next : Act
  next t w =
      let queued = (queue out cfg fuel t >>= end_queue) w in
      let parsed =
        (wait_for_parsing out cfg fuel t >>= or_fail out cfg fuel "rex.waitForParsing" leave_queue)
          w in
      let stabilized = stabilize t w in
      let deduped =
        (dedup_task out cfg fuel t
            >>= or_fail out cfg fuel "rex.dedup" (advance out cfg fuel state_finishing))
          w in
      let finished = (finish t >>= or_fail out cfg fuel "rex.finish" leave_job) w in
      if t.state == initializing
      then advance out cfg fuel queuing t w
      else if t.state == queuing
      then queued
      else if t.state == processing
      then parsed
      else if t.state == state_stabilizing
      then stabilized
      else if t.state == state_deduplicating
      then deduped
      else if t.state == state_finishing
      then finished
      else if t.state == state_done
      then some ((none, t), w)
      else if t.state == invalid
      then fail out cfg fuel "called Next on invalid state" "Invalid state" t w
      else fail out cfg fuel "Unknown state" "Unknown state" t w

  abbrev stepped : (Option String × Task) × Worlds out → Worlds out × Task × Option String
  stepped ((e, t), w) = (w, t, e)

  abbrev pub give_step :
      Option ((Option String × Task) × Worlds out) → Option (Worlds out × Task × Option String)
  give_step none = none
  give_step (some r) = some (stepped r)

  abbrev in_first : out.store.World × Option String → Worlds out → Worlds out × Option String
  in_first (w', e) (w, q, b, s, d) = ((w', q, b, s, d), e)

  -- The executor with its parts of the world, as the loop of Process takes it.
  abbrev pub executor : Task.Outside
  executor = record {
    World = Worlds out;
    clock = λ w. out.store.clock w.0;
    save_task = λ t w. in_first (out.store.save_task t w.0) w;
    delete_task = λ t w. in_first (out.store.delete_task t w.0) w;
    notified = λ w. out.store.notified w.0;
    next = λ w t. give_step (next t w);
  }
