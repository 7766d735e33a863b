-- ===== src/Rex/Kept.antt =====
-- The steps of the executor before Update keep the state and the queue of the task.
use etl_gardener.Base.{◌≡◌, refl, String, Option, none, some, if_cases, str_eq}
use etl_gardener.World.{follow, Returns, Returns-follow, Returns-any}
use etl_gardener.Task.{Task, Prefix, set_error, Outside, task_suspended}
use etl_gardener.TaskQueue.{NewHandler, new_failed, new_handler, eof}
use etl_gardener.Bq.Operations.{dedup}
use etl_gardener.Rex.{RexOutside, BqConfig, Fuel, err_dataset_names_match}
use etl_gardener.Rex.Steps.{
  Worlds, Step, fail, or_fail, call, done_with, with_names, prefix_of, get_handler, parse_with,
  parsing_loop, wait_for_parsing, end_dedup, end_parsing, with_error, dedup_source, run_dedup,
  dedup_task, wait_for_dedup_job, in_rest, in_dedups, dedup_job_loop,
}
use etl_gardener.Rex.Executor.{
  delete_source, end_copy, sanity_check, read_job, wait_job, find_job, finish_source, checked_copy,
  copy_task, end_job_wait, finish,
}

abbrev pub Same : Task → Task → Type 0
Same t t' = (t'.state ≡ t.state) × (t'.queue ≡ t.queue)

pub set_error-Same :
    (store : Outside) (w : store.World) (t t1 : Task) (err info : String)
    → Same t t1
    → Same t (set_error store w t1 err info).1
unfolding set_error
set_error-Same store w t t1 err info h =
    let P = λ (r : store.World × Task × Option String). Same t r.1 in
    if_cases P t1.has_saver _ _ (if_cases P t1.has_saver _ _ h h) h

module _ (out : RexOutside) (cfg : BqConfig) (fuel : Fuel) (t : Task) where
  abbrev pub Kept : Option String × Task → Worlds out → Type 0
  Kept r w = Same t r.1

  fail-Kept :
      (err info : String) (t1 : Task) (w : Worlds out)
      → Same t t1
      → Returns Kept (fail out cfg fuel err info t1 w)
  unfolding fail
  fail-Kept err info t1 (w, q, b, s, d) h = set_error-Same out.store w t t1 err info h

  pub call-Kept :
      (f : out.store.World → Option String × out.store.World) (t1 : Task) (w : Worlds out)
      → Same t t1
      → Returns Kept (call out cfg fuel f t1 w)
  call-Kept f t1 (w, q, b, s, d) h = h

  pub or_fail-Kept :
      (info : String) (rest : Task → Step out cfg fuel) (r : Option String × Task) (w : Worlds out)
      → Same t r.1
      → ((t1 : Task) (w1 : Worlds out) → Same t t1 → Returns Kept (rest t1 w1))
      → Returns Kept (or_fail out cfg fuel info rest r w)
  or_fail-Kept info rest (some e, t1) w h k = fail-Kept e info t1 w h
  or_fail-Kept info rest (none, t1) w h k = k t1 w h

  -- A step, its error, and the rest.
  pub step-Kept :
      (o : Option ((Option String × Task) × Worlds out)) (info : String)
      (rest : Task → Step out cfg fuel)
      → Returns Kept o
      → ((t1 : Task) (w1 : Worlds out) → Same t t1 → Returns Kept (rest t1 w1))
      → Returns Kept (follow o (or_fail out cfg fuel info rest))
  step-Kept o info rest h k =
      Returns-follow Kept Kept o (or_fail out cfg fuel info rest) h
        (λ r w e g. or_fail-Kept info rest r w g k)

  -- A call that does not see the task, and the rest.
  unseen-Kept :
      {A : Type 0} (o : Option (A × Worlds out)) (f : A → Step out cfg fuel)
      → ((a : A) (w : Worlds out) → Returns Kept (f a w))
      → Returns Kept (follow o f)
  unseen-Kept o f k = Returns-follow (λ _ _. Unit) Kept o f (Returns-any o) (λ a w e u. k a w)

  pub with_names-Kept :
      (info : String) (rest : String → String → Task → Step out cfg fuel) (t1 : Task)
      (p : Option Prefix) (w : Worlds out)
      → Same t t1
      → ((src dest : String) (t2 : Task) (w2 : Worlds out)
          → Same t t2
          → Returns Kept (rest src dest t2 w2))
      → Returns Kept (with_names out cfg fuel info rest t1 p w)
  with_names-Kept info rest t1 none w h k = fail-Kept (out.prefix_error t1.name) info t1 w h
  with_names-Kept info rest t1 (some p) w h k = k _ _ t1 w h

  parse_with-Kept : (n : NewHandler) (w : Worlds out) → Returns Kept (parse_with out cfg fuel t n w)
  parse_with-Kept (new_failed e) w = fail-Kept e "NewQueueHandler" t w (refl, refl)
  parse_with-Kept (new_handler qh) w =
      unseen-Kept (parsing_loop out cfg fuel fuel.parsing qh w) (end_parsing out cfg fuel t)
        (λ a w'. (refl, refl))

  pub wait_for_parsing-Kept : (w : Worlds out) → Returns Kept (wait_for_parsing out cfg fuel t w)
  unfolding wait_for_parsing
  wait_for_parsing-Kept w = parse_with-Kept (get_handler out cfg fuel t) w

  end_dedup-Kept :
      (t1 : Task) (e : Option String) (w : Worlds out)
      → Same t t1
      → Returns Kept (end_dedup out cfg fuel t1 e w)
  end_dedup-Kept t1 none (w, q, b, s, d) h = h
  end_dedup-Kept t1 (some e) w h =
      if_cases (Returns Kept) (str_eq e eof) _ _ (if_cases (Returns Kept) out.is_test _ _ h tt)
        (fail-Kept e "DedupFailed" t1 w h)

  dedup_source-Kept :
      (t1 : Task) (w : Worlds out) → Same t t1 → Returns Kept (dedup_source out cfg fuel t1 w)
  dedup_source-Kept t1 w h =
      with_names-Kept "SourceAndDest" (run_dedup out cfg fuel) t1 (prefix_of out cfg fuel t1) w h
        (λ src dest t2 w2 g.
          unseen-Kept (in_dedups out cfg fuel (dedup out.dedups src dest) w2)
            (end_dedup out cfg fuel t2) (λ e w3. end_dedup-Kept t2 e w3 g))

  pub dedup_task-Kept : (w : Worlds out) → Returns Kept (dedup_task out cfg fuel t w)
  unfolding dedup_task
  dedup_task-Kept w =
      step-Kept (call out cfg fuel out.batch_ds t w) "GetBatchDS" (dedup_source out cfg fuel)
        (call-Kept out.batch_ds t w (refl, refl)) dedup_source-Kept

  wait_for_dedup_job-Kept :
      (t1 : Task) (w : Worlds out) → Same t t1 → Returns Kept (wait_for_dedup_job out cfg fuel t1 w)
  unfolding wait_for_dedup_job
  wait_for_dedup_job-Kept t1 w h =
      unseen-Kept
        (in_rest out cfg fuel
          (dedup_job_loop out cfg fuel fuel.job 300000000000 10000000000 10000000000) w)
        (with_error out cfg fuel t1) (λ e w'. h)

  delete_source-Kept :
      (src : String) (t1 : Task) (w : Worlds out)
      → Same t t1
      → Returns Kept (delete_source out cfg fuel src t1 w)
  delete_source-Kept src t1 w h =
      step-Kept (call out cfg fuel (out.delete_table src) t1 w) "TableDelete"
        (done_with out cfg fuel) (call-Kept (out.delete_table src) t1 w h) (λ t2 w2 g. g)

  checked_copy-Kept :
      (src copy : String) (t1 : Task) (w : Worlds out)
      → Same t t1
      → Returns Kept (checked_copy out cfg fuel src copy t1 w)
  unfolding checked_copy
  checked_copy-Kept src copy t1 w h =
      unseen-Kept (sanity_check out cfg fuel copy w) (end_copy out cfg fuel src t1) (λ r w'.
        or_fail-Kept "SanityCheckAndCopy" (delete_source out cfg fuel src) (r.0, t1) w' h
          (delete_source-Kept src))

  copy_task-Kept :
      (src copy : String) (t1 : Task) (w : Worlds out)
      → Same t t1
      → Returns Kept (copy_task out cfg fuel src copy t1 w)
  unfolding copy_task
  copy_task-Kept src copy t1 w h = if_cases (Returns Kept) (str_eq cfg.bq_final_dataset "") _ _ h (
      if_cases (Returns Kept) (str_eq cfg.bq_batch_dataset cfg.bq_final_dataset) _ _
        (fail-Kept err_dataset_names_match "Cannot SanityCheckAndCopy to same dataset" t1 w h)
        (step-Kept (call out cfg fuel out.final_ds t1 w) "GetFinalDS"
          (checked_copy out cfg fuel src copy) (call-Kept out.final_ds t1 w h)
          (checked_copy-Kept src copy)))

  end_job_wait-Kept :
      (src copy : String) (r : Option String × Task) (w : Worlds out)
      → Same t r.1
      → Returns Kept (end_job_wait out cfg fuel src copy r w)
  end_job_wait-Kept src copy (none, t1) w h =
      copy_task-Kept src copy (record t1 { job_id = "" }) w h
  end_job_wait-Kept src copy (some e, t1) w h =
      if_cases (Returns Kept) (str_eq e task_suspended) _ _ h (fail-Kept e "job.Wait" t1 w h)

  read_job-Kept :
      (src copy : String) (t1 : Task) (w : Worlds out)
      → Same t t1
      → Returns Kept (read_job out cfg fuel src copy t1 w)
  read_job-Kept src copy t1 w h =
      Returns-follow Kept Kept (call out cfg fuel out.job_wait t1 w)
        (end_job_wait out cfg fuel src copy) (call-Kept out.job_wait t1 w h)
        (λ r w' e g. end_job_wait-Kept src copy r w' g)

  wait_job-Kept :
      (src copy : String) (t1 : Task) (w : Worlds out)
      → Same t t1
      → Returns Kept (wait_job out cfg fuel src copy t1 w)
  wait_job-Kept src copy t1 w h =
      step-Kept (wait_for_dedup_job out cfg fuel t1 w) "waitForJob" (read_job out cfg fuel src copy)
        (wait_for_dedup_job-Kept t1 w h) (read_job-Kept src copy)

  find_job-Kept :
      (src copy : String) (t1 : Task) (w : Worlds out)
      → Same t t1
      → Returns Kept (find_job out cfg fuel src copy t1 w)
  find_job-Kept src copy t1 w h =
      step-Kept (call out cfg fuel (out.job_from_id t1.job_id) t1 w) "JobFromID"
        (wait_job out cfg fuel src copy) (call-Kept (out.job_from_id t1.job_id) t1 w h)
        (wait_job-Kept src copy)

  finish_source-Kept :
      (t1 : Task) (w : Worlds out) → Same t t1 → Returns Kept (finish_source out cfg fuel t1 w)
  finish_source-Kept t1 w h =
      with_names-Kept "SourceAndDest" (find_job out cfg fuel) t1 (prefix_of out cfg fuel t1) w h
        find_job-Kept

  pub finish-Kept : (w : Worlds out) → Returns Kept (finish out cfg fuel t w)
  unfolding finish
  finish-Kept w =
      step-Kept (call out cfg fuel out.batch_ds t w) "GetBatchDS" (finish_source out cfg fuel)
        (call-Kept out.batch_ds t w (refl, refl)) finish_source-Kept
