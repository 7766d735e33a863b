-- ===== src/Rex/Steps.antt =====
-- rex/rex.go: waitForParsing, queue, dedup, and waitForJob. A step gives its error, if there
-- is one, and the task. Errors are compared by their texts.
use etl_gardener.Base.{
  ℕ, suc, zero, ◌+◌, ◌*◌, true, false, String, Option, none, some, ltb, str_eq, ◌&&◌, concat,
  text_contains, if◌then◌else◌,
}
use etl_gardener.World.{M, ◌>>=◌}
use etl_gardener.Task
use etl_gardener.Task.{
  Task, Prefix, parse_prefix, path, set_error, queuing, processing, state_stabilizing,
  state_deduplicating, state_finishing, state_done, task_suspended,
}
use etl_gardener.TaskQueue.{
  NewHandler, new_failed, new_handler, QueueHandler, new_queue_handler, eof, err_terminated,
}
use etl_gardener.TaskQueue.Posting.{post_day, get_bucket}
use etl_gardener.TaskQueue.Waiting.{wait_for_empty_queue}
use etl_gardener.Bq.Operations.{dedup}
use etl_gardener.Rex.{
  RexOutside, BqConfig, Fuel, DedupStatus, no_status, job_error, job_status, err_rate_limit,
  err_table_not_found, err_other_partition,
}

abbrev pub Worlds : RexOutside → Type 0
Worlds out =
    out.store.World × out.queues.World × out.tables.World × out.buffers.World × out.dedups.World

module _ (out : RexOutside) (cfg : BqConfig) (fuel : Fuel) where
  abbrev pub Step : Type 0
  Step = M (Worlds out) (Option String × Task)

  -- What acts on one part of the world.
  abbrev pub in_store : {A : Type 0} → (out.store.World → A × out.store.World) → M (Worlds out) A
  in_store f (w, q, b, s, d) = let r = f w in some (r.0, (r.1, q, b, s, d))

  abbrev put_store :
      {A : Type 0} → Worlds out → Option (A × out.store.World) → Option (A × Worlds out)
  put_store w none = none
  put_store (_, q, b, s, d) (some (a, w)) = some (a, (w, q, b, s, d))

  abbrev put_queues :
      {A : Type 0} → Worlds out → Option (A × out.queues.World) → Option (A × Worlds out)
  put_queues w none = none
  put_queues (w, _, b, s, d) (some (a, q)) = some (a, (w, q, b, s, d))

  abbrev put_tables :
      {A : Type 0} → Worlds out → Option (A × out.tables.World) → Option (A × Worlds out)
  put_tables w none = none
  put_tables (w, q, _, s, d) (some (a, b)) = some (a, (w, q, b, s, d))

  abbrev put_buffers :
      {A : Type 0} → Worlds out → Option (A × out.buffers.World) → Option (A × Worlds out)
  put_buffers w none = none
  put_buffers (w, q, b, _, d) (some (a, s)) = some (a, (w, q, b, s, d))

  abbrev put_dedups :
      {A : Type 0} → Worlds out → Option (A × out.dedups.World) → Option (A × Worlds out)
  put_dedups w none = none
  put_dedups (w, q, b, s, _) (some (a, d)) = some (a, (w, q, b, s, d))

  abbrev pub in_rest : {A : Type 0} → M out.store.World A → M (Worlds out) A
  in_rest m w = put_store w (m w.0)

  abbrev pub in_queues : {A : Type 0} → M out.queues.World A → M (Worlds out) A
  in_queues m w = put_queues w (m w.1)

  abbrev pub in_tables : {A : Type 0} → M out.tables.World A → M (Worlds out) A
  in_tables m w = put_tables w (m w.2)

  abbrev pub in_buffers : {A : Type 0} → M out.buffers.World A → M (Worlds out) A
  in_buffers m w = put_buffers w (m w.3)

  abbrev pub in_dedups : {A : Type 0} → M out.dedups.World A → M (Worlds out) A
  in_dedups m w = put_dedups w (m w.4)

  -- SetError, and the error that is returned.
  unfoldable pub fail : String → String → Task → Step
  fail err info t (w, q, b, s, d) =
      let r = set_error out.store w t err info in some ((some err, r.1), (r.0, q, b, s, d))

  -- Update, whose error is not looked at.
  unfoldable pub advance : ℕ → Task → Step
  advance st t (w, q, b, s, d) =
      let r = Task.update out.store w t st in some ((none, r.1), (r.0, q, b, s, d))

  -- `if err != nil { t.SetError(ctx, err, info); return err }`, and else the rest.
  abbrev pub or_fail : String → (Task → Step) → Option String × Task → Step
  or_fail info rest (some e, t) = fail e info t
  or_fail info rest (none, t) = rest t

  -- A call that acts on the store's part, with the task as it is.
  abbrev pub call : (out.store.World → Option String × out.store.World) → Task → Step
  call f t (w, q, b, s, d) = let r = f w in some ((r.0, t), (r.1, q, b, s, d))

  abbrev pub done_with : Task → Step
  done_with t w = some ((none, t), w)

  -- SourceAndDest of state.go, with its error, before the rest, which gets the names of the two tables.
  abbrev pub with_names : String → (String → String → Task → Step) → Task → Option Prefix → Step
  with_names info rest t none = fail (out.prefix_error t.name) info t
  with_names info rest t (some p) =
      let name = out.dir_to_tablename p.data_type in
      let date = out.without_slashes p.date_path in
      rest (concat name (concat "_" date)) (concat name (concat "$" date)) t

  abbrev pub prefix_of : Task → Option Prefix
  prefix_of t = parse_prefix out.submatches out.parse_date t.name

  abbrev pub get_handler : Task → NewHandler
  get_handler t = new_queue_handler out.trim_space cfg.config t.queue

  -- The loop of waitForParsing, and the end of one of its rounds, where `rest` is the rest of the loop.
  abbrev pub end_wait : M (Worlds out) (Unit {0}) → Option String → M (Worlds out) (Unit {0})
  end_wait rest none w = some (tt, w)
  end_wait rest (some e) (w, q, b, s, d) =
      let n = out.rand_intn 120 w in
      let later = rest (out.sleep ((60 + n.0) * 1000000000) n.1, q, b, s, d) in
      if str_eq e err_terminated
      then some (tt, (w, q, b, s, d))
      else if str_eq e eof && out.is_test
      then some (tt, (w, q, b, s, d))
      else later

  unfoldable pub parsing_loop : ℕ → QueueHandler → M (Worlds out) (Unit {0})
  parsing_loop zero qh w = none
  parsing_loop (suc n) qh w =
      (in_queues (wait_for_empty_queue out.queues qh fuel.queue) >>= end_wait (parsing_loop n qh)) w

  abbrev pub end_parsing : Task → Unit {0} → Step
  end_parsing t _ w = some ((none, t), w)

  -- waitForParsing
  abbrev pub parse_with : Task → NewHandler → Step
  parse_with t (new_failed e) = fail e "NewQueueHandler" t
  parse_with t (new_handler qh) = parsing_loop fuel.parsing qh >>= end_parsing t

  unfoldable pub wait_for_parsing : Task → Step
  wait_for_parsing t = parse_with t (get_handler t)

  -- What queue gives: the number of files, its error, and the task.
  abbrev pub Queued : Type 0
  Queued = M (Worlds out) (ℕ × Option String × Task)

  -- SetError and a return of the error, or of none where the code returns nil.
  abbrev pub fail_queue : ℕ → Option String → String → String → Task → Queued
  fail_queue files ret err info t (w, q, b, s, d) =
      let r = set_error out.store w t err info in some ((files, ret, r.1), (r.0, q, b, s, d))

  abbrev pub end_post_day : Task → ℕ × ℕ × Option String → Queued
  end_post_day t (files, size, none) w = some ((files, none, t), w)
  end_post_day t (files, size, some e) w = fail_queue files none e "PostDayError" t w

  abbrev pub post_from : Task → QueueHandler → Prefix → Option String → Queued
  post_from t qh p none w =
      (in_queues (post_day out.queues qh out.objects out.skip_string p.bucket (path p))
          >>= end_post_day t)
        w
  post_from t qh p (some e) w =
      let failed = fail_queue 0 (some e) e "BucketError" t w in
      if str_eq e eof && out.is_test then some ((0, none, t), w) else failed

  abbrev pub queue_prefix : Task → QueueHandler → Option Prefix → Queued
  queue_prefix t qh none w =
      fail_queue 0 (some (out.prefix_error t.name)) (out.prefix_error t.name) "BadPrefix" t w
  queue_prefix t qh (some p) w =
      (in_rest (get_bucket out.attrs p.bucket false) >>= post_from t qh p) w

  abbrev pub queue_with : Task → NewHandler → Queued
  queue_with t (new_failed e) = fail_queue 0 (some e) e "NewQueueHandler" t
  queue_with t (new_handler qh) = queue_prefix t qh (prefix_of t)

  -- queue
  unfoldable pub queue : Task → Queued
  queue t = queue_with t (get_handler t)

  -- The end of dedup; a job that is nil is dereferenced all the same.
  abbrev pub end_dedup : Task → Option String → Step
  end_dedup t none (w, q, b, s, d) =
      some ((none, record t { job_id = out.job_id d }), (w, q, b, s, d))
  end_dedup t (some e) w =
      let failed = fail e "DedupFailed" t w in
      if str_eq e eof
      then (if out.is_test then some ((none, record t { job_id = "fakeJobID" }), w) else none)
      else failed

  abbrev pub run_dedup : String → String → Task → Step
  run_dedup src dest t = in_dedups (dedup out.dedups src dest) >>= end_dedup t

  abbrev pub dedup_source : Task → Step
  dedup_source t = with_names "SourceAndDest" run_dedup t (prefix_of t)

  -- dedup; the destination of the query is a partition of the batch dataset.
  unfoldable pub dedup_task : Task → Step
  dedup_task t = call out.batch_ds t >>= or_fail "GetBatchDS" dedup_source

  -- The error that a job's error leads to, if the wait ends with it.
  unfoldable pub job_error_of : String → Option String
  job_error_of e =
      if text_contains e "rateLimitExceeded"
      then some err_rate_limit
      else if text_contains e "Not found: Table"
      then some err_table_not_found
      else if text_contains e "rows belong to different partitions"
      then some err_other_partition
      else none

  abbrev pub end_dedup_status :
      M out.store.World (Option String) → DedupStatus → M out.store.World (Option String)
  end_dedup_status rest (no_status e) w = rest w
  end_dedup_status rest (job_error e) w =
      let later = rest w in elim (job_error_of e) [ some err ↦ some (some err, w) | none ↦ later ]
  end_dedup_status rest (job_status true) w = some (none, w)
  end_dedup_status rest (job_status false) w = rest w

  -- waitForJob, with backoff and previous; its fuel is the number of rounds.
  unfoldable pub dedup_job_loop : ℕ → ℕ → ℕ → ℕ → M out.store.World (Option String)
  dedup_job_loop zero max_backoff backoff previous w = none
  dedup_job_loop (suc n) max_backoff backoff previous w =
      let r = out.dedup_status w in
      let sum = backoff + previous in
      let longer = dedup_job_loop n max_backoff sum backoff (out.sleep sum r.1) in
      let longest = dedup_job_loop n max_backoff max_backoff previous (out.sleep max_backoff r.1) in
      let round = end_dedup_status (λ _. if ltb sum max_backoff then longer else longest) r.0 r.1 in
      if out.store.notified w then some (some task_suspended, w) else round

  abbrev pub with_error : Task → Option String → Step
  with_error t e w = some ((e, t), w)

  unfoldable pub wait_for_dedup_job : Task → Step
  wait_for_dedup_job t =
      in_rest (dedup_job_loop fuel.job 300000000000 10000000000 10000000000) >>= with_error t
