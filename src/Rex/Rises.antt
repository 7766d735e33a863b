-- ===== src/Rex/Rises.antt =====
-- Next: a step without an error raises the state; and the loop of Process with this executor.
use etl_gardener.Base.{
  ℕ, ◌≤◌, ◌<◌, ◌≡◌, refl, ◌∙◌, arith, false, String, Option, none, some, if_cases, if_rule, str_eq,
  ◌==◌, ◌&&◌, ◌||◌, not,
}
use etl_gardener.World.{follow, Returns, Returns-follow, Returns-any}
use etl_gardener.Task
use etl_gardener.Task.{
  Task, Prefix, Outside, set_error, state_done, process_loop, initializing, queuing, processing,
  state_stabilizing, state_deduplicating, state_finishing, invalid,
}
use etl_gardener.Task.Loop.{Raises}
use etl_gardener.TaskQueue.{NewHandler, new_failed, new_handler, QueueHandler, eof}
use etl_gardener.TaskQueue.Posting.{get_bucket, post_day}
use etl_gardener.Bq.Stable.{wait_for_stable_table}
use etl_gardener.Rex.{RexOutside, BqConfig, Fuel, err_table_not_found}
use etl_gardener.Rex.Steps.{
  Worlds, Step, fail, advance, or_fail, call, with_names, prefix_of, get_handler, wait_for_parsing,
  dedup_task, fail_queue, end_post_day, post_from, queue_prefix, queue_with, queue, in_rest,
  in_queues, in_buffers,
}
use etl_gardener.Rex.Kept.{
  Same, Kept, set_error-Same, call-Kept, wait_for_parsing-Kept, dedup_task-Kept, finish-Kept,
}
use etl_gardener.Rex.Executor.{
  next, end_queue, end_stable, wait_stable, stable_source, stabilize, leave_queue, leave_job,
  finish,
}

-- What Update leaves.
update-raised :
    (store : Outside) (w : store.World) (t : Task) (st : ℕ)
    → let r = Task.update store w t st in (r.1.state ≡ st) × (r.1.queue ≡ t.queue)
unfolding Task.update
update-raised store w t st =
    let P = λ (r : store.World × Task × Option String). (r.1.state ≡ st) × (r.1.queue ≡ t.queue) in
    if_cases P t.has_saver _ _ (refl, refl) (refl, refl)

module _ (out : RexOutside) (cfg : BqConfig) (fuel : Fuel) (t : Task) where
  abbrev pub Raised : Option String × Task → Worlds out → Type 0
  Raised r w = Raises t (r.1, r.0)

  fail-Raised :
      (err info : String) (t1 : Task) (w : Worlds out)
      → Returns Raised (fail out cfg fuel err info t1 w)
  unfolding fail
  fail-Raised err info t1 (w, q, b, s, d) = λ e. absurd (cc e)

  advance-Raised :
      (st : ℕ) (t1 : Task) (w : Worlds out)
      → t.state < st
      → st ≤ state_done
      → (t.queue ≡ "" → t1.queue ≡ "")
      → Returns Raised (advance out cfg fuel st t1 w)
  unfolding advance
  advance-Raised st t1 (w, q, b, s, d) h k l =
      let u = update-raised out.store w t1 st in
      λ _. (omega (arith, h, u.0), omega (arith, k, u.0), λ e. u.1 ∙ l e)

  or_fail-Raised :
      (info : String) (rest : Task → Step out cfg fuel) (r : Option String × Task) (w : Worlds out)
      → Same t r.1
      → ((t1 : Task) (w1 : Worlds out) → Same t t1 → Returns Raised (rest t1 w1))
      → Returns Raised (or_fail out cfg fuel info rest r w)
  or_fail-Raised info rest (some e, t1) w h k = fail-Raised e info t1 w
  or_fail-Raised info rest (none, t1) w h k = k t1 w h

  step-Raised :
      (o : Option ((Option String × Task) × Worlds out)) (info : String)
      (rest : Task → Step out cfg fuel)
      → Returns (Kept out cfg fuel t) o
      → ((t1 : Task) (w1 : Worlds out) → Same t t1 → Returns Raised (rest t1 w1))
      → Returns Raised (follow o (or_fail out cfg fuel info rest))
  step-Raised o info rest h k =
      Returns-follow (Kept out cfg fuel t) Raised o (or_fail out cfg fuel info rest) h
        (λ r w e g. or_fail-Raised info rest r w g k)

  -- queue keeps the state and the queue.
  abbrev QueueKept : ℕ × Option String × Task → Worlds out → Type 0
  QueueKept r w = Same t r.2

  fail_queue-kept :
      (files : ℕ) (ret : Option String) (err info : String) (w : Worlds out)
      → Returns QueueKept (fail_queue out cfg fuel files ret err info t w)
  fail_queue-kept files ret err info (w, q, b, s, d) =
      set_error-Same out.store w t t err info (refl, refl)

  end_post_day-kept :
      (r : ℕ × ℕ × Option String) (w : Worlds out)
      → Returns QueueKept (end_post_day out cfg fuel t r w)
  end_post_day-kept (files, size, none) w = (refl, refl)
  end_post_day-kept (files, size, some e) w = fail_queue-kept files none e "PostDayError" w

  post_from-kept :
      (qh : QueueHandler) (p : Prefix) (e : Option String) (w : Worlds out)
      → Returns QueueKept (post_from out cfg fuel t qh p e w)
  post_from-kept qh p none w =
      Returns-follow (λ _ _. Unit) QueueKept
        (in_queues out cfg fuel
          (post_day out.queues qh out.objects out.skip_string p.bucket (Task.path p)) w)
        (end_post_day out cfg fuel t) (Returns-any _) (λ r w' e u. end_post_day-kept r w')
  post_from-kept qh p (some e) w =
      if_cases (Returns QueueKept) (str_eq e eof && out.is_test) _ _ (refl, refl)
        (fail_queue-kept 0 (some e) e "BucketError" w)

  queue_prefix-kept :
      (qh : QueueHandler) (p : Option Prefix) (w : Worlds out)
      → Returns QueueKept (queue_prefix out cfg fuel t qh p w)
  queue_prefix-kept qh none w =
      fail_queue-kept 0 (some (out.prefix_error t.name)) (out.prefix_error t.name) "BadPrefix" w
  queue_prefix-kept qh (some p) w =
      Returns-follow (λ _ _. Unit) QueueKept
        (in_rest out cfg fuel (get_bucket out.attrs p.bucket false) w)
        (post_from out cfg fuel t qh p) (Returns-any _) (λ e w' q u. post_from-kept qh p e w')

  queue_with-kept :
      (n : NewHandler) (w : Worlds out) → Returns QueueKept (queue_with out cfg fuel t n w)
  queue_with-kept (new_failed e) w = fail_queue-kept 0 (some e) e "NewQueueHandler" w
  queue_with-kept (new_handler qh) w = queue_prefix-kept qh (prefix_of out cfg fuel t) w

  end_queue-Raised :
      (r : ℕ × Option String × Task) (w : Worlds out)
      → t.state < processing
      → Same t r.2
      → Returns Raised (end_queue out cfg fuel r w)
  end_queue-Raised (files, some e, t1) w h k = fail-Raised e "rex.queue" t1 w
  end_queue-Raised (files, none, t1) w h k =
      if_cases (Returns Raised) (files == 0) _ _
        (advance-Raised state_done (record t1 { queue = "" }) w (omega (arith, h)) (omega arith)
          (λ e. refl))
        (advance-Raised processing t1 w h (omega arith) (λ e. k.1 ∙ e))

  queued-Raised :
      (w : Worlds out)
      → t.state < processing
      → Returns Raised (follow (queue out cfg fuel t w) (end_queue out cfg fuel))
  unfolding queue
  queued-Raised w h =
      Returns-follow QueueKept Raised (queue_with out cfg fuel t (get_handler out cfg fuel t) w)
        (end_queue out cfg fuel) (queue_with-kept (get_handler out cfg fuel t) w)
        (λ r w' e k. end_queue-Raised r w' h k)

  end_stable-Raised :
      (t1 : Task) (e : Option String) (w : Worlds out)
      → t.state < state_deduplicating
      → Same t t1
      → Returns Raised (end_stable out cfg fuel t1 e w)
  end_stable-Raised t1 none w h k =
      advance-Raised state_deduplicating t1 w h (omega arith) (λ e. k.1 ∙ e)
  end_stable-Raised t1 (some e) w h k =
      if_cases (Returns Raised) (not (str_eq e err_table_not_found) || not out.is_test) _ _
        (fail-Raised e "bq.WaitForStableTable" t1 w)
        (advance-Raised state_deduplicating t1 w h (omega arith) (λ e. k.1 ∙ e))

  stable_source-Raised :
      (t1 : Task) (p : Option Prefix) (w : Worlds out)
      → t.state < state_deduplicating
      → Same t t1
      → Returns Raised
          (with_names out cfg fuel "task.SourceAndDest" (wait_stable out cfg fuel) t1 p w)
  stable_source-Raised t1 none w h k =
      fail-Raised (out.prefix_error t1.name) "task.SourceAndDest" t1 w
  stable_source-Raised t1 (some p) w h k =
      Returns-follow (λ _ _. Unit) Raised
        (in_buffers out cfg fuel (wait_for_stable_table out.buffers fuel.stable) w)
        (end_stable out cfg fuel t1) (Returns-any _) (λ e w' q u. end_stable-Raised t1 e w' h k)

  stabilize-Raised :
      (w : Worlds out) → t.state < state_deduplicating → Returns Raised (stabilize out cfg fuel t w)
  unfolding stabilize
  stabilize-Raised w h =
      step-Raised (call out cfg fuel out.batch_ds t w) "rex.GetBatchDS" (stable_source out cfg fuel)
        (call-Kept out cfg fuel t out.batch_ds t w (refl, refl))
        (λ t1 w1 k. stable_source-Raised t1 (prefix_of out cfg fuel t1) w1 h k)

  -- When Next returns without an error, for a task that is not done, the state of the task is higher, at
  -- most Done, and a task without a queue has not got one.
  pub next-Raised : (w : Worlds out) → t.state < state_done → Returns Raised (next out cfg fuel t w)
  unfolding next
  next-Raised w h =
      if_rule (Returns Raised) (t.state == initializing) _ _
        (λ a. advance-Raised queuing t w (ground (arith, a)) (omega arith) (λ e. e))
        (λ a.
          if_rule (Returns Raised) (t.state == queuing) _ _
            (λ b. queued-Raised w (ground (arith, b)))
            (λ b.
              if_rule (Returns Raised) (t.state == processing) _ _
                (λ c.
                  step-Raised (wait_for_parsing out cfg fuel t w) "rex.waitForParsing"
                    (leave_queue out cfg fuel) (wait_for_parsing-Kept out cfg fuel t w)
                    (λ t1 w1 k.
                      advance-Raised state_stabilizing (record t1 { queue = "" }) w1
                        (ground (arith, c)) (omega arith) (λ e. refl)))
                (λ c.
                  if_rule (Returns Raised) (t.state == state_stabilizing) _ _
                    (λ d. stabilize-Raised w (ground (arith, d)))
                    (λ d.
                      if_rule (Returns Raised) (t.state == state_deduplicating) _ _
                        (λ e.
                          step-Raised (dedup_task out cfg fuel t w) "rex.dedup"
                            (advance out cfg fuel state_finishing)
                            (dedup_task-Kept out cfg fuel t w)
                            (λ t1 w1 k.
                              advance-Raised state_finishing t1 w1 (ground (arith, e)) (omega arith)
                                (λ q. k.1 ∙ q)))
                        (λ e.
                          if_rule (Returns Raised) (t.state == state_finishing) _ _
                            (λ f.
                              step-Raised (finish out cfg fuel t w) "rex.finish"
                                (leave_job out cfg fuel) (finish-Kept out cfg fuel t w)
                                (λ t1 w1 k.
                                  advance-Raised state_done (record t1 { job_id = "" }) w1
                                    (ground (arith, f)) (omega arith) (λ q. k.1 ∙ q)))
                            (λ f.
                              if_rule (Returns Raised) (t.state == state_done) _ _
                                (λ g. absurd (ground (arith, g, h)))
                                (λ g.
                                  if_rule (Returns Raised) (t.state == invalid) _ _
                                    (λ z.
                                      fail-Raised "called Next on invalid state" "Invalid state" t
                                        w)
                                    (λ z. fail-Raised "Unknown state" "Unknown state" t w))))))))
