-- ===== src/Ops/Verdicts.antt =====
-- actions.go: when an action succeeds, is tried again, or fails.
use etl_gardener.Base.{
  ℕ, ◌≡◌, ◌≢◌, refl, String, Option, none, some, List, [], arith, Ensures, Option-cases, Bool-cases,
  inl, inr, if◌then◌else◌,
}
use etl_gardener.Job.{Job}
use etl_gardener.Metrics.{Event}
use etl_gardener.Ops.{Outcome, is_done, should_retry, failure, retry, success}
use etl_gardener.Ops.Actions.{
  Environment, JobStatus, Waited, wait_failed, waited, is_streaming, check_waited, wait_and_check,
  load_func, dedup_func, copy_func, delete_func, Result, dedup_done, load_message, copy_message,
  with_status,
}

-- The three kinds of outcome.
pub data Verdict : Type 0 where
  succeeds again fails : Verdict

abbrev pub verdict : Outcome → Verdict
verdict o = if is_done o then succeeds else if should_retry o then again else fails

-- What becomes of a BigQuery job that Wait was called for.
abbrev pub wait_verdict : Waited → Verdict
wait_verdict (wait_failed e _) = if is_streaming e then again else fails
wait_verdict (waited status) = elim status.err [ none ↦ succeeds | some _ ↦ fails ]

-- What becomes of an action, from the error of tableOps, the error of the start of its BigQuery
-- job, and Wait.
abbrev pub expected : Option String → Option String → Verdict → Verdict
expected (some _) start after = fails
expected none (some _) after = again
expected none none after = after

-- An outcome for the job with the verdict.
abbrev pub Judged : Job → Verdict → Outcome × List Event → Type 0
Judged j v r = (r.0.job ≡ j) × (verdict r.0 ≡ v)

-- The statistics of a status that Wait returns without an error are not nil.
abbrev pub StatsKnown : Environment → Type 0
StatsKnown env = (j : Job) (s : JobStatus) → env.wait j ≡ waited s → s.statistics ≢ none

-- After Wait: an outcome that is not a success is passed on.
after_wait :
    (w : Waited) (j : Job) (label : String) (more : Option JobStatus → List Event → Result)
    → ((s : JobStatus)
        → w ≡ waited s
        → (es : List Event) → Ensures (Judged j succeeds) (more (some s) es))
    → let r = check_waited w j label in
      Ensures (Judged j (wait_verdict w)) (if is_done r.1 then more r.0 r.2 else some (r.1, r.2))
unfolding check_waited failure retry success is_done should_retry
after_wait (wait_failed e status) j label more k = elim (Bool-cases (is_streaming e)) [
  | inl b ↦ rw b (refl, refl)
  | inr b ↦ rw b (refl, refl)
]
after_wait (waited s) j label more k = elim (Option-cases s.err) [
  | inl e ↦ simp e (k s refl [])
  | inr (t, e) ↦ simp e (refl, refl)
]

-- The result of an action that starts a BigQuery job and waits for it.
judge :
    (env : Environment) (j : Job) (label : String) (ops start : Option String)
    (more : Option JobStatus → List Event → Result)
    → ((s : JobStatus)
        → env.wait j ≡ waited s
        → (es : List Event) → Ensures (Judged j succeeds) (more (some s) es))
    → Ensures (Judged j (expected ops start (wait_verdict (env.wait j)))) (elim ops [
      | some e ↦ some (failure j e "-", [])
      | none ↦ elim start [
        | some e ↦ some (retry j e "-", [])
        | none ↦
            let r = wait_and_check env j label in
            if is_done r.1 then more r.0 r.2 else some (r.1, r.2)
      ]
    ])
unfolding failure retry is_done should_retry wait_and_check
judge env j label (some e) start more k = (refl, refl)
judge env j label none (some e) more k = (refl, refl)
judge env j label none none more k = after_wait (env.wait j) j label more k

module _ (env : Environment) (j : Job) (changed : ℕ) where
  pub load_func-Judged :
      Ensures
        (Judged j (expected (env.table_ops j) (env.load_to_tmp j) (wait_verdict (env.wait j))))
        (load_func env j changed)
  unfolding load_func success is_done
  load_func-Judged =
      judge env j "Load" (env.table_ops j) (env.load_to_tmp j)
        (λ status es. with_status status (load_message env) j es) (λ s e es. (refl, refl))

  pub copy_func-Judged :
      Ensures
        (Judged j (expected (env.table_ops j) (env.copy_to_raw j) (wait_verdict (env.wait j))))
        (copy_func env j changed)
  unfolding copy_func success is_done
  copy_func-Judged =
      judge env j "Copy" (env.table_ops j) (env.copy_to_raw j)
        (λ status es. with_status status (copy_message env) j es) (λ s e es. (refl, refl))

  pub dedup_func-Judged :
      StatsKnown env
      → Ensures
          (Judged j (expected (env.table_ops j) (env.dedup j) (wait_verdict (env.wait j))))
          (dedup_func env j changed)
  unfolding dedup_func dedup_done success is_done
  dedup_func-Judged known =
      judge env j "Dedup" (env.table_ops j) (env.dedup j) (λ status es. dedup_done env j status es)
        (λ s e es. let n = known j s e in ground (arith, n))

  pub delete_func-Judged :
      Ensures
        (Judged j (expected (env.table_ops j) (env.delete_tmp j) succeeds))
        (delete_func env j changed)
  unfolding delete_func success failure retry is_done should_retry
  delete_func-Judged = elim (Option-cases (env.table_ops j)) [
    | inr (e, p) ↦ rw (p, delete_func) (refl, refl)
    | inl p ↦ elim (Option-cases (env.delete_tmp j)) [
      | inr (e, q) ↦ rw (p, q, delete_func) (refl, refl)
      | inl q ↦ rw (p, q, delete_func) (refl, refl)
    ]
  ]

  -- The four actions that use BigQuery return an outcome for their job. If the table operations cannot
  -- be set up, it is a failure; if BigQuery does not take the work, it is to be tried again. Else the
  -- wait decides: again while a streaming buffer is not empty, a failure on any other error, and
  -- success. A deletion is not waited for. The statistics of the dedup are taken to be known.
  pub actions-Judged :
      StatsKnown env
      → let after = wait_verdict (env.wait j) in
        Ensures
          (Judged j (expected (env.table_ops j) (env.load_to_tmp j) after))
          (load_func env j changed)
        × Ensures
            (Judged j (expected (env.table_ops j) (env.dedup j) after))
            (dedup_func env j changed)
        × Ensures
            (Judged j (expected (env.table_ops j) (env.copy_to_raw j) after))
            (copy_func env j changed)
        × Ensures
            (Judged j (expected (env.table_ops j) (env.delete_tmp j) succeeds))
            (delete_func env j changed)
  actions-Judged known =
      (load_func-Judged, dedup_func-Judged known, copy_func-Judged, delete_func-Judged)
