-- ===== src/Tracker/Gauge.antt =====
-- metrics.TasksInFlight against the jobs of the tracker.
use etl_gardener.Base.{
  ℕ, ◌+◌, ◌≡◌, ◌≢◌, ap, true, false, String, Option, none, some, List, [], ◌∷◌, arith, eq_iff,
  str_eq, ite, total, weigh, total-insert, total-delete, Ensures, Ensures-bind, Ensures-mono,
  total_bind, if_neg, Bool-cases, inl, inr, ◌∙◌, sym, if◌then◌else◌,
}
use etl_gardener.Job.{Job, Job_discrete}
use etl_gardener.Metrics.{Series, Series_discrete, incs, decs, incs-append, decs-append}
use etl_gardener.Status
use etl_gardener.Status.{Status, StateInfo, series}
use etl_gardener.Status.Safe.{HasHistory, state-IsTotal, is_done-IsTotal}
use etl_gardener.Tracker.{
  Tracker, Error, JobMap, find, log_events, put_status, replace_status, start_job,
}
use etl_gardener.Tracker.History.{Follows, stays, moves}

-- 1 if the job counts for the series `k`: its label, which names the state before a failure.
unfoldable pub weight_of : Series → Job → Option String → ℕ
weight_of k j none = 0
weight_of k j (some l) = ite (Series_discrete (series j l) k) 1 0

unfoldable pub weight : Series → Job → Status → ℕ
weight k j s = weight_of k j (Status.label s)

-- How many jobs of the map count for a series.
abbrev pub in_flight : Series → JobMap → ℕ
in_flight k m = total Job_discrete (weight k) m

-- The gauge for `k` is the number of jobs that count for it. It is raised less lowered.
abbrev pub Balanced : Series → Tracker → Type 0
Balanced k tr = incs k tr.events ≡ decs k tr.events + in_flight k tr.jobs

abbrev pub After : Series → Tracker × Option Error → Type 0
After k r = Balanced k r.0

label_done :
    (s : Status) (h : List StateInfo)
    → let t = record s { history = h } in
      Status.is_done t ≡ some true → Status.label t ≡ some Status.complete
unfolding Status.is_done Status.label
label_done s [] e = cc
label_done s (x ∷ older) e =
    let p : x.state ≡ Status.complete = (eq_iff x.state Status.complete).0 (ground arith) in rw p

stays_label :
    (old new : Status) (x y : StateInfo) (older : List StateInfo)
    → old.history ≡ x ∷ older
    → new.history ≡ y ∷ older
    → y.state ≡ x.state
    → Status.label old ≡ Status.label new
unfolding Status.label
stays_label old new x y older e f g = ground arith

plain_label :
    (old : Status) (x : StateInfo) (older : List StateInfo)
    → old.history ≡ x ∷ older
    → x.state ≢ Status.failed
    → Status.label old ≡ some x.state
unfolding Status.label
plain_label old x older e i = ground (arith, eq_iff x.state Status.failed)

module _ (k : Series) (open_series : k.label ≢ Status.complete) where
  -- The balance while the entry for `job` is about to be replaced by `new`.
  abbrev Owed : Tracker → Job → Status → Type 0
  Owed tr job new =
      incs k tr.events + weigh Job_discrete (weight k) job (find job tr)
      ≡ decs k tr.events + in_flight k tr.jobs + weight k job new

  pub weight_done : (job : Job) (s : Status) → Status.is_done s ≡ some true → weight k job s ≡ 0
  unfolding weight weight_of
  weight_done job s e =
      let l : Status.label s ≡ some Status.complete = label_done s s.history e in
      rw l (
        if_neg (Series_discrete (series job Status.complete) k)
          (λ q. open_series (sym (ap (λ (t : Series). t.label) q))) 1 0)

  put_status-Balanced :
      (now : ℕ) (tr : Tracker) (job : Job) (new : Status)
      → HasHistory new
      → Owed tr job new
      → Ensures (After k) (put_status now tr job new)
  unfolding put_status incs decs
  put_status-Balanced now tr job new h b =
      let i = total-insert Job_discrete (weight k) job new tr.jobs in
      let d = total-delete Job_discrete (weight k) job tr.jobs in
      total_bind (After k) _ _ (is_done-IsTotal new h) λ done q. elim (Bool-cases done) [
        | inl t ↦ let w = weight_done job new (q ∙ ap some t) in ground (arith, i, d, w)
        | inr f ↦ ground (arith, i)
      ]

  moved_events :
      (now : ℕ) (job : Job) (new : Status) (z y : StateInfo) (older : List StateInfo)
      → new.history ≡ z ∷ y ∷ older
      → Ensures
          (λ es. (incs k es ≡ weight k job new) × (decs k es ≡ weight_of k job (some y.state)))
          (Status.update_metrics now job new)
  unfolding incs decs weight weight_of Status.update_metrics Status.label
  moved_events now job new z y older f = ground arith

  -- What replacing `old` by `new` adds to the two sides.
  moved_lem :
      (now : ℕ) (job : Job) (old new : Status)
      → Follows old new
      → (Status.state old ≡ some Status.failed → Status.state new ≡ some Status.failed)
      → (before after : String) → Status.state old ≡ some before
      → Status.state new ≡ some after
      → Ensures
          (λ es. incs k es + weight k job old ≡ decs k es + weight k job new)
          (if str_eq before after then some [] else Status.update_metrics now job new)
  unfolding Status.state weight incs decs
  moved_lem now job old new (stays x y older e f g) r before after p q =
      let same : str_eq before after ≡ true = (eq_iff before after).1 (ground arith) in
      rw same (omega (arith, ap (weight_of k job) (stays_label old new x y older e f g)))
  moved_lem now job old new (moves x y z older e f g i) r before after p q =
      let other : str_eq before after ≡ false = ground (arith, eq_iff before after) in
      let same = plain_label old x older e (λ u. i (ground (arith, r))) in
      let l = ap (weight_of k job) (same ∙ ap some (sym g)) in
      rw other (
        Ensures-mono
          (λ es. (incs k es ≡ weight k job new) × (decs k es ≡ weight_of k job (some y.state)))
          (λ es. incs k es + weight k job old ≡ decs k es + weight k job new) _
          (moved_events now job new z y older f) (λ es h. omega (arith, l)))

  pub replace_status-Balanced :
      (c : ℕ → ℕ) (tr : Tracker) (job : Job) (new old : Status)
      → find job tr ≡ some old
      → HasHistory old
      → HasHistory new
      → Follows old new
      → (Status.state old ≡ some Status.failed → Status.state new ≡ some Status.failed)
      → Balanced k tr
      → Ensures (After k) (replace_status c tr job new old)
  unfolding replace_status
  replace_status-Balanced c tr job new old e g h w r b =
      total_bind (After k) _ _ (state-IsTotal old g) λ before p.
        total_bind (After k) _ _ (state-IsTotal new h) λ after q.
          Ensures-bind (λ es. incs k es + weight k job old ≡ decs k es + weight k job new) (After k)
            _ _ (moved_lem (c 2) job old new w r before after p q)
            λ es m. put_status-Balanced (c 3) (log_events es tr) job new h (
              omega (
                arith,
                incs-append k es tr.events,
                decs-append k es tr.events,
                b,
                m,
                ap (weigh Job_discrete (weight k) job) e,
              ))

  pub start_job-Balanced :
      (c : ℕ → ℕ) (tr : Tracker) (job : Job)
      → incs k tr.events + weigh Job_discrete (weight k) job (find job tr)
        ≡ decs k tr.events + in_flight k tr.jobs
      → Ensures (After k) (start_job c tr job)
  unfolding start_job Status.update_metrics Status.new_status Status.label weight weight_of incs
      decs
  start_job-Balanced c tr job b =
      let i = total-insert Job_discrete (weight k) job (Status.new_status (c 0)) tr.jobs in
      omega (arith, i, b)
