-- ===== src/Store/Saved.antt =====
-- tracker.go, saveEvery: a change of the tracker is saved, or will be at the next tick.
use etl_gardener.Base.{
  ℕ, ◌≡◌, ◌≤◌, sym, ◌∙◌, ap, subst, Bool, false, Option, none, some, List, [], ◌∷◌, ◌++◌, arith,
  lookup, Ensures, Ensures-bind, Ensures-mono,
}
use etl_gardener.Job.{Job, Job_discrete}
use etl_gardener.Tracker.{Call, Tracker, JobMap, get_state}
use etl_gardener.Tracker.Valid.{IsValid}
use etl_gardener.Tracker.Runs.{step-IsValid, run-IsValid}
use etl_gardener.Tracker.Sweep.{get_state-IsValid, get_state-read}
use etl_gardener.Tracker.Touched.{
  Holds, Touched, untouched, touched, step-Touched, run-Touched, AllLater, get_state-Touched,
}
use etl_gardener.Store.{Datastore, init_tracker, with_tracker, end_sync, sync}
use etl_gardener.Store.Synced.{
  Restores, Synced, skipped, not_saved, saved, end_sync-Synced, sync-Synced,
}
use etl_gardener.Store.Saving.{
  Turn, calls, ticks, Saving, turn, turns, save_every, AllBetween, Between, InOrder,
}

both {ℓ} :
    {A : Type ℓ} (P Q : A → Type 0) (o : Option A)
    → Ensures P o
    → Holds Q o
    → Ensures (λ a. P a × Q a) o
both P Q none h k = h
both P Q (some a) h k = (h, k)

all_of {ℓ} :
    {A : Type ℓ} (P Q : A → Type 0) (o : Option A)
    → Ensures P o
    → Ensures Q o
    → Ensures (λ a. P a × Q a) o
all_of P Q none h k = h
all_of P Q (some a) h k = (h, k)

all_later : (t end_time : ℕ) (cs : List ((ℕ → ℕ) × Call)) → AllBetween t end_time cs → AllLater t cs
all_later t end_time [] b = tt
all_later t end_time ((c, call) ∷ cs) b = (λ n. (b.0 n).0, all_later t end_time cs b.1)

module _ (ds : Datastore) where
  -- What Sync leaves of the tracker is what GetState leaves of it.
  sync_tracker :
      (P : Tracker → Type 0) (c : ℕ → ℕ) (last_save : ℕ) (tr : Tracker) (entity : ds.Entity)
      → Ensures (λ r. P r.0) (get_state (c 0) tr)
      → Ensures (λ r. P r.0) (sync ds c last_save tr entity)
  unfolding sync
  sync_tracker P c last_save tr entity h =
      Ensures-bind {A = Tracker × JobMap × Job × ℕ} (λ r. P r.0) (λ r. P r.0) _ _ h λ r p. p

  -- Either the last modification is not before the last save, which makes the next Sync save the
  -- tracker, or InitTracker recovers its jobs and its last job from the datastore.
  pub data Recovers (s : Saving ds) : Type 0 where
    pending : s.last_save ≤ s.tracker.last_modified → Recovers s
    recovered :
        ((now expiration cleanup : ℕ)
          → Ensures
              (Restores ds s.tracker)
              (init_tracker ds now expiration cleanup (some s.entity)))
        → Recovers s

  keeps_Recovers :
      (t : ℕ) (s : Saving ds) (tr : Tracker)
      → s.last_save ≤ t
      → Recovers s
      → Touched t s.tracker tr
      → Recovers (record { tracker = tr; entity = s.entity; last_save = s.last_save })
  keeps_Recovers t s tr l r (touched h) = pending (omega (arith, l, h))
  keeps_Recovers t s tr l (pending h) (untouched u) = pending (omega (arith, h, u.same_time))
  keeps_Recovers t s tr l (recovered h) (untouched u) = recovered λ now expiration cleanup.
      Ensures-mono (Restores ds s.tracker) (Restores ds tr) _ (h now expiration cleanup) λ x g.
        (λ j. g.0 j ∙ sym (ap (λ m. lookup Job_discrete j m) u.same_jobs), g.1 ∙ sym u.same_last)

  -- What holds between the turns, at the time `t`.
  abbrev Sound : ℕ → Saving ds → Type 0
  Sound t s = IsValid s.tracker × (s.last_save ≤ t) × Recovers s

  unsaved :
      (t end_time : ℕ) (s : Saving ds) (r : Tracker × ds.Entity × ℕ × Bool)
      → t ≤ end_time
      → s.last_save ≤ t
      → Recovers s
      → IsValid r.0
      → Touched t s.tracker r.0
      → r.1 ≡ s.entity
      → r.2 ≡ s.last_save
      → Sound end_time (record { tracker = r.0; entity = r.1; last_save = r.2 })
  unsaved t end_time s r e l h v w p q =
      let R =
        λ (x : ds.Entity) (n : ℕ). Recovers (record { tracker = r.0; entity = x; last_save = n }) in
      (
        v,
        omega (arith, q, l, e),
        subst (λ x. R x r.2) (sym p) (subst (R s.entity) (sym q) (keeps_Recovers t s r.0 l h w)),
      )

  tick_Sound :
      (t end_time : ℕ) (c : ℕ → ℕ) (s : Saving ds) (r : Tracker × ds.Entity × ℕ × Bool)
      → c 1 ≤ end_time
      → t ≤ end_time
      → s.last_save ≤ t
      → Recovers s
      → IsValid r.0
      → Touched t s.tracker r.0
      → Synced ds (c 1) s.last_save s.entity r
      → Sound end_time (record { tracker = r.0; entity = r.1; last_save = r.2 })
  tick_Sound t end_time c s r b e l h v w (skipped m p q f) = unsaved t end_time s r e l h v w p q
  tick_Sound t end_time c s r b e l h v w (not_saved p q f) = unsaved t end_time s r e l h v w p q
  tick_Sound t end_time c s r b e l h v w (saved q f g) = (v, omega (arith, q, b), recovered g)

  swept_sync :
      (t : ℕ) (s : Saving ds) (c : ℕ → ℕ)
      → t ≤ c 0
      → IsValid s.tracker
      → Ensures
          (λ r. (IsValid r.0 × Touched t s.tracker r.0) × Synced ds (c 1) s.last_save s.entity r)
          (sync ds c s.last_save s.tracker s.entity)
  swept_sync t s c b v =
      let P = λ (tr : Tracker). IsValid tr × Touched t s.tracker tr in
      let swept =
        both (λ r. IsValid r.0) (λ r. Touched t s.tracker r.0) (get_state (c 0) s.tracker)
          (get_state-IsValid (c 0) s.tracker v) (get_state-Touched (c 0) s.tracker t b) in
      all_of (λ r. P r.0) (Synced ds (c 1) s.last_save s.entity) _
        (sync_tracker P c s.last_save s.tracker s.entity swept)
        (sync-Synced ds c s.last_save s.tracker s.entity v)

  abbrev Read : Tracker × JobMap × Job × ℕ → Type 0
  Read r = IsValid r.0 × (r.0.jobs ≡ r.1) × (r.0.last_job ≡ r.2) × (r.0.last_modified ≡ r.3)

  turn-Sound :
      (t end_time : ℕ) (s : Saving ds) (x : Turn)
      → Between t end_time x
      → Sound t s
      → Ensures (Sound end_time) (turn ds s x)
  unfolding turn
  turn-Sound t end_time s (calls c call) b (v, l, h) =
      Ensures-bind (λ tr. IsValid tr × Touched t s.tracker tr) (Sound end_time) _ _
        (both IsValid (Touched t s.tracker) _ (step-IsValid c s.tracker call v)
          (step-Touched t c s.tracker call (λ n. (b n).0)))
        λ tr g. (g.0, omega (arith, l, (b 0).0, (b 0).1), keeps_Recovers t s tr l h g.1)
  turn-Sound t end_time s (ticks c between) b (v, l, h) =
      Ensures-bind {A = Tracker × JobMap × Job × ℕ} (λ r. Read r × Touched t s.tracker r.0)
        (Sound end_time) _ _
        (both Read (λ r. Touched t s.tracker r.0) _ (get_state-read (c 0) s.tracker v)
          (get_state-Touched (c 0) s.tracker t (b.0 0).0))
        λ r g.
          let e = end_sync ds c s.last_save r.1 r.2 r.3 s.entity in
          let ended =
            end_sync-Synced ds c s.last_save r.0 s.entity r.1 r.2 r.3 g.0.0 g.0.1 g.0.2 g.0.3 in
          let s1 : Saving ds = record { tracker = r.0; entity = e.0; last_save = e.1 } in
          let (v1, l1, h1) =
            tick_Sound t (c 1) c s (with_tracker ds r.0 e) (omega arith) (b.0 1).0 l h g.0.0 g.1
              ended in
          Ensures-bind (λ tr. IsValid tr × Touched (c 1) r.0 tr) (Sound end_time) _ _
            (both IsValid (Touched (c 1) r.0) _ (run-IsValid r.0 between g.0.0)
              (run-Touched (c 1) r.0 between (all_later (c 1) end_time between b.1)))
            λ tr k. (k.0, omega (arith, l1, (b.0 1).1), keeps_Recovers (c 1) s1 tr l1 h1 k.1)

  -- What a Sync comes to: an error, or the datastore holds what InitTracker needs.
  pub data Durable (r : Tracker × ds.Entity × ℕ × Bool) : Type 0 where
    failed : r.3 ≡ false → Durable r
    durable :
        ((now expiration cleanup : ℕ)
          → Ensures (Restores ds r.0) (init_tracker ds now expiration cleanup (some r.1)))
        → Durable r

  sync_Durable :
      (saved_at last_save : ℕ) (entity : ds.Entity) (r : Tracker × ds.Entity × ℕ × Bool)
      → Synced ds saved_at last_save entity r
      → Recovers (record { tracker = r.0; entity = entity; last_save = last_save })
      → Durable r
  sync_Durable saved_at last_save entity r (not_saved p q f) h = failed f
  sync_Durable saved_at last_save entity r (saved q f g) h = durable g
  sync_Durable saved_at last_save entity r (skipped m p q f) (pending h) =
      absurd (omega (arith, m, h))
  sync_Durable saved_at last_save entity r (skipped m p q f) (recovered h) = durable (
      subst
        (λ x.
          (now expiration cleanup : ℕ)
          → Ensures (Restores ds r.0) (init_tracker ds now expiration cleanup (some x)))
        (sym p) h)

  -- The last tick.
  tick_Durable :
      (t : ℕ) (s : Saving ds) (c : ℕ → ℕ)
      → t ≤ c 0
      → Sound t s
      → Ensures Durable (sync ds c s.last_save s.tracker s.entity)
  tick_Durable t s c b (v, l, h) =
      let S = Synced ds (c 1) s.last_save s.entity in
      Ensures-mono (λ r. (IsValid r.0 × Touched t s.tracker r.0) × S r) Durable _
        (swept_sync t s c b v)
        λ r g. sync_Durable (c 1) s.last_save s.entity r g.1 (keeps_Recovers t s r.0 l h g.0.1)

  turns_Durable :
      (t : ℕ) (s : Saving ds) (xs : List (Turn × ℕ)) (c : ℕ → ℕ) (end_time : ℕ)
      → Sound t s
      → InOrder t (xs ++ (ticks c [], end_time) ∷ [])
      → Ensures
          (λ s'. Ensures Durable (sync ds c s'.last_save s'.tracker s'.entity))
          (turns ds s xs)
  unfolding turns
  turns_Durable t s [] c end_time g o = tick_Durable t s c (o.0.0 0).0 g
  turns_Durable t s ((x, then_time) ∷ xs) c end_time g o =
      Ensures-bind (Sound then_time)
        (λ s'. Ensures Durable (sync ds c s'.last_save s'.tracker s'.entity)) _ _
        (turn-Sound t then_time s x o.0 g) λ s' w. turns_Durable then_time s' xs c end_time w o.1

  -- From the start of saveEvery on a well-formed tracker, after every sequence of calls and ticks, a
  -- further tick, where no reading of the clock is before one of an earlier turn, and where no call
  -- comes between the GetState of a Sync and its reading of lastTry, and in the further tick none before the
  -- end of the Sync: all of it runs without a panic, and the Sync of that tick gives an error, or leaves
  -- in the datastore what InitTracker recovers the jobs and the last job of the tracker from. Calls
  -- between the reading of lastTry and the end of the other Syncs are among the sequences.
  pub save_every-Durable :
      (tr : Tracker) (entity : ds.Entity) (t : ℕ) (xs : List (Turn × ℕ)) (c : ℕ → ℕ) (end_time : ℕ)
      → IsValid tr
      → InOrder t (xs ++ (ticks c [], end_time) ∷ [])
      → Ensures
          (λ s. Ensures Durable (sync ds c s.last_save s.tracker s.entity))
          (turns ds (save_every ds tr entity) xs)
  unfolding save_every
  save_every-Durable tr entity t xs c end_time v o =
      turns_Durable t _ xs c end_time (v, omega arith, pending (omega arith)) o
