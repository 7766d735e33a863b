-- ===== src/Store/Lost.antt =====
-- tracker.go, Sync: calls between its GetState and its reading of lastTry.
use etl_gardener.Base.{
  ℕ, ◌≡◌, ◌≢◌, ◌≤◌, ◌<◌, refl, sym, ◌∙◌, subst, ensured, Bool, true, some, List, ◌>>=◌, arith, ltb,
  Ensures, Ensures-mono,
}
use etl_gardener.Job.{Job}
use etl_gardener.Tracker.{Tracker, JobMap, Call, find, run, get_state}
use etl_gardener.Tracker.Valid.{IsValid}
use etl_gardener.Tracker.Sweep.{get_state-read}
use etl_gardener.Store.{Datastore, init_tracker, with_tracker, end_sync, sync}
use etl_gardener.Store.Synced.{Restores, Synced, skipped, not_saved, saved, end_sync-Synced}
use etl_gardener.Store.Saving.{ticks, Saving, turn}

module _ (ds : Datastore) where
  -- There is no error, and what InitTracker recovers has another status of the job than the tracker.
  abbrev pub Lost : Job → Tracker × ds.Entity × ℕ × Bool → Type 0
  Lost job x =
      (x.3 ≡ true)
      × ((now expiration cleanup : ℕ)
          → Ensures (λ t. find job t ≢ find job x.0)
              (init_tracker ds now expiration cleanup (some x.1)))

  saved_facts :
      (saved_at last_save : ℕ) (entity : ds.Entity) (x : Tracker × ds.Entity × ℕ × Bool)
      → Synced ds saved_at last_save entity x
      → last_save ≤ x.0.last_modified
      → x.3 ≡ true
      → (x.2 ≡ saved_at)
        × ((now expiration cleanup : ℕ)
            → Ensures (Restores ds x.0) (init_tracker ds now expiration cleanup (some x.1)))
  saved_facts saved_at last_save entity x (skipped m p q f) l t = absurd (omega (arith, m, l))
  saved_facts saved_at last_save entity x (not_saved p q f) l t = absurd (cc (f, t))
  saved_facts saved_at last_save entity x (saved q f g) l t = (q, g)

  end_sync_skips :
      (c : ℕ → ℕ) (last_save : ℕ) (jobs : JobMap) (last : Job) (modified : ℕ) (entity : ds.Entity)
      → modified < last_save
      → end_sync ds c last_save jobs last modified entity ≡ (entity, last_save, true)
  unfolding end_sync
  end_sync_skips c last_save jobs last modified entity l =
      let b : ltb modified last_save ≡ true = ground (arith, l) in rw b refl

  -- Where a Sync saves without an error what its GetState gave, and the calls between that and its
  -- reading of lastTry leave a job with another status, but the tracker modified before lastTry for the
  -- next Sync: the next Sync gives no error, and what InitTracker recovers from the datastore after it
  -- has not the status of this job that the tracker has.
  pub sync_around-loses :
      (c d : ℕ → ℕ) (s : Saving ds) (between : List ((ℕ → ℕ) × Call)) (job : Job)
      (r q : Tracker × JobMap × Job × ℕ) (tr : Tracker)
      → IsValid s.tracker
      → get_state (c 0) s.tracker ≡ some r
      → run r.0 between ≡ some tr
      → get_state (d 0) tr ≡ some q
      → s.last_save ≤ r.3
      → (end_sync ds c s.last_save r.1 r.2 r.3 s.entity).2 ≡ true
      → q.3 < c 1
      → find job q.0 ≢ find job r.0
      → Ensures
          (Lost job)
          (turn ds s (ticks c between) >>= λ s'. sync ds d s'.last_save s'.tracker s'.entity)
  unfolding turn sync
  sync_around-loses c d s between job r q tr v a b e l saves m n =
      let g =
        ensured
          (λ (r : Tracker × JobMap × Job × ℕ).
            IsValid r.0 × (r.0.jobs ≡ r.1) × (r.0.last_job ≡ r.2) × (r.0.last_modified ≡ r.3))
          _ r a (get_state-read (c 0) s.tracker v) in
      let ended = end_sync ds c s.last_save r.1 r.2 r.3 s.entity in
      let (at, back) =
        saved_facts (c 1) s.last_save s.entity (with_tracker ds r.0 ended)
          (end_sync-Synced ds c s.last_save r.0 s.entity r.1 r.2 r.3 g.0 g.1 g.2 g.3)
          (omega (arith, l, g.3)) saves in
      let skips = end_sync_skips d ended.1 q.1 q.2 q.3 ended.0 (omega (arith, m, at)) in
      let lost : Lost job (with_tracker ds q.0 (ended.0, ended.1, true)) = (
        refl,
        λ now expiration cleanup.
            Ensures-mono (Restores ds r.0) (λ t. find job t ≢ find job q.0) _
              (back now expiration cleanup) λ t k z. n (sym z ∙ k.0 job),
      ) in
      rw (a, b, e) (subst (λ x. Lost job (with_tracker ds q.0 x)) (sym skips) lost)
