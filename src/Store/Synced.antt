-- ===== src/Store/Synced.antt =====
-- tracker.go: what Sync saves is what InitTracker recovers.
use etl_gardener.Base.{
  ℕ, ◌<◌, ◌≡◌, refl, ap, sym, ◌∙◌, Bool, true, false, Option, none, some, List, [], arith, lookup,
  Ensures, Ensures-bind, total_bind, Bool-cases, Option-cases, inl, inr, ltb, ◌>>=◌,
}
use etl_gardener.Job.{Job, Job_discrete}
use etl_gardener.Status.{Status}
use etl_gardener.Tracker.{Tracker, JobMap, find}
use etl_gardener.Tracker.Valid.{IsValid}
use etl_gardener.Tracker.Sweep.{get_state-read}
use etl_gardener.Store.{
  SaverStruct, Datastore, add_pairs, all_started, zero_job, loaded, load_job_map, tracker_from,
  init_tracker, with_tracker, end_sync, sync,
}
use etl_gardener.Store.Recovery.{
  either, lookup-add_pairs, add_pairs-Values, Values-all_started, init_events-IsTotal,
}

module _ (ds : Datastore) where
  -- The tracker `t` has the jobs and the last job of `tr`.
  abbrev pub Restores : Tracker → Tracker → Type 0
  Restores tr t = ((j : Job) → find j t ≡ find j tr) × (t.last_job ≡ tr.last_job)

  -- The outcomes of Sync, with the entity, the time and the absence of an error that it returns: the
  -- tracker has not changed since the last save; an error; or the state is saved.
  pub data Synced (saved_at last_save : ℕ) (entity : ds.Entity) (r : Tracker × ds.Entity × ℕ × Bool)
      : Type 0 where
    skipped :
        r.0.last_modified < last_save
        → r.1 ≡ entity
        → r.2 ≡ last_save
        → r.3 ≡ true
        → Synced saved_at last_save entity r
    not_saved : r.1 ≡ entity → r.2 ≡ last_save → r.3 ≡ false → Synced saved_at last_save entity r
    saved :
        r.2 ≡ saved_at
        → r.3 ≡ true
        → ((now expiration cleanup : ℕ)
            → Ensures (Restores r.0) (init_tracker ds now expiration cleanup (some r.1)))
        → Synced saved_at last_save entity r

  either_none : (o : Option Status) → either o (lookup {V = Status} Job_discrete zero_job []) ≡ o
  unfolding either lookup
  either_none none = refl
  either_none (some s) = refl

  load_saved :
      (entity : ds.Entity) (v : SaverStruct ds.Bytes) (pairs : List (Job × Status))
      → ds.get entity ≡ some v
      → ds.unmarshal v.jobs ≡ some pairs
      → all_started (add_pairs pairs []) ≡ true
      → load_job_map ds (some entity) ≡ loaded (add_pairs pairs []) v.last_init
  unfolding load_job_map
  load_saved entity v pairs e f g = rw (load_job_map, e, f, g) refl

  tracker_from-Restores :
      (tr : Tracker) (now expiration cleanup : ℕ) (last : Job)
      → IsValid tr
      → tr.last_job ≡ last
      → Ensures (Restores tr) (tracker_from ds now expiration cleanup (add_pairs tr.jobs []) last)
  unfolding tracker_from
  tracker_from-Restores tr now expiration cleanup last v e =
      total_bind (Restores tr) _ _
        (init_events-IsTotal _ (add_pairs-Values tr.jobs [] v.started tt))
        λ es _. (
          λ j. lookup-add_pairs tr.jobs [] j v.unique ∙ unfold lookup in either_none (find j tr),
          sym e,
        )

  init-Restores :
      (tr : Tracker) (entity : ds.Entity) (v : SaverStruct ds.Bytes)
      → IsValid tr
      → ds.get entity ≡ some v
      → ds.unmarshal v.jobs ≡ some tr.jobs
      → tr.last_job ≡ v.last_init
      → (now expiration cleanup : ℕ)
      → Ensures (Restores tr) (init_tracker ds now expiration cleanup (some entity))
  unfolding init_tracker
  init-Restores tr entity v w e f g now expiration cleanup =
      let started = Values-all_started _ (add_pairs-Values tr.jobs [] w.started tt) in
      rw (init_tracker, load_saved entity v tr.jobs e f started)
        (tracker_from-Restores tr now expiration cleanup v.last_init w g)

  put_cases :
      (c : ℕ → ℕ) (last_save : ℕ) (tr : Tracker) (entity : ds.Entity) (jobs : JobMap) (last : Job)
      → IsValid tr
      → tr.jobs ≡ jobs
      → tr.last_job ≡ last
      → Synced (c 1) last_save entity (
          with_tracker ds tr
            (elim (ds.marshal jobs >>= λ b.
                ds.put (record { save_time = c 2; last_init = last; jobs = b }) entity)
              as (λ _. ds.Entity × ℕ × Bool) [
                | none ↦ (entity, last_save, false)
                | some e ↦ (e, c 1, true)
              ]))
  put_cases c last_save tr entity jobs last v e f = elim (Option-cases (ds.marshal jobs)) [
    | inl m ↦ rw m (not_saved refl refl refl)
    | inr (b, m) ↦
        let doc : SaverStruct ds.Bytes = record { save_time = c 2; last_init = last; jobs = b } in
        elim (Option-cases (ds.put doc entity)) [
          | inl q ↦ rw (m, q) (not_saved refl refl refl)
          | inr (e', q) ↦
              rw (m, q)
                (saved refl refl (
                  init-Restores tr e' doc v (ds.get-put doc entity q)
                    (ds.unmarshal-marshal jobs m ∙ ap some (sym e)) f))
        ]
  ]

  -- The part of Sync after its GetState.
  pub end_sync-Synced :
      (c : ℕ → ℕ) (last_save : ℕ) (tr : Tracker) (entity : ds.Entity) (jobs : JobMap) (last : Job)
      (modified : ℕ)
      → IsValid tr
      → tr.jobs ≡ jobs
      → tr.last_job ≡ last
      → tr.last_modified ≡ modified
      → Synced
          (c 1)
          last_save
          entity
          (with_tracker ds tr (end_sync ds c last_save jobs last modified entity))
  unfolding end_sync
  end_sync-Synced c last_save tr entity jobs last modified v e f g =
      elim (Bool-cases (ltb modified last_save)) [
        | inl b ↦ rw b (skipped (ground (arith, g, b)) refl refl refl)
        | inr b ↦ rw b (put_cases c last_save tr entity jobs last v e f)
      ]

  pub sync-Synced :
      (c : ℕ → ℕ) (last_save : ℕ) (tr : Tracker) (entity : ds.Entity)
      → IsValid tr
      → Ensures (Synced (c 1) last_save entity) (sync ds c last_save tr entity)
  unfolding sync
  sync-Synced c last_save tr entity v =
      Ensures-bind {A = Tracker × JobMap × Job × ℕ}
        (λ r. IsValid r.0 × (r.0.jobs ≡ r.1) × (r.0.last_job ≡ r.2) × (r.0.last_modified ≡ r.3))
        (Synced (c 1) last_save entity) _ _ (get_state-read (c 0) tr v)
        λ r g. end_sync-Synced c last_save r.0 entity r.1 r.2 r.3 g.0 g.1 g.2 g.3
