-- ===== src/Store/Recovery.antt =====
-- tracker.go: what Sync leaves in the datastore, and the tracker that InitTracker makes of it.
use etl_gardener.Base.{
  ℕ, ◌≡◌, ◌≢◌, refl, ensured, ap, Bool, true, false, String, Option, none, some, List, [], ◌∷◌,
  ◌++◌, arith, Unique, Values, lookup, insert, insert-Unique, insert-Values, lookup-insert, total,
  Ensures, Ensures-bind, IsTotal, total_bind, Bool-cases, Option-cases, inl, inr, if◌then◌else◌,
}
use etl_gardener.Job.{Job, Job_discrete}
use etl_gardener.Metrics.{
  Series, Event, started, in_flight_inc, incs, decs, incs-append, decs-append,
}
use etl_gardener.Status
use etl_gardener.Status.{Status, series}
use etl_gardener.Status.Safe.{HasHistory, label-IsTotal, is_done-IsTotal}
use etl_gardener.Tracker.{Tracker, JobMap}
use etl_gardener.Tracker.Valid.{IsValid}
use etl_gardener.Tracker.Gauge.{weight, weight_of, weight_done, in_flight, Balanced}
use etl_gardener.Store.{
  Datastore, add_pairs, all_started, Loaded, not_loaded, load_failed, loaded, init_events, zero_job,
  load_job_map, tracker_from, init_tracker,
}

add_pairs-Unique :
    (ps : List (Job × Status)) (m : JobMap)
    → Unique Job_discrete m
    → Unique Job_discrete (add_pairs ps m)
unfolding add_pairs
add_pairs-Unique [] m u = u
add_pairs-Unique ((j, s) ∷ ps) m u =
    add_pairs-Unique ps (insert Job_discrete j s m) (insert-Unique Job_discrete j s m u)

pub add_pairs-Values :
    (ps : List (Job × Status)) (m : JobMap)
    → Values Job_discrete HasHistory ps
    → Values Job_discrete HasHistory m
    → Values Job_discrete HasHistory (add_pairs ps m)
unfolding add_pairs
add_pairs-Values [] m h k = k
add_pairs-Values ((j, s) ∷ ps) m h k =
    add_pairs-Values ps _ h.1 (insert-Values Job_discrete HasHistory j s m h.0 k)

unfoldable pub either : Option Status → Option Status → Option Status
either none o = o
either (some s) o = some s

pub lookup-add_pairs :
    (ps : List (Job × Status)) (m : JobMap) (j : Job)
    → Unique Job_discrete ps
    → lookup Job_discrete j (add_pairs ps m)
      ≡ either (lookup Job_discrete j ps) (lookup Job_discrete j m)
unfolding add_pairs lookup either
lookup-add_pairs [] m j u = refl
lookup-add_pairs ((i, s) ∷ ps) m j u = ground (
  arith,
  lookup-add_pairs ps (insert Job_discrete i s m) j u.1,
  lookup-insert Job_discrete i j s m,
)

all_started_entry :
    (j : Job) (s : Status) (m : JobMap)
    → all_started ((j, s) ∷ m) ≡ true
    → HasHistory s × (all_started m ≡ true)
unfolding all_started
all_started_entry j s m e = ground arith

all_started-Values : (m : JobMap) → all_started m ≡ true → Values Job_discrete HasHistory m
all_started-Values [] e = tt
all_started-Values ((j, s) ∷ m) e =
    let (h, g) = all_started_entry j s m e in (h, all_started-Values m g)

pub Values-all_started : (m : JobMap) → Values Job_discrete HasHistory m → all_started m ≡ true
unfolding all_started
Values-all_started [] h = refl
Values-all_started ((j, s) ∷ m) h =
    let g = Values-all_started m h.1 in let k = h.0 in ground (arith, g, k)

-- The gauge is raised once for each job that is not complete.
Raised : Series → JobMap → List Event → Type 0
Raised k m es = (incs k es ≡ in_flight k m) × (decs k es ≡ 0)

module _ (k : Series) (open_series : k.label ≢ Status.complete) where
  init_entry :
      (j : Job) (s : Status) (m : JobMap) (done : Bool) (lbl : String) (es : List Event)
      → Status.is_done s ≡ some done
      → Status.label s ≡ some lbl
      → Raised k m es
      → Raised k ((j, s) ∷ m) (
          if done
          then es
          else es ++ in_flight_inc (series j lbl) ∷ started j.experiment j.datatype ∷ [])
  unfolding Raised total incs decs weight weight_of
  init_entry j s m true lbl es p q w = (omega (arith, w.0, weight_done k open_series j s p), w.1)
  init_entry j s m false lbl es p q w =
      let two = in_flight_inc (series j lbl) ∷ started j.experiment j.datatype ∷ [] in
      (
        omega (arith, w.0, incs-append k es two, ap (weight_of k j) q),
        omega (arith, w.1, decs-append k es two),
      )

  init_events-Raised :
      (m : JobMap) → Values Job_discrete HasHistory m → Ensures (Raised k m) (init_events m)
  unfolding init_events
  init_events-Raised [] h = unfold Raised incs decs total in (refl, refl)
  init_events-Raised ((j, s) ∷ m) h =
      let R = Raised k ((j, s) ∷ m) in
      total_bind R _ _ (is_done-IsTotal s h.0) λ done p.
        total_bind R _ _ (label-IsTotal s h.0) λ lbl q.
          Ensures-bind (Raised k m) R _ _ (init_events-Raised m h.1)
            λ es w. init_entry j s m done lbl es p q w

pub init_events-IsTotal : (m : JobMap) → Values Job_discrete HasHistory m → IsTotal (init_events m)
unfolding init_events
init_events-IsTotal [] h = tt
init_events-IsTotal ((j, s) ∷ m) h =
    total_bind (λ _. Unit) _ _ (is_done-IsTotal s h.0)
      λ done p.
        total_bind (λ _. Unit) _ _ (label-IsTotal s h.0)
          λ lbl q. total_bind (λ _. Unit) _ _ (init_events-IsTotal m h.1) λ es w. tt

Sound : Loaded → Type 0
Sound (loaded m last) = Unique Job_discrete m × Values Job_discrete HasHistory m
Sound _ = Unit

module _ (ds : Datastore) where
  pairs-Sound :
      (pairs : List (Job × Status)) (last : Job)
      → Sound (
          if all_started (add_pairs pairs [])
          then loaded (add_pairs pairs []) last
          else load_failed)
  unfolding Sound
  pairs-Sound pairs last = elim (Bool-cases (all_started (add_pairs pairs []))) [
    | inl b ↦ rw b (add_pairs-Unique pairs [] tt, all_started-Values _ b)
    | inr b ↦ rw b tt
  ]

  load_job_map-Sound : (entity : Option ds.Entity) → Sound (load_job_map ds entity)
  unfolding Sound load_job_map
  load_job_map-Sound none = tt
  load_job_map-Sound (some entity) = elim (Option-cases (ds.get entity)) [
    | inl e ↦ rw (Sound, e) tt
    | inr (v, e) ↦ elim (Option-cases (ds.unmarshal v.jobs)) [
      | inl g ↦ rw (Sound, e, g) tt
      | inr (pairs, g) ↦ rw (Sound, e, g) (pairs-Sound pairs v.last_init)
    ]
  ]

  -- A well-formed tracker in which the gauge agrees with the jobs, for each series but `complete`.
  abbrev pub Ready : Series → Tracker → Type 0
  Ready k t = IsValid t × (k.label ≢ Status.complete → Balanced k t)

  tracker_from-Ready :
      (k : Series) (now expiration cleanup : ℕ) (m : JobMap) (last : Job)
      → Unique Job_discrete m
      → Values Job_discrete HasHistory m
      → Ensures (Ready k) (tracker_from ds now expiration cleanup m last)
  unfolding tracker_from Raised
  tracker_from-Ready k now expiration cleanup m last u h =
      total_bind (Ready k) _ _ (init_events-IsTotal m h) λ es e. (
        record { unique = u; started = h; limited = omega arith },
        λ o.
            let (a, b) = ensured (Raised k m) _ es e (init_events-Raised k o m h) in
            omega (arith, a, b),
      )

  after_load :
      (k : Series) (now expiration cleanup : ℕ) (l : Loaded) (t : Tracker)
      → Sound l
      → elim l as (λ _. Option Tracker) [
        | not_loaded ↦ tracker_from ds now expiration cleanup [] zero_job
        | load_failed ↦ none
        | loaded jobs last ↦ tracker_from ds now expiration cleanup jobs last
      ]
        ≡ some t
      → Ready k t
  unfolding Sound
  after_load k now expiration cleanup not_loaded t q e =
      ensured (Ready k) _ t e (tracker_from-Ready k now expiration cleanup [] zero_job tt tt)
  after_load k now expiration cleanup load_failed t q e = cc e
  after_load k now expiration cleanup (loaded m last) t q e =
      ensured (Ready k) _ t e (tracker_from-Ready k now expiration cleanup m last q.0 q.1)

  -- A tracker that InitTracker returns, whatever the datastore holds, is well-formed, and in it the
  -- gauge TasksInFlight is the number of jobs, for every series whose label is not `complete`.
  pub init_tracker-Ready :
      (k : Series) (now expiration cleanup : ℕ) (entity : Option ds.Entity) (t : Tracker)
      → init_tracker ds now expiration cleanup entity ≡ some t
      → Ready k t
  unfolding init_tracker
  init_tracker-Ready k now expiration cleanup entity t e =
      after_load k now expiration cleanup (load_job_map ds entity) t (load_job_map-Sound entity) e
