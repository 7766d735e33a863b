-- ===== src/Tracker/SweepBalance.antt =====
-- tracker.go, GetState: the jobs that are dropped leave metrics.TasksInFlight.
use etl_gardener.Base.{
  ℕ, ◌+◌, ◌≡◌, ◌≢◌, ap, Bool, true, false, String, some, List, [], ◌∷◌, ◌++◌, arith, total, Ensures,
  Ensures-bind, total_bind, Values, if◌then◌else◌,
}
use etl_gardener.Job.{Job, Job_discrete}
use etl_gardener.Metrics.{Series, Event, in_flight_dec, incs, decs, incs-append, decs-append}
use etl_gardener.Status
use etl_gardener.Status.{Status, series}
use etl_gardener.Status.Safe.{HasHistory, is_done-IsTotal, label-IsTotal}
use etl_gardener.Tracker.{Tracker, JobMap, sweep, get_state}
use etl_gardener.Tracker.Valid.{IsValid}
use etl_gardener.Tracker.Sweep.{is_obsolete-IsTotal}
use etl_gardener.Tracker.Gauge.{Balanced, weight, weight_of, in_flight, weight_done}

module _ (k : Series) (open_series : k.label ≢ Status.complete) where
  -- The loop lowers the gauge by what it takes out of the map.
  abbrev Settled : JobMap → JobMap × List Event × Bool → Type 0
  Settled m r = (incs k r.1 ≡ 0) × (in_flight k r.0 + decs k r.1 ≡ in_flight k m)

  settle_entry :
      (j : Job) (s : Status) (m : JobMap) (gone done : Bool) (lbl : String)
      (r : JobMap × List Event × Bool)
      → Status.is_done s ≡ some done
      → Status.label s ≡ some lbl
      → Settled m r
      → Settled ((j, s) ∷ m) (
          if gone
          then (r.0, (if done then r.1 else r.1 ++ in_flight_dec (series j lbl) ∷ []), true)
          else ((j, s) ∷ r.0, r.1, r.2))
  unfolding total incs decs weight weight_of
  settle_entry j s m false done lbl r p q w = (w.0, omega (arith, w.1))
  settle_entry j s m true true lbl r p q w =
      (w.0, omega (arith, w.1, weight_done k open_series j s p))
  settle_entry j s m true false lbl r p q w =
      let one = in_flight_dec (series j lbl) ∷ [] in
      (
        omega (arith, w.0, incs-append k r.1 one),
        omega (arith, w.1, decs-append k r.1 one, ap (weight_of k j) q),
      )

  sweep-Settled :
      (now : ℕ) (tr : Tracker) (m : JobMap)
      → Values Job_discrete HasHistory m
      → Ensures (Settled m) (sweep now tr m)
  unfolding sweep
  sweep-Settled now tr [] h = unfold total incs decs in omega arith
  sweep-Settled now tr ((j, s) ∷ m) h =
      total_bind (Settled ((j, s) ∷ m)) _ _ (is_obsolete-IsTotal now tr s h.0) λ gone e.
        total_bind (Settled ((j, s) ∷ m)) _ _ (is_done-IsTotal s h.0) λ done p.
          total_bind (Settled ((j, s) ∷ m)) _ _ (label-IsTotal s h.0) λ lbl q.
            Ensures-bind (Settled m) (Settled ((j, s) ∷ m)) _ _ (sweep-Settled now tr m h.1)
              λ r w. settle_entry j s m gone done lbl r p q w

  pub get_state-Balanced :
      (now : ℕ) (tr : Tracker)
      → IsValid tr
      → Balanced k tr
      → Ensures (λ r. Balanced k r.0) (get_state now tr)
  unfolding get_state
  get_state-Balanced now tr v b =
      Ensures-bind (Settled tr.jobs) (λ r. Balanced k r.0) _ _
        (sweep-Settled now tr tr.jobs v.started)
        λ r w. omega (arith, b, w.0, w.1, incs-append k r.1 tr.events, decs-append k r.1 tr.events)
