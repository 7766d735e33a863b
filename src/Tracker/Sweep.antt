-- ===== src/Tracker/Sweep.antt =====
-- tracker.go, GetState: which jobs are returned and kept.
use etl_gardener.Base.{
  ℕ, ◌≡◌, refl, sym, ◌∙◌, Bool, true, false, Option, none, some, List, [], ◌∷◌, ◌<◌, ◌≤◌, ◌+◌,
  arith, eq_iff, lookup, Unique, Values, Ensures, IsTotal, total_bind, if◌then◌else◌, Ensures-bind,
  ◌↔◌,
}
use etl_gardener.Job.{Job, Job_discrete}
use etl_gardener.Metrics.{Event}
use etl_gardener.Status
use etl_gardener.Status.{Status, StateInfo}
use etl_gardener.Status.Safe.{HasHistory, label-IsTotal, is_done-IsTotal}
use etl_gardener.Tracker.{Tracker, JobMap, is_obsolete, find, sweep, get_state}
use etl_gardener.Tracker.Valid.{IsValid}

-- What a swept map holds under `j`, from what the map held there.
unfoldable pub surviving : ℕ → Tracker → Option Status → Option Status
surviving now tr none = none
surviving now tr (some s) = elim (is_obsolete now tr s) [ some false ↦ some s | _ ↦ none ]

record Swept (now : ℕ) (tr : Tracker) (m kept : JobMap) : Type 0 where
  pub unique : Unique Job_discrete kept
  pub started : Values Job_discrete HasHistory kept
  pub found : (j : Job) → lookup Job_discrete j kept ≡ surviving now tr (lookup Job_discrete j m)

pub is_obsolete-IsTotal :
    (now : ℕ) (tr : Tracker) (s : Status) → HasHistory s → IsTotal (is_obsolete now tr s)
unfolding is_obsolete Status.detail_time Status.is_done
is_obsolete-IsTotal now tr s h = ground arith

keep_entry :
    (now : ℕ) (tr : Tracker) (j : Job) (s : Status) (m kept : JobMap) (gone : Bool)
    (es fs : List Event) (b : Bool)
    → lookup Job_discrete j m ≡ none
    → HasHistory s
    → is_obsolete now tr s ≡ some gone
    → Swept now tr m kept
    → Swept now tr
        ((j, s) ∷ m)
        (if◌then◌else◌ {A = JobMap × List Event × Bool} gone
          (kept, es, true)
          ((j, s) ∷ kept, fs, b)).0
unfolding lookup surviving
keep_entry now tr j s m kept true es fs b u h e w = record {
  unique = w.unique;
  started = w.started;
  found = λ i. ground (arith, w.found i);
}
keep_entry now tr j s m kept false es fs b u h e w = record {
  unique = (ground (arith, w.found j), w.unique);
  started = (h, w.started);
  found = λ i. ground (arith, w.found i);
}

sweep-Swept :
    (now : ℕ) (tr : Tracker) (m : JobMap)
    → Unique Job_discrete m
    → Values Job_discrete HasHistory m
    → Ensures (λ r. Swept now tr m r.0) (sweep now tr m)
unfolding sweep
sweep-Swept now tr [] u h = record {
  unique = tt;
  started = tt;
  found = λ j. unfold lookup surviving in refl;
}
sweep-Swept now tr ((j, s) ∷ m) u h =
    let rest = sweep-Swept now tr m u.1 h.1 in
    total_bind (λ r. Swept now tr ((j, s) ∷ m) r.0) _ _ (is_obsolete-IsTotal now tr s h.0)
      λ gone e.
        total_bind (λ r. Swept now tr ((j, s) ∷ m) r.0) _ _ (is_done-IsTotal s h.0)
          λ done _.
            total_bind (λ r. Swept now tr ((j, s) ∷ m) r.0) _ _ (label-IsTotal s h.0)
              λ lbl _.
                Ensures-bind (λ r. Swept now tr m r.0) (λ r. Swept now tr ((j, s) ∷ m) r.0) _ _ rest
                  λ r w. keep_entry now tr j s m r.0 gone _ _ _ u.0 h.0 e w

-- A status that is neither expired nor complete for longer than the cleanup delay.
abbrev pub FreshIn : ℕ → Tracker → List StateInfo → Type 0
FreshIn now tr [] = ⊥
FreshIn now tr (si ∷ _) =
    (0 < tr.expiration_time → now ≤ si.detail_time + tr.expiration_time)
    × (si.state ≡ Status.complete → now ≤ si.detail_time + tr.cleanup_delay)

abbrev pub IsFresh : ℕ → Tracker → Status → Type 0
IsFresh now tr s = FreshIn now tr s.history

kept_iff :
    (now : ℕ) (tr : Tracker) (s : Status) (h : List StateInfo)
    → (is_obsolete now tr (record s { history = h }) ≡ some false) ↔ FreshIn now tr h
unfolding is_obsolete Status.detail_time Status.is_done
kept_iff now tr s [] = (λ e. cc, λ f. absurd f)
kept_iff now tr s (si ∷ _) = (
  λ e. (
    λ p. ground (arith, eq_iff si.state Status.complete),
    λ q. ground (arith, eq_iff si.state Status.complete),
  ),
  λ f. ground (arith, eq_iff si.state Status.complete),
)

surviving_iff :
    (now : ℕ) (tr : Tracker) (o : Option Status) (s : Status)
    → (surviving now tr o ≡ some s) ↔ ((o ≡ some s) × (is_obsolete now tr s ≡ some false))
unfolding surviving
surviving_iff now tr none s = (λ e. cc, λ f. cc f.0)
surviving_iff now tr (some t) s = (λ e. ground arith, λ f. ground arith)

-- GetState on a well-formed tracker does not panic and leaves it well-formed. The map it returns is
-- the one that the tracker keeps, the last job is unchanged, and a status is under a job exactly if
-- it was and is fresh: not past the expiration time, if there is one, and not complete for longer
-- than the cleanup delay.
pub get_state_keeps :
    (now : ℕ) (tr : Tracker)
    → IsValid tr
    → Ensures
        (λ r.
          IsValid r.0
          × (r.0.jobs ≡ r.1)
          × (r.2 ≡ tr.last_job)
          × ((j : Job) (s : Status)
              → (lookup Job_discrete j r.1 ≡ some s) ↔ ((find j tr ≡ some s) × IsFresh now tr s)))
        (get_state now tr)
unfolding get_state
get_state_keeps now tr v =
    Ensures-bind (λ r. Swept now tr tr.jobs r.0) _ _ _
      (sweep-Swept now tr tr.jobs v.unique v.started)
      λ r w. (
        record { unique = w.unique; started = w.started; limited = v.limited },
        refl,
        refl,
        λ j s. (
          λ e.
              let (a, b) = (surviving_iff now tr (find j tr) s).0 (sym (w.found j) ∙ e) in
              (a, (kept_iff now tr s s.history).0 b),
          λ f.
              w.found j
              ∙ (surviving_iff now tr (find j tr) s).1 (f.0, (kept_iff now tr s s.history).1 f.1),
        ),
      )

pub get_state-IsValid :
    (now : ℕ) (tr : Tracker) → IsValid tr → Ensures (λ r. IsValid r.0) (get_state now tr)
unfolding get_state
get_state-IsValid now tr v =
    Ensures-bind (λ r. Swept now tr tr.jobs r.0) (λ r. IsValid r.0) _ _
      (sweep-Swept now tr tr.jobs v.unique v.started)
      λ r w. record { unique = w.unique; started = w.started; limited = v.limited }

-- The results are those of the tracker that is left.
pub get_state-read :
    (now : ℕ) (tr : Tracker)
    → IsValid tr
    → Ensures
        (λ r. IsValid r.0 × (r.0.jobs ≡ r.1) × (r.0.last_job ≡ r.2) × (r.0.last_modified ≡ r.3))
        (get_state now tr)
unfolding get_state
get_state-read now tr v =
    Ensures-bind (λ r. Swept now tr tr.jobs r.0) _ _ _
      (sweep-Swept now tr tr.jobs v.unique v.started)
      λ r w.
        (record { unique = w.unique; started = w.started; limited = v.limited }, refl, refl, refl)
