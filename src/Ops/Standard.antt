-- ===== src/Ops/Standard.antt =====
-- actions.go: the standard monitor.
use etl_gardener.Base.{
  ℕ, ◌≡◌, refl, String, none, some, Ensures, Ensures-mono, IsTotal, insert-Values, String_discrete,
  ensured, lookup,
}
use etl_gardener.Job.{Job}
use etl_gardener.Tracker.{Tracker}
use etl_gardener.Tracker.Valid.{IsValid}
use etl_gardener.Ops.{Monitor, new_monitor, add_action}
use etl_gardener.Ops.Claims.{IsExclusive, ActionIsTotal}
use etl_gardener.Ops.Actions.{Environment, new_standard_monitor, Result}
use etl_gardener.Ops.Verdicts.{
  Verdict, Judged, StatsKnown, load_func-Judged, copy_func-Judged, dedup_func-Judged,
  delete_func-Judged,
}

Judged-IsTotal : (j : Job) (v : Verdict) (o : Result) → Ensures (Judged j v) o → IsTotal o
Judged-IsTotal j v o h = Ensures-mono (Judged j v) (λ _. Unit) o h (λ r g. tt)

module _ {W : Type 0} where
  action-IsTotal :
      (f : W → Job → ℕ → Result)
      → ((w : W) (j : Job) (t : ℕ) → IsTotal (f w j t))
      → (g : W → Job → ℕ → Result) → some f ≡ some g
      → (w : W) (j : Job) (t : ℕ) → IsTotal (g w j t)
  action-IsTotal f h g e w j t = ensured (λ k. IsTotal (k w j t)) (some f) g e (h w j t)

  add_action-safe :
      (state next note : String) (f : W → Job → ℕ → Result) (m : Monitor W)
      → ((w : W) (j : Job) (t : ℕ) → IsTotal (f w j t))
      → IsExclusive m
      → IsExclusive (add_action state none (some f) next note m)
  unfolding add_action
  add_action-safe state next note f m h v = record {
    one_worker = v.one_worker;
    one_claim = v.one_claim;
    claimed = v.claimed;
    valid = v.valid;
    actions_safe =
        insert-Values String_discrete ActionIsTotal state _ m.actions (action-IsTotal f h)
          v.actions_safe;
    workers_safe = v.workers_safe;
  }

  new_monitor-IsExclusive : (tr : Tracker) → IsValid tr → IsExclusive {W = W} (new_monitor tr)
  unfolding new_monitor lookup
  new_monitor-IsExclusive tr v = record {
    one_worker = tt;
    one_claim = tt;
    claimed = λ j. (λ e. refl, λ e. refl);
    valid = v;
    actions_safe = tt;
    workers_safe = tt;
  }

  -- The standard monitor on a well-formed tracker has no goroutine and no claim, and its actions do
  -- not panic, where the statistics of the dedup are known.
  pub new_standard_monitor-IsExclusive :
      (view : W → Environment) (tr : Tracker)
      → ((w : W) → StatsKnown (view w))
      → IsValid tr
      → IsExclusive (new_standard_monitor view tr)
  unfolding new_standard_monitor
  new_standard_monitor-IsExclusive view tr known v =
      add_action-safe _ _ _ _ _ (λ w j t. Judged-IsTotal j _ _ (delete_func-Judged (view w) j t))
        (add_action-safe _ _ _ _ _ (λ w j t. Judged-IsTotal j _ _ (copy_func-Judged (view w) j t))
          (add_action-safe _ _ _ _ _
            (λ w j t. Judged-IsTotal j _ _ (dedup_func-Judged (view w) j t (known w)))
            (add_action-safe _ _ _ _ _
              (λ w j t. Judged-IsTotal j _ _ (load_func-Judged (view w) j t))
              (add_action-safe _ _ _ _ _ (λ w j t. tt) (new_monitor-IsExclusive tr v)))))
