-- ===== src/Bq/Backoff.antt =====
-- WaitForJob: how long it sleeps between two rounds; CachedDetail: what it gives after an error.
use etl_gardener.Base.{
  ℕ, suc, zero, ◌+◌, ◌*◌, ◌≤◌, ◌<◌, ◌≡◌, refl, true, String, Option, none, some, List, ◌∷◌, arith,
  Bool-cases, inl, inr, ltb, All,
}
use etl_gardener.World.{M, Returns}
use etl_gardener.Bq.{
  Outside, Detail, AnnotatedTable, JobStatus, status_failed, running, finished, get_table_detail,
}
use etl_gardener.Bq.Caches.{cached_detail}
use etl_gardener.Bq.Sanity.{end_status, job_loop, wait_for_job}

-- `naps` are the sleeps so far, the last one first.
pub record Naps (out : Outside) (naps : out.World → List ℕ) : Type 0 where
  pub sleep_adds : (d : ℕ) (w : out.World) → naps (out.sleep d w) ≡ d ∷ naps w
  pub status_keeps : (w : out.World) → naps (out.job_status w).1 ≡ naps w

module _ (out : Outside) (naps : out.World → List ℕ) (x : Naps out naps) where
  -- A sleep of at least 10 ms that is below twice the largest backoff.
  abbrev pub Moderate : ℕ → ℕ → Type 0
  Moderate max_backoff d = (10000000 ≤ d) × (d < 2 * max_backoff)

  slept-Moderate :
      (max_backoff d : ℕ) (w : out.World)
      → Moderate max_backoff d
      → All (Moderate max_backoff) (naps w)
      → All (Moderate max_backoff) (naps (out.sleep d (out.job_status w).1))
  slept-Moderate max_backoff d w m h =
      rw (x.sleep_adds d (out.job_status w).1, x.status_keeps w) (m, h)

  end_status-Moderate :
      (max_backoff : ℕ) (rest : M out.World (Option String)) (s : JobStatus) (w : out.World)
      → All (Moderate max_backoff) (naps w)
      → Returns (λ _ w'. All (Moderate max_backoff) (naps w')) (rest w)
      → Returns (λ _ w'. All (Moderate max_backoff) (naps w')) (end_status out rest s w)
  end_status-Moderate max_backoff rest (status_failed e) w h k = h
  end_status-Moderate max_backoff rest (finished e) w h k = h
  end_status-Moderate max_backoff rest running w h k = k

  job_loop-Moderate :
      (fuel max_backoff backoff previous : ℕ) (w : out.World)
      → Moderate max_backoff backoff
      → 10000000 ≤ previous
      → previous ≤ backoff
      → All (Moderate max_backoff) (naps w)
      → Returns
          (λ _ w'. All (Moderate max_backoff) (naps w'))
          (job_loop out fuel max_backoff backoff previous w)
  unfolding job_loop
  job_loop-Moderate zero max_backoff backoff previous w m p q h = tt
  job_loop-Moderate (suc fuel) max_backoff backoff previous w m p q h =
      let after = out.job_status w in
      end_status-Moderate max_backoff _ after.0 after.1 (rw (x.status_keeps w) h)
        (elim (Bool-cases (ltb backoff max_backoff)) [
          | inl a ↦
              let g : backoff < max_backoff = ground (arith, a) in
              let d : Moderate max_backoff (backoff + previous) =
                (omega (arith, m.0), omega (arith, g, q)) in
              rw a (
                job_loop-Moderate fuel max_backoff (backoff + previous) backoff
                  (out.sleep (backoff + previous) after.1) d m.0 (omega arith)
                  (slept-Moderate max_backoff (backoff + previous) w d h))
          | inr a ↦ rw a (
              job_loop-Moderate fuel max_backoff backoff previous (out.sleep backoff after.1) m p q
                (slept-Moderate max_backoff backoff w m h))
        ])

  -- WaitForJob sleeps at least 10 ms each time, and less than twice the largest backoff, which is more
  -- than 10 ms.
  pub wait_for_job-Moderate :
      (fuel max_backoff : ℕ) (w : out.World)
      → 10000000 < max_backoff
      → All (Moderate max_backoff) (naps w)
      → Returns (λ _ w'. All (Moderate max_backoff) (naps w')) (wait_for_job out fuel max_backoff w)
  unfolding wait_for_job
  wait_for_job-Moderate fuel max_backoff w l h =
      job_loop-Moderate fuel max_backoff 10000000 10000000 w (omega arith, omega (arith, l))
        (omega arith) (omega arith) h

-- After a query that fails, CachedDetail gives its error once, and the next call gives the detail that
-- the query left, without an error.
pub cached_detail-forgets :
    (out : Outside) (at : AnnotatedTable) (w w' : out.World) (d : Detail) (e : String)
    → at.detail ≡ none
    → at.err ≡ none
    → at.has_dataset ≡ true
    → get_table_detail out at.table w ≡ some ((some d, some e), w')
    → let at' = record at { detail = some d; err = some e } in
      (cached_detail out true at w ≡ some (((some d, some e), at'), w'))
      × (cached_detail out true at' w' ≡ some (((some d, none), at'), w'))
unfolding cached_detail
cached_detail-forgets out at w w' d e p q r f = (rw (p, q, r, f) refl, refl)
