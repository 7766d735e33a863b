-- ===== src/TaskQueue/Quiet.antt =====
-- WaitForEmptyQueue: it returns once the queue is reported empty.
use etl_gardener.Base.{
  ℕ, suc, zero, ◌+◌, ◌-◌, ◌*◌, ◌≤◌, ◌<◌, ◌≡◌, inl, inr, refl, Bool, false, String, Option, none,
  some, ltb, arith, Bool-cases,
}
use etl_gardener.World.{M, Returns-at, Gives, Gives-follow}
use etl_gardener.TaskQueue.{
  Outside, QueueHandler, QueueStatistics, get_taskqueue_stats, minute, second,
}
use etl_gardener.TaskQueue.Waiting.{
  Round, returned, again, judge, wait_round, end_round, wait_loop, wait_for_empty_queue,
}
use etl_gardener.TaskQueue.Emptied.{Clocked, get_taskqueue_stats-later}

-- From now on the queue is reported empty without an error, and nobody terminates.
pub record Quiet (out : Outside) (qh : QueueHandler) (Q : out.World → Type 0) : Type 0 where
  pub goes_on : (w : out.World) → Q w → out.terminated w ≡ false
  pub reports :
      (w : out.World)
      → Q w
      → (w2 : out.World) × (s : QueueStatistics) × (get_taskqueue_stats out qh.config qh.queue w
          ≡ some ((s, none), w2))
        × (s.tasks + s.in_flight ≡ 0)
        × Q w2
  pub sleeps : (d n : ℕ) (w : out.World) → Q w → Q (out.sleep d (out.rand_intn n w).1)

module _ (out : Outside) (qh : QueueHandler) (Q : out.World → Type 0) (x : Clocked out)
    (q : Quiet out qh Q) where
  -- A round returns without an error, or the world is as before and the time is not over.
  abbrev Nears : ℕ → ℕ → Round → out.World → Type 0
  Nears last now (returned err) w = err ≡ none
  Nears last now (again last' was) w =
      (last' ≡ last) × Q w × (now ≤ out.clock w) × (out.clock w ≤ last + 5 * minute)

  judge-Nears :
      (s : QueueStatistics) (last now : ℕ) (was : Bool) (w : out.World)
      → s.tasks + s.in_flight ≡ 0
      → Q w
      → now ≤ out.clock w
      → Gives (Nears last now) (judge out qh s last was w)
  unfolding judge
  judge-Nears s last now was w e h k =
      let a : ltb 0 (s.tasks + s.in_flight) ≡ false = ground (arith, e) in
      elim (Bool-cases (ltb 0 s.executed_1_minute)) [
        | inl b ↦ rw (a, b) refl
        | inr b ↦ elim (Bool-cases (ltb (5 * minute) (out.clock w - last))) [
          | inl c ↦ rw (a, b, c) refl
          | inr c ↦ rw (a, b, c) (refl, h, k, ground arith)
        ]
      ]

  wait_round-Nears :
      (last : ℕ) (was : Bool) (w : out.World)
      → Q w
      → Gives (Nears last (out.clock w)) (wait_round out qh last was w)
  unfolding wait_round
  wait_round-Nears last was w h =
      let r = q.reports w h in
      let g = q.goes_on w h in
      let later =
        Returns-at (λ _ w'. out.clock w ≤ out.clock w') _ _ _ r.2
          (get_taskqueue_stats-later out qh x qh.config qh.queue w) in
      rw (g, r.2) (judge-Nears r.1 last (out.clock w) was r.0 r.3 r.4 later)

  end_round-Nears :
      (last now : ℕ) (rest : ℕ → Bool → M out.World (Option String)) (r : Round) (w : out.World)
      → ((was : Bool) (w' : out.World)
          → Q w'
          → now + 20 * second ≤ out.clock w'
          → now ≤ last + 5 * minute
          → Gives (λ err _. err ≡ none) (rest last was w'))
      → Nears last now r w
      → Gives (λ err _. err ≡ none) (end_round out qh rest r w)
  end_round-Nears last now rest (returned err) w f g = g
  end_round-Nears last now rest (again last' was) w f g =
      let n = out.rand_intn 20 w in
      let later = x.rand_later 20 w in
      let slept = x.sleep_later ((20 + n.0) * second) n.1 in
      rw g.0 (
        f was (out.sleep ((20 + n.0) * second) n.1) (q.sleeps ((20 + n.0) * second) 20 w g.1)
          (omega (arith, g.2, later, slept)) (omega (arith, g.2, g.3)))

  wait_loop-Nears :
      (fuel last : ℕ) (was : Bool) (w : out.World)
      → Q w
      → 0 < fuel
      → last + 5 * minute + 20 * second < out.clock w + fuel * (20 * second)
      → Gives (λ err _. err ≡ none) (wait_loop out qh fuel last was w)
  unfolding wait_loop
  wait_loop-Nears zero last was w h p k = absurd (omega (arith, p))
  wait_loop-Nears (suc fuel) last was w h p k =
      Gives-follow _ _ _ _ (wait_round-Nears last was w h) (λ r w' e g.
        end_round-Nears last (out.clock w) (wait_loop out qh fuel) r w'
          (λ was' w2 h' l n.
            wait_loop-Nears fuel last was' w2 h' (omega (arith, k, n)) (omega (arith, k, l)))
          g)

  -- WaitForEmptyQueue returns without an error within 17 rounds where from now on the queue is reported
  -- empty without an error, nobody terminates, the clock does not go back, and a sleep takes at least
  -- its time.
  pub wait_for_empty_queue-returns :
      (w : out.World) → Q w → Gives (λ err _. err ≡ none) (wait_for_empty_queue out qh 17 w)
  unfolding wait_for_empty_queue
  wait_for_empty_queue-returns w h =
      wait_loop-Nears 17 (out.clock w) false w h (omega arith) (omega arith)
