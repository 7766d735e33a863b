-- ===== src/Dispatch/Waits.antt =====
-- reproc/dispatch.go: sleepWithTerminationCheck, waitForPreviousTask and AddTask. What is outside (the clock,
-- the store, the channel of queues and the terminator's, and the start of a goroutine) is an `Outside`.
use etl_gardener.Base.{
  ℕ, suc, zero, ◌-◌, ◌*◌, ◌/◌, ◌<◌, ◌≡◌, ◌≢◌, ◌⊎◌, inl, inr, refl, ◌∙◌, arith, Bool, true, not,
  ◌||◌, String, Option, none, some, ltb, ◌==◌, str_eq, eq_iff, Bool-cases, if_rule, if◌then◌else◌,
}
use etl_gardener.World.{M, ◌>>=◌, Returns, Returns-follow, Returns-any, Returns-mono}
use etl_gardener.Task.{Task, invalid, state_done}
use etl_gardener.Dispatch.Dates.{hour}

-- GetTaskStatus gives a task and an error; `tick_first` tells whether the ticker wins the select against
-- the terminator, and `receive` gives the queue that wins it, or none.
pub record DispatchOutside : Type 1 where
  pub World : Type 0
  pub clock : World → ℕ
  pub get_task_status : Task → World → (Task × Option String) × World
  pub tick_first : ℕ → World → Bool × World
  pub receive : World → Option String × World
  pub start : Task → World → World

abbrev pub err_terminating : String
err_terminating = "TaskHandler is terminating"

-- Whether a previous task does not stop the new one, at the time `now`.
unfoldable pub may_restart : ℕ → Task → Bool
may_restart now t =
    (t.state == invalid || t.state == state_done)
    || (not (str_eq t.err_msg "") || ltb (12 * hour) (now - t.update_time))

module _ (out : DispatchOutside) where
  -- sleepWithTerminationCheck
  abbrev pub sleep_with_termination_check : ℕ → M out.World (Option String)
  sleep_with_termination_check delay w =
      let r = out.tick_first delay w in some (if r.0 then none else some err_terminating, r.1)

  abbrev pub end_sleep : M out.World (Option String) → Option String → M out.World (Option String)
  end_sleep rest (some e) w = some (some e, w)
  end_sleep rest none w = rest w

  abbrev pub end_status :
      M out.World (Option String) → Task × Option String → M out.World (Option String)
  end_status rest (t, some e) w = some (some e, w)
  end_status rest (t, none) w =
      let later = (sleep_with_termination_check (hour / 12) >>= end_sleep rest) w in
      if may_restart (out.clock w) t then some (none, w) else later

  -- waitForPreviousTask; the fuel is the number of rounds of its loop.
  unfoldable pub wait_for_previous_task : ℕ → Task → M out.World (Option String)
  wait_for_previous_task zero t w = none
  wait_for_previous_task (suc fuel) t w =
      let r = out.get_task_status t w in end_status (wait_for_previous_task fuel t) r.0 r.1

  -- waitForQueue and StartTask
  abbrev pub end_queue : Task → Option String → M out.World (Option String)
  end_queue t none w = some (some err_terminating, w)
  end_queue t (some q) w = some (none, out.start (record t { queue = q }) w)

  abbrev pub end_previous : Task → Option String → M out.World (Option String)
  end_previous t (some e) w = some (some e, w)
  end_previous t none w = let r = out.receive w in end_queue t r.0 r.1

  -- AddTask, for the error or the task that NewTask gives.
  unfoldable pub add_task : ℕ → String ⊎ Task → M out.World (Option String)
  add_task fuel (inl e) w = some (some e, w)
  add_task fuel (inr t) w = (wait_for_previous_task fuel t >>= end_previous t) w

-- Where a task is started: `starts` counts the starts, which nothing else changes.
pub record Starts (out : DispatchOutside) (starts : out.World → ℕ) : Type 0 where
  pub status_keeps : (t : Task) (w : out.World) → starts (out.get_task_status t w).1 ≡ starts w
  pub tick_keeps : (d : ℕ) (w : out.World) → starts (out.tick_first d w).1 ≡ starts w
  pub receive_keeps : (w : out.World) → starts (out.receive w).1 ≡ starts w

module _ (out : DispatchOutside) (starts : out.World → ℕ) (x : Starts out starts) where
  -- The previous task is unknown or done, has an error, or has not been updated for 12 hours.
  abbrev pub Over : ℕ → Task → Type 0
  Over now s =
      (s.state ≡ invalid)
      ⊎ ((s.state ≡ state_done) ⊎ ((s.err_msg ≢ "") ⊎ (12 * hour < now - s.update_time)))

  -- A status of the task, without an error, that is over.
  abbrev pub Released : Task → Type 0
  Released t =
      (w1 : out.World) × (w2 : out.World) × (s : Task) × (out.get_task_status t w1
        ≡ ((s, none), w2))
      × Over (out.clock w2) s

  may_restart-Over : (now : ℕ) (s : Task) → may_restart now s ≡ true → Over now s
  unfolding may_restart
  may_restart-Over now s h = elim (Bool-cases (s.state == invalid)) [
    | inl a ↦ inl (ground (arith, a))
    | inr a ↦ elim (Bool-cases (s.state == state_done)) [
      | inl b ↦ inr (inl (ground (arith, b)))
      | inr b ↦ elim (Bool-cases (str_eq s.err_msg "")) [
        | inr c ↦ inr (inr (inl (λ e. absurd (cc (c, (eq_iff s.err_msg "").1 e)))))
        | inl c ↦ inr (inr (inr (ground (arith, h, a, b, c))))
      ]
    ]
  ]

  -- What ends a wait.
  abbrev Ended : Task → out.World → Option String → out.World → Type 0
  Ended t w e w' = (starts w' ≡ starts w) × (e ≡ none → Released t)

  end_sleep-Ended :
      (t : Task) (rest : M out.World (Option String)) (e : Option String) (w w' : out.World)
      → starts w' ≡ starts w
      → ((w2 : out.World) → Returns (Ended t w2) (rest w2))
      → Returns (Ended t w) (end_sleep out rest e w')
  end_sleep-Ended t rest (some e) w w' h k = (h, λ f. absurd (cc f))
  end_sleep-Ended t rest none w w' h k =
      Returns-mono (Ended t w') (Ended t w) (rest w') (k w') (λ e w2 g. (g.0 ∙ h, g.1))

  end_status-Ended :
      (t : Task) (rest : M out.World (Option String)) (w w' : out.World) (r : Task × Option String)
      → out.get_task_status t w ≡ (r, w')
      → starts w' ≡ starts w
      → ((w2 : out.World) → Returns (Ended t w2) (rest w2))
      → Returns (Ended t w) (end_status out rest r w')
  end_status-Ended t rest w w' (s, some e) q h k = (h, λ f. absurd (cc f))
  end_status-Ended t rest w w' (s, none) q h k =
      let tick = out.tick_first (hour / 12) w' in
      if_rule (Returns (Ended t w)) (may_restart (out.clock w') s) _ _
        (λ a. (h, λ _. (w, w', s, q, may_restart-Over (out.clock w') s a)))
        (λ a.
          end_sleep-Ended t rest (if tick.0 then none else some err_terminating) w tick.1
            (x.tick_keeps (hour / 12) w' ∙ h) k)

  wait_for_previous_task-Ended :
      (fuel : ℕ) (t : Task) (w : out.World)
      → Returns (Ended t w) (wait_for_previous_task out fuel t w)
  unfolding wait_for_previous_task
  wait_for_previous_task-Ended zero t w = tt
  wait_for_previous_task-Ended (suc fuel) t w =
      let r = out.get_task_status t w in
      end_status-Ended t (wait_for_previous_task out fuel t) w r.1 r.0 refl (x.status_keeps t w)
        (wait_for_previous_task-Ended fuel t)

  end_previous-Released :
      (t : Task) (w w' : out.World) (e : Option String)
      → Ended t w e w'
      → Returns (λ e' w2. starts w2 ≢ starts w → Released t) (end_previous out t e w')
  end_previous-Released t w w' (some e) g = λ n. absurd (n g.0)
  end_previous-Released t w w' none g =
      Returns-mono (λ _ _. Unit) (λ e' w2. starts w2 ≢ starts w → Released t) _ (Returns-any _)
        (λ e' w2 u n. g.1 refl)

  -- AddTask starts a task only after a status of it, without an error, that is unknown or done, has an
  -- error message, or is more than 12 hours old.
  pub add_task-Released :
      (fuel : ℕ) (t : Task) (w : out.World)
      → Returns (λ e w'. starts w' ≢ starts w → Released t) (add_task out fuel (inr t) w)
  unfolding add_task
  add_task-Released fuel t w =
      Returns-follow (Ended t w) (λ e w'. starts w' ≢ starts w → Released t)
        (wait_for_previous_task out fuel t w) (end_previous out t)
        (wait_for_previous_task-Ended fuel t w) (λ e w' q g. end_previous-Released t w w' e g)
