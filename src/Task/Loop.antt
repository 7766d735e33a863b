-- ===== src/Task/Loop.antt =====
-- state.go: the loop of Process ends, and it gives back the queue at most once.
use etl_gardener.Base.{
  ℕ, suc, zero, ◌+◌, ◌<◌, ◌≤◌, ◌≡◌, ◌≢◌, none, arith, str_eq, ◌==◌, eq_iff, refl, some, Option,
  String, Ensures, Ensures-bind, Bool-cases, inl, inr, if◌then◌else◌,
}
use etl_gardener.Task.{Task, Outside, end_step, process_loop, gave_queue, state_done}

-- A step without an error raises the state, at most to Done, and a queue once empty stays so.
abbrev pub Raises : Task → Task × Option String → Type 0
Raises t r =
    r.1 ≡ none → (t.state < r.0.state) × (r.0.state ≤ state_done) × (t.queue ≡ "" → r.0.queue ≡ "")

-- Every step of a task that is not done returns, and raises its state.
pub record Executes (out : Outside) : Type 0 where
  pub rises :
      (w : out.World) (t : Task)
      → t.state < state_done
      → Ensures (λ r. Raises t (r.1, r.2)) (out.next w t)

module _ (out : Outside) (x : Executes out) where
  -- The calls so far, and those that a task with its queue may still make.
  abbrev pub Once : Task → ℕ → Type 0
  Once t given = (given ≤ 1) × (t.queue ≢ "" → given ≡ 0)

  step-Once :
      (t t' : Task) (given : ℕ)
      → Once t given
      → (t.queue ≡ "" → t'.queue ≡ "")
      → Once t' (if gave_queue out t t' then given + 1 else given)
  step-Once t t' given o empty =
      let was = eq_iff t.queue "" in
      let is = eq_iff t'.queue "" in
      elim (Bool-cases (str_eq t.queue "")) [
        | inl a ↦ let q = empty (was.0 a) in rw a (o.0, λ n. absurd (n q))
        | inr a ↦ elim (Bool-cases (str_eq t'.queue "")) [
          | inl b ↦
              let z = o.1 (λ p. cc (was.1 p, a)) in
              rw (a, b) (omega (arith, z), λ n. absurd (n (is.0 b)))
          | inr b ↦ rw (a, b) (o.0, λ n. o.1 (λ p. cc (was.1 p, a)))
        ]
      ]

  end_step-Once :
      (rest : out.World → Task → ℕ → Option (out.World × Task × ℕ)) (t : Task) (given : ℕ)
      (r : out.World × Task × Option String)
      → Once t given
      → Raises t (r.1, r.2)
      → ((w : out.World) (t' : Task) (given' : ℕ)
          → t.state < t'.state
          → t'.state ≤ state_done
          → Once t' given'
          → Ensures (λ s. s.2 ≤ 1) (rest w t' given'))
      → Ensures (λ s. s.2 ≤ 1) (end_step out rest t given r)
  end_step-Once rest t given (w, t', some e) o u k = o.0
  end_step-Once rest t given (w, t', none) o u k =
      let v = u refl in
      k w t' (if gave_queue out t t' then given + 1 else given) v.0 v.1 (step-Once t t' given o v.2)

  -- The loop of Process returns within as many rounds as there are states up to Done, for a task in
  -- one of the states and an executor whose steps return and, without an error, raise the state and do
  -- not take a queue again; and it gives back the queue at most once.
  pub process_loop-Once :
      (fuel : ℕ) (w : out.World) (t : Task) (given : ℕ)
      → t.state ≤ state_done
      → state_done < t.state + fuel
      → Once t given
      → Ensures (λ r. r.2 ≤ 1) (process_loop out fuel w t given)
  unfolding process_loop
  process_loop-Once zero w t given h k o = absurd (omega (arith, h, k))
  process_loop-Once (suc fuel) w t given h k o = elim (Bool-cases (t.state == state_done)) [
    | inl a ↦ rw a o.0
    | inr a ↦ elim (Bool-cases (out.notified w)) [
      | inl b ↦ rw (a, b) o.0
      | inr b ↦
          let low : t.state < state_done = ground (arith, h, a) in
          rw (a, b)
            (Ensures-bind (λ r. Raises t (r.1, r.2)) _ (out.next w t) _ (x.rises w t low)
              (λ r u. end_step-Once (process_loop out fuel) t given r o u (λ w' t' given' l m o'.
                process_loop-Once fuel w' t' given' m (omega (arith, l, k)) o')))
    ]
  ]
