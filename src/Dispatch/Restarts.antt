-- ===== src/Dispatch/Restarts.antt =====
-- RestartTasks gives each queue to one task at most, and so does what follows.
use etl_gardener.Base.{
  ℕ, ◌+◌, ◌≤◌, ◌≡◌, ◌≢◌, refl, ap, ◌∙◌, arith, Bool, true, false, not, ◌||◌, String, List, [], ◌∷◌,
  some, str_eq, eq_iff, Bool-cases, if_rule, inl, inr, Option, none,
}
use etl_gardener.Task.{Task}
use etl_gardener.Dispatch.{
  TaskHandler, Happening, happen_all, member, remove, drain, Restart, restarted, restart_one,
  restart_loop, restart_tasks, new_task_handler,
}
use etl_gardener.Dispatch.Pool.{
  one, count, holds, total, Whenever, Keeps, one-empty, one-same, happen_all-Keeps,
}

-- No queue is twice in a list.
abbrev pub IsSingle : List String → Type 0
IsSingle queues = (q : String) → count q queues ≤ 1

or_right : (b c : Bool) → b ≡ false → b || c ≡ true → c ≡ true
or_right true c h k = absurd (cc h)
or_right false c h k = k

member-count : (q : String) (xs : List String) → member q xs ≡ true → 1 ≤ count q xs
member-count q [] e = absurd (cc e)
member-count q (x ∷ xs) e = elim (Bool-cases (str_eq x q)) [
  | inl a ↦ rw a (omega arith)
  | inr a ↦ let h = member-count q xs (or_right (str_eq x q) (member q xs) a e) in omega (arith, h)
]

-- What is drained, together with what was there.
drain-count :
    (qs acc : List String)
    → ((q : String) → count q qs + count q acc ≤ 1)
    → (q : String) → count q (drain qs acc) ≡ count q qs + count q acc
unfolding drain
drain-count [] acc h q = omega arith
drain-count (x ∷ qs) acc h q = elim (Bool-cases (member x acc)) [
  | inl a ↦ let m = member-count x acc a in absurd (omega (arith, m, h x, one-same x))
  | inr a ↦
      let g = drain-count qs (x ∷ acc) (λ p. let b = h p in omega (arith, b)) q in
      rw a (omega (arith, g))
]

one-hit : (q x : String) → str_eq x q ≡ true → one q x ≡ 1
one-hit q x a = rw a refl

one-miss : (q x : String) → str_eq x q ≡ false → one q x ≡ 0
one-miss q x a = rw a refl

remove-same : (x : String) (xs : List String) → count x (remove x xs) ≡ 0
remove-same x [] = refl
remove-same x (y ∷ ys) = elim (Bool-cases (str_eq y x)) [
  | inl a ↦ rw a (remove-same x ys)
  | inr a ↦ let h = remove-same x ys in let z = one-miss x y a in rw a (omega (arith, h, z))
]

remove-other :
    (x q : String) (xs : List String) → str_eq x q ≡ false → count q (remove x xs) ≡ count q xs
remove-other x q [] n = refl
remove-other x q (y ∷ ys) n = elim (Bool-cases (str_eq y x)) [
  | inl a ↦
      let e = ap (λ z. one q z) ((eq_iff y x).0 a) in
      let z : one q x ≡ 0 = rw n refl in
      let h = remove-other x q ys n in rw a (omega (arith, h, e, z))
  | inr a ↦ let h = remove-other x q ys n in rw a (omega (arith, h))
]

-- The queues that are left, and those that are held, of what was there.
abbrev Shares : Restart → Restart → Type 0
Shares r r' =
    ((q : String) → count q r'.queues ≤ count q r.queues)
    × ((q : String)
        → q ≢ ""
        → count q r'.queues + holds q r'.started ≡ count q r.queues + holds q r.started)

-- The queue that is taken out, once there.
remove-one :
    (x q : String) (xs : List String)
    → member x xs ≡ true
    → IsSingle xs
    → count q (remove x xs) + one q x ≡ count q xs
remove-one x q xs m single = elim (Bool-cases (str_eq x q)) [
  | inl a ↦
      let e = (eq_iff x q).0 a in
      let f = ap (λ z. count z (remove x xs)) e in
      let g = ap (λ z. count z xs) e in
      omega (arith, f, g, one-hit q x a, remove-same x xs, member-count x xs m, single q)
  | inr a ↦ omega (arith, one-miss q x a, remove-other x q xs a)
]

taken-Shares :
    (t : Task) (r : Restart)
    → member t.queue r.queues ≡ true
    → IsSingle r.queues
    → Shares r (restarted t (remove t.queue r.queues) r)
taken-Shares t r m single = (
  λ q. let e = remove-one t.queue q r.queues m single in omega (arith, e),
  λ q n. let e = remove-one t.queue q r.queues m single in omega (arith, e),
)

restart_one-Shares :
    (trim_space : String → String) (t : Task) (r : Restart)
    → IsSingle r.queues
    → Shares r (restart_one trim_space t r)
unfolding restart_one
restart_one-Shares trim_space t r single =
    let same : Shares r r = (λ q. omega arith, λ q n. refl) in
    if_rule (Shares r) (not (str_eq t.err_info "") || not (str_eq t.err_msg "")) _ _ (λ a. same)
      (λ a.
        if_rule (Shares r) (str_eq t.queue "") _ _
          (λ b. (
            λ q. omega arith,
            λ q n.
                let e = ap (λ z. one q z) ((eq_iff t.queue "").0 b) in
                omega (arith, e, one-empty q n),
          ))
          (λ b.
            if_rule (Shares r) (not (str_eq (trim_space t.queue) t.queue)) _ _ (λ c. same)
              (λ c.
                if_rule (Shares r) (member t.queue r.queues) _ _ (λ d. taken-Shares t r d single)
                  (λ d. same))))

restart_loop-Shares :
    (trim_space : String → String) (ts : List Task) (r : Restart)
    → IsSingle r.queues
    → Shares r (restart_loop trim_space ts r)
unfolding restart_loop
restart_loop-Shares trim_space [] r single = (λ q. omega arith, λ q n. refl)
restart_loop-Shares trim_space (t ∷ ts) r single =
    let h = restart_one-Shares trim_space t r single in
    let k =
      restart_loop-Shares trim_space ts (restart_one trim_space t r)
        (λ q. let a = h.0 q in let b = single q in omega (arith, a, b)) in
    (
      λ q. let a = h.0 q in let b = k.0 q in omega (arith, a, b),
      λ q n. let a = h.1 q n in let b = k.1 q n in omega (arith, a, b),
    )

-- RestartTasks leaves each queue that was in the channel either there or with one of the tasks.
restart_tasks-Keeps :
    (trim_space : String → String) (q : String) (tasks : List Task) (th : TaskHandler)
    → q ≢ ""
    → IsSingle th.task_queues
    → Keeps q th (restart_tasks trim_space tasks th).0
unfolding restart_tasks
restart_tasks-Keeps trim_space q tasks th n single =
    let queues = drain th.task_queues [] in
    let d = drain-count th.task_queues [] (λ p. let a = single p in omega (arith, a)) in
    let r : Restart = record { queues = queues; started = th.running; max_date = 0 } in
    let h =
      restart_loop-Shares trim_space tasks r
        (λ p. let a = single p in let b = d p in omega (arith, a, b)) in
    let e = h.1 q n in let c = d q in omega (arith, e, c)

totalled :
    (q : String) (th : TaskHandler) (n : ℕ) (o : Option TaskHandler)
    → total q th ≡ n
    → Whenever (Keeps q th) o
    → Whenever (λ th'. total q th' ≡ n) o
totalled q th n none e h = tt
totalled q th n (some th') e h = h ∙ e

-- After NewTaskHandler with queues of which none is listed twice, and RestartTasks, whatever tasks are
-- added, take their steps and end, each queue that was listed is in the channel or with one task, as long
-- as Process leaves the queue of a task as it is or gives it up.
pub restarted-Single :
    (trim_space : String → String) (queues : List String) (tasks : List Task) (es : List Happening)
    (q : String)
    → IsSingle queues
    → q ≢ ""
    → Whenever
        (λ th. total q th ≡ count q queues)
        (happen_all es (restart_tasks trim_space tasks (new_task_handler queues)).0)
unfolding new_task_handler
restarted-Single trim_space queues tasks es q single n =
    let th = new_task_handler queues in
    let h = restart_tasks-Keeps trim_space q tasks th n single in
    let e : total q th ≡ count q queues = omega arith in
    totalled q (restart_tasks trim_space tasks th).0 (count q queues)
      (happen_all es (restart_tasks trim_space tasks th).0) (h ∙ e)
      (happen_all-Keeps q es (restart_tasks trim_space tasks th).0 n)
