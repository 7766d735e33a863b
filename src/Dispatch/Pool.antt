-- ===== src/Dispatch/Pool.antt =====
-- The task queues of the dispatcher: each is in the channel or with one task, whatever happens.
use etl_gardener.Base.{
  ℕ, suc, zero, ◌+◌, ◌≡◌, ◌≢◌, refl, sym, ap, ◌∙◌, arith, String, Option, none, some, List, [], ◌∷◌,
  ◌++◌, str_eq, eq_iff, eq_refl, Bool-cases, inl, inr, if◌then◌else◌,
}
use etl_gardener.Task.{Task}
use etl_gardener.Dispatch.{
  TaskHandler, Happening, added, processed_to, stopped_at, happen, happen_all, add_with_queue,
  take_queue, process_task, processed, end_task, stopped, pick,
}

-- How often a queue is in a list, and how many tasks hold it.
abbrev pub one : String → String → ℕ
one q x = if str_eq x q then 1 else 0

abbrev pub count : String → List String → ℕ
count q [] = 0
count q (x ∷ xs) = one q x + count q xs

abbrev pub holds : String → List Task → ℕ
holds q [] = 0
holds q (t ∷ ts) = one q t.queue + holds q ts

abbrev pub total : String → TaskHandler → ℕ
total q th = count q th.task_queues + holds q th.running + holds q th.ended

-- A property of the result, if there is one.
abbrev pub Whenever : {A : Type 0} → (A → Type 0) → Option A → Type 0
Whenever P none = Unit
Whenever P (some a) = P a

count-append : (q : String) (xs ys : List String) → count q (xs ++ ys) ≡ count q xs + count q ys
count-append q [] ys = omega arith
count-append q (x ∷ xs) ys = omega (arith, count-append q xs ys)

-- The empty text is no queue.
pub one-empty : (q : String) → q ≢ "" → one q "" ≡ 0
one-empty q n = elim (Bool-cases (str_eq "" q)) [
  | inl a ↦ absurd (n (sym ((eq_iff "" q).0 a)))
  | inr a ↦ rw a refl
]

pub one-same : (q : String) → one q q ≡ 1
one-same q = rw (eq_refl q) refl

abbrev Picked : String → List Task → Task × List Task → Type 0
Picked q ts r = holds q ts ≡ one q r.0.queue + holds q r.1

pick_cons :
    (q : String) (t : Task) (ts : List Task) (o : Option (Task × List Task))
    → Whenever (Picked q ts) o
    → Whenever (Picked q (t ∷ ts)) (elim o [ none ↦ none | some r ↦ some (r.0, t ∷ r.1) ])
pick_cons q t ts none h = tt
pick_cons q t ts (some r) h = omega (arith, h)

pick-Picked : (q : String) (n : ℕ) (ts : List Task) → Whenever (Picked q ts) (pick n ts)
pick-Picked q n [] = tt
pick-Picked q zero (t ∷ ts) = refl
pick-Picked q (suc n) (t ∷ ts) = pick_cons q t ts (pick n ts) (pick-Picked q n ts)

abbrev pub Keeps : String → TaskHandler → TaskHandler → Type 0
Keeps q th th' = total q th' ≡ total q th

processed-Keeps :
    (q : String) (t' : Task) (o : Option (Task × List Task)) (th : TaskHandler)
    → q ≢ ""
    → Whenever (Picked q th.running) o
    → Whenever (Keeps q th) (processed t' o th)
processed-Keeps q t' none th n h = tt
processed-Keeps q t' (some (t, others)) th n h = elim (Bool-cases (str_eq t'.queue t.queue)) [
  | inl a ↦ let e = ap (λ x. one q x) ((eq_iff t'.queue t.queue).0 a) in rw a (omega (arith, h, e))
  | inr a ↦ elim (Bool-cases (str_eq t'.queue "")) [
    | inl b ↦
        let e = ap (λ x. one q x) ((eq_iff t'.queue "").0 b) in
        let z = one-empty q n in
        let c = count-append q th.task_queues (t.queue ∷ []) in
        rw (a, b) (omega (arith, h, e, z, c))
    | inr b ↦ rw (a, b) tt
  ]
]

stopped-Keeps :
    (q : String) (o : Option (Task × List Task)) (th : TaskHandler)
    → Whenever (Picked q th.running) o
    → Whenever (Keeps q th) (stopped o th)
stopped-Keeps q none th h = tt
stopped-Keeps q (some (t, others)) th h = omega (arith, h)

taken-Keeps :
    (q : String) (t : Task) (th : TaskHandler) (queues : List String)
    → th.task_queues ≡ queues
    → Whenever (Keeps q th) (take_queue queues t th)
taken-Keeps q t th [] e = tt
taken-Keeps q t th (x ∷ queues) e = let c = ap (λ xs. count q xs) e in omega (arith, c)

happen-Keeps :
    (q : String) (e : Happening) (th : TaskHandler) → q ≢ "" → Whenever (Keeps q th) (happen e th)
unfolding happen add_with_queue process_task end_task
happen-Keeps q (added t) th n = taken-Keeps q t th th.task_queues refl
happen-Keeps q (processed_to k t') th n =
    processed-Keeps q t' (pick k th.running) th n (pick-Picked q k th.running)
happen-Keeps q (stopped_at k) th n =
    stopped-Keeps q (pick k th.running) th (pick-Picked q k th.running)

pub Keeps-trans :
    (q : String) (th th' : TaskHandler) (o : Option TaskHandler)
    → Keeps q th th'
    → Whenever (Keeps q th') o
    → Whenever (Keeps q th) o
Keeps-trans q th th' none h k = tt
Keeps-trans q th th' (some th2) h k = k ∙ h

happen_then :
    (q : String) (es : List Happening) (th : TaskHandler) (o : Option TaskHandler)
    → Whenever (Keeps q th) o
    → ((th' : TaskHandler) → Whenever (Keeps q th') (happen_all es th'))
    → Whenever (Keeps q th) (elim o [ none ↦ none | some th' ↦ happen_all es th' ])
happen_then q es th none h k = tt
happen_then q es th (some th') h k = Keeps-trans q th th' (happen_all es th') h (k th')

pub happen_all-Keeps :
    (q : String) (es : List Happening) (th : TaskHandler)
    → q ≢ ""
    → Whenever (Keeps q th) (happen_all es th)
unfolding happen_all
happen_all-Keeps q [] th n = refl
happen_all-Keeps q (e ∷ es) th n =
    happen_then q es th (happen e th) (happen-Keeps q e th n) (λ th'. happen_all-Keeps q es th' n)
