-- ===== src/Page/Table.antt =====
-- tracker/job.go, WriteHTML: the table has each job once, the oldest first.
use etl_gardener.Base.{
  ap, ℤ, true, ◌||◌, str_eq, eq_iff, ◌↔◌, ◌⊎◌, ℕ, ◌≤◌, ◌≡◌, ◌≢◌, refl, sym, ◌∙◌, arith, String,
  Option, none, some, List, [], ◌∷◌, ltb, if_rule, if_cases, Ensures, Ensures-bind, IsTotal,
  total_bind, last?, last?_cons, All, lookup, Unique, Values, ite, if_pos, if_neg,
}
use etl_gardener.Job.{Job, Job_discrete}
use etl_gardener.Status as Statuses
use etl_gardener.Status.{Status, StateInfo}
use etl_gardener.Status.Safe.{HasHistory, state-IsTotal, detail_time-IsTotal}
use etl_gardener.Tracker.{JobMap}
use etl_gardener.Page.{
  Entry, Row, job_string, insert_by_start, by_start, row, rows_of, write_html, elapsed,
}

-- The entries as a map, and their order.
abbrev pub pairs : List Entry → JobMap
pairs [] = []
pairs (p ∷ ps) = (p.job, p.status) ∷ pairs ps

abbrev pub Above : ℕ → List Entry → Type 0
Above t [] = Unit
Above t (p ∷ ps) = (t ≤ p.start) × Above t ps

abbrev pub Ascending : List Entry → Type 0
Ascending [] = Unit
Ascending (p ∷ ps) = Above p.start ps × Ascending ps

Above-mono : (t u : ℕ) (ps : List Entry) → t ≤ u → Above u ps → Above t ps
Above-mono t u [] h a = tt
Above-mono t u (p ∷ ps) h a = (omega (arith, a.0), Above-mono t u ps h a.1)

insert-Above :
    (t : ℕ) (p : Entry) (ps : List Entry)
    → t ≤ p.start
    → Above t ps
    → Above t (insert_by_start p ps)
unfolding insert_by_start
insert-Above t p [] h a = (h, tt)
insert-Above t p (q ∷ ps) h a =
    if_cases (Above t) (ltb q.start p.start) _ _ (a.0, insert-Above t p ps h a.1) (h, a)

insert-Ascending : (p : Entry) (ps : List Entry) → Ascending ps → Ascending (insert_by_start p ps)
unfolding insert_by_start
insert-Ascending p [] a = (tt, tt)
insert-Ascending p (q ∷ ps) a =
    if_rule Ascending (ltb q.start p.start) _ _
      (λ b.
        let h : q.start ≤ p.start = ground (arith, b) in
        (insert-Above q.start p ps h a.0, insert-Ascending p ps a.1))
      (λ b.
        let h : p.start ≤ q.start = ground (arith, b) in
        ((h, Above-mono p.start q.start ps h a.0), a))

-- A key that a map misses is not the first one.
module _ {ℓ} {K V : Type ℓ} (dec : Discrete K) where
  missing_rest :
      (k j : K) (v : V) (m : List (K × V))
      → lookup dec k ((j, v) ∷ m) ≡ none
      → (j ≢ k) × (lookup dec k m ≡ none)
  unfolding lookup
  missing_rest k j v m h = elim (dec j k) [
    | yes e ↦ absurd (cc (if_pos {C = Option V} (dec j k) e (some v) (lookup dec k m), h))
    | no n ↦ (n, cc (if_neg {C = Option V} (dec j k) n (some v) (lookup dec k m), h))
  ]

  ite_swap :
      (i j k : K) (v w : V) (o : Option V)
      → j ≢ i
      → ite (dec j k) (some w) (ite (dec i k) (some v) o)
        ≡ ite (dec i k) (some v) (ite (dec j k) (some w) o)
  ite_swap i j k v w o n = elim (dec j k) [
    | yes e ↦ elim (dec i k) [
      | yes f ↦ absurd (n (e ∙ sym f))
      | no f ↦ rw (if_pos _ e) (rw (if_neg _ f) (rw (if_pos _ e) refl))
    ]
    | no e ↦ rw (if_neg _ e) (rw (if_neg _ e) refl)
  ]

-- An insertion of a new key, wherever it lands, is a lookup first.
insert-lookup :
    (j : Job) (p : Entry) (ps : List Entry)
    → lookup Job_discrete p.job (pairs ps) ≡ none
    → lookup Job_discrete j (pairs (insert_by_start p ps))
      ≡ ite (Job_discrete p.job j) (some p.status) (lookup Job_discrete j (pairs ps))
unfolding insert_by_start lookup
insert-lookup j p [] h = refl
insert-lookup j p (q ∷ ps) h =
    if_rule
      (λ l.
        lookup Job_discrete j (pairs l)
        ≡ ite (Job_discrete p.job j) (some p.status) (lookup Job_discrete j (pairs (q ∷ ps))))
      (ltb q.start p.start) _ _
      (λ b.
        let ih =
          insert-lookup j p ps (missing_rest Job_discrete p.job q.job q.status (pairs ps) h).1 in
        rw ih (
          ite_swap Job_discrete p.job q.job j p.status q.status _
            (missing_rest Job_discrete p.job q.job q.status (pairs ps) h).0))
      λ b. refl

insert-Unique-pairs :
    (p : Entry) (ps : List Entry)
    → lookup Job_discrete p.job (pairs ps) ≡ none
    → Unique Job_discrete (pairs ps)
    → Unique Job_discrete (pairs (insert_by_start p ps))
unfolding insert_by_start lookup
insert-Unique-pairs p [] h u = (refl, tt)
insert-Unique-pairs p (q ∷ ps) h u =
    let (n, m) = missing_rest Job_discrete p.job q.job q.status (pairs ps) h in
    if_rule (λ l. Unique Job_discrete (pairs l)) (ltb q.start p.start) _ _
      (λ b. (
        insert-lookup q.job p ps m
            ∙ if_neg {C = Option Status} (Job_discrete p.job q.job) (λ e. n (sym e)) _ _
            ∙ u.0,
        insert-Unique-pairs p ps m u.1,
      ))
      λ b. (h, u)

last_entry : (h : List StateInfo) → h ≢ [] → (si : StateInfo) × (last? h ≡ some si)
last_entry [] n = absurd (n refl)
last_entry (si ∷ h) n = last?_cons si h

start_time-IsTotal : (s : Status) → HasHistory s → IsTotal (Statuses.start_time s)
unfolding Statuses.start_time
start_time-IsTotal s h = let (si, e) = last_entry s.history h in rw e tt

-- An entry of a job that has started, with its start time.
abbrev pub IsEntry : Entry → Type 0
IsEntry p = HasHistory p.status × (Statuses.start_time p.status ≡ some p.start)

insert-All :
    (p : Entry) (ps : List Entry) → IsEntry p → All IsEntry ps → All IsEntry (insert_by_start p ps)
unfolding insert_by_start
insert-All p [] e a = (e, tt)
insert-All p (q ∷ ps) e a =
    if_cases (All IsEntry) (ltb q.start p.start) _ _ (a.0, insert-All p ps e a.1) (e, a)

-- A list of entries that holds what a map does, each job once, the oldest first.
pub record Orders (m : JobMap) (l : List Entry) : Type 0 where
  pub ascending : Ascending l
  pub once : Unique Job_discrete (pairs l)
  pub same : (j : Job) → lookup Job_discrete j (pairs l) ≡ lookup Job_discrete j m
  pub entries : All IsEntry l

by_start-Orders :
    (m : JobMap)
    → Unique Job_discrete m
    → Values Job_discrete HasHistory m
    → Ensures (Orders m) (by_start m)
unfolding by_start lookup
by_start-Orders [] u v = record { ascending = tt; once = tt; same = λ j. refl; entries = tt }
by_start-Orders ((j, s) ∷ m) u v =
    total_bind (Orders ((j, s) ∷ m)) (Statuses.start_time s) _ (start_time-IsTotal s v.0) λ t e.
      Ensures-bind (Orders m) (Orders ((j, s) ∷ m)) (by_start m) _ (by_start-Orders m u.1 v.1)
        λ l o.
          let p : Entry = record { start = t; job = j; status = s } in
          let new = o.same j ∙ u.0 in
          record {
            ascending = insert-Ascending p l o.ascending;
            once = insert-Unique-pairs p l new o.once;
            same = λ k. insert-lookup k p l new ∙ rw (o.same k) refl;
            entries = insert-All p l (v.0, e) o.entries;
          }

elapsed-IsTotal : (s : Status) → HasHistory s → IsTotal (elapsed s)
unfolding elapsed
elapsed-IsTotal s h =
    total_bind (λ _. Unit) (Statuses.detail_time s) _ (detail_time-IsTotal s h)
      λ t _. total_bind (λ _. Unit) (Statuses.start_time s) _ (start_time-IsTotal s h) λ u _. tt

detail-IsTotal : (s : Status) → HasHistory s → IsTotal (Statuses.detail s)
unfolding Statuses.detail
detail-IsTotal s h = ground arith

status_error-IsTotal : (s : Status) → HasHistory s → IsTotal (Statuses.status_error s)
unfolding Statuses.status_error
status_error-IsTotal s h = ground arith

module _ (format : String → ℕ → String) where
  row-IsTotal : (j : Job) (s : Status) → HasHistory s → IsTotal (row format j s)
  unfolding row
  row-IsTotal j s h =
      total_bind (λ _. Unit) (elapsed s) _ (elapsed-IsTotal s h)
        λ age _.
          total_bind (λ _. Unit) (Statuses.detail_time s) _ (detail_time-IsTotal s h)
            λ t _.
              total_bind (λ _. Unit) (Statuses.state s) _ (state-IsTotal s h)
                λ st _.
                  total_bind (λ _. Unit) (Statuses.detail s) _ (detail-IsTotal s h)
                    λ text _.
                      total_bind (λ _. Unit) (Statuses.status_error s) _ (status_error-IsTotal s h)
                        λ err _. tt

  -- What a row tells of a job and its status, whose newest entry is the first of the history: whether
  -- it is red is whether the state is init or postProcessing.
  abbrev pub RowOf : Entry → List StateInfo → Row → Type 0
  RowOf p [] r = ⊥
  RowOf p (si ∷ older) r =
      (r.job ≡ job_string format p.job)
      × (r.state ≡ si.state)
      × (r.update_time ≡ format "01/02~15:04:05" si.detail_time)
      × (r.update_count ≡ p.status.update_count)
      × ((r.is_red ≡ true) ↔ ((si.state ≡ Statuses.init) ⊎ (si.state ≡ Statuses.parse_complete)))

  -- One row for each entry, in their order.
  abbrev pub Shows : List Entry → List Row → Type 0
  Shows [] [] = Unit
  Shows (p ∷ l) (r ∷ rs) = RowOf p p.status.history r × Shows l rs
  Shows _ _ = ⊥

  red_iff :
      (st : String)
      → ((str_eq st Statuses.init || str_eq st Statuses.parse_complete) ≡ true)
        ↔ ((st ≡ Statuses.init) ⊎ (st ≡ Statuses.parse_complete))
  red_iff st = ground (arith, eq_iff st Statuses.init, eq_iff st Statuses.parse_complete)

  newest_RowOf :
      (p : Entry) (h : List StateInfo) (t : ℕ) (st : String) (age : ℤ) (text err : String)
      → p.status.history ≡ h
      → Statuses.detail_time p.status ≡ some t
      → Statuses.state p.status ≡ some st
      → RowOf p h (record {
        job = job_string format p.job;
        elapsed = age;
        update_time = format "01/02~15:04:05" t;
        is_red = str_eq st Statuses.init || str_eq st Statuses.parse_complete;
        state = st;
        detail = text;
        update_count = p.status.update_count;
        error = err;
      })
  unfolding Statuses.state Statuses.detail_time Statuses.last_state_info
  newest_RowOf p [] t st age text err e a b =
      let gone : Statuses.state p.status ≡ none = rw e refl in absurd (cc (gone, b))
  newest_RowOf p (si ∷ older) t st age text err e a b =
      let found : Statuses.state p.status ≡ some si.state = rw e refl in
      let found_time : Statuses.detail_time p.status ≡ some si.detail_time = rw e refl in
      let same : st ≡ si.state = cc (found, b) in
      let time : t ≡ si.detail_time = cc (found_time, a) in
      (refl, same, ap (format "01/02~15:04:05") time, refl, rw same (red_iff si.state))

  row-RowOf :
      (p : Entry)
      → HasHistory p.status
      → Ensures (RowOf p p.status.history) (row format p.job p.status)
  unfolding row
  row-RowOf p h =
      let R = RowOf p p.status.history in
      let s = p.status in
      total_bind R (elapsed s) _ (elapsed-IsTotal s h) λ age _.
        total_bind R (Statuses.detail_time s) _ (detail_time-IsTotal s h) λ t a.
          total_bind R (Statuses.state s) _ (state-IsTotal s h) λ st b.
            total_bind R (Statuses.detail s) _ (detail-IsTotal s h) λ text _.
              total_bind R (Statuses.status_error s) _ (status_error-IsTotal s h)
                λ err _. newest_RowOf p s.history t st age text err refl a b

  rows-Shows : (l : List Entry) → All IsEntry l → Ensures (Shows l) (rows_of format l)
  unfolding rows_of
  rows-Shows [] a = tt
  rows-Shows (p ∷ l) a =
      Ensures-bind (RowOf p p.status.history) (Shows (p ∷ l)) (row format p.job p.status) _
        (row-RowOf p a.0.0)
        λ r h.
          Ensures-bind (Shows l) (Shows (p ∷ l)) (rows_of format l) _ (rows-Shows l a.1)
            λ rest k. (h, k)

  -- WriteHTML of a map in which each job stands once and has a history, as in a well-formed tracker,
  -- does not panic. Its rows are one for each job of the map, each job once, in the order of the start
  -- times, the oldest first; a row has the text of its job, the newest state with the time of its
  -- detail, and the count of updates, and it is red exactly if this state is init or parse complete.
  pub write_html-Orders :
      (m : JobMap)
      → Unique Job_discrete m
      → Values Job_discrete HasHistory m
      → Ensures (λ page. (l : List Entry) × Orders m l × Shows l page.rows) (write_html format m)
  unfolding write_html
  write_html-Orders m u v = Ensures-bind (Orders m) _ (by_start m) _ (by_start-Orders m u v) λ l o.
      Ensures-bind (Shows l) _ (rows_of format l) _ (rows-Shows l o.entries) λ rs e. (l, o, e)
