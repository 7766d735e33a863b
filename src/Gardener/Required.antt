-- ===== src/Gardener/Required.antt =====
-- gardener.go, LoadEnv: which variables are needed.
use etl_gardener.Base.{
  ℕ, ◌≡◌, ◌≢◌, sym, ◌∙◌, refl, ◌↔◌, ◌⊎◌, inl, inr, String, Option, none, some, str_eq, eq_iff,
  if◌then◌else◌, Bool-cases, ℤ, atoi,
}
use etl_gardener.Gardener.{
  Environment, zero_environment, or_empty, unless_found, unless_parsed, load_queue_base,
  load_num_queues, load_start_date, load_date_skip, load_experiment, load_bucket, err_no_project,
  err_no_queue_base, err_no_num_queues, err_no_start_date, err_no_experiment, err_no_bucket,
  err_invalid_date_skip, load_env_vars_for_task_queue, mode_of, load_common, load_env,
}

-- A variable that is set, and a text that is an integer.
abbrev pub IsFound : Option String → Type 0
IsFound none = ⊥
IsFound (some v) = Unit

abbrev pub IsInteger : String → Type 0
IsInteger text = (n : ℤ) × (atoi text ≡ some n)

-- What the legacy mode needs.
pub record Legacy (get : String → Option String) : Type 0 where
  pub queue_base : IsFound (get "QUEUE_BASE")
  pub num_queues : IsInteger (or_empty (get "NUM_QUEUES"))
  pub start_date : IsFound (get "START_DATE")
  pub date_skip : (or_empty (get "DATE_SKIP") ≡ "") ⊎ IsInteger (or_empty (get "DATE_SKIP"))
  pub experiment : or_empty (get "EXPERIMENT") ≢ ""
  pub bucket : or_empty (get "TASKFILE_BUCKET") ≢ ""

abbrev pub Complete : (String → Option String) → Type 0
Complete get = IsFound (get "PROJECT") × (mode_of (get "SERVICE_MODE") ≡ "legacy" → Legacy get)

-- A step that leaves no error exactly if there was none and a condition holds.
abbrev Needs : Type 0 → Option String → Option String → Type 0
Needs P before after = (after ≡ none) ↔ ((before ≡ none) × P)

IsFound-Needs :
    (v : Option String) (err : String) (before : Option String)
    → Needs (IsFound v) before (unless_found v err before)
IsFound-Needs none err before = (λ e. absurd (cc e), λ p. absurd p.1)
IsFound-Needs (some v) err before = (λ e. (e, tt), λ p. p.0)

parsed-Needs :
    (text err : String) (before : Option String) (v : Option ℤ)
    → atoi text ≡ v
    → Needs (IsInteger text) before (unless_parsed v err before)
parsed-Needs text err before none q = (λ e. absurd (cc e), λ p. absurd (cc (q, p.1.1)))
parsed-Needs text err before (some n) q = (λ e. (e, (n, q)), λ p. p.0)

Needs-trans : {P Q : Type 0} (a b c : Option String) → Needs P a b → Needs Q b c → Needs (P × Q) a c
Needs-trans a b c f g =
    (λ e. let h = g.0 e in let k = f.0 h.0 in (k.0, (k.1, h.1)), λ h. g.1 (f.1 (h.0, h.1.0), h.1.1))

text-Needs :
    (text err : String) (env env' : Environment)
    → env'.error ≡ env.error
    → Needs
        (text ≢ "")
        env.error
        (if str_eq text "" then record env { error = some err } else env').error
text-Needs text err env env' k = elim (Bool-cases (str_eq text "")) [
  | inl b ↦ rw b (λ e. absurd (cc e), λ p. absurd (p.1 ((eq_iff text "").0 b)))
  | inr b ↦ rw b (λ e. (sym k ∙ e, λ q. cc (b, (eq_iff text "").1 q)), λ p. k ∙ p.0)
]

module _ (get : String → Option String) (trim_space : String → String)
    (parse_day : String → Option ℕ) where
  date_skip-Needs :
      (env : Environment)
      → Needs
          ((or_empty (get "DATE_SKIP") ≡ "") ⊎ IsInteger (or_empty (get "DATE_SKIP")))
          env.error
          (load_date_skip get trim_space parse_day env).error
  unfolding load_date_skip
  date_skip-Needs env =
      let text = or_empty (get "DATE_SKIP") in
      elim (Bool-cases (str_eq text "")) [
        | inl b ↦ rw b (λ e. (e, inl ((eq_iff text "").0 b)), λ p. p.0)
        | inr b ↦
            let n = parsed-Needs text err_invalid_date_skip env.error (atoi text) refl in
            rw b (
              λ e. let h = n.0 e in (h.0, inr h.1),
              λ p.
                  n.1 (p.0, elim p.1 [ inl e ↦ absurd (cc (b, (eq_iff text "").1 e)) | inr i ↦ i ]),
            )
      ]

  experiment-Needs :
      (env : Environment)
      → Needs
          (or_empty (get "EXPERIMENT") ≢ "")
          env.error
          (load_experiment get trim_space parse_day env).error
  unfolding load_experiment
  experiment-Needs env = text-Needs (or_empty (get "EXPERIMENT")) err_no_experiment env _ refl

  bucket-Needs :
      (env : Environment)
      → Needs
          (or_empty (get "TASKFILE_BUCKET") ≢ "")
          env.error
          (load_bucket get trim_space parse_day env).error
  unfolding load_bucket
  bucket-Needs env = text-Needs (or_empty (get "TASKFILE_BUCKET")) err_no_bucket env _ refl

  task_queue-Needs :
      (env : Environment)
      → Needs
          (Legacy get)
          env.error
          (load_env_vars_for_task_queue get trim_space parse_day env).error
  unfolding load_env_vars_for_task_queue load_queue_base load_num_queues load_start_date
  task_queue-Needs env =
      let queue_base = IsFound-Needs (get "QUEUE_BASE") err_no_queue_base env.error in
      let e1 = load_queue_base get trim_space parse_day env in
      let text = or_empty (get "NUM_QUEUES") in
      let num_queues = parsed-Needs text err_no_num_queues e1.error (atoi text) refl in
      let e2 = load_num_queues get trim_space parse_day e1 in
      let start_date = IsFound-Needs (get "START_DATE") err_no_start_date e2.error in
      let e3 = load_start_date get trim_space parse_day e2 in
      let e4 = load_date_skip get trim_space parse_day e3 in
      let e5 = load_experiment get trim_space parse_day e4 in
      let e6 = load_bucket get trim_space parse_day e5 in
      let c2 = Needs-trans env.error e1.error e2.error queue_base num_queues in
      let c3 = Needs-trans env.error e2.error e3.error c2 start_date in
      let c4 = Needs-trans env.error e3.error e4.error c3 (date_skip-Needs e3) in
      let c5 = Needs-trans env.error e4.error e5.error c4 (experiment-Needs e4) in
      let all = Needs-trans env.error e5.error e6.error c5 (bucket-Needs e5) in
      (
        λ e.
            let (b, (((((q, n), d), k), x), t)) = all.0 e in
            (
              b,
              record {
                queue_base = q;
                num_queues = n;
                start_date = d;
                date_skip = k;
                experiment = x;
                bucket = t;
              },
            ),
        λ h. all.1 (
          h.0,
          (
            ((((h.1.queue_base, h.1.num_queues), h.1.start_date), h.1.date_skip), h.1.experiment),
            h.1.bucket,
          ),
        ),
      )

  -- LoadEnv leaves no error exactly if PROJECT is set and, where SERVICE_MODE is not set or is legacy:
  -- QUEUE_BASE and START_DATE are set, NUM_QUEUES is an integer, DATE_SKIP is empty or one, and
  -- EXPERIMENT and TASKFILE_BUCKET are not empty.
  pub load_env-Complete :
      ((load_env get trim_space parse_day zero_environment).error ≡ none) ↔ Complete get
  unfolding load_env load_common
  load_env-Complete =
      let common = load_common get trim_space parse_day zero_environment in
      let p = IsFound-Needs (get "PROJECT") err_no_project none in
      let q = task_queue-Needs common in
      let mode = mode_of (get "SERVICE_MODE") in
      elim (Bool-cases (str_eq mode "legacy")) [
        | inl b ↦ rw b (
          λ e. let h = q.0 e in ((p.0 h.0).1, λ _. h.1),
          λ h. q.1 (p.1 (refl, h.0), h.1 ((eq_iff mode "legacy").0 b)),
        )
        | inr b ↦ rw b (
          λ e. ((p.0 e).1, λ m. absurd (cc (b, (eq_iff mode "legacy").1 m))),
          λ h. p.1 (refl, h.0),
        )
      ]
