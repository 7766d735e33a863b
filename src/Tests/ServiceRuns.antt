-- ===== src/Tests/ServiceRuns.antt =====
-- job-service.go: runs of a service with two job specs, over a saver that keeps one date per key.
use etl_gardener.Base.{
  ite, if_pos, if_neg, ℕ, refl, sym, String, Option, none, some, List, [], ◌∷◌, arith, Ensures, map,
  ◌≡◌, String_discrete,
}
use etl_gardener.Job.{JobWithTarget}
use etl_gardener.Persistence.{Key, Saver}
use etl_gardener.Service.{Service, dated, next_job}
use etl_gardener.Service.Rounds.{date_after, plan_run, plan_of}
use etl_gardener.Service.Order.{hand_out, hand_out-refines, hand_out-round}
use etl_gardener.Service.Ready.{IsReady}
use etl_gardener.Service.Dates.{Advances, Issued, next_job-Advances}

-- A datastore for the two keys of the service.
pub Key_discrete : Discrete Key
Key_discrete = hlevel String_discrete

abbrev pub memory : Saver
memory = record {
  Store = Key → Option ℕ;
  held = λ s k. s k;
  save = λ k d s. (none, λ j. ite (Key_discrete j k) (some d) (s j));
  fetch = λ k s. s k;
  save_holds = λ k d s e. if_pos (Key_discrete k k) refl (some d) (s k);
  save_keeps = λ k j d s i. if_neg (Key_discrete j k) (λ p. i (sym p)) (some d) (s j);
  fetch_tells = λ k s d e. e;
}

-- A service at its second and last job spec, on the third day after its start date.
abbrev spec : String → JobWithTarget String
spec experiment = record {
  job = record { bucket = "b"; experiment = experiment; datatype = "t"; date = 0; filter = "" };
  target_table = "table";
  target_bucket_and_prefix = "";
}

abbrev specs : List (JobWithTarget String)
specs = spec "ndt" ∷ spec "switch" ∷ []

abbrev pub service : Service String
service = record {
  job_specs = specs;
  start_date = 86400000000000;
  date = 259200000000000;
  next_index = 1;
  yesterday = record {
    job_specs = specs;
    date = 864000000000000;
    delay = 37800000000000;
    next_index = 0;
  };
}

abbrev pub clock : ℕ → ℕ
clock i = 950000000000000

pub service-IsReady : IsReady service
service-IsReady = record { spec_ready = omega arith; yesterday_ready = omega arith }

abbrev pub empty : Key → Option ℕ
empty k = none

next_job-Advances_example :
    Ensures
      (λ r. Advances 950000000000000 service r.1 × Issued 950000000000000 service r.0)
      (next_job memory clock service empty)
next_job-Advances_example =
    next_job-Advances memory clock service empty service-IsReady (omega arith)

-- The same service at its first job spec.
abbrev fresh_service : Service String
fresh_service = record service { next_index = 0 }

fresh_service-IsReady : IsReady fresh_service
fresh_service-IsReady = record { spec_ready = omega arith; yesterday_ready = omega arith }

-- The two jobs of its date, and then the first of the day after.
hand_out-refines_example :
    Ensures
      (λ r.
        IsReady r.1
        × (plan_run (clock ∷ clock ∷ clock ∷ []) (plan_of fresh_service) ≡ some (r.0, plan_of r.1)))
      (hand_out memory (clock ∷ clock ∷ clock ∷ []) fresh_service (λ k. none))
hand_out-refines_example =
    hand_out-refines memory (clock ∷ clock ∷ clock ∷ []) fresh_service (λ k. none)
      fresh_service-IsReady

hand_out-round_example :
    Ensures
      (λ r.
        (r.0 ≡ map (dated 259200000000000) specs)
        × (plan_of r.1 ≡ record (plan_of fresh_service) {
          current = record {
            specs = specs;
            todo = specs;
            date = date_after 950000000000000 86400000000000 259200000000000;
          };
        }))
      (hand_out memory (clock ∷ clock ∷ []) fresh_service (λ k. none))
unfolding plan_of
hand_out-round_example =
    hand_out-round memory (clock ∷ []) clock fresh_service (λ k. none) fresh_service-IsReady refl
      (omega arith) (refl, tt) refl

-- The date after is the next day.
date_after_three_days : date_after 950000000000000 86400000000000 259200000000000 ≡ 345600000000000
unfolding date_after
date_after_three_days = refl
