-- ===== src/Tracker/History.antt =====
-- tracker.go and job.go: what an operation does to the history of a job's states.
use etl_gardener.Base.{
  ℕ, ◌≡◌, ◌≢◌, refl, ap, sym, ◌∙◌, String, some, List, ◌∷◌, arith, eq_iff, str_eq, Ensures,
  Ensures-bind, if◌then◌else◌, int_inc, ◌>>=◌, Bool-cases, inl, inr,
}
use etl_gardener.Status
use etl_gardener.Status.{Status, StateInfo}
use etl_gardener.Status.Safe.{HasHistory}
use etl_gardener.Tracker.{detailed_status, next_status, failed_status}

-- The newest entry is replaced by one of the same state, or this happens and an entry of another
-- state is added in front. The older entries stay.
pub data Follows (old new : Status) : Type 0 where
  stays :
      (x y : StateInfo) (older : List StateInfo)
      → old.history ≡ x ∷ older
      → new.history ≡ y ∷ older
      → y.state ≡ x.state
      → Follows old new
  moves :
      (x y z : StateInfo) (older : List StateInfo)
      → old.history ≡ x ∷ older
      → new.history ≡ z ∷ y ∷ older
      → y.state ≡ x.state
      → z.state ≢ x.state
      → Follows old new

-- A history whose newest entry has the state of `x`, over the same older entries.
abbrev Headed : StateInfo → List StateInfo → Status → Type 0
Headed x older t = (y : StateInfo) × (t.history ≡ y ∷ older) × (y.state ≡ x.state)

set_detail-Headed :
    (now : ℕ) (text : String) (s : Status) (x : StateInfo) (older : List StateInfo)
    → Headed x older s
    → Ensures (λ d. Headed x older d.0) (Status.set_detail now text s)
unfolding Status.set_detail
set_detail-Headed now text s x older (y, e, f) = elim (Bool-cases (str_eq text "-")) [
  | inl b ↦ rw (e, b) (y, refl, f)
  | inr b ↦ rw (e, b) (record y { detail_time = now; detail = text }, refl, f)
]

new_state-Follows :
    (now : ℕ) (st : String) (s t : Status) (x : StateInfo) (older : List StateInfo)
    → s.history ≡ x ∷ older
    → Headed x older t
    → Ensures (λ n. Follows s n.0 × (Status.state n.0 ≡ some st)) (Status.new_state now st t)
unfolding Status.new_state Status.state
new_state-Follows now st s t x older p (y, e, f) = elim (Bool-cases (str_eq y.state st)) [
  | inl b ↦ rw (e, b) (stays x y older p refl f, ap some ((eq_iff y.state st).0 b))
  | inr b ↦
      rw (e, b)
        (
          moves x y (Status.new_state_info now st) older p refl f
              (ground (arith, eq_iff y.state st)),
          refl,
        )
]

-- The count of updates plays no part.
Follows-counted : (s t : Status) (n : ℕ) → Follows s t → Follows s (record t { update_count = n })
Follows-counted s t n (stays x y older e f g) = stays x y older e f g
Follows-counted s t n (moves x y z older e f g i) = moves x y z older e f g i

next_of_head :
    (c : ℕ → ℕ) (st : String) (s : Status) (x : StateInfo) (older : List StateInfo)
    (d : Status × StateInfo)
    → s.history ≡ x ∷ older
    → Headed x older d.0
    → Ensures
        (λ new. Follows s new × (Status.state new ≡ some st))
        ((if str_eq st x.state then some d else Status.new_state (c 1) st d.0) >>= λ n.
          some (record n.0 { update_count = int_inc n.0.update_count }))
unfolding Status.state
next_of_head c st s x older d e k = elim (Bool-cases (str_eq st x.state)) [
  | inl b ↦ rw b (stays x k.0 older e k.1 k.2, ground (arith, k.1, k.2, eq_iff st x.state))
  | inr b ↦ rw b (
      Ensures-bind (λ n. Follows s n.0 × (Status.state n.0 ≡ some st))
        (λ new. Follows s new × (Status.state new ≡ some st)) _ _
        (new_state-Follows (c 1) st s d.0 x older e k) λ n g. (Follows-counted s n.0 _ g.0, g.1))
]

detailed-Follows :
    (now : ℕ) (text : String) (s n : Status) (st : String)
    → Follows s n
    → Status.state n ≡ some st
    → Ensures
        (λ new. Follows s new × (Status.state new ≡ some st))
        (Status.set_detail now text n >>= λ d. some d.0)
unfolding Status.state
detailed-Follows now text s n st (stays x y older e f g) q =
    Ensures-bind (λ d. Headed y older d.0) (λ new. Follows s new × (Status.state new ≡ some st)) _ _
      (set_detail-Headed now text n y older (y, f, refl))
      λ d k. (stays x k.0 older e k.1 (k.2 ∙ g), ground (arith, k.1, k.2))
detailed-Follows now text s n st (moves x y z older e f g i) q =
    Ensures-bind (λ d. Headed z (y ∷ older) d.0)
      (λ new. Follows s new × (Status.state new ≡ some st)) _ _
      (set_detail-Headed now text n z (y ∷ older) (z, f, refl))
      λ d k. (moves x y k.0 older e k.1 g (λ r. i (sym k.2 ∙ r)), ground (arith, k.1, k.2))

module _ (s : Status) (h : HasHistory s) where
  head_of : (x : StateInfo) × (older : List StateInfo) × (s.history ≡ x ∷ older)
  head_of = ground arith

  -- SetDetail replaces the newest entry, and keeps the state.
  pub detailed_status-Follows :
      (c : ℕ → ℕ) (text : String)
      → Ensures
          (λ new. Follows s new × (Status.state new ≡ Status.state s))
          (detailed_status c text s)
  unfolding detailed_status Status.state
  detailed_status-Follows c text =
      let (x, older, e) = head_of in
      Ensures-bind (λ d. Headed x older d.0)
        (λ new. Follows s new × (Status.state new ≡ Status.state s)) _ _
        (set_detail-Headed (c 0) text s x older (x, e, refl))
        λ d k. (stays x k.0 older e k.1 k.2, ground (arith, k.1, k.2, e))

  pub heartbeat-Follows : (now : ℕ) → Follows s (record s { heartbeat_time = now })
  heartbeat-Follows now = let (x, older, e) = head_of in stays x x older e e refl

  -- What SetStatus makes of a status with a history ends in the state that was asked for. The newest
  -- entry keeps its state, the older ones stay, and at most one entry, of another state, is added.
  pub next_status-Follows :
      (c : ℕ → ℕ) (st text : String)
      → Ensures (λ new. Follows s new × (Status.state new ≡ some st)) (next_status c st text s)
  unfolding next_status
  next_status-Follows c st text =
      let (x, older, e) = head_of in
      let eq : Status.last_state_info s ≡ some x = unfold Status.last_state_info in rw e in
      rw eq (
        Ensures-bind (λ d. Headed x older d.0) (λ new. Follows s new × (Status.state new ≡ some st))
          _ _ (set_detail-Headed (c 0) text s x older (x, e, refl))
          λ d k. next_of_head c st s x older d e k)

  -- What SetJobError makes of a status with a history ends in the state `failed`. The older entries
  -- stay, the newest one keeps its state, and an entry is added if that state is another one.
  pub failed_status-Follows :
      (c : ℕ → ℕ) (old err : String)
      → Ensures
          (λ new. Follows s new × (Status.state new ≡ some Status.failed))
          (failed_status c old err s)
  unfolding failed_status
  failed_status-Follows c old err =
      let (x, older, e) = head_of in
      Ensures-bind (λ n. Follows s n.0 × (Status.state n.0 ≡ some Status.failed))
        (λ new. Follows s new × (Status.state new ≡ some Status.failed)) _ _
        (new_state-Follows (c 0) Status.failed s s x older e (x, e, refl))
        λ n g. detailed-Follows (c 1) _ s n.0 Status.failed g.0 g.1
