-- ===== src/Base/Maps.antt =====
-- Go's maps as association lists: a key stands once, and the order is the order of iteration.
-- `total` adds a weight over the entries; its laws say what a write or a deletion does to the sum.
use Prim.Native.Nat.{ℕ, ◌+◌}
use mathlib.Core.Path.{◌≡◌, refl, subst}
use mathlib.Core.Logic.{◌≢◌, ite, if_pos, if_neg}
use mathlib.Core.List.{List, [], ◌∷◌}
use mathlib.Core.Option.{Option, none, some}
use native.Mathlib.Omega.{arith}
use etl_gardener.Base.Lists.{All}

module _ {ℓ} {K V : Type ℓ} (dec : Discrete K) where
  unfoldable pub lookup : K → List (K × V) → Option V
  lookup k [] = none
  lookup k ((j, v) ∷ m) = ite (dec j k) (some v) (lookup k m)

  unfoldable pub insert : K → V → List (K × V) → List (K × V)
  insert k v [] = (k, v) ∷ []
  insert k v ((j, w) ∷ m) = ite (dec j k) ((k, v) ∷ m) ((j, w) ∷ insert k v m)

  unfoldable pub delete : K → List (K × V) → List (K × V)
  delete k [] = []
  delete k ((j, w) ∷ m) = ite (dec j k) m ((j, w) ∷ delete k m)

  -- No key stands twice.
  abbrev pub Unique : List (K × V) → Type ℓ
  Unique [] = Unit
  Unique ((j, w) ∷ m) = (lookup j m ≡ none) × Unique m

  -- What the map holds under `j` after a write under `k`.
  pub lookup-insert :
      (k j : K) (v : V) (m : List (K × V))
      → lookup j (insert k v m) ≡ ite (dec k j) (some v) (lookup j m)
  unfolding lookup insert
  lookup-insert k j v [] = refl
  lookup-insert k j v ((i, w) ∷ m) = ground (arith, lookup-insert k j v m)

  pub lookup-insert_self : (k : K) (v : V) (m : List (K × V)) → lookup k (insert k v m) ≡ some v
  lookup-insert_self k v m = ground (arith, lookup-insert k k v m)

  pub lookup-insert_ne :
      (k j : K) (v : V) (m : List (K × V)) → k ≢ j → lookup j (insert k v m) ≡ lookup j m
  lookup-insert_ne k j v m h = ground (arith, lookup-insert k j v m)

  pub insert-Unique : (k : K) (v : V) (m : List (K × V)) → Unique m → Unique (insert k v m)
  unfolding lookup insert
  insert-Unique k v [] u = (refl, tt)
  insert-Unique k v ((j, w) ∷ m) u = ground (arith, insert-Unique k v m u.1, lookup-insert k j v m)

  -- What it holds after a deletion.
  pub lookup-delete :
      (k j : K) (m : List (K × V))
      → Unique m
      → lookup j (delete k m) ≡ ite (dec k j) none (lookup j m)
  unfolding lookup delete
  lookup-delete k j [] u = ground arith
  lookup-delete k j ((i, w) ∷ m) u = ground (arith, lookup-delete k j m u.1)

  pub delete-Unique : (k : K) (m : List (K × V)) → Unique m → Unique (delete k m)
  unfolding lookup delete
  delete-Unique k [] u = tt
  delete-Unique k ((j, w) ∷ m) u = ground (arith, delete-Unique k m u.1, lookup-delete k j m u.1)

  -- A property of all values.
  abbrev pub Values {μ} : (V → Type μ) → List (K × V) → Type μ
  Values P = All (λ e. P e.1)

  pub lookup-Values {μ} :
      (P : V → Type μ) (k : K) {v : V} (m : List (K × V)) → Values P m → lookup k m ≡ some v → P v
  unfolding lookup
  lookup-Values P k {v} [] h e = cc
  lookup-Values P k {v} ((j, w) ∷ m) h e = elim (dec j k) [
    | yes p ↦
        let q : w ≡ v = cc (if_pos {C = Option V} (dec j k) p (some w) (lookup k m)) in
        subst P q h.0
    | no p ↦ lookup-Values P k m h.1 (rw (if_neg _ p) at e)
  ]

  pub insert-Values {μ} :
      (P : V → Type μ) (k : K) (v : V) (m : List (K × V))
      → P v
      → Values P m
      → Values P (insert k v m)
  unfolding insert
  insert-Values P k v [] p h = (p, tt)
  insert-Values P k v ((j, w) ∷ m) p h = elim (dec j k) [
    | yes q ↦ rw (if_pos _ q) (p, h.1)
    | no q ↦ rw (if_neg _ q) (h.0, insert-Values P k v m p h.1)
  ]

  pub delete-Values {μ} :
      (P : V → Type μ) (k : K) (m : List (K × V)) → Values P m → Values P (delete k m)
  unfolding delete
  delete-Values P k [] h = tt
  delete-Values P k ((j, w) ∷ m) h = elim (dec j k) [
    | yes q ↦ rw (if_pos _ q) h.1
    | no q ↦ rw (if_neg _ q) (h.0, delete-Values P k m h.1)
  ]

  -- The sum of the entries' weights, and a missing entry's weight of 0.
  unfoldable pub total : (K → V → ℕ) → List (K × V) → ℕ
  total w [] = 0
  total w ((k, v) ∷ m) = w k v + total w m

  abbrev pub weigh : (K → V → ℕ) → K → Option V → ℕ
  weigh w k none = 0
  weigh w k (some v) = w k v

  -- A write replaces the weight under its key.
  pub total-insert :
      (w : K → V → ℕ) (k : K) (v : V) (m : List (K × V))
      → total w (insert k v m) + weigh w k (lookup k m) ≡ total w m + w k v
  unfolding lookup insert total
  total-insert w k v [] = omega arith
  total-insert w k v ((j, u) ∷ m) = elim (dec j k) [
    | yes q ↦ rw (if_pos _ q) (rw (if_pos _ q) (rw q (omega arith)))
    | no q ↦ rw (if_neg _ q) (rw (if_neg _ q) (omega (arith, total-insert w k v m)))
  ]

  pub total-delete :
      (w : K → V → ℕ) (k : K) (m : List (K × V))
      → total w (delete k m) + weigh w k (lookup k m) ≡ total w m
  unfolding lookup delete total
  total-delete w k [] = omega arith
  total-delete w k ((j, u) ∷ m) = elim (dec j k) [
    | yes q ↦ rw (if_pos _ q) (rw (if_pos _ q) (rw q (omega arith)))
    | no q ↦ rw (if_neg _ q) (rw (if_neg _ q) (omega (arith, total-delete w k m)))
  ]
