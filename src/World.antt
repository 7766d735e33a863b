-- ===== src/World.antt =====
-- Code that acts on the world outside: it is handed the world and gives a result and the world after
-- it. `none` is a panic, or the end of the fuel.
use etl_gardener.Base.{◌≡◌, Option, none, some, Ensures, refl, subst}

-- `W` is the type of the worlds.
abbrev pub M : Type 0 → Type 0 → Type 0
M W A = W → Option (A × W)

abbrev pub follow : {W A B : Type 0} → Option (A × W) → (A → M W B) → Option (B × W)
follow none f = none
follow (some (a, w)) f = f a w

-- A step followed by the rest.
infixl 5 ◌>>=◌
abbrev pub ◌>>=◌ : {W A B : Type 0} → M W A → (A → M W B) → M W B
(m >>= f) w = follow (m w) f

abbrev pub give : {W A : Type 0} → A → M W A
give a w = some (a, w)

-- What cannot fail.
abbrev pub act : {W A : Type 0} → (W → A × W) → M W A
act f w = some (f w)

-- A change of the world only, and a reading of it.
abbrev pub change : {W : Type 0} → (W → W) → M W (Unit {0})
change f w = some (tt, f w)

abbrev pub read : {W A : Type 0} → (W → A) → M W A
read f w = some (f w, w)

abbrev pub panic : {W A : Type 0} → M W A
panic w = none

-- The code returns, and its result and the world after it have the property.
abbrev pub Gives : {W A : Type 0} → (A → W → Type 0) → Option (A × W) → Type 0
Gives P o = Ensures (λ r. P r.0 r.1) o

-- If the code returns, its result and the world after it have the property.
abbrev pub Returns : {W A : Type 0} → (A → W → Type 0) → Option (A × W) → Type 0
Returns P none = Unit
Returns P (some r) = P r.0 r.1

-- The rules for a step followed by the rest.
pub Gives-follow :
    {W A B : Type 0} (P : A → W → Type 0) (Q : B → W → Type 0) (o : Option (A × W)) (f : A → M W B)
    → Gives P o
    → ((a : A) (w : W) → o ≡ some (a, w) → P a w → Gives Q (f a w))
    → Gives Q (follow o f)
Gives-follow P Q none f h k = absurd h
Gives-follow P Q (some (a, w)) f h k = k a w refl h

pub Returns-follow :
    {W A B : Type 0} (P : A → W → Type 0) (Q : B → W → Type 0) (o : Option (A × W)) (f : A → M W B)
    → Returns P o
    → ((a : A) (w : W) → o ≡ some (a, w) → P a w → Returns Q (f a w))
    → Returns Q (follow o f)
Returns-follow P Q none f h k = tt
Returns-follow P Q (some (a, w)) f h k = k a w refl h

pub Returns-mono :
    {W A : Type 0} (P Q : A → W → Type 0) (o : Option (A × W))
    → Returns P o
    → ((a : A) (w : W) → P a w → Q a w)
    → Returns Q o
Returns-mono P Q none h k = tt
Returns-mono P Q (some (a, w)) h k = k a w h

pub Returns-at :
    {W A : Type 0} (P : A → W → Type 0) (o : Option (A × W)) (a : A) (w : W)
    → o ≡ some (a, w)
    → Returns P o
    → P a w
Returns-at P o a w e h = subst (Returns P) e h

pub Returns-any : {W A : Type 0} (o : Option (A × W)) → Returns (λ _ _. Unit {0}) o
Returns-any none = tt
Returns-any (some a) = tt
