-- ===== src/Base/Tests.antt =====
-- Boolean tests on native numbers and texts, the conditional, and case splits that keep the
-- equation.
use Prim.Native.Nat.{ℕ, ◌+◌, ◌%◌, ◌^◌, compare, Ordering}
use Prim.Native.String.{String, ◌++◌ as text_append}
use mathlib.Core.Path.{◌≡◌, refl, subst}
use mathlib.Core.Logic.{◌↔◌, ◌⊎◌, inl, inr}
use mathlib.Core.Bool.{Bool, true, false}
use mathlib.Core.Option.{Option, none, some}
use text.Mathlib.Text.{◌==◌ as text_eq}
use text.Mathlib.TextEquality.{eq_iff}

abbrev pub ltb : ℕ → ℕ → Bool
ltb a b = elim (compare a b) [ Ordering.lt ↦ true | _ ↦ false ]

abbrev pub leb : ℕ → ℕ → Bool
leb a b = elim (compare a b) [ Ordering.gt ↦ false | _ ↦ true ]

infix 50 ◌==◌
abbrev pub ◌==◌ : ℕ → ℕ → Bool
a == b = elim (compare a b) [ Ordering.eq ↦ true | _ ↦ false ]

-- Equality of texts; the Go constants of type `State` are texts too.
abbrev pub str_eq : String → String → Bool
str_eq a b = text_eq a b

-- Go's `+` on texts.
abbrev pub concat : String → String → String
concat a b = text_append a b

infix 1 if◌then◌else◌
abbrev pub if◌then◌else◌ {ℓ} : {A : Type ℓ} → Bool → A → A → A
if true then x else y = x
if false then x else y = y

-- Go's `int` has 64 bits; a count is kept as its bit pattern.
abbrev pub int_inc : ℕ → ℕ
int_inc n = (n + 1) % 2 ^ 64

pub Bool-cases : (b : Bool) → (b ≡ true) ⊎ (b ≡ false)
Bool-cases true = inl refl
Bool-cases false = inr refl

pub Option-cases {ℓ} : {A : Type ℓ} (o : Option A) → (o ≡ none) ⊎ ((a : A) × (o ≡ some a))
Option-cases none = inl refl
Option-cases (some a) = inr (a, refl)

decide_by : (s t : String) (b : Bool) → ((b ≡ true) ↔ (s ≡ t)) → Dec (s ≡ t)
decide_by s t true h = yes (h.0 refl)
decide_by s t false h =
    no (λ e. elim (Bool-cases false) [ inl f ↦ cc (h.1 e) | inr f ↦ cc (h.1 e) ])

unfoldable pub String_discrete : Discrete String
unfolding decide_by
String_discrete s t = decide_by s t (str_eq s t) (eq_iff s t)

-- In the monad of panics, `none` is a panic.
infixl 5 ◌>>=◌
abbrev pub ◌>>=◌ {ℓ κ} : {A : Type ℓ} {B : Type κ} → Option A → (A → Option B) → Option B
none >>= f = none
some a >>= f = f a

-- A computation that does not panic, and whose result has the property.
abbrev pub Ensures {ℓ} : {A : Type ℓ} → (A → Type 0) → Option A → Type 0
Ensures P none = ⊥
Ensures P (some a) = P a

-- The rule for a step followed by the rest.
pub Ensures-bind {ℓ κ} :
    {A : Type ℓ} {B : Type κ} (P : A → Type 0) (Q : B → Type 0) (o : Option A) (f : A → Option B)
    → Ensures P o
    → ((a : A) → P a → Ensures Q (f a))
    → Ensures Q (o >>= f)
Ensures-bind P Q none f h k = absurd h
Ensures-bind P Q (some a) f h k = k a h

-- The same where two properties of the step, and the step itself, are used.
pub Ensures-step {ℓ κ} :
    {A : Type ℓ} {B : Type κ} (P R : A → Type 0) (Q : B → Type 0) (o : Option A) (f : A → Option B)
    → Ensures P o
    → Ensures R o
    → ((a : A) → o ≡ some a → P a → R a → Ensures Q (f a))
    → Ensures Q (o >>= f)
Ensures-step P R Q none f h g k = absurd h
Ensures-step P R Q (some a) f h g k = k a refl h g

pub Ensures-mono {ℓ} :
    {A : Type ℓ} (P Q : A → Type 0) (o : Option A)
    → Ensures P o
    → ((a : A) → P a → Q a)
    → Ensures Q o
Ensures-mono P Q none h k = h
Ensures-mono P Q (some a) h k = k a h

-- What holds of a result, at a result that is known.
pub ensured {ℓ} :
    {A : Type ℓ} (P : A → Type 0) (o : Option A) (a : A) → o ≡ some a → Ensures P o → P a
ensured P o a e h = subst (Ensures P) e h

-- A computation that does not panic, and the rule for one that is followed by the rest.
abbrev pub IsTotal {ℓ} : {A : Type ℓ} → Option A → Type 0
IsTotal = Ensures (λ _. Unit {0})

pub total_bind {ℓ κ} :
    {A : Type ℓ} {B : Type κ} (Q : B → Type 0) (o : Option A) (f : A → Option B)
    → IsTotal o
    → ((a : A) → o ≡ some a → Ensures Q (f a))
    → Ensures Q (o >>= f)
total_bind Q none f h k = absurd h
total_bind Q (some a) f h k = k a refl

-- A property of both branches.
pub if_cases {ℓ κ} :
    {A : Type ℓ} (P : A → Type κ) (b : Bool) (x y : A) → P x → P y → P (if b then x else y)
if_cases P true x y h k = h
if_cases P false x y h k = k

-- The same where the test is known.
pub if_rule {ℓ κ} :
    {A : Type ℓ} (P : A → Type κ) (b : Bool) (x y : A)
    → (b ≡ true → P x)
    → (b ≡ false → P y)
    → P (if b then x else y)
if_rule P true x y h k = h refl
if_rule P false x y h k = k refl
