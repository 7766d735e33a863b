-- ===== src/Base/Decimal.antt =====
-- Integers in decimal, as fmt's %d writes them and strconv.Atoi reads them.
use Prim.Native.Char.{code}
use Prim.Native.Nat.{ℕ, zero, suc, ◌+◌, ◌-◌, ◌*◌, ◌/◌, ◌%◌, ◌^◌, ◌<◌, ◌≤◌}
use Prim.Native.String.{String}
use mathlib.Core.Path.{◌≡◌, refl, sym, ap, ◌∙◌}
use mathlib.Core.Bool.{Bool, true, false, ◌&&◌}
use mathlib.Core.Logic.{◌≢◌, inl, inr}
use mathlib.Core.Option.{Option, none, some}
use text.Mathlib.TextLemmas.{nil-append, cons-append, append-ne-nil_of_right_ne-nil}
use native.Mathlib.Omega.{arith}
use etl_gardener.Base.Tests.{ltb, leb, ◌==◌, if◌then◌else◌, concat, Bool-cases, if_rule}

-- `negsuc n` is -(n + 1).
pub data ℤ : Type 0 where
  pos : ℕ → ℤ
  negsuc : ℕ → ℤ

abbrev pub digit : ℕ → String
digit n =
    if n == 0
    then "0"
    else if n == 1
    then "1"
    else if n == 2
    then "2"
    else if n == 3
    then "3"
    else if n == 4
    then "4"
    else if n == 5
    then "5"
    else if n == 6
    then "6"
    else if n == 7
    then "7"
    else if n == 8
    then "8"
    else "9"

-- The digits of a number; the number itself is enough fuel.
unfoldable pub digits : ℕ → ℕ → String
digits zero n = digit n
digits (suc fuel) n =
    let rest = concat (digits fuel (n / 10)) (digit (n % 10)) in if ltb n 10 then digit n else rest

-- %d of a number that is not negative
unfoldable pub decimal : ℕ → String
unfolding digits
decimal n = digits n n

-- The number that a text of digits is, after a number that is read.
unfoldable pub read_digits : ℕ → String → Option ℕ
read_digits acc String.[] = some acc
read_digits acc (String.◌∷◌ c s) =
    let rest = read_digits (acc * 10 + (code c - 48)) s in
    if leb 48 (code c) && leb (code c) 57 then rest else none

abbrev in_range : Bool → Option ℕ → Option ℤ
in_range negative none = none
in_range true (some zero) = some (pos 0)
in_range true (some (suc n)) = if ltb n (2 ^ 63) then some (negsuc n) else none
in_range false (some n) = if ltb n (2 ^ 63) then some (pos n) else none

abbrev magnitude : String → Option ℕ
magnitude String.[] = none
magnitude (String.◌∷◌ c s) = read_digits 0 (String.◌∷◌ c s)

-- strconv.Atoi; `none` is its error.
unfoldable pub atoi : String → Option ℤ
unfolding read_digits
atoi String.[] = none
atoi (String.◌∷◌ c s) =
    if code c == 45
    then in_range true (magnitude s)
    else if code c == 43
    then in_range false (magnitude s)
    else in_range false (magnitude (String.◌∷◌ c s))

-- What is written is read back.
read_digits-one : (acc d : ℕ) → d < 10 → read_digits acc (digit d) ≡ some (acc * 10 + d)
unfolding read_digits
read_digits-one acc zero h = refl
read_digits-one acc (suc zero) h = refl
read_digits-one acc (suc (suc zero)) h = refl
read_digits-one acc (suc (suc (suc zero))) h = refl
read_digits-one acc (suc (suc (suc (suc zero)))) h = refl
read_digits-one acc (suc (suc (suc (suc (suc zero))))) h = refl
read_digits-one acc (suc (suc (suc (suc (suc (suc zero)))))) h = refl
read_digits-one acc (suc (suc (suc (suc (suc (suc (suc zero))))))) h = refl
read_digits-one acc (suc (suc (suc (suc (suc (suc (suc (suc zero)))))))) h = refl
read_digits-one acc (suc (suc (suc (suc (suc (suc (suc (suc (suc zero))))))))) h = refl
read_digits-one acc (suc (suc (suc (suc (suc (suc (suc (suc (suc (suc n)))))))))) h =
    absurd (omega arith)

read_digits-digit :
    (acc n d : ℕ) (s : String)
    → d < 10
    → read_digits acc s ≡ some n
    → read_digits acc (concat s (digit d)) ≡ some (n * 10 + d)
unfolding read_digits
read_digits-digit acc n d String.[] h e =
    rw (nil-append (digit d)) (rw (read_digits-one acc d h) (ap (λ k. some (k * 10 + d)) (cc e)))
read_digits-digit acc n d (String.◌∷◌ c s) h e =
    rw (cons-append c s (digit d)) (elim (Bool-cases (leb 48 (code c) && leb (code c) 57)) [
      | inl b ↦ rw b (read_digits-digit (acc * 10 + (code c - 48)) n d s h (rw b at e))
      | inr b ↦ let f : none ≡ some n = rw b at e in absurd (cc f)
    ])

read_digits-digits : (fuel n : ℕ) → n ≤ fuel → read_digits 0 (digits fuel n) ≡ some n
unfolding digits
read_digits-digits zero n h = read_digits-one 0 n (omega arith) ∙ ap some (omega arith)
read_digits-digits (suc fuel) n h = elim (Bool-cases (ltb n 10)) [
  | inl b ↦ rw b (read_digits-one 0 n (ground (arith, b)) ∙ ap some (omega arith))
  | inr b ↦ rw b (
      read_digits-digit 0 (n / 10) (n % 10) (digits fuel (n / 10)) (omega arith)
        (read_digits-digits fuel (n / 10) (ground (arith, b)))
      ∙ ap some (omega arith))
]

-- Two numbers that are written alike are equal.
pub decimal_inj : (m n : ℕ) → decimal m ≡ decimal n → m ≡ n
unfolding decimal
decimal_inj m n e =
    cc (read_digits-digits m m (omega arith), read_digits-digits n n (omega arith), e)

read_digits-nil : some 1 ≡ read_digits 1 ""
unfolding read_digits
read_digits-nil = refl

digit-ne-nil : (d : ℕ) → d < 10 → digit d ≢ ""
digit-ne-nil d h e =
    let q : read_digits 1 "" ≡ some (1 * 10 + d) =
      ap (read_digits 1) (sym e) ∙ read_digits-one 1 d h in
    let r : some 1 ≡ some (1 * 10 + d) = read_digits-nil ∙ q in
    let t : ◌≡◌ {A = ℕ} 1 (1 * 10 + d) = cc r in omega (arith, t)

digits-ne-nil : (fuel n : ℕ) → n ≤ fuel → digits fuel n ≢ ""
unfolding digits
digits-ne-nil zero n h = digit-ne-nil n (omega arith)
digits-ne-nil (suc fuel) n h =
    let shorter =
      append-ne-nil_of_right_ne-nil (digits fuel (n / 10)) (digit-ne-nil (n % 10) (omega arith)) in
    if_rule (λ s. s ≢ "") (ltb n 10) _ _ (λ b. digit-ne-nil n (ground (arith, b))) (λ b. shorter)

-- A number is written with a digit.
pub decimal-ne-nil : (n : ℕ) → decimal n ≢ ""
unfolding decimal
decimal-ne-nil n = digits-ne-nil n n (omega arith)
