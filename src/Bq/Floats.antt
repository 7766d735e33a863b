-- ===== src/Bq/Floats.antt =====
-- float32 of Go, on integers: a number is rounded to 24 significant bits, to the nearest, and to the even
-- one of two that are as near.
use native.Mathlib.Nat.{div-add-mod', mod-lt}
use etl_gardener.Base.{
  ℕ, suc, zero, ◌+◌, ◌-◌, ◌*◌, ◌/◌, ◌%◌, ◌^◌, ◌≤◌, ◌<◌, ◌≡◌, ◌⊎◌, inl, inr, refl, Bool, true, false,
  ltb, ◌==◌, ◌||◌, ◌&&◌, arith, Bool-cases, if◌then◌else◌,
}

-- The weight of the last of the 24 bits; 128 doublings are enough below 2 ^ 152.
unfoldable pub last_bit : ℕ → ℕ → ℕ → ℕ
last_bit zero n q = q
last_bit (suc fuel) n q =
    let more = last_bit fuel n (2 * q) in if ltb n (2 ^ 24 * q) then q else more

-- A multiple of `q` nearest to `n`.
unfoldable pub round_to : ℕ → ℕ → ℕ
round_to n q =
    let down = n / q * q in
    let r = n % q in if ltb (2 * r) q || (2 * r == q && n / q % 2 == 0) then down else down + q

unfoldable pub float32 : ℕ → ℕ
float32 n = round_to n (last_bit 128 n 1)

-- 0.99 is 16609444 / 2 ^ 24 as a float32. Whether float32(a) is below the product of 0.99 and
-- float32(b), which is rounded; both sides are multiplied by 2 ^ 24, which keeps the bits.
unfoldable pub below_99_percent : ℕ → ℕ → Bool
below_99_percent a b = ltb (2 ^ 24 * float32 a) (float32 (16609444 * float32 b))

-- The weight of a last bit: 1, or it leaves 24 bits of `n`.
abbrev Fits : ℕ → ℕ → Type 0
Fits n q = (0 < q) × ((q ≡ 1) ⊎ (2 ^ 23 * q ≤ n))

last_bit-Fits : (fuel n q : ℕ) → Fits n q → Fits n (last_bit fuel n q)
unfolding last_bit
last_bit-Fits zero n q h = h
last_bit-Fits (suc fuel) n q h = elim (Bool-cases (ltb n (2 ^ 24 * q))) [
  | inl a ↦ rw a h
  | inr a ↦ rw a (last_bit-Fits fuel n (2 * q) (omega (arith, h.0), inr (ground arith)))
]

-- `m` is at most half a bit in 24 away from `n`.
abbrev pub Near : ℕ → ℕ → Type 0
Near n m = (2 ^ 24 * m ≤ (2 ^ 24 + 1) * n) × ((2 ^ 24 - 1) * n ≤ 2 ^ 24 * m)

-- A number with quotient part `d` and remainder `r`.
rounded-Near :
    (n q d r : ℕ) (b : Bool)
    → d + r ≡ n
    → r < q
    → (q ≡ 1) ⊎ (2 ^ 23 * q ≤ n)
    → (b ≡ true → 2 * r ≤ q)
    → (b ≡ false → q ≤ 2 * r)
    → Near n (if b then d else d + q)
rounded-Near n q d r true e l (inl h) t f = (omega (arith, e, l, h), omega (arith, e, l, h))
rounded-Near n q d r true e l (inr h) t f =
    let g = t refl in (omega (arith, e, l, h, g), omega (arith, e, l, h, g))
rounded-Near n q d r false e l (inl h) t f = let g = f refl in absurd (omega (arith, l, h, g))
rounded-Near n q d r false e l (inr h) t f =
    let g = f refl in (omega (arith, e, l, h, g), omega (arith, e, l, h, g))

half-fits :
    (x q : ℕ) (b : Bool)
    → (ltb x q || (x == q && b) ≡ true → x ≤ q) × (ltb x q || (x == q && b) ≡ false → q ≤ x)
half-fits x q true = (λ h. ground (arith, h), λ h. ground (arith, h))
half-fits x q false = (λ h. ground (arith, h), λ h. ground (arith, h))

-- float32 keeps small numbers, and moves a number by at most half a bit in 24.
pub float32-Near : (n : ℕ) → Near n (float32 n)
unfolding float32 round_to
float32-Near n =
    let q = last_bit 128 n 1 in
    let h = last_bit-Fits 128 n 1 (omega arith, inl refl) in
    rounded-Near n q (n / q * q) (n % q)
      (ltb (2 * (n % q)) q || (2 * (n % q) == q && n / q % 2 == 0)) (div-add-mod' n q)
      (mod-lt n h.0) h.1 (half-fits (2 * (n % q)) q (n / q % 2 == 0)).0
      (half-fits (2 * (n % q)) q (n / q % 2 == 0)).1

-- The check of counts with float32 passes at 99.001 percent, and fails below 98.999 percent.
pub below_99_percent-near :
    (a b : ℕ)
    → (99001 * b ≤ 100000 * a → below_99_percent a b ≡ false)
      × (100000 * a < 98999 * b → below_99_percent a b ≡ true)
unfolding below_99_percent
below_99_percent-near a b =
    let x = float32-Near a in
    let y = float32-Near b in
    let z = float32-Near (16609444 * float32 b) in
    (λ h. ground (arith, x, y, z, h), λ h. ground (arith, x, y, z, h))
