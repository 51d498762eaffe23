-- ===== src/Base/Strtol/Digits.antt =====
-- The bytes that `%d` prints.
use Prim.Native.Nat.{ℕ, zero, suc, ◌+◌, ◌/◌, ◌%◌, ◌^◌, ◌≤◌, ◌<◌}
use mathlib.Core.List.{[], ◌∷◌, ◌++◌}
use mathlib.Core.Logic.{inl, inr}
use native.Mathlib.Omega.{arith}
use mathlib.Core.Path.{◌≡◌, sym, ap, ◌∙◌}
use pmlogdaemon.Base.Lists.{length, length-append}
use pmlogdaemon.Base.Strtol.{decimal, decimal_fuel, strtol, strtol-decimal, IsBreak}
use pmlogdaemon.Base.Tests.{ltb, lt→ltb, Bool-cases}
use pmlogdaemon.Base.Text.{Bytes}

-- No byte stands before the digits in the alphabet.
abbrev pub FromZero : Bytes → Type 0
FromZero [] = Unit
FromZero (c ∷ s) = (b'0' ≤ c) × FromZero s

FromZero-append : (s t : Bytes) → FromZero s → FromZero t → FromZero (s ++ t)
FromZero-append [] t h g = g
FromZero-append (c ∷ s) t h g = (h.0, FromZero-append s t h.1 g)

decimal_fuel-FromZero : (f n : ℕ) → FromZero (decimal_fuel f n)
unfolding decimal_fuel
decimal_fuel-FromZero zero n = tt
decimal_fuel-FromZero (suc f) n = elim (Bool-cases (ltb n 10)) [
  | inl small ↦ rw small (omega arith, tt)
  | inr large ↦ rw large (
      FromZero-append (decimal_fuel f (n / 10)) ((b'0' + n % 10) ∷ [])
        (decimal_fuel-FromZero f (n / 10)) (omega arith, tt))
]

pub decimal-FromZero : (n : ℕ) → FromZero (decimal n)
unfolding decimal
decimal-FromZero n = decimal_fuel-FromZero (suc n) n

length-decimal_fuel : (f n : ℕ) → length (decimal_fuel f n) ≤ f
unfolding decimal_fuel
length-decimal_fuel zero n = omega arith
length-decimal_fuel (suc f) n = elim (Bool-cases (ltb n 10)) [
  | inl small ↦ rw small (omega arith)
  | inr large ↦ rw large (
      omega (
        arith,
        length-append (decimal_fuel f (n / 10)) ((b'0' + n % 10) ∷ []),
        length-decimal_fuel f (n / 10),
      ))
]

pub length-decimal : (n : ℕ) → length (decimal n) ≤ n + 1
unfolding decimal
length-decimal n = omega (arith, length-decimal_fuel (suc n) n)

-- Two numbers that print alike in front of the same text are one.
pub decimal_injective :
    (m n : ℕ) (rest : Bytes) → IsBreak rest → decimal m ++ rest ≡ decimal n ++ rest → m ≡ n
decimal_injective m n rest h e =
    let (j, p, x) = strtol-decimal m rest h in
    let (k, q, y) = strtol-decimal n rest h in ap (λ r. r.magnitude) (sym x ∙ ap (strtol 10) e ∙ y)

length-decimal_fuel_pow : (f k n : ℕ) → n < 10 ^ suc k → length (decimal_fuel f n) ≤ suc k
unfolding decimal_fuel
length-decimal_fuel_pow zero k n h = omega arith
length-decimal_fuel_pow (suc f) zero n h = rw (lt→ltb n 10 h) (omega arith)
length-decimal_fuel_pow (suc f) (suc k) n h =
    let fewer : n / 10 < 10 ^ suc k = omega arith in
    let shorter = length-decimal_fuel_pow f k (n / 10) fewer in
    elim (Bool-cases (ltb n 10)) [
      | inl small ↦ rw small (omega arith)
      | inr large ↦
          rw large
            (omega (arith, length-append (decimal_fuel f (n / 10)) ((b'0' + n % 10) ∷ []), shorter))
    ]

-- A number below a power of ten has no more digits than it.
pub length-decimal_pow : (k n : ℕ) → n < 10 ^ suc k → length (decimal n) ≤ suc k
unfolding decimal
length-decimal_pow k n h = length-decimal_fuel_pow (suc n) k n h
