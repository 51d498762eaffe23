-- ===== src/Base/Strtol.antt =====
-- What the daemon uses of the C library on numbers in text: `%d` and `strtol`.
pub mod Digits
use mathlib.Core.List.{append-nil, append_assoc}
use pmlogdaemon.Base.Int.{ℤ, pos, negsuc}
use pmlogdaemon.Base.Tests.{ltb, leb, ◌==◌, if◌then◌else◌, Bool-cases, ltb→lt, lt→ltb}
use pmlogdaemon.Base.Text.{Bytes, is_digit, is_space}
use Prim.Native.Nat.{ℕ, zero, suc, ◌+◌, ◌-◌, ◌*◌, ◌/◌, ◌%◌, ◌^◌, ◌≤◌, ◌<◌}
use mathlib.Core.Path.{◌≡◌, refl, sym, ap, ◌∙◌}
use mathlib.Core.Bool.{Bool, true, false, ◌&&◌, ◌||◌}
use mathlib.Core.List.{[], ◌∷◌, ◌++◌}
use mathlib.Core.Logic.{◌≢◌, inl, inr}
use native.Mathlib.Omega.{arith}

-- `%d` of a number that is not negative. The fuel is one more than the number, which has fewer
-- digits than that.
decimal_fuel : ℕ → ℕ → Bytes
decimal_fuel zero n = []
decimal_fuel (suc f) n =
    let rest = decimal_fuel f (n / 10) in
    if ltb n 10 then (b'0' + n) ∷ [] else rest ++ (b'0' + n % 10) ∷ []

unfoldable pub decimal : ℕ → Bytes
unfolding decimal_fuel
decimal n = decimal_fuel (suc n) n

-- `%d` and `%ld`
abbrev pub show_ℤ : ℤ → Bytes
show_ℤ (pos n) = decimal n
show_ℤ (negsuc n) = b'-' ∷ decimal (n + 1)

-- The value of a digit or letter, as `strtol` reads it; 99 is no digit of any base.
abbrev pub digit_value : ℕ → ℕ
digit_value c =
    if is_digit c
    then c - b'0'
    else if leb b'a' c && leb c b'z'
    then c - b'a' + 10
    else if leb b'A' c && leb c b'Z'
    then c - b'A' + 10
    else 99

-- The digits at the front of a string: their value added to `acc`, their number, and the rest.
unfoldable pub scan : ℕ → ℕ → ℕ → Bytes → ℕ × ℕ × Bytes
scan base acc count [] = (acc, count, [])
scan base acc count (c ∷ s) =
    if ltb (digit_value c) base
    then scan base (acc * base + digit_value c) (suc count) s
    else (acc, count, c ∷ s)

abbrev pub skip_spaces : Bytes → Bytes
skip_spaces [] = []
skip_spaces (c ∷ s) = if is_space c then skip_spaces s else c ∷ s

-- A sign, and what stands behind it.
unfoldable pub split_sign : Bytes → Bool × Bytes
split_sign [] = (false, [])
split_sign (c ∷ s) =
    if c == b'-' then (true, s) else if c == b'+' then (false, s) else (false, c ∷ s)

-- With base 0 a leading `0x` means 16 and a leading `0` means 8. The `x` counts only before a
-- hexadecimal digit.
unfoldable pub detect_base : Bytes → ℕ × Bytes
detect_base (x ∷ (y ∷ (z ∷ s))) =
    if x == b'0' && ((y == b'x' || y == b'X') && ltb (digit_value z) 16)
    then (16, z ∷ s)
    else (if x == b'0' then 8 else 10, x ∷ (y ∷ (z ∷ s)))
detect_base (x ∷ s) = (if x == b'0' then 8 else 10, x ∷ s)
detect_base [] = (10, [])

-- `strtol`: the number, the number of digits read (none means that `endptr` is the start), what is
-- left at `endptr`, and whether `errno` is ERANGE for a `long` of `bits` bits.
pub record Strtol : Type 0 where
  pub negative : Bool
  pub magnitude : ℕ
  pub digits : ℕ
  pub left : Bytes

unfoldable pub strtol : ℕ → Bytes → Strtol
unfolding scan split_sign detect_base
strtol base s =
    let (negative, t) = split_sign (skip_spaces s) in
    let (radix, u) = (if base == 0 then detect_base t else (base, t)) in
    let (n, k, left) = scan radix 0 0 u in
    record { negative = negative; magnitude = n; digits = k; left = left }

abbrev pub out_of_range : ℕ → Strtol → Bool
out_of_range bits r =
    if r.negative then ltb (2 ^ (bits - 1)) r.magnitude else leb (2 ^ (bits - 1)) r.magnitude

abbrev pub signed : Bool → ℕ → ℤ
signed negative zero = pos zero
signed negative (suc n) = if negative then negsuc n else pos (suc n)

-- Reading a printed number comes to reading what stands behind it.
IsDigitRun : ℕ → Bytes → Type 0
IsDigitRun n s =
    (k : ℕ) (rest : Bytes) → (j : ℕ) × (0 < j) × (scan 10 0 k (s ++ rest) ≡ scan 10 n (k + j) rest)

scan_digit :
    (acc k d : ℕ) (rest : Bytes)
    → d < 10
    → scan 10 acc k ((b'0' + d) ∷ rest) ≡ scan 10 (acc * 10 + d) (suc k) rest
unfolding scan
scan_digit acc k d rest h =
    let v : digit_value (b'0' + d) ≡ d = ground arith in rw (v, lt→ltb d 10 h)

scan_cast : {m n j k : ℕ} (rest : Bytes) → m ≡ n → j ≡ k → scan 10 m j rest ≡ scan 10 n k rest
scan_cast rest e d = rw (e, d)

decimal_fuel-scan : (f n : ℕ) → n < f → IsDigitRun n (decimal_fuel f n)
unfolding decimal_fuel IsDigitRun
decimal_fuel-scan zero n h k rest = absurd (omega arith)
decimal_fuel-scan (suc f) n h k rest = elim (Bool-cases (ltb n 10)) [
  | inl small ↦ (
    1,
    omega arith,
    rw small
        (scan_digit 0 k n rest (ltb→lt _ _ small) ∙ scan_cast rest (omega arith) (omega arith)),
  )
  | inr large ↦
      let (j, p, e) = decimal_fuel-scan f (n / 10) (ground arith) k ((b'0' + n % 10) ∷ rest) in
      (
        suc j,
        omega arith,
        rw (large, append_assoc)
            (e
              ∙ scan_digit (n / 10) (k + j) (n % 10) rest (omega arith)
              ∙ scan_cast rest (omega arith) (omega arith)),
      )
]

-- A byte that no digit continues.
abbrev pub IsBreak : Bytes → Type 0
IsBreak [] = Unit
IsBreak (c ∷ s) = ltb (digit_value c) 10 ≡ false

scan-IsBreak : (n k : ℕ) (rest : Bytes) → IsBreak rest → scan 10 n k rest ≡ (n, k, rest)
unfolding scan
scan-IsBreak n k [] h = refl
scan-IsBreak n k (c ∷ rest) h = rw h

-- A printed number starts with a digit, with 0 only if it is 0.
record StartsWell (n : ℕ) (s : Bytes) : Type 0 where
  first : ℕ
  later : Bytes
  is : s ≡ first ∷ later
  low : b'0' ≤ first
  high : first ≤ b'9'
  no_zero : first ≡ b'0' → (later ≡ []) × (n ≡ 0)

decimal_fuel-StartsWell : (f n : ℕ) → n < f → StartsWell n (decimal_fuel f n)
unfolding decimal_fuel
decimal_fuel-StartsWell zero n h = absurd (omega arith)
decimal_fuel-StartsWell (suc f) n h = elim (Bool-cases (ltb n 10)) [
  | inl small ↦
      let l : n < 10 = ltb→lt _ _ small in
      record {
        first = b'0' + n;
        later = [];
        is = rw small;
        low = omega arith;
        high = omega arith;
        no_zero = λ e. (refl, omega arith);
      }
  | inr large ↦
      let w = decimal_fuel-StartsWell f (n / 10) (ground arith) in
      let big : 0 < n / 10 = ground arith in
      record {
        first = w.first;
        later = w.later ++ (b'0' + n % 10) ∷ [];
        is = rw (large, w.is);
        low = w.low;
        high = w.high;
        no_zero = λ e. absurd (omega (arith, (w.no_zero e).1));
      }
]

decimal-StartsWell : (n : ℕ) → StartsWell n (decimal n)
unfolding decimal
decimal-StartsWell n = decimal_fuel-StartsWell (suc n) n (omega arith)

pub scan-decimal :
    (n : ℕ) (rest : Bytes)
    → IsBreak rest
    → (k : ℕ) × (0 < k) × (scan 10 0 0 (decimal n ++ rest) ≡ (n, k, rest))
unfolding decimal IsDigitRun
scan-decimal n rest h =
    let (j, p, e) = decimal_fuel-scan (suc n) n (omega arith) 0 rest in
    (0 + j, omega arith, e ∙ scan-IsBreak n (0 + j) rest h)

skip_spaces-digit : (c : ℕ) (s : Bytes) → b'0' ≤ c → c ≤ b'9' → skip_spaces (c ∷ s) ≡ c ∷ s
skip_spaces-digit c s l h = ground arith

split_sign-digit : (c : ℕ) (s : Bytes) → b'0' ≤ c → c ≤ b'9' → split_sign (c ∷ s) ≡ (false, c ∷ s)
unfolding split_sign
split_sign-digit c s l h = ground arith

-- Neither a space nor a sign stands before a printed number.
front-decimal :
    (n : ℕ) (rest : Bytes)
    → split_sign (skip_spaces (decimal n ++ rest)) ≡ (false, decimal n ++ rest)
unfolding decimal
front-decimal n rest =
    let w = decimal_fuel-StartsWell (suc n) n (omega arith) in
    rw w.is (
      ap split_sign (skip_spaces-digit w.first (w.later ++ rest) w.low w.high)
      ∙ split_sign-digit w.first (w.later ++ rest) w.low w.high)

detect_base-nonzero : (c : ℕ) (s : Bytes) → c ≢ b'0' → detect_base (c ∷ s) ≡ (10, c ∷ s)
unfolding detect_base
detect_base-nonzero c [] h = ground arith
detect_base-nonzero c (d ∷ []) h = ground arith
detect_base-nonzero c (d ∷ (e ∷ s)) h = ground arith

scan-base_detected :
    (n : ℕ)
    → (k : ℕ) × (0 < k)
      × (scan (detect_base (decimal n)).0 0 0 (detect_base (decimal n)).1 ≡ (n, k, []))
scan-base_detected zero = (1, omega arith, unfold decimal detect_base scan decimal_fuel in refl)
scan-base_detected (suc n) =
    let w = decimal-StartsWell (suc n) in
    let (k, p, e) = scan-decimal (suc n) [] tt in
    let ne : w.first ≢ b'0' = λ z. absurd (omega (arith, (w.no_zero z).1)) in
    (
      k,
      p,
      rw (w.is, detect_base-nonzero w.first w.later ne, ← w.is)
          (ap (scan 10 0 0) (sym (append-nil (decimal (suc n)))) ∙ e),
    )

-- `strtol` in base 10 reads back what `%d` printed, up to the first byte that is no digit.
pub strtol-decimal :
    (n : ℕ) (rest : Bytes)
    → IsBreak rest
    → (k : ℕ) × (0 < k)
      × (strtol 10 (decimal n ++ rest)
          ≡ record { negative = false; magnitude = n; digits = k; left = rest })
unfolding strtol
strtol-decimal n rest h =
    let (k, p, e) = scan-decimal n rest h in (k, p, rw (front-decimal n rest, e))

-- With the base left open it does so too, at the end of the string.
pub strtol-decimal_base0 :
    (n : ℕ)
    → (k : ℕ) × (0 < k)
      × (strtol 0 (decimal n) ≡ record { negative = false; magnitude = n; digits = k; left = [] })
unfolding strtol
strtol-decimal_base0 n =
    let (k, p, e) = scan-base_detected n in
    let front : split_sign (skip_spaces (decimal n)) ≡ (false, decimal n) =
      ap (λ s. split_sign (skip_spaces s)) (sym (append-nil (decimal n)))
      ∙ front-decimal n []
      ∙ ap (λ s. (false, s)) (append-nil (decimal n)) in
    (k, p, rw (front, e))
