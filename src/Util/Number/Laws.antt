-- ===== src/Util/Number/Laws.antt =====
-- What the parsers of numbers accept, and what they make of it.
use native.Mathlib.Nat.{le_trans, pow-le-pow_right}
use pmlogdaemon.Base.{
  ℕ, zero, suc, ◌+◌, ◌-◌, ◌^◌, ◌≤◌, ◌<◌, ◌≡◌, ◌↔◌, refl, sym, ap, ◌∙◌, true, false, some, [], ◌∷◌,
  ◌++◌, ◌==◌, Bytes, arith, length, take, drop, take-append-drop, take-append, drop-append,
  length-append, leb, ltb, lt→leb_false, le→ltb_false,
}
use pmlogdaemon.Base.Int.{pos, int32, int32_pos}
use pmlogdaemon.Base.Strtol.{decimal, signed, strtol-decimal_base0}
use pmlogdaemon.Util.Number.{str_case_eq, trim_suffix_case_insensitive, parse_int}

length-str_case_eq : (a b : Bytes) → str_case_eq a b ≡ true → length a ≡ length b
length-str_case_eq [] [] h = refl
length-str_case_eq [] (y ∷ b) h = cc
length-str_case_eq (x ∷ a) [] h = cc
length-str_case_eq (x ∷ a) (y ∷ b) h = ap suc (length-str_case_eq a b (ground arith))

-- `TrimSuffixCaseInsensitive` succeeds exactly when the string ends in the suffix, read without
-- regard to case, and then it leaves what stands before that end.
trim_suffix_iff :
    (s suffix t : Bytes)
    → (trim_suffix_case_insensitive s suffix ≡ some t)
      ↔ ((u : Bytes) × (s ≡ t ++ u) × (str_case_eq u suffix ≡ true))
unfolding trim_suffix_case_insensitive
trim_suffix_iff s suffix t = (there, back)
  where
    k : ℕ
    k = length s - length suffix

    there :
        trim_suffix_case_insensitive s suffix ≡ some t
        → (u : Bytes) × (s ≡ t ++ u) × (str_case_eq u suffix ≡ true)
    there e = (
      drop k s,
      sym (take-append-drop k s) ∙ ap (λ v. v ++ drop k s) (ground arith),
      ground arith,
    )

    back :
        ((u : Bytes) × (s ≡ t ++ u) × (str_case_eq u suffix ≡ true))
        → trim_suffix_case_insensitive s suffix ≡ some t
    back (u, e, same) =
        let l : length u ≡ length suffix = length-str_case_eq u suffix same in
        let size : length s ≡ length t + length u = ap length e ∙ length-append t u in
        let cut : length t ≡ k = omega arith in
        let front : take k s ≡ t = ap (take k) e ∙ take-append t u cut in
        let end : drop k s ≡ u = ap (drop k) e ∙ drop-append t u cut in
        let long : ltb (length s) (length suffix) ≡ false = le→ltb_false _ _ (omega arith) in
        rw (long, end, same, front)

cast : (m : ℕ) → m < 2 ^ 31 → int32 (signed false m) ≡ pos m
cast zero h = int32_pos zero h
cast (suc m) h = int32_pos (suc m) h

-- A printed number that an `int` holds is read back, wherever a `long` has 32 bits or more.
parse_int-decimal :
    (long_bits n : ℕ)
    → 31 ≤ long_bits - 1
    → n < 2 ^ 31
    → parse_int long_bits (decimal n) ≡ some (pos n)
unfolding parse_int
parse_int-decimal long_bits n wide h =
    let (k, p, e) = strtol-decimal_base0 n in
    let inside : leb (2 ^ (long_bits - 1)) n ≡ false =
      lt→leb_false _ _ (le_trans h (pow-le-pow_right {n = 2} (omega arith) wide)) in
    let some_digits : (k == 0) ≡ false = ground arith in
    rw (e, some_digits, inside) (ap some (cast n h))
