-- ===== src/Util/Number.antt =====
-- src/util.c: `TrimSuffixCaseInsensitive`, `ParseInt`, `ParseLevel` and `ParseSize`.
pub mod Laws
use pmlogdaemon.Base.{
  ℕ, suc, ◌+◌, ◌-◌, ◌*◌, ◌%◌, ◌^◌, Bool, true, false, ◌&&◌, ◌||◌, Option, none, some, List, [], ◌∷◌,
  map, Bytes, codes, length, take, drop, str_eq, ltb, leb, ◌==◌, if◌then◌else◌,
}
use pmlogdaemon.Base.Int.{ℤ, pos, negsuc, minus_one, pos_part, neg_part, int32, mul_ℤ}
use pmlogdaemon.Base.Outcome.{Outcome, done, overflow}
use pmlogdaemon.Base.Strtol.{Strtol, strtol, out_of_range, signed}

-- `tolower` of the C locale
abbrev pub to_lower : ℕ → ℕ
to_lower c = if leb b'A' c && leb c b'Z' then c + 32 else c

-- `strcasecmp(a, b) == 0`
abbrev pub str_case_eq : Bytes → Bytes → Bool
str_case_eq a b = str_eq (map to_lower a) (map to_lower b)

-- `TrimSuffixCaseInsensitive`: the string without the suffix, or none where the call is false and
-- leaves the string alone.
unfoldable pub trim_suffix_case_insensitive : Bytes → Bytes → Option Bytes
trim_suffix_case_insensitive s suffix =
    if ltb (length s) (length suffix)
    then none
    else if str_case_eq (drop (length s - length suffix) s) suffix
    then some (take (length s - length suffix) s)
    else none

-- `ParseInt`, for a `long` of the given number of bits. The result is cast to `int`.
unfoldable pub parse_int : ℕ → Bytes → Option ℤ
parse_int long_bits val_str =
    let r = strtol 0 val_str in
    if r.digits == 0
    then none
    else if leb 1 (length r.left)
    then none
    else if out_of_range long_bits r
    then none
    else some (int32 (signed r.negative r.magnitude))

-- `ParseLevel`, over `PmLogStringToLevel`: whether the call is true, and the level that it stores.
unfoldable pub parse_level : (Bytes → Option ℤ) → Bytes → Bool × ℤ
parse_level string_to_level s = elim (string_to_level s) [
  | some n ↦ (true, n)
  | none ↦ (false, minus_one)
]

-- The two attempts on one unit, `K` or `KB`, in `ParseSize`: the string and the multiplier after
-- them.
unfoldable pub trim_unit : Bytes → Bytes → ℕ → Bytes × ℕ → Bytes × ℕ
unfolding trim_suffix_case_insensitive
trim_unit unit unit_b value (s, multiplier) = elim (trim_suffix_case_insensitive s unit) [
  | some t ↦ (t, value)
  | none ↦ elim (trim_suffix_case_insensitive s unit_b) [
    | some t ↦ (t, value)
    | none ↦ (s, multiplier)
  ]
]

-- `ParseSize`. `strncpy` into the 32 bytes of `s` leaves no NUL behind a string of 32 bytes or more,
-- and `strlen` then reads past them.
unfoldable pub parse_size : ℕ → Bytes → Outcome (Option ℤ)
unfolding parse_int trim_unit
parse_size long_bits val_str =
    if leb 32 (length val_str)
    then overflow
    else (let (s, multiplier) =
          trim_unit (codes "M") (codes "MB") (1024 * 1024)
            (trim_unit (codes "K") (codes "KB") 1024 (val_str, 1)) in
        elim (parse_int long_bits s) [
          | none ↦ done none
          | some n ↦ done (some (int32 (mul_ℤ n multiplier)))
        ])
