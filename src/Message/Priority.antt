-- ===== src/Message/Priority.antt =====
-- src/main.c: the priority in front of a datagram (`ProcessMessage`), and its name (`FormatPri`).
-- An `int` is its pattern of 32 bits, which wraps; the daemon's masks are the bits of `syslog.h`.
pub mod Names
use native.Mathlib.Nat.{zero-add}
use pmlogdaemon.Base.{
  ℕ, zero, suc, ◌+◌, ◌-◌, ◌*◌, ◌/◌, ◌%◌, ◌^◌, ◌≤◌, ◌<◌, ◌≡◌, ◌≢◌, refl, sym, ap, ◌∙◌, Bool, true,
  false, List, [], ◌∷◌, ◌++◌, inl, inr, arith, Bytes, is_digit, ltb, leb, ◌==◌, if◌then◌else◌,
  Bool-cases,
}
use pmlogdaemon.Base.Strtol.{digit_value, scan, decimal, scan-decimal, IsBreak}

-- `pri & LOG_FACMASK` and `pri & LOG_PRIMASK`, for the masks 0x3f8 and 7
abbrev pub fac_of : ℕ → ℕ
fac_of pri = pri / 8 % 128 * 8

abbrev pub lvl_of : ℕ → ℕ
lvl_of pri = pri % 8

-- `LOG_USER | LOG_NOTICE`, `LOG_SYSLOG | LOG_INFO`, and `PMLOGDAEMON_LOG_KERN`
abbrev pub user_notice : ℕ
user_notice = 13

abbrev pub syslog_info : ℕ
syslog_info = 46

abbrev pub pmlogdaemon_log_kern : ℕ
pmlogdaemon_log_kern = 192

-- The digits behind `<`, as `ProcessMessage` adds them up.
unfoldable pub read_digits : ℕ → Bytes → ℕ × Bytes
read_digits pri [] = (pri, [])
read_digits pri (c ∷ s) =
    if is_digit c then read_digits ((pri * 10 + (c - b'0')) % 2 ^ 32) s else (pri, c ∷ s)

abbrev skip_close : Bytes → Bytes
skip_close [] = []
skip_close (c ∷ s) = if c == b'>' then s else c ∷ s

-- "If string starts with "<ddd>" parse the priority"
unfoldable pub raw_priority : Bytes → ℕ × Bytes
unfolding read_digits
raw_priority [] = (user_notice, [])
raw_priority (c ∷ s) =
    if c == b'<'
    then (let (pri, t) = read_digits 0 s in (pri, skip_close t))
    else (user_notice, c ∷ s)

-- The two tests on the number read: the pseudo-facility of kernel messages becomes `LOG_KERN`, and
-- a number with other bits than a facility and a level becomes the default.
unfoldable pub check_priority : ℕ → ℕ
check_priority pri =
    let pri' : ℕ = if fac_of pri == pmlogdaemon_log_kern then pri - fac_of pri else pri in
    if leb 1 (pri' / 1024) then user_notice else pri'

-- The priority that `ProcessMessage` hands on, and the text behind it.
unfoldable pub parse_priority : Bytes → ℕ × Bytes
unfolding raw_priority check_priority
parse_priority buff = let (pri, s) = raw_priority buff in (check_priority pri, s)

-- The priority handed on is always a facility and a level, never the pseudo-facility.
pub parse_priority_range :
    (buff : Bytes)
    → ((parse_priority buff).0 < 1024) × (fac_of (parse_priority buff).0 ≢ pmlogdaemon_log_kern)
unfolding parse_priority
parse_priority_range buff = check ((raw_priority buff).0)
  where
    check : (n : ℕ) → (check_priority n < 1024) × (fac_of (check_priority n) ≢ pmlogdaemon_log_kern)
    check n = ground arith

digit_value-is_digit : (c : ℕ) → is_digit c ≡ ltb (digit_value c) 10
digit_value-is_digit c = ground arith

digit_value_of_digit : (c : ℕ) → is_digit c ≡ true → digit_value c ≡ c - b'0'
digit_value_of_digit c h = rw h

-- The sum that wraps is the sum of `scan`, wrapped.
read_digits-scan :
    (s : Bytes) (acc pri k n j : ℕ) (rest : Bytes)
    → pri ≡ acc % 2 ^ 32
    → scan 10 acc k s ≡ (n, j, rest)
    → read_digits pri s ≡ (n % 2 ^ 32, rest)
unfolding read_digits scan
read_digits-scan [] acc pri k n j rest e h = ground arith
read_digits-scan (c ∷ s) acc pri k n j rest e h = elim (Bool-cases (is_digit c)) [
  | inl digit ↦
      let small : ltb (digit_value c) 10 ≡ true = sym (digit_value-is_digit c) ∙ digit in
      let more : scan 10 (acc * 10 + (c - b'0')) (suc k) s ≡ (n, j, rest) =
        rw (← digit_value_of_digit c digit) (rw (scan, small) at h) in
      rw digit
        (read_digits-scan s (acc * 10 + (c - b'0')) _ (suc k) n j rest (rw e (omega arith)) more)
  | inr other ↦
      let large : ltb (digit_value c) 10 ≡ false = sym (digit_value-is_digit c) ∙ other in
      ground arith
]

-- A number printed between `<` and `>` is the priority: as it stands, less the pseudo-facility of
-- kernel messages, or the default where it is more than a facility and a level.
pub parse_priority-decimal :
    (n : ℕ) (rest : Bytes)
    → n < 2 ^ 32
    → parse_priority (b'<' ∷ (decimal n ++ (b'>' ∷ rest))) ≡ (
      if leb 1024 n
          then user_notice
          else if fac_of n == pmlogdaemon_log_kern
          then n - pmlogdaemon_log_kern
          else n,
      rest,
    )
unfolding parse_priority
parse_priority-decimal n rest h =
    let (k, p, e) = scan-decimal n (b'>' ∷ rest) refl in
    let read = read_digits-scan (decimal n ++ (b'>' ∷ rest)) 0 0 0 n k (b'>' ∷ rest) refl e in
    let same : n % 2 ^ 32 ≡ n = omega arith in rw (read, same) (ground arith)
