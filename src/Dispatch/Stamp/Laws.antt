-- ===== src/Dispatch/Stamp/Laws.antt =====
-- What `MakeMessageTimestamp` in src/main.c prints in the full form.
use pmlogdaemon.Base.{
  ℕ, zero, suc, ◌+◌, ◌-◌, ◌^◌, ◌≤◌, ◌<◌, ◌≡◌, inl, inr, refl, sym, ap, ◌∙◌, true, false, [], ◌∷◌,
  ◌++◌, append_assoc, if◌then◌else◌, codes, arith, Bytes, IsString, length, take, drop, replicate,
  length-append, length-replicate, length-take, length-drop, take_all, take-append-drop, Bool-cases,
  ltb, lt→ltb,
}
use pmlogdaemon.Base.Int.{ℤ, pos, negsuc, pos_part, ltb_ℤ}
use pmlogdaemon.Base.Outcome.{Outcome, done, overflow, ◌>>=◌, Returns}
use pmlogdaemon.Base.Strtol.{decimal}
use pmlogdaemon.Base.Strtol.Digits.{FromZero, decimal-FromZero, length-decimal_pow}
use pmlogdaemon.Dispatch.Stamp.{
  Settings, Clock, pad, frac_sec, frac_sec_size, full_date, short_stamp, monotonic_part,
  make_message_timestamp,
}
use pmlogdaemon.Message.Program.{poke, c_str}
use pmlogdaemon.Message.Program.Buffers.{
  c_str-append, poke-append, poke-Starts, poke_past, room, copied,
}
use pmlogdaemon.Message.Program.Laws.{poke_first, IsString-take, IsString-append, Starts-c_str}
use pmlogdaemon.Ring.{write_at}

FromZero-IsString : (s : Bytes) → FromZero s → IsString s
FromZero-IsString [] h = tt
FromZero-IsString (c ∷ s) h = (omega (arith, h.0), FromZero-IsString s h.1)

FromZero-replicate : (k : ℕ) → FromZero (replicate k b'0')
FromZero-replicate zero = tt
FromZero-replicate (suc k) = (omega arith, FromZero-replicate k)

pad-IsString : (w n : ℕ) → IsString (pad w n)
pad-IsString w n =
    IsString-append (replicate (w - length (decimal n)) b'0') (decimal n)
      (FromZero-IsString _ (FromZero-replicate (w - length (decimal n))))
      (FromZero-IsString _ (decimal-FromZero n))

-- A number that has room is printed in exactly the width.
pub length-pad : (w n : ℕ) → n < 10 ^ suc w → length (pad (suc w) n) ≡ suc w
length-pad w n h = omega (
  arith,
  length-append (replicate (suc w - length (decimal n)) b'0') (decimal n),
  length-replicate {A = ℕ} (suc w - length (decimal n)) b'0',
  length-decimal_pow w n h,
)

split_at :
    (text y z : Bytes) (i d : ℕ)
    → drop i text ≡ d ∷ z
    → text ++ (0 ∷ y) ≡ take i text ++ (d ∷ (z ++ (0 ∷ y)))
split_at text y z i d e =
    ap (λ t. t ++ (0 ∷ y)) (sym (take-append-drop i text) ∙ ap (λ t. take i text ++ t) e)
    ∙ append_assoc (take i text) (d ∷ z) (0 ∷ y)

-- A NUL written into a string of a block cuts it there, and behind it changes nothing.
poke-cut :
    (text y : Bytes) (i : ℕ)
    → IsString text
    → i < length (text ++ (0 ∷ y))
    → (b : Bytes) × (poke (text ++ (0 ∷ y)) i 0 ≡ done b) × (c_str b ≡ take i text)
poke-cut text y i h l = elim (Bool-cases (ltb i (length text))) [
  | inl inside ↦
      let (d, z, e) = room text i (ground arith) in
      let front : length (take i text) ≡ i = ground (arith, length-take i text) in
      (
        take i text ++ (0 ∷ (z ++ (0 ∷ y))),
        rw (split_at text y z i d e) (poke-append (take i text) d (z ++ (0 ∷ y)) i 0 front),
        c_str-append (take i text) _ (IsString-take i text h),
      )
  | inr behind ↦
      let (b, e, s) =
        poke-Starts (text ++ (0 ∷ y)) text i (record { later = y; is = refl }) (ground arith) l in
      (b, e, Starts-c_str h s ∙ sym (take_all text i (ground arith)))
]

-- A string printed into a block and then cut.
print_and_cut : (text block : Bytes) (i : ℕ) → Outcome Bytes
print_and_cut text block i =
    write_at block 0 (take (frac_sec_size - 1) text ++ 0 ∷ []) >>= (λ b. poke b i 0)

print_and_cut-take :
    (text block : Bytes) (i : ℕ)
    → IsString text
    → length text < frac_sec_size
    → length block ≡ frac_sec_size
    → i < frac_sec_size
    → (b : Bytes) × (print_and_cut text block i ≡ done b) × (c_str b ≡ take i text)
unfolding print_and_cut
print_and_cut-take text block i h short size inside =
    let whole : take (frac_sec_size - 1) text ≡ text = take_all text 15 (omega arith) in
    let long : length (text ++ 0 ∷ []) ≡ length text + 1 = length-append text (0 ∷ []) in
    let later = drop (length (text ++ 0 ∷ [])) block in
    let printed : write_at block 0 (text ++ 0 ∷ []) ≡ done (text ++ (0 ∷ later)) =
      copied block (text ++ 0 ∷ []) (omega arith) ∙ ap done (append_assoc text (0 ∷ []) later) in
    let all : length (text ++ (0 ∷ later)) ≡ frac_sec_size =
      omega (arith, length-append text (0 ∷ later), length-drop (length (text ++ 0 ∷ [])) block) in
    let (b, e, c) = poke-cut text later i h (omega arith) in (b, rw (whole, printed) e, c)

print_and_cut-overflow :
    (text block : Bytes) (i : ℕ)
    → length block ≡ frac_sec_size
    → frac_sec_size ≤ i
    → print_and_cut text block i ≡ overflow
unfolding print_and_cut
print_and_cut-overflow text block i size past =
    let printed = take (frac_sec_size - 1) text ++ 0 ∷ [] in
    let fits : length printed ≤ length block = omega (
      arith,
      length-append (take (frac_sec_size - 1) text) (0 ∷ []),
      length-take (frac_sec_size - 1) text,
    ) in
    rw (copied block printed fits) (
      poke_past (printed ++ drop (length printed) block) i 0 (
        omega (
          arith,
          length-append printed (drop (length printed) block),
          length-drop (length printed) block,
        )))

positive : (k : ℕ) → 0 < k → ltb_ℤ (pos 0) (pos k) ≡ true
positive k h = ground arith

not_positive : (n : ℕ) → ltb_ℤ (pos 0) (negsuc n) ≡ false
not_positive n = ground arith

-- The fraction of a second: as many digits as are asked for, six at most.
frac_sec-take :
    (k usec : ℕ) (block : Bytes)
    → length block ≡ frac_sec_size
    → usec < 10 ^ 6
    → 0 < k
    → k < 15
    → frac_sec (pos k) usec block ≡ done (take (1 + k) (b'.' ∷ pad 6 usec))
unfolding frac_sec print_and_cut
frac_sec-take k usec block size small some_digits few =
    let seven = length-pad 5 usec small in
    let (b₁, e₁, l₁) = poke_first block (omega arith) in
    let (b, e, c) =
      print_and_cut-take (b'.' ∷ pad 6 usec) b₁ (1 + k) (omega arith, pad-IsString 6 usec)
        (omega arith) (omega arith) (omega arith) in
    rw (e₁, positive k some_digits, e) (ap done c)

-- Without one there is none.
frac_sec-none :
    (digits : ℤ) (usec : ℕ) (block : Bytes)
    → length block ≡ frac_sec_size
    → ltb_ℤ (pos 0) digits ≡ false
    → frac_sec digits usec block ≡ done []
unfolding frac_sec
frac_sec-none digits usec block size off =
    let (d, z, e) = room block 0 (omega arith) in
    let cut : poke block 0 0 ≡ done (0 ∷ z) =
      ap (λ b. poke b 0 0) e ∙ poke-append [] d z 0 0 refl in
    rw (cut, off) refl

frac_sec-overflow :
    (k usec : ℕ) (block : Bytes)
    → length block ≡ frac_sec_size
    → 15 ≤ k
    → frac_sec (pos k) usec block ≡ overflow
unfolding frac_sec print_and_cut
frac_sec-overflow k usec block size many =
    let (b₁, e₁, l₁) = poke_first block (omega arith) in
    let past = print_and_cut-overflow (b'.' ∷ pad 6 usec) b₁ (1 + k) (omega arith) (omega arith) in
    rw (e₁, positive k (omega arith), past) refl

-- The fraction that the option `--fractional` asks for.
abbrev pub fraction : ℤ → ℕ → Bytes
fraction digits usec =
    if ltb_ℤ (pos 0) digits then take (1 + pos_part digits) (b'.' ∷ pad 6 usec) else []

frac_sec-fraction :
    (digits : ℤ) (usec : ℕ) (block : Bytes)
    → length block ≡ frac_sec_size
    → usec < 10 ^ 6
    → frac_sec digits usec block
      ≡ (if ltb (pos_part digits) 15 then done (fraction digits usec) else overflow)
frac_sec-fraction (negsuc n) usec block size small =
    rw (fraction, not_positive n) (frac_sec-none (negsuc n) usec block size (not_positive n))
frac_sec-fraction (pos zero) usec block size small = frac_sec-none (pos zero) usec block size refl
frac_sec-fraction (pos (suc d)) usec block size small = elim (Bool-cases (ltb (suc d) 15)) [
  | inl few ↦
      rw (few, fraction, positive (suc d) (omega arith))
        (frac_sec-take (suc d) usec block size small (omega arith) (ground arith))
  | inr many ↦ rw many (frac_sec-overflow (suc d) usec block size (ground arith))
]

-- The full time stamp of `MakeMessageTimestamp`, for microseconds below a million: the date, as many
-- digits of the fraction as are asked for and six at most, the letter Z, and the monotonic time; with
-- more than 14 digits the NUL behind them is written past the 16 bytes of the fraction.
pub make_message_timestamp-full :
    (s : Settings) (t : Clock) (block : Bytes)
    → length block ≡ frac_sec_size
    → t.tv_usec < 10 ^ 6
    → s.use_full_time_stamps ≡ true
    → make_message_timestamp s t block ≡ (
        if ltb (pos_part s.frac_sec_digits) 15
        then done (
            (full_date t ++ (fraction s.frac_sec_digits t.tv_usec ++ codes "Z"))
            ++ monotonic_part s t)
        else overflow)
unfolding make_message_timestamp
make_message_timestamp-full s t block size small full =
    let e = frac_sec-fraction s.frac_sec_digits t.tv_usec block size small in
    elim (Bool-cases (ltb (pos_part s.frac_sec_digits) 15)) [
      | inl few ↦ rw (full, e, few) refl
      | inr many ↦ rw (full, e, many) refl
    ]

-- With 14 digits or fewer it returns, whatever the form.
pub make_message_timestamp-Returns :
    (s : Settings) (t : Clock) (block : Bytes)
    → length block ≡ frac_sec_size
    → t.tv_usec < 10 ^ 6
    → pos_part s.frac_sec_digits < 15
    → Returns (make_message_timestamp s t block)
unfolding make_message_timestamp
make_message_timestamp-Returns s t block size small few = elim (Bool-cases s.use_full_time_stamps) [
  | inl full ↦ (
    _,
    make_message_timestamp-full s t block size small full
        ∙ ap
            (λ b.
              if b
              then done (
                  (full_date t ++ (fraction s.frac_sec_digits t.tv_usec ++ codes "Z"))
                  ++ monotonic_part s t)
              else overflow)
            (lt→ltb _ _ few),
  )
  | inr short ↦ (short_stamp t ++ monotonic_part s t, rw short refl)
]
