-- ===== src/Dispatch/Buffered.antt =====
-- src/main.c: the form in which `LogMessage` buffers a message, and `FlushMessage` reads it back.
use pmlogdaemon.Base.{
  ℕ, zero, suc, ◌+◌, ◌-◌, ◌≤◌, ◌<◌, ◌≡◌, ◌^◌, refl, sym, ap, ◌∙◌, false, Option, none, some, [],
  ◌∷◌, ◌++◌, append-nil, arith, Bytes, length, take, take-append_ge, ◌==◌, ◌||◌, not, if◌then◌else◌,
}
use pmlogdaemon.Base.Int.{ℤ, pos, negsuc, int32, int32_pos}
use pmlogdaemon.Base.Strtol.{strtol, decimal, signed, out_of_range, strtol-decimal}
use pmlogdaemon.Base.Strtol.Digits.{FromZero, decimal-FromZero}
use pmlogdaemon.Util.KeyValue.{str_chr, str_chr_first, Lacks}

-- `snprintf (buffMsg, sizeof(buffMsg) - 1, "%d/%s/%s", ...)`, which leaves room for two NULs.
unfoldable pub buffered_text : ℕ → ℕ → Bytes → Bytes → Bytes
buffered_text buffer_size pri program line =
    take (buffer_size - 2) (decimal pri ++ (b'/' ∷ (program ++ (b'/' ∷ line))))

-- The bits of an `int`, of which `LOG_FAC` and `LOG_PRI` take some.
abbrev pub int_bits : ℤ → ℕ
int_bits (pos n) = n
int_bits (negsuc n) = 2 ^ 32 - 1 - n

-- The first token as `FlushMessage` reads it, where a `long` has 64 bits. Where there is no digit,
-- `p` is the start.
unfoldable pub read_pri : Bytes → Option ℕ
read_pri token =
    let r = strtol 10 token in
    let left = if r.digits == 0 then token else r.left in
    if out_of_range 64 r || not (length left == 0)
    then none
    else some (int_bits (int32 (signed r.negative r.magnitude)))

-- `g_strsplit (msg, "/", 3)` with all three tokens, and the number in the first.
unfoldable pub read_buffered : Bytes → Option (ℕ × Bytes × Bytes)
read_buffered msg = elim (str_chr b'/' msg) [
  | none ↦ none
  | some (first, behind) ↦ elim (str_chr b'/' behind) [
    | none ↦ none
    | some (program, text) ↦ elim (read_pri first) [
      | none ↦ none
      | some pri ↦ some (pri, program, text)
    ]
  ]
]

int32-signed : (n : ℕ) → n < 2 ^ 31 → int32 (signed false n) ≡ pos n
int32-signed zero h = int32_pos zero h
int32-signed (suc n) h = int32_pos (suc n) h

read_pri-decimal : (n : ℕ) → n < 2 ^ 31 → read_pri (decimal n) ≡ some n
unfolding read_pri
read_pri-decimal n h =
    let (k, some_digit, e) = strtol-decimal n [] tt in
    let run : strtol 10 (decimal n)
        ≡ record { negative = false; magnitude = n; digits = k; left = [] } =
      ap (strtol 10) (sym (append-nil (decimal n))) ∙ e in
    let number : int32 (signed false n) ≡ pos n = int32-signed n h in
    rw (run, number) (ground arith)

FromZero-Lacks : (s : Bytes) → FromZero s → Lacks b'/' s
FromZero-Lacks [] h = tt
FromZero-Lacks (c ∷ s) h = (λ e. omega (arith, h.0), FromZero-Lacks s h.1)

-- The text is whole up to its second slash.
buffered_text_cut :
    (size pri : ℕ) (program line : Bytes)
    → length (decimal pri) + length program + 4 ≤ size
    → buffered_text size pri program line
      ≡ decimal pri
        ++ (b'/'
            ∷ (program ++ (b'/' ∷ take (size - (length (decimal pri) + length program + 4)) line)))
unfolding buffered_text
buffered_text_cut size pri program line room =
    let d : ℕ = length (decimal pri) in
    let p : ℕ = length program in
    let left : ℕ = size - (d + p + 4) in
    let first : size - 2 - d ≡ suc (p + suc left) = omega arith in
    let second : p + suc left - p ≡ suc left = omega arith in
    take-append_ge (decimal pri) (b'/' ∷ (program ++ (b'/' ∷ line))) (size - 2) (omega arith)
    ∙ ap (λ k. decimal pri ++ take k (b'/' ∷ (program ++ (b'/' ∷ line)))) first
    ∙ ap (λ t. decimal pri ++ (b'/' ∷ t))
        (take-append_ge program (b'/' ∷ line) (p + suc left) (omega arith)
          ∙ ap (λ k. program ++ take k (b'/' ∷ line)) second)

-- A message with its priority and the name of its program, which has no slash, is read back as it
-- was buffered, its line cut to what the ring has room for.
pub read_buffered-buffered_text :
    (size pri : ℕ) (program line : Bytes)
    → pri < 2 ^ 31
    → Lacks b'/' program
    → length (decimal pri) + length program + 4 ≤ size
    → read_buffered (buffered_text size pri program line)
      ≡ some (pri, program, take (size - (length (decimal pri) + length program + 4)) line)
unfolding read_buffered
read_buffered-buffered_text size pri program line h plain room =
    let m : ℕ = size - (length (decimal pri) + length program + 4) in
    let text : Bytes = take m line in
    rw
      (
        buffered_text_cut size pri program line room,
        read_buffered,
        str_chr_first b'/' (decimal pri) (program ++ (b'/' ∷ text))
            (FromZero-Lacks (decimal pri) (decimal-FromZero pri)),
        str_chr_first b'/' program text plain,
        read_pri-decimal pri h,
      )
      refl
