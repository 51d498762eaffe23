-- ===== src/Message/Escape.antt =====
-- src/main.c: the loop of `ProcessMessage` that copies the text into a line of printable bytes.
use Prim.Native.Nat.{bit_xor}
use pmlogdaemon.Base.{
  ℕ, zero, suc, ◌+◌, ◌≤◌, ◌<◌, ◌≡◌, ◌≢◌, ◌⊎◌, refl, Bool, true, false, Bool-cases, ◌||◌, [], ◌∷◌,
  ◌++◌, inl, inr, arith, Bytes, length, ltb, leb, ◌==◌, if◌then◌else◌, ==_iff,
}

-- `MAXLINE`: `line` holds that many bytes and a NUL.
abbrev pub maxline : ℕ
maxline = 1024

-- The loop with `used` bytes written: it stops at a NUL, and where the next byte has no room.
unfoldable pub escape_from : ℕ → Bytes → Bytes
escape_from used [] = []
escape_from used (c ∷ s) =
    let after_one = escape_from (used + 1) s in
    let after_two = escape_from (used + 2) s in
    if c == 0
    then []
    else if leb maxline used
    then []
    else if c == b'\n' || c == 127
    then b' ' ∷ after_one
    else if ltb c 32
    then (if leb maxline (used + 1) then [] else b'^' ∷ bit_xor c 0x40 ∷ after_two)
    else c ∷ after_one

unfoldable pub escape_line : Bytes → Bytes
unfolding escape_from
escape_line s = escape_from 0 s

-- What one byte is written as.
abbrev pub escaped : ℕ → Bytes
escaped c =
    if c == b'\n' || c == 127 then b' ' ∷ [] else if ltb c 32 then b'^' ∷ (c + 64) ∷ [] else c ∷ []

-- The whole text up to the first NUL, with no limit on its length.
abbrev pub escaped_all : Bytes → Bytes
escaped_all [] = []
escaped_all (c ∷ s) = let rest = escaped_all s in if c == 0 then [] else escaped c ++ rest

-- Whether the bit that the loop flips is an addition of 64 for every byte below `n`.
flips_below : ℕ → Bool
flips_below zero = true
flips_below (suc c) =
    let before = flips_below c in if bit_xor c 0x40 == c + 64 then before else false

flip_at : (n c : ℕ) → flips_below n ≡ true → c < n → bit_xor c 0x40 ≡ c + 64
unfolding flips_below
flip_at zero c ok lt = absurd (omega arith)
flip_at (suc n) c ok lt = elim (Bool-cases (c == n)) [
  | inl same ↦
      let is : c ≡ n = (==_iff c n).0 same in
      rw is ((==_iff (bit_xor n 0x40) (n + 64)).0 (ground arith))
  | inr other ↦ flip_at n c (ground arith) (ground arith)
]

toggle : (c : ℕ) → c < 32 → bit_xor c 0x40 ≡ c + 64
unfolding flips_below
toggle c h = flip_at 32 c refl h

-- The line never outgrows its buffer.
length-escape_from :
    (s : Bytes) (used : ℕ) → used ≤ maxline → used + length (escape_from used s) ≤ maxline
unfolding escape_from
length-escape_from [] used h = omega arith
length-escape_from (c ∷ s) used h =
    ground (arith, length-escape_from s (used + 1), length-escape_from s (used + 2))

pub length-escape_line : (s : Bytes) → length (escape_line s) ≤ maxline
unfolding escape_line
length-escape_line s = omega (arith, length-escape_from s 0)

-- A byte that a log file shows as it is.
abbrev pub AllPrintable : Bytes → Type 0
AllPrintable [] = Unit
AllPrintable (c ∷ s) = (32 ≤ c) × (c ≢ 127) × AllPrintable s

escape_from-AllPrintable : (s : Bytes) (used : ℕ) → AllPrintable (escape_from used s)
unfolding escape_from
escape_from-AllPrintable [] used = tt
escape_from-AllPrintable (c ∷ s) used =
    ground (
      arith,
      escape_from-AllPrintable s (used + 1),
      escape_from-AllPrintable s (used + 2),
      toggle c,
    )

-- What `ProcessMessage` logs has no control character and no delete, and fits the line.
pub escape_line-AllPrintable :
    (s : Bytes) → AllPrintable (escape_line s) × (length (escape_line s) ≤ maxline)
unfolding escape_line
escape_line-AllPrintable s = (escape_from-AllPrintable s 0, length-escape_line s)

-- What the loop leaves out.
cut_from : ℕ → Bytes → Bytes
cut_from used [] = []
cut_from used (c ∷ s) =
    let after_one = cut_from (used + 1) s in
    let after_two = cut_from (used + 2) s in
    if c == 0
    then []
    else if leb maxline used
    then escaped_all (c ∷ s)
    else if c == b'\n' || c == 127
    then after_one
    else if ltb c 32
    then (if leb maxline (used + 1) then escaped_all (c ∷ s) else after_two)
    else after_one

escape_from-cut :
    (s : Bytes) (used : ℕ)
    → (escape_from used s ++ cut_from used s ≡ escaped_all s)
      × ((cut_from used s ≡ []) ⊎ (maxline ≤ suc (used + length (escape_from used s))))
unfolding escape_from cut_from
escape_from-cut [] used = (refl, inl refl)
escape_from-cut (c ∷ s) used =
    ground (arith, escape_from-cut s (used + 1), escape_from-cut s (used + 2), toggle c)

-- The line is the front of the escaped text, and the whole of it unless it has 1023 bytes or more.
pub escape_line-front :
    (s : Bytes)
    → (cut : Bytes) × (escape_line s ++ cut ≡ escaped_all s)
      × ((cut ≡ []) ⊎ (maxline ≤ suc (length (escape_line s))))
unfolding escape_line
escape_line-front s =
    let (whole, full) = escape_from-cut s 0 in
    (cut_from 0 s, whole, elim full [ inl e ↦ inl e | inr l ↦ inr (omega arith) ])
