-- ===== src/Message/Program.antt =====
-- src/main.c: `ParseMsgProgram`, the program name in front of a message. The caller's buffers are
-- blocks of bytes, so that a write past their end shows.
pub mod Buffers
pub mod Laws
pub mod Returns
use pmlogdaemon.Base.{
  ℕ, zero, suc, ◌+◌, ◌-◌, Bool, true, false, ◌&&◌, Option, none, some, List, [], ◌∷◌, ◌++◌, Bytes,
  length, take, drop, is_space, leb, ◌==◌, if◌then◌else◌,
}
use pmlogdaemon.Base.Outcome.{Outcome, done, ◌>>=◌}
use pmlogdaemon.Ring.{write_at}

-- `b[i] = c`
abbrev pub poke : Bytes → ℕ → ℕ → Outcome Bytes
poke b i c = write_at b i (c ∷ [])

-- The C string at the start of a block.
abbrev pub c_str : Bytes → Bytes
c_str [] = []
c_str (c ∷ b) = if c == 0 then [] else c ∷ c_str b

-- "span characters not including ':'": how many stand before the colon or the end, where the first
-- space among them is, and what is left.
pub record Span : Type 0 where
  pub name_len : ℕ
  pub first_space : Option ℕ
  pub left : Bytes

unfoldable pub span_from : ℕ → Option ℕ → Bytes → Span
span_from n space [] = record { name_len = n; first_space = space; left = [] }
span_from n space (c ∷ s) =
    let space' : Option ℕ = elim space [
      | some i ↦ some i
      | none ↦ if is_space c then some n else none
    ] in
    if c == b':'
    then record { name_len = n; first_space = space; left = c ∷ s }
    else span_from (n + 1) space' s

abbrev pub span : Bytes → Span
span = span_from 0 none

-- What a match leaves: the text behind the prefix, the two buffers and `*nameLenP`.
pub record Program : Type 0 where
  pub next : Bytes
  pub full : Bytes
  pub name : Bytes
  pub name_len : ℕ

-- The tests behind the span: a name that is not empty, then ": ".
unfoldable pub behind_colon : Span → Option Bytes
behind_colon sp = if sp.name_len == 0 then none else elim sp.left [
  | [] ↦ none
  | colon ∷ s ↦ elim s [ [] ↦ none | c ∷ next ↦ if c == b' ' then some next else none ]
]

abbrev pub clamp : ℕ → ℕ → ℕ
clamp size n = if leb size n then size - 1 else n

-- The writes into `programFull`: the prefix, a space and a NUL at the colon or at the first space,
-- and a NUL behind the prefix.
unfoldable pub write_full : Bytes → Bytes → ℕ → ℕ → Outcome Bytes
write_full full msg full_len index = do
  b₁ ← write_at full 0 (take full_len msg)
  b₂ ← poke b₁ index b' '
  b₃ ← poke b₂ (index + 1) 0
  poke b₃ full_len 0

unfoldable pub write_name : Bytes → Bytes → ℕ → Outcome Bytes
write_name name msg len = do b₁ ← write_at name 0 (take len msg); poke b₁ len 0

-- The cut of the name and of the prefix: at the first space if there is one, or at the colon.
abbrev pub cut_index : Span → ℕ
cut_index sp = elim sp.first_space [ none ↦ sp.name_len | some i ↦ i ]

-- `ParseMsgProgram`, on buffers `full` and `name`. A match has read `name_len + 2` bytes.
unfoldable pub parse_msg_program : Bytes → Bytes → Bytes → Outcome (Option Program)
unfolding behind_colon
parse_msg_program full name msg = do
  full₀ ← poke full 0 0
  name₀ ← poke name 0 0
  let sp = span msg
  elim (behind_colon sp) [
    | none ↦ done none
    | some next ↦ do
      full₁ ← write_full full₀ msg (clamp (length full) (sp.name_len + 2)) (cut_index sp)
      name₁ ← write_name name₀ msg (clamp (length name) (cut_index sp))
      done (some (record { next = next; full = full₁; name = name₁; name_len = cut_index sp }))
  ]
