-- ===== src/Message/Program/Laws.antt =====
-- The names that `ParseMsgProgram` finds, and the names that make it write past `programFull`.
use pmlogdaemon.Base.{
  ℕ, zero, suc, ◌+◌, ◌-◌, ◌≤◌, ◌<◌, ◌≡◌, ◌≢◌, refl, sym, ap, ◌∙◌, false, none, some, [], ◌∷◌, ◌++◌,
  arith, Bytes, length, take, is_space, leb, IsString, length-append, take-append, inl, inr,
  Bool-cases, take-append_le, take_all,
}
use pmlogdaemon.Base.Outcome.{done, overflow}
use pmlogdaemon.Message.Program.{
  poke, c_str, span_from, span, Program, behind_colon, clamp, write_full, parse_msg_program,
}
use pmlogdaemon.Message.Program.Buffers.{
  c_str-append, poke-append, Starts, write_name-Starts, write_full-overflow, write_full-Starts,
}

-- A name as a program gives it to `openlog`: no NUL, no colon and no space.
abbrev pub IsName : Bytes → Type 0
IsName [] = Unit
IsName (c ∷ s) = (0 < c) × (c ≢ b':') × (is_space c ≡ false) × IsName s

span_from-IsName :
    (s : Bytes) (n m : ℕ) (rest : Bytes)
    → IsName s
    → m ≡ n + length s
    → span_from n none (s ++ (b':' ∷ rest))
      ≡ record { name_len = m; first_space = none; left = b':' ∷ rest }
unfolding span_from
span_from-IsName [] n m rest h e = ground arith
span_from-IsName (c ∷ s) n m rest h e = ground (arith, span_from-IsName s (n + 1) m rest h.3)

IsString-IsName : (s : Bytes) → IsName s → IsString s
IsString-IsName [] h = tt
IsString-IsName (c ∷ s) h = (h.0, IsString-IsName s h.3)

pub poke_first :
    (b : Bytes) → 0 < length b → (b' : Bytes) × (poke b 0 0 ≡ done b') × (length b' ≡ length b)
poke_first [] h = absurd (omega arith)
poke_first (d ∷ b) h = (0 ∷ b, poke-append [] d b 0 0 refl, refl)

clamp_bounds : (size n : ℕ) → 0 < size → (clamp size n < size) × (clamp size n ≤ n)
clamp_bounds size n h = ground arith

clamp_tight : (size n m : ℕ) → m < n → m + 1 < size → m < clamp size n
clamp_tight size n m h l = ground arith

pub IsString-take : (k : ℕ) (s : Bytes) → IsString s → IsString (take k s)
IsString-take zero s h = tt
IsString-take (suc k) [] h = tt
IsString-take (suc k) (c ∷ s) h = (h.0, IsString-take k s h.1)

pub IsString-append : (s t : Bytes) → IsString s → IsString t → IsString (s ++ t)
IsString-append [] t h g = g
IsString-append (c ∷ s) t h g = (h.0, IsString-append s t h.1 g)

pub Starts-c_str : {b s : Bytes} → IsString s → Starts b s → c_str b ≡ s
Starts-c_str {b} {s} h w = ap c_str w.is ∙ c_str-append s w.later h

take-clamp :
    (size : ℕ) (n t : Bytes) → 0 < size → take (clamp size (length n)) (n ++ t) ≡ take (size - 1) n
take-clamp size n t h = elim (Bool-cases (leb size (length n))) [
  | inl e ↦ rw (e, clamp) (take-append_le n t (size - 1) (ground arith))
  | inr e ↦
      let short : length n ≤ size - 1 = ground arith in
      rw (e, clamp) (take-append n t refl ∙ sym (take_all n (size - 1) short))
]

behind_colon-name :
    (n rest : Bytes)
    → IsName n
    → 0 < length n
    → behind_colon (span (n ++ (b':' ∷ (b' ' ∷ rest)))) ≡ some rest
unfolding behind_colon
behind_colon-name n rest h some_name =
    rw (span_from-IsName n 0 (length n) (b' ' ∷ rest) h (omega arith)) (ground arith)

-- A message of the form `<name>: <rest>`, whose name has no space, is split there: what goes into
-- the log is the name and a space, and the rules see the name, cut to the size of its buffer. The
-- name may have as many bytes as the large buffer holds with the space and a NUL.
pub parse_msg_program-name :
    (full name n rest : Bytes)
    → IsName n
    → 0 < length n
    → length n + 1 < length full
    → 0 < length name
    → (p : Program) × (parse_msg_program full name (n ++ (b':' ∷ (b' ' ∷ rest))) ≡ done (some p))
      × (p.next ≡ rest)
      × (c_str p.full ≡ n ++ b' ' ∷ [])
      × (c_str p.name ≡ take (length name - 1) n)
      × (p.name_len ≡ length n)
unfolding parse_msg_program
parse_msg_program-name full name n rest h some_name fits buffer =
    let msg : Bytes = n ++ (b':' ∷ (b' ' ∷ rest)) in
    let sp : span msg
        ≡ record { name_len = length n; first_space = none; left = b':' ∷ (b' ' ∷ rest) } =
      span_from-IsName n 0 (length n) (b' ' ∷ rest) h (omega arith) in
    let long : length msg ≡ length n + suc (suc (length rest)) =
      length-append n (b':' ∷ (b' ' ∷ rest)) in
    let (full₀, e₀, l₀) = poke_first full (omega arith) in
    let (name₀, f₀, k₀) = poke_first name buffer in
    let full_len : ℕ = clamp (length full) (length n + 2) in
    let (below, at_most) = clamp_bounds (length full) (length n + 2) (omega arith) in
    let above = clamp_tight (length full) (length n + 2) (length n) (omega arith) fits in
    let (full₁, e₁, w) =
      write_full-Starts full₀ msg full_len (length n) (omega arith) (omega arith) above
        (omega arith) in
    let (name_below, name_at_most) = clamp_bounds (length name) (length n) buffer in
    let (name₁, f₁, v) =
      write_name-Starts name₀ msg (clamp (length name) (length n)) (omega arith) (omega arith) in
    let plain : IsString n = IsString-IsName n h in
    let cut : take (length n) msg ≡ n = take-append n _ refl in
    let name_cut : take (clamp (length name) (length n)) msg ≡ take (length name - 1) n =
      take-clamp (length name) n _ buffer in
    (
      record { next = rest; full = full₁; name = name₁; name_len = length n },
      rw (e₀, f₀, behind_colon-name n rest h some_name) (rw sp (rw (e₁, f₁))),
      refl,
      Starts-c_str (rw cut (IsString-append n (b' ' ∷ []) plain (omega arith))) w
          ∙ ap (λ t. t ++ b' ' ∷ []) cut,
      Starts-c_str (rw name_cut (IsString-take (length name - 1) n plain)) v ∙ name_cut,
      refl,
    )

-- A longer name is written past the end of the large buffer.
pub parse_msg_program-overflow :
    (full name n rest : Bytes)
    → IsName n
    → 0 < length n
    → 0 < length full
    → 0 < length name
    → length full ≤ length n + 1
    → parse_msg_program full name (n ++ (b':' ∷ (b' ' ∷ rest))) ≡ overflow
unfolding parse_msg_program
parse_msg_program-overflow full name n rest h some_name room_full room_name long =
    let msg : Bytes = n ++ (b':' ∷ (b' ' ∷ rest)) in
    let sp : span msg
        ≡ record { name_len = length n; first_space = none; left = b':' ∷ (b' ' ∷ rest) } =
      span_from-IsName n 0 (length n) (b' ' ∷ rest) h (omega arith) in
    let size : length msg ≡ length n + suc (suc (length rest)) =
      length-append n (b':' ∷ (b' ' ∷ rest)) in
    let (full₀, e₀, l₀) = poke_first full room_full in
    let (name₀, f₀, k₀) = poke_first name room_name in
    let full_len : ℕ = clamp (length full) (length n + 2) in
    let (below, at_most) = clamp_bounds (length full) (length n + 2) room_full in
    let past : write_full full₀ msg full_len (length n) ≡ overflow =
      write_full-overflow full₀ msg full_len (length n) (omega arith) (omega arith) (omega arith) in
    rw (e₀, f₀, behind_colon-name n rest h some_name) (rw sp (rw past))
