-- ===== src/Message/Program/Returns.antt =====
-- `ParseMsgProgram` stays inside its buffers, whatever the message, where the name it cuts fits.
use pmlogdaemon.Base.{
  ℕ, ◌+◌, ◌≤◌, ◌<◌, ◌≡◌, inl, inr, refl, ◌∙◌, Option, none, some, [], ◌∷◌, arith, Bytes, length,
  take, length-take, is_space, ◌==◌, if◌then◌else◌, Bool-cases,
}
use pmlogdaemon.Base.Outcome.{Outcome, done}
use pmlogdaemon.Message.Program.{
  Span, span_from, span, Program, behind_colon, clamp, cut_index, write_full, write_name,
  parse_msg_program,
}
use pmlogdaemon.Ring.{write_at}
use pmlogdaemon.Ring.Bounds.{write_at_lem}
use pmlogdaemon.Ring.Write.{patch, length-patch}

-- A call that returns a block of this size.
abbrev pub Sized : ℕ → Outcome Bytes → Type 0
Sized n o = (b : Bytes) × (o ≡ done b) × (length b ≡ n)

pub write_at-Sized :
    (b : Bytes) (p : ℕ) (src : Bytes)
    → p + length src ≤ length b
    → Sized (length b) (write_at b p src)
write_at-Sized b p src h = (patch b p src, write_at_lem b p src h, length-patch b p src h)

write_full-Sized :
    (full msg : Bytes) (full_len index : ℕ)
    → index + 1 < length full
    → full_len < length full
    → Sized (length full) (write_full full msg full_len index)
unfolding write_full
write_full-Sized full msg full_len index h l =
    let (b₁, e₁, l₁) =
      write_at-Sized full 0 (take full_len msg) (omega (arith, length-take full_len msg)) in
    let (b₂, e₂, l₂) = write_at-Sized b₁ index (b' ' ∷ []) (omega arith) in
    let (b₃, e₃, l₃) = write_at-Sized b₂ (index + 1) (0 ∷ []) (omega arith) in
    let (b₄, e₄, l₄) = write_at-Sized b₃ full_len (0 ∷ []) (omega arith) in
    (b₄, rw (e₁, e₂, e₃) e₄, omega arith)

write_name-Sized :
    (name msg : Bytes) (len : ℕ) → len < length name → Sized (length name) (write_name name msg len)
unfolding write_name
write_name-Sized name msg len h =
    let (b₁, e₁, l₁) = write_at-Sized name 0 (take len msg) (omega (arith, length-take len msg)) in
    let (b₂, e₂, l₂) = write_at-Sized b₁ len (0 ∷ []) (omega arith) in (b₂, rw e₁ e₂, omega arith)

abbrev AtMost : Option ℕ → ℕ → Type 0
AtMost none n = Unit
AtMost (some i) n = i ≤ n

AtMost-space :
    (c n : ℕ) (space : Option ℕ)
    → AtMost space n
    → AtMost (elim space [ some i ↦ some i | none ↦ if is_space c then some n else none ]) (n + 1)
AtMost-space c n none h = elim (Bool-cases (is_space c)) [
  | inl e ↦ rw e (omega arith)
  | inr e ↦ rw e tt
]
AtMost-space c n (some i) h = omega arith

-- What the loop over the name counts: it goes through the text, and the first space it finds stands
-- in what it has gone through.
span_from_bounds :
    (s : Bytes) (n : ℕ) (space : Option ℕ)
    → AtMost space n
    → ((span_from n space s).name_len + length (span_from n space s).left ≡ n + length s)
      × AtMost (span_from n space s).first_space (span_from n space s).name_len
unfolding span_from
span_from_bounds [] n space h = (omega arith, h)
span_from_bounds (c ∷ s) n space h = elim (Bool-cases (c == b':')) [
  | inl e ↦ rw e (refl, h)
  | inr e ↦
      let (a, b) =
        span_from_bounds s (n + 1)
          (elim space [ some i ↦ some i | none ↦ if is_space c then some n else none ])
          (AtMost-space c n space h) in
      rw e (omega arith, b)
]

cut_index-le : (sp : Span) → AtMost sp.first_space sp.name_len → cut_index sp ≤ sp.name_len
cut_index-le sp h = ground arith

-- Where the message has a name, the cut is inside of it, and the text behind it is the rest.
pub behind_colon_bounds :
    (msg next : Bytes)
    → behind_colon (span msg) ≡ some next
    → cut_index (span msg) + 2 + length next ≤ length msg
unfolding behind_colon
behind_colon_bounds msg next e =
    let (a, b) = span_from_bounds msg 0 none tt in
    let cut = cut_index-le (span msg) b in let left = behind (span msg) next e in omega arith
  where
    behind :
        (sp : Span) (next : Bytes) → behind_colon sp ≡ some next → length sp.left ≡ length next + 2
    behind sp next e = ground arith

clamp-lt : (size n : ℕ) → 0 < size → clamp size n < size
clamp-lt size n h = ground arith

pub parse_msg_program-none :
    (full name msg : Bytes)
    → 0 < length full
    → 0 < length name
    → behind_colon (span msg) ≡ none
    → parse_msg_program full name msg ≡ done none
unfolding parse_msg_program
parse_msg_program-none full name msg room_full room_name no_name =
    let (full₀, e₀, _) = write_at-Sized full 0 (0 ∷ []) (omega arith) in
    let (name₀, f₀, _) = write_at-Sized name 0 (0 ∷ []) (omega arith) in rw (e₀, f₀, no_name) refl

-- A name whose cut leaves room for the space and a NUL in the large buffer.
pub parse_msg_program-some :
    (full name msg next : Bytes)
    → cut_index (span msg) + 1 < length full
    → 0 < length name
    → behind_colon (span msg) ≡ some next
    → (p : Program) × (parse_msg_program full name msg ≡ done (some p))
      × (p.next ≡ next)
      × (p.name_len ≡ cut_index (span msg))
      × (length p.full ≡ length full)
unfolding parse_msg_program
parse_msg_program-some full name msg next room room_name cut =
    let (full₀, e₀, l₀) = write_at-Sized full 0 (0 ∷ []) (omega arith) in
    let (name₀, f₀, k₀) = write_at-Sized name 0 (0 ∷ []) (omega arith) in
    let index = cut_index (span msg) in
    let (full₁, e₁, l₁) =
      write_full-Sized full₀ msg (clamp (length full) ((span msg).name_len + 2)) index (omega arith)
        (omega (arith, clamp-lt (length full) ((span msg).name_len + 2))) in
    let (name₁, f₁, _) =
      write_name-Sized name₀ msg (clamp (length name) index)
        (omega (arith, clamp-lt (length name) index)) in
    (
      record { next = next; full = full₁; name = name₁; name_len = index },
      rw (e₀, f₀, cut) (rw (e₁, f₁) refl),
      refl,
      refl,
      l₁ ∙ l₀,
    )
