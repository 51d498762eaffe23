-- ===== src/Config/Token.antt =====
-- src/config.c: `GetTokenToSep`.
use pmlogdaemon.Base.{
  ℕ, zero, suc, ◌-◌, ◌≡◌, Bool, true, false, ◌||◌, [], ◌∷◌, ◌++◌, arith, Bytes, take, leb, ◌==◌,
  if◌then◌else◌,
}

-- `strchr(terminators, c) != NULL`, for a byte that is not NUL
abbrev pub mem_byte : ℕ → Bytes → Bool
mem_byte c [] = false
mem_byte c (d ∷ s) = d == c || mem_byte c s

-- The token, the terminator (0 at the end of the string) and what stands behind it.
pub record Token : Type 0 where
  pub token : Bytes
  pub terminator : ℕ
  pub rest : Bytes

-- The loop, with the bytes that the buffer still takes before its NUL: bytes beyond are dropped.
unfoldable pub get_token_from : ℕ → Bytes → Bytes → Token
get_token_from free terminators [] = record { token = []; terminator = 0; rest = [] }
get_token_from free terminators (c ∷ s) =
    let r = get_token_from (free - 1) terminators s in
    if mem_byte c terminators
    then record { token = []; terminator = c; rest = s }
    else record r { token = if leb 1 free then c ∷ r.token else r.token }

-- `GetTokenToSep`, for a buffer of the given size.
unfoldable pub get_token_to_sep : ℕ → Bytes → Bytes → Token
unfolding get_token_from
get_token_to_sep size terminators s = get_token_from (size - 1) terminators s

-- No byte of the string ends a token.
abbrev pub AllInside : Bytes → Bytes → Type 0
AllInside terminators [] = Unit
AllInside terminators (c ∷ s) = (mem_byte c terminators ≡ false) × AllInside terminators s

-- What stands behind a token: the end of the string, or a terminator.
abbrev pub Ends : Bytes → Bytes → ℕ → Bytes → Type 0
Ends terminators [] c rest = (c ≡ 0) × (rest ≡ [])
Ends terminators (d ∷ s) c rest = (mem_byte d terminators ≡ true) × (c ≡ d) × (rest ≡ s)

get_token_from_lem :
    (free : ℕ) (terminators t s rest : Bytes) (c : ℕ)
    → AllInside terminators t
    → Ends terminators s c rest
    → get_token_from free terminators (t ++ s)
      ≡ record { token = take free t; terminator = c; rest = rest }
unfolding get_token_from
get_token_from_lem zero terminators [] [] rest c h e = ground arith
get_token_from_lem zero terminators [] (d ∷ s) rest c h e = ground arith
get_token_from_lem (suc free) terminators [] [] rest c h e = ground arith
get_token_from_lem (suc free) terminators [] (d ∷ s) rest c h e = ground arith
get_token_from_lem zero terminators (d ∷ t) s rest c h e =
    ground (arith, get_token_from_lem zero terminators t s rest c h.1 e)
get_token_from_lem (suc free) terminators (d ∷ t) s rest c h e =
    let one : suc free - 1 ≡ free = omega arith in
    rw (one, h.0, get_token_from_lem free terminators t s rest c h.1 e) (ground arith)

-- The token is all that stands before the first terminator or the end, cut to its buffer; the
-- terminator is the byte there, or 0 at the end; and reading goes on behind it.
pub get_token_to_sep_lem :
    (size : ℕ) (terminators t s rest : Bytes) (c : ℕ)
    → AllInside terminators t
    → Ends terminators s c rest
    → get_token_to_sep size terminators (t ++ s)
      ≡ record { token = take (size - 1) t; terminator = c; rest = rest }
unfolding get_token_to_sep
get_token_to_sep_lem size terminators t s rest c =
    get_token_from_lem (size - 1) terminators t s rest c
