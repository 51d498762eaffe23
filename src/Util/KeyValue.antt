-- ===== src/Util/KeyValue.antt =====
-- src/util.c: `ParseKeyValue`.
use pmlogdaemon.Base.{
  ℕ, ◌<◌, ◌≡◌, ◌≢◌, ◌↔◌, ap, ◌∙◌, Bool, true, false, Option, none, some, [], ◌∷◌, ◌++◌, arith,
  Bytes, length, leb, ◌==◌, if◌then◌else◌,
}

-- `strchr(s, c)`: what stands before the first `c`, and what stands behind it.
unfoldable pub str_chr : ℕ → Bytes → Option (Bytes × Bytes)
str_chr c [] = none
str_chr c (d ∷ s) =
    if d == c
    then some ([], s)
    else elim (str_chr c s) [ none ↦ none | some (before, behind) ↦ some (d ∷ before, behind) ]

-- What `ParseKeyValue` returns, and what it has stored in either buffer (none: left alone).
pub record KeyValue : Type 0 where
  pub ok : Bool
  pub key : Option Bytes
  pub value : Option Bytes

abbrev refused : KeyValue
refused = record { ok = false; key = none; value = none }

-- `ParseKeyValue`, for buffers of the given sizes.
unfoldable pub parse_key_value : Bytes → ℕ → ℕ → KeyValue
parse_key_value arg key_size val_size = elim (str_chr b'=' arg) [
  | none ↦ refused
  | some (key, value) ↦
      if length key == 0
      then refused
      else if leb key_size (length key)
      then refused
      else if leb val_size (length value)
      then record { ok = false; key = some key; value = none }
      else record { ok = true; key = some key; value = some value }
]

-- No byte of the string is `c`.
abbrev pub Lacks : ℕ → Bytes → Type 0
Lacks c [] = Unit
Lacks c (d ∷ s) = (d ≢ c) × Lacks c s

pub str_chr_first :
    (c : ℕ) (before behind : Bytes)
    → Lacks c before
    → str_chr c (before ++ (c ∷ behind)) ≡ some (before, behind)
unfolding str_chr
str_chr_first c [] behind h = ground arith
str_chr_first c (d ∷ before) behind h = ground (arith, str_chr_first c before behind h.1)

-- What `str_chr` finds is a split at the first `c`.
abbrev Splits : ℕ → Bytes → Option (Bytes × Bytes) → Type 0
Splits c s none = Unit
Splits c s (some (before, behind)) = Lacks c before × (s ≡ before ++ (c ∷ behind))

str_chr-Splits : (c : ℕ) (s : Bytes) → Splits c s (str_chr c s)
unfolding str_chr
str_chr-Splits c [] = tt
str_chr-Splits c (d ∷ s) = extend (str_chr c s) (str_chr-Splits c s)
  where
    extend :
        (o : Option (Bytes × Bytes))
        → Splits c s o
        → Splits c (d ∷ s) (
            if d == c
            then some ([], s)
            else elim o [ none ↦ none | some (before, behind) ↦ some (d ∷ before, behind) ])
    extend none h = ground arith
    extend (some (before, behind)) h = ground arith

str_chr_inv :
    (c : ℕ) (s : Bytes) {before behind : Bytes}
    → str_chr c s ≡ some (before, behind)
    → Lacks c before × (s ≡ before ++ (c ∷ behind))
str_chr_inv c s e = rw e at (str_chr-Splits c s)

-- The call accepts exactly the strings KEY=VALUE whose key is not empty, has no `=` and fits its
-- buffer with a NUL, and whose value does so too; it then stores the two parts as they stand.
pub parse_key_value_iff :
    (arg : Bytes) (key_size val_size : ℕ) (key value : Bytes)
    → (parse_key_value arg key_size val_size
        ≡ record { ok = true; key = some key; value = some value })
      ↔ ((arg ≡ key ++ (b'=' ∷ value))
          × Lacks b'=' key
          × (0 < length key)
          × (length key < key_size)
          × (length value < val_size))
unfolding parse_key_value
parse_key_value_iff arg key_size val_size key value = (there, back)
  where
    there :
        parse_key_value arg key_size val_size
          ≡ record { ok = true; key = some key; value = some value }
        → (arg ≡ key ++ (b'=' ∷ value))
          × Lacks b'=' key
          × (0 < length key)
          × (length key < key_size)
          × (length value < val_size)
    there e =
        let found : str_chr b'=' arg ≡ some (key, value) = ground arith in
        let (l, split) = str_chr_inv b'=' arg found in
        (split, l, ground arith, ground arith, ground arith)

    back :
        ((arg ≡ key ++ (b'=' ∷ value))
          × Lacks b'=' key
          × (0 < length key)
          × (length key < key_size)
          × (length value < val_size))
        → parse_key_value arg key_size val_size
          ≡ record { ok = true; key = some key; value = some value }
    back (split, l, some_key, key_fits, value_fits) =
        let found : str_chr b'=' arg ≡ some (key, value) =
          ap (str_chr b'=') split ∙ str_chr_first b'=' key value l in
        ground arith
