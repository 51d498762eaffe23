-- ===== src/Disk.antt =====
-- The system calls on files that src/main.c uses, with what it relies on of them, over a state that
-- only they change. `contents` is the file behind a name, none where there is no such name; `opens`
-- is the name that a descriptor was opened at and still leads to; `unread` is what a stream has left.
use pmlogdaemon.Base.{
  ℕ, ◌≡◌, ◌⊎◌, inr, Bool, true, false, Option, none, some, [], ◌++◌, Bytes, length, take, str_eq,
  ◌==◌, if◌then◌else◌,
}
use pmlogdaemon.Base.Int.{ℤ, pos_part}

-- `st_mode` as `S_ISREG` reads it, and `st_size`.
pub record Stat : Type 0 where
  pub is_regular : Bool
  pub size : ℕ

abbrev pub bytes_of : Option Bytes → Bytes
bytes_of none = []
bytes_of (some b) = b

pub record Disk : Type 1 where
  pub State : Type 0
  pub Fd : Type 0
  pub contents : State → Bytes → Option Bytes
  pub opens : State → Fd → Option Bytes
  pub unread : State → Fd → Bytes
  -- `open` with O_WRONLY, O_CREAT and O_APPEND: an error number, or a descriptor
  pub open_append : Bytes → State → (ℕ ⊎ Fd) × State
  pub lock : Fd → State → State
  pub unlock : Fd → State → State
  pub stat : Bytes → State → Option Stat
  pub fstat : Fd → State → Option Stat
  -- what `write` returns, and `errno`
  pub write : Fd → Bytes → State → ℤ × ℕ × State
  pub close : Fd → State → State
  -- 0, or an error number
  pub rename : Bytes → Bytes → State → ℕ × State
  pub remove : Bytes → State → ℕ × State
  pub mkstemp : Bytes → State → Option (Bytes × Fd) × State
  pub fopen : Bytes → State → Option Fd × State
  pub fread : Fd → ℕ → State → Bytes × State
  pub gzopen : Bytes → State → Option Fd × State
  pub gzwrite : Fd → Bytes → State → ℤ × State
  pub gzclose : Fd → State → State
  pub rename_lem :
      (a b j : Bytes) (s : State)
      → contents (rename a b s).1 j ≡ (
          if (rename a b s).0 == 0
          then (if str_eq b j then contents s a else if str_eq a j then none else contents s j)
          else contents s j)
  pub rename_missing :
      (a b : Bytes) (s : State) → contents s a ≡ none → ((rename a b s).0 == 0) ≡ false
  pub remove_lem :
      (p j : Bytes) (s : State)
      → contents (remove p s).1 j ≡ (
          if (remove p s).0 == 0 then (if str_eq p j then none else contents s j) else contents s j)
  pub open_lem :
      (p : Bytes) (s : State) (fd : Fd)
      → (open_append p s).0 ≡ inr fd
      → (opens (open_append p s).1 fd ≡ some p)
        × ((j : Bytes)
            → contents (open_append p s).1 j
              ≡ (if str_eq p j then some (bytes_of (contents s p)) else contents s j))
  pub lock_lem :
      (fd : Fd) (s : State)
      → (opens (lock fd s) fd ≡ opens s fd) × ((j : Bytes) → contents (lock fd s) j ≡ contents s j)
  pub unlock_lem : (fd : Fd) (s : State) (j : Bytes) → contents (unlock fd s) j ≡ contents s j
  pub close_lem : (fd : Fd) (s : State) (j : Bytes) → contents (close fd s) j ≡ contents s j
  pub fstat_lem :
      (fd : Fd) (s : State) (p b : Bytes)
      → opens s fd ≡ some p
      → contents s p ≡ some b
      → fstat fd s ≡ some (record { is_regular = true; size = length b })
  pub write_lem :
      (fd : Fd) (m : Bytes) (s : State) (p b : Bytes)
      → opens s fd ≡ some p
      → contents s p ≡ some b
      → (j : Bytes)
      → contents (write fd m s).2 j
        ≡ (if str_eq p j then some (b ++ take (pos_part (write fd m s).0) m) else contents s j)
  pub fread_lem :
      (fd : Fd) (n : ℕ) (s : State) → (fread fd n s).0 ++ unread (fread fd n s).1 fd ≡ unread s fd
  pub gzwrite_lem : (z fd : Fd) (m : Bytes) (s : State) → unread (gzwrite z m s).1 fd ≡ unread s fd
