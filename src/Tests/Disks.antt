-- ===== src/Tests/Disks.antt =====
-- A disk whose files are a function, for the runs of the model: its descriptors are the names of the
-- files they were opened at, and it compresses nothing.
use pmlogdaemon.Base.{
  ℕ, ◌≡◌, refl, inr, ◌⊎◌, ◌∙◌, true, Option, none, some, [], ◌++◌, arith, Bytes, length, take, drop,
  take_all, str_eq, ◌==◌, if◌then◌else◌, ap, subst, str_eq_same, take-append-drop,
}
use pmlogdaemon.Base.Int.{ℤ, pos, pos_part}
use pmlogdaemon.Disk.{Disk, Stat, bytes_of}
use pmlogdaemon.Rotation.Append.{Writes}
use pmlogdaemon.Rotation.Cleanup.{Removes}
use pmlogdaemon.Rotation.Shift.{Renames}

pub record Files : Type 0 where
  pub at : Bytes → Option Bytes
  pub left : Bytes → Bytes

abbrev put : Bytes → Option Bytes → Files → Files
put p o s = record s { at = λ j. if str_eq p j then o else s.at j }

abbrev move : Bytes → Bytes → Files → Files
move a b s = record s {
  at = λ j. if str_eq b j then s.at a else if str_eq a j then none else s.at j;
}

abbrev regular : Bytes → Stat
regular b = record { is_regular = true; size = length b }

abbrev stat_of : Option Bytes → Option Stat
stat_of none = none
stat_of (some b) = some (regular b)

abbrev append : Bytes → Bytes → Option Bytes → Files → ℤ × ℕ × Files
append fd m none s = (pos (length m), 0, s)
append fd m (some b) s = (pos (length m), 0, put fd (some (b ++ m)) s)

abbrev if_there : Option Bytes → Files → Files → ℕ × Files
if_there none s s' = (2, s)
if_there (some b) s s' = (0, s')

abbrev stream : Bytes → Option Bytes → Files → Option Bytes × Files
stream p none s = (none, s)
stream p (some b) s = (some p, record s { left = λ fd. if str_eq p fd then b else s.left fd })

pub if_there_lem :
    (o : Option Bytes) (s s' : Files) (j : Bytes)
    → (if_there o s s').1.at j ≡ (if (if_there o s s').0 == 0 then s'.at j else s.at j)
if_there_lem none s s' j = refl
if_there_lem (some b) s s' j = refl

pub append_lem :
    (fd m b : Bytes) (o : Option Bytes) (s : Files) (j : Bytes)
    → o ≡ some b
    → (append fd m o s).2.at j
      ≡ (if str_eq fd j then some (b ++ take (pos_part (append fd m o s).0) m) else s.at j)
append_lem fd m b o s j e = rw (e, take_all m (length m) (omega arith)) refl

pub some_same : (a b : Bytes) → some a ≡ some b → a ≡ b
some_same a b e = ground (arith, e)

abbrev pub as_fd : Bytes → ℕ ⊎ Bytes
as_fd = inr

pub descriptor_same : (a b : Bytes) → as_fd a ≡ as_fd b → b ≡ a
descriptor_same a b e = ground (arith, e)

abbrev pub disk : Disk
disk = record {
  State = Files;
  Fd = Bytes;
  contents = λ s. s.at;
  opens = λ s fd. some fd;
  unread = λ s. s.left;
  open_append = λ p s. (inr p, put p (some (bytes_of (s.at p))) s);
  lock = λ fd s. s;
  unlock = λ fd s. s;
  stat = λ p s. stat_of (s.at p);
  fstat = λ p s. stat_of (s.at p);
  write = λ fd m s. append fd m (s.at fd) s;
  close = λ fd s. s;
  rename = λ a b s. if_there (s.at a) s (move a b s);
  remove = λ p s. if_there (s.at p) s (put p none s);
  mkstemp = λ p s. (some (p, p), put p (some []) s);
  fopen = λ p s. stream p (s.at p) s;
  fread = λ fd n s. (
    take n (s.left fd),
    record s { left = λ j. if str_eq fd j then drop n (s.left fd) else s.left j },
  );
  gzopen = λ p s. (some p, put p (some []) s);
  gzwrite = λ z m s. (pos (length m), put z (some (bytes_of (s.at z) ++ m)) s);
  gzclose = λ z s. s;
  rename_lem = λ a b j s. if_there_lem (s.at a) s (move a b s) j;
  rename_missing = λ a b s e. rw e refl;
  remove_lem = λ p j s. if_there_lem (s.at p) s (put p none s) j;
  open_lem = λ p s fd e. (ap some (descriptor_same p fd e), λ j. refl);
  lock_lem = λ fd s. (refl, λ j. refl);
  unlock_lem = λ fd s j. refl;
  close_lem = λ fd s j. refl;
  fstat_lem = λ fd s p b e h. let same = some_same fd p e in rw (same, h) refl;
  write_lem = λ fd m s p b e h j.
      let same = some_same fd p e in
      subst
        (λ q. (append fd m (s.at fd) s).2.at j ≡ (
          if str_eq q j then some (b ++ take (pos_part (append fd m (s.at fd) s).0) m) else s.at j))
        same (append_lem fd m b (s.at fd) s j (ap s.at same ∙ h));
  fread_lem = λ fd n s. rw (str_eq_same fd) (take-append-drop n (s.left fd));
  gzwrite_lem = λ z fd m s. refl;
}

pub disk-Renames : Renames disk
disk-Renames = record { works = λ a b x s e. rw e refl }

pub disk-Removes : Removes disk
disk-Removes = record { works = λ p x s e. rw e refl }

writes : (fd m : Bytes) (o : Option Bytes) (s : Files) → (append fd m o s).0 ≡ pos (length m)
writes fd m none s = refl
writes fd m (some b) s = refl

pub disk-Writes : Writes disk
disk-Writes = record { opened = λ p s. (p, refl); written = λ fd m s. writes fd m (s.at fd) s }
