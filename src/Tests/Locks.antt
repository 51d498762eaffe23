-- ===== src/Tests/Locks.antt =====
-- Runs of the process lock of src/util.c.
use pmlogdaemon.Base.{
  ℕ, ◌≡◌, ◌≢◌, refl, sym, Bool, true, false, Option, none, some, arith, Bytes, codes, length, ◌==◌,
  if◌then◌else◌,
}
use pmlogdaemon.Base.Int.{pos}
use pmlogdaemon.Util.Lock.{
  Locks, LockFile, lock_path, lock_process, unlock_process, lock_process-excludes,
}

-- One lock file, whose state is the process that holds its lock; a descriptor is the name.
abbrev pub take_lock : ℕ → Option ℕ → Bool × Option ℕ
take_lock me none = (true, some me)
take_lock me (some other) = if me == other then (true, some me) else (false, some other)

abbrev pub give_back : ℕ → Option ℕ → Option ℕ
give_back me none = none
give_back me (some other) = if me == other then none else some other

pub take_lock_taken :
    (me : ℕ) (s : Option ℕ) → (take_lock me s).0 ≡ true → (take_lock me s).1 ≡ some me
take_lock_taken me none e = refl
take_lock_taken me (some other) e = ground (arith, e)

pub take_lock_refused :
    (me other : ℕ) (s : Option ℕ)
    → s ≡ some other
    → other ≢ me
    → ((take_lock me s).0 ≡ false) × ((take_lock me s).1 ≡ some other)
take_lock_refused me other s e ne = rw e (ground arith)

pub give_back_own : (me : ℕ) (s : Option ℕ) → s ≡ some me → give_back me s ≡ none
give_back_own me s e = rw e (ground arith)

pub give_back_other :
    (me other : ℕ) (s : Option ℕ) → s ≡ some other → other ≢ me → give_back me s ≡ some other
give_back_other me other s e ne = rw e (ground arith)

abbrev locks : Locks
locks = record {
  State = Option ℕ;
  Fd = Bytes;
  holder = λ s p. s;
  opens = λ s fd. some fd;
  mkdir = λ d s. s;
  open_rw = λ p s. (some p, s);
  lockf = λ me fd s. take_lock me s;
  ftruncate = λ fd s. (true, s);
  write = λ fd m s. (pos (length m), s);
  close = λ me fd s. give_back me s;
  unlink = λ p s. s;
  mkdir_lem = λ d p s. refl;
  open_lem = λ p s fd e. sym e;
  open_holder = λ p j s. refl;
  lockf_taken = λ me fd p s e h. (e, take_lock_taken me s h);
  lockf_refused = λ me other fd p s e h ne. take_lock_refused me other s h ne;
  ftruncate_lem = λ fd p s. (refl, refl);
  write_lem = λ fd m p s. (refl, refl);
  close_own = λ me fd p s e h. give_back_own me s h;
  close_other = λ me other fd p s h ne. give_back_other me other s h ne;
  unlink_lem = λ p s h. h;
}

abbrev dir : Bytes
dir = codes "/run"

abbrev component : Bytes
component = codes "PmLogDaemon"

abbrev lock : LockFile locks
lock = record { path = lock_path dir component; fd = lock_path dir component }

taken : (lock_process locks 7 dir component none).0 ≡ some lock
unfolding lock_process
taken = refl

lock_process-excludes_example :
    ((lock_process locks 8 dir component (lock_process locks 7 dir component none).1).0 ≡ none)
    × (locks.holder
          (lock_process locks 8 dir component (lock_process locks 7 dir component none).1).1
          (lock_path dir component)
        ≡ some 7)
    × (locks.holder
          (unlock_process locks 7 lock (lock_process locks 7 dir component none).1)
          (lock_path dir component)
        ≡ none)
lock_process-excludes_example =
    lock_process-excludes locks 7 8 dir component none lock (omega arith) taken
