-- ===== src/Util/Lock.antt =====
-- src/util.c: `LockProcess` and `UnlockProcess`, which let one daemon run at a time.
use pmlogdaemon.Base.{
  ℕ, ◌≡◌, ◌≢◌, inl, inr, refl, sym, subst, ◌∙◌, Bool, true, false, Option, none, some, [], ◌∷◌,
  ◌++◌, arith, Bytes, codes, take, if◌then◌else◌, Bool-cases, Option-cases,
}
use pmlogdaemon.Base.Int.{ℤ}
use pmlogdaemon.Base.Strtol.{decimal}

-- The system calls on the lock file, by a process and its number, with what the daemon relies on of
-- advisory locks: `holder` is the process that holds the lock of the file behind a name, `opens` the
-- name that a descriptor was opened at.
pub record Locks : Type 1 where
  pub State : Type 0
  pub Fd : Type 0
  pub holder : State → Bytes → Option ℕ
  pub opens : State → Fd → Option Bytes
  pub mkdir : Bytes → State → State
  -- `open` with O_RDWR and O_CREAT
  pub open_rw : Bytes → State → Option Fd × State
  -- `lockf` with F_TLOCK: whether the lock was taken
  pub lockf : ℕ → Fd → State → Bool × State
  pub ftruncate : Fd → State → Bool × State
  pub write : Fd → Bytes → State → ℤ × State
  pub close : ℕ → Fd → State → State
  pub unlink : Bytes → State → State
  pub mkdir_lem : (d p : Bytes) (s : State) → holder (mkdir d s) p ≡ holder s p
  pub open_lem :
      (p : Bytes) (s : State) (fd : Fd)
      → (open_rw p s).0 ≡ some fd
      → opens (open_rw p s).1 fd ≡ some p
  pub open_holder : (p j : Bytes) (s : State) → holder (open_rw p s).1 j ≡ holder s j
  pub lockf_taken :
      (me : ℕ) (fd : Fd) (p : Bytes) (s : State)
      → opens s fd ≡ some p
      → (lockf me fd s).0 ≡ true
      → (opens (lockf me fd s).1 fd ≡ some p) × (holder (lockf me fd s).1 p ≡ some me)
  pub lockf_refused :
      (me other : ℕ) (fd : Fd) (p : Bytes) (s : State)
      → opens s fd ≡ some p
      → holder s p ≡ some other
      → other ≢ me
      → ((lockf me fd s).0 ≡ false) × (holder (lockf me fd s).1 p ≡ some other)
  pub ftruncate_lem :
      (fd : Fd) (p : Bytes) (s : State)
      → (opens (ftruncate fd s).1 fd ≡ opens s fd) × (holder (ftruncate fd s).1 p ≡ holder s p)
  pub write_lem :
      (fd : Fd) (m p : Bytes) (s : State)
      → (opens (write fd m s).1 fd ≡ opens s fd) × (holder (write fd m s).1 p ≡ holder s p)
  -- a process that closes a file gives its lock back, and that of no other process
  pub close_own :
      (me : ℕ) (fd : Fd) (p : Bytes) (s : State)
      → opens s fd ≡ some p
      → holder s p ≡ some me
      → holder (close me fd s) p ≡ none
  pub close_other :
      (me other : ℕ) (fd : Fd) (p : Bytes) (s : State)
      → holder s p ≡ some other
      → other ≢ me
      → holder (close me fd s) p ≡ some other
  pub unlink_lem : (p : Bytes) (s : State) → holder s p ≡ none → holder (unlink p s) p ≡ none

-- `lock->path`: what `snprintf` leaves of it.
abbrev pub lock_path : Bytes → Bytes → Bytes
lock_path dir component = take 4095 (dir ++ (b'/' ∷ (component ++ codes ".pid")))

none-some {ℓ} : {A : Type ℓ} (a : A) → none ≡ some a → ⊥
none-some a e = ground (arith, e)

some_same {ℓ} : {A : Type ℓ} (a b : A) → some a ≡ some b → a ≡ b
some_same a b e = ground (arith, e)

module _ (L : Locks) where
  -- `LockFile`
  pub record LockFile : Type 0 where
    pub path : Bytes
    pub fd : L.Fd

  -- `LockProcess` of the process `me`: the lock, where it was taken. That the number could not be
  -- written is only printed.
  unfoldable pub lock_process : ℕ → Bytes → Bytes → L.State → Option LockFile × L.State
  lock_process me dir component s =
      let path = lock_path dir component in
      let (opened, s₁) = L.open_rw path (L.mkdir dir s) in
      elim opened [
        | none ↦ (none, s₁)
        | some fd ↦
            (let (taken, s₂) = L.lockf me fd s₁ in
              if taken
              then (
                some (record { path = path; fd = fd }),
                (L.write fd (take 15 (decimal me ++ b'\n' ∷ [])) (L.ftruncate fd s₂).1).1,
              )
              else (none, L.close me fd s₂))
      ]

  -- `UnlockProcess`
  unfoldable pub unlock_process : ℕ → LockFile → L.State → L.State
  unlock_process me lock s = L.unlink lock.path (L.close me lock.fd s)

  -- What the process that took the lock has.
  pub record Holds (me : ℕ) (dir component : Bytes) (lock : LockFile) (s : L.State) : Type 0 where
    pub path : lock.path ≡ lock_path dir component
    pub opened : L.opens s lock.fd ≡ some (lock_path dir component)
    pub held : L.holder s (lock_path dir component) ≡ some me

  -- The branch that takes the lock.
  taken-Holds :
      (me : ℕ) (dir component : Bytes) (s : L.State) (fd : L.Fd)
      → (L.open_rw (lock_path dir component) (L.mkdir dir s)).0 ≡ some fd
      → (L.lockf me fd (L.open_rw (lock_path dir component) (L.mkdir dir s)).1).0 ≡ true
      → ((lock_process me dir component s).0
          ≡ some (record { path = lock_path dir component; fd = fd }))
        × Holds me dir component
            (record { path = lock_path dir component; fd = fd })
            (lock_process me dir component s).1
  unfolding lock_process
  taken-Holds me dir component s fd opened taken =
      let p = lock_path dir component in
      let s₁ = (L.open_rw p (L.mkdir dir s)).1 in
      let s₂ = (L.lockf me fd s₁).1 in
      let s₃ = (L.ftruncate fd s₂).1 in
      let (leads, held) = L.lockf_taken me fd p s₁ (L.open_lem p (L.mkdir dir s) fd opened) taken in
      let (kept, locked) = L.ftruncate_lem fd p s₂ in
      let (still, own) = L.write_lem fd (take 15 (decimal me ++ b'\n' ∷ [])) p s₃ in
      rw (lock_process, opened, taken)
        (refl, record { path = refl; opened = still ∙ kept ∙ leads; held = own ∙ locked ∙ held })

  lock_process-Holds :
      (me : ℕ) (dir component : Bytes) (s : L.State) (lock : LockFile)
      → (lock_process me dir component s).0 ≡ some lock
      → Holds me dir component lock (lock_process me dir component s).1
  unfolding lock_process
  lock_process-Holds me dir component s lock e =
      let p = lock_path dir component in
      elim (Option-cases (L.open_rw p (L.mkdir dir s)).0) [
        | inl failed ↦ absurd (none-some lock (rw (lock_process, failed) at e))
        | inr (fd, opened) ↦ elim (Bool-cases (L.lockf me fd (L.open_rw p (L.mkdir dir s)).1).0) [
          | inr refused ↦ absurd (none-some lock (rw (lock_process, opened, refused) at e))
          | inl taken ↦
              let (out, h) = taken-Holds me dir component s fd opened taken in
              let same : record { path = p; fd = fd } ≡ lock = some_same _ lock (sym out ∙ e) in
              subst (λ l. Holds me dir component l (lock_process me dir component s).1) same h
        ]
      ]

  lock_process-refused :
      (me other : ℕ) (dir component : Bytes) (s : L.State)
      → L.holder s (lock_path dir component) ≡ some other
      → other ≢ me
      → ((lock_process me dir component s).0 ≡ none)
        × (L.holder (lock_process me dir component s).1 (lock_path dir component) ≡ some other)
  unfolding lock_process
  lock_process-refused me other dir component s held ne =
      let p = lock_path dir component in
      let s₁ = (L.open_rw p (L.mkdir dir s)).1 in
      let still : L.holder s₁ p ≡ some other =
        L.open_holder p p (L.mkdir dir s) ∙ L.mkdir_lem dir p s ∙ held in
      elim (Option-cases (L.open_rw p (L.mkdir dir s)).0) [
        | inl failed ↦ rw (lock_process, failed) (refl, still)
        | inr (fd, opened) ↦
            let (refused, kept) =
              L.lockf_refused me other fd p s₁ (L.open_lem p (L.mkdir dir s) fd opened) still ne in
            rw (lock_process, opened, refused)
              (refl, L.close_other me other fd p (L.lockf me fd s₁).1 kept ne)
      ]

  -- Once a process has taken the lock, another process that asks for it is refused, and the first
  -- still holds it; when the first gives it back, no process holds it.
  pub lock_process-excludes :
      (me other : ℕ) (dir component : Bytes) (s : L.State) (lock : LockFile)
      → me ≢ other
      → (lock_process me dir component s).0 ≡ some lock
      → ((lock_process other dir component (lock_process me dir component s).1).0 ≡ none)
        × (L.holder
              (lock_process other dir component (lock_process me dir component s).1).1
              (lock_path dir component)
            ≡ some me)
        × (L.holder
              (unlock_process me lock (lock_process me dir component s).1)
              (lock_path dir component)
            ≡ none)
  unfolding unlock_process
  lock_process-excludes me other dir component s lock ne e =
      let s' = (lock_process me dir component s).1 in
      let p = lock_path dir component in
      let h = lock_process-Holds me dir component s lock e in
      let (refused, kept) = lock_process-refused other me dir component s' h.held ne in
      (
        refused,
        kept,
        subst (λ q. L.holder (L.unlink q (L.close me lock.fd s')) p ≡ none) (sym h.path)
            (L.unlink_lem p (L.close me lock.fd s') (L.close_own me lock.fd p s' h.opened h.held)),
      )
