-- ===== src/Rotation/Append.antt =====
-- What `WriteToLogFile` leaves in the log and in its rotated files, on a disk that is in order.
use pmlogdaemon.Base.{
  ℕ, suc, ◌+◌, ◌%◌, ◌^◌, ◌≤◌, ◌<◌, ◌≡◌, inl, inr, refl, ap, ◌∙◌, Bool, true, false, some, [], ◌∷◌,
  ◌++◌, arith, Bytes, length, take, take_all, str_eq, str_eq_same, leb, ◌==◌, if◌then◌else◌,
  Bool-cases,
}
use pmlogdaemon.Base.Int.{pos, eqb_ℤ_iff, leb_ℤ, pos_part}
use pmlogdaemon.Conf.{LogFile}
use pmlogdaemon.Disk.{Disk, bytes_of}
use pmlogdaemon.Rotation.{
  World, compress, path_0, path_room, size_of_int, do_rotate_log_file, rotate_log_file, write_out,
  leave, write_from, write_to_log_file,
}
use pmlogdaemon.Rotation.Names.{slot, path-slot, path-path_0}
use pmlogdaemon.Rotation.Shift.{Renames, shifted, shifted-cong, do_rotate_log_file-shifted}

-- A disk that opens and writes what it is asked to.
pub record Writes (D : Disk) : Type 0 where
  pub opened : (p : Bytes) (s : D.State) → (fd : D.Fd) × ((D.open_append p s).0 ≡ inr fd)
  pub written : (fd : D.Fd) (m : Bytes) (s : D.State) → (D.write fd m s).0 ≡ pos (length m)

module _ (D : Disk) where
  -- What a write finds in the log.
  abbrev pub base_of : LogFile → World D → Bytes
  base_of f w = bytes_of (D.contents w.disk f.path)

  -- A call that has added `p` behind `base` in the log, and touched no other file and no task.
  pub record Appended (f : LogFile) (p base : Bytes) (w w' : World D) : Type 0 where
    pub file : D.contents w'.disk f.path ≡ some (base ++ p)
    pub others : (j : Bytes) → str_eq f.path j ≡ false → D.contents w'.disk j ≡ D.contents w.disk j
    pub tasks : w'.tasks ≡ w.tasks
    pub subscriptions : w'.subscriptions ≡ w.subscriptions

module _ (D : Disk) (sound : Writes D) where
  -- The end of a round: the descriptor still leads to the log.
  write_out-Appended :
      (f : LogFile) (p base : Bytes) (fd : D.Fd) (w : World D)
      → D.opens w.disk fd ≡ some f.path
      → D.contents w.disk f.path ≡ some base
      → ((write_out D fd p w).0 ≡ 0) × Appended D f p base w (leave D fd (write_out D fd p w).1)
  unfolding write_out
  write_out-Appended f p base fd w here there =
      let s = (D.write fd p w.disk).2 in
      let n : (D.write fd p w.disk).0 ≡ pos (length p) = sound.written fd p w.disk in
      let after : (j : Bytes)
          → D.contents (D.close fd (D.unlock fd s)) j ≡ (
              if str_eq f.path j
              then some (base ++ take (pos_part (D.write fd p w.disk).0) p)
              else D.contents w.disk j) =
        λ j.
          D.close_lem fd (D.unlock fd s) j
          ∙ D.unlock_lem fd s j
          ∙ D.write_lem fd p w.disk f.path base here there j in
      (
        rw n (rw ((eqb_ℤ_iff (pos (length p)) (pos (length p))).1 refl) refl),
        record {
          file =
              after f.path ∙ rw (str_eq_same f.path, n, take_all p (length p) (omega arith)) refl;
          others = λ j apart. after j ∙ rw apart refl;
          tasks = refl;
          subscriptions = refl;
        },
      )

  abbrev locked : LogFile → World D → D.Fd → World D
  locked f w fd = record w { disk = D.lock fd (D.open_append f.path w.disk).1 }

  -- What `open` and the lock make of the disk.
  record Opened (f : LogFile) (w : World D) (fd : D.Fd) : Type 0 where
    found : (D.open_append f.path w.disk).0 ≡ inr fd
    leads : D.opens (locked f w fd).disk fd ≡ some f.path
    holds :
        (j : Bytes)
        → D.contents (locked f w fd).disk j ≡ (
            if str_eq f.path j
            then some (bytes_of (D.contents w.disk f.path))
            else D.contents w.disk j)

  open-Opened : (f : LogFile) (w : World D) → (fd : D.Fd) × Opened f w fd
  open-Opened f w =
      let (fd, e) = sound.opened f.path w.disk in
      let s = (D.open_append f.path w.disk).1 in
      let (leads, holds) = D.open_lem f.path w.disk fd e in
      let (kept, same) = D.lock_lem fd s in
      (fd, record { found = e; leads = kept ∙ leads; holds = λ j. same j ∙ holds j })

  holds_log :
      (f : LogFile) (w : World D) (fd : D.Fd)
      → Opened f w fd
      → D.contents (locked f w fd).disk f.path ≡ some (base_of D f w)
  holds_log f w fd o = o.holds f.path ∙ rw (str_eq_same f.path) refl

  -- A round that does not rotate.
  round-Appended :
      (fuel : ℕ) (did : Bool) (f : LogFile) (p : Bytes) (w : World D) (fd : D.Fd)
      → Opened f w fd
      → (if did
          then some (false, locked f w fd)
          else rotate_log_file D f fd (length p) (locked f w fd))
        ≡ some (false, locked f w fd)
      → (w' : World D) × (write_from D (suc fuel) did f p w ≡ some (0, w'))
        × Appended D f p (base_of D f w) w w'
  unfolding write_from
  round-Appended fuel did f p w fd o stays =
      let w₁ = locked f w fd in
      let (e, x) = write_out-Appended f p (base_of D f w) fd w₁ o.leads (holds_log f w fd o) in
      let w' = leave D fd (write_out D fd p w₁).1 in
      (
        w',
        rw (write_from, o.found, stays) (ap (λ n. some (n, w')) e),
        record {
          file = x.file;
          others = λ j apart. x.others j apart ∙ o.holds j ∙ rw apart refl;
          tasks = x.tasks;
          subscriptions = x.subscriptions;
        },
      )

  -- `RotateLogFile` on a descriptor that leads to the log.
  rotate_log_file-fits :
      (f : LogFile) (fd : D.Fd) (n : ℕ) (w : World D) (base : Bytes)
      → D.opens w.disk fd ≡ some f.path
      → D.contents w.disk f.path ≡ some base
      → leb ((length base + n) % 2 ^ 64) (size_of_int f.max_size) ≡ true
      → rotate_log_file D f fd n w ≡ some (false, w)
  unfolding rotate_log_file
  rotate_log_file-fits f fd n w base leads there fits =
      elim (Bool-cases (leb_ℤ f.rotations (pos 0))) [
        | inl off ↦ rw (rotate_log_file, off) refl
        | inr on ↦
            rw (rotate_log_file, on, D.fstat_lem fd w.disk f.path base leads there, fits) refl
      ]

  rotate_log_file-full :
      (f : LogFile) (fd : D.Fd) (n : ℕ) (w : World D) (base : Bytes)
      → D.opens w.disk fd ≡ some f.path
      → D.contents w.disk f.path ≡ some base
      → leb_ℤ f.rotations (pos 0) ≡ false
      → leb ((length base + n) % 2 ^ 64) (size_of_int f.max_size) ≡ false
      → rotate_log_file D f fd n w ≡ do_rotate_log_file D f true w
  unfolding rotate_log_file
  rotate_log_file-full f fd n w base leads there on full =
      rw (rotate_log_file, on, D.fstat_lem fd w.disk f.path base leads there, full) refl

  -- On a disk that opens and writes what it is asked to, a message that is not empty and fits in the
  -- log is added behind what the log holds, which is made if it is not there; no other file and no
  -- task changes, and the result is 0.
  pub write_to_log_file-Appended :
      (f : LogFile) (p : Bytes) (w : World D)
      → 0 < length p
      → leb ((length (base_of D f w) + length p) % 2 ^ 64) (size_of_int f.max_size) ≡ true
      → (w' : World D) × (write_to_log_file D f p w ≡ some (0, w'))
        × Appended D f p (base_of D f w) w w'
  unfolding write_to_log_file
  write_to_log_file-Appended f p w some_text fits =
      let (fd, o) = open-Opened f w in
      let (w', e, x) = round-Appended 1 false f p w fd o (
        rotate_log_file-fits f fd (length p) (locked f w fd) (base_of D f w) o.leads
          (holds_log f w fd o) fits) in
      let text : (length p == 0) ≡ false = ground arith in (w', rw text e, x)

  -- The round behind a rotation.
  last :
      (f : LogFile) (p : Bytes) (w : World D)
      → (w' : World D) × (write_from D 1 true f p w ≡ some (0, w'))
        × Appended D f p (base_of D f w) w w'
  last f p w = let (fd, o) = open-Opened f w in round-Appended 0 true f p w fd o refl

  -- The round that rotates.
  first :
      (f : LogFile) (p : Bytes) (w : World D) (fd : D.Fd) (w₂ : World D)
      → Opened f w fd
      → rotate_log_file D f fd (length p) (locked f w fd) ≡ some (true, w₂)
      → write_from D 2 false f p w ≡ write_from D 1 true f p (leave D fd w₂)
  unfolding write_from
  first f p w fd w₂ o turn = rw (write_from, o.found, turn) refl

  -- On a disk that opens and writes what it is asked to and renames what is there, a message that is
  -- not empty and does not fit in a log with at least one rotation, no subscriber and a path that
  -- leaves room for the names of the rotated files, goes into a fresh log of its own: what the log
  -- held stands behind the name of the file just rotated, the rotated files have moved up by one, of
  -- which only the last is overwritten, and the compression is the last task.
  pub write_to_log_file-rotated :
      (f : LogFile) (m : ℕ) (p log : Bytes) (w : World D)
      → Renames D
      → 0 < length p
      → length f.path + m + 5 ≤ path_room
      → f.rotations ≡ pos (suc m)
      → w.subscriptions ≡ pos 0
      → D.contents w.disk f.path ≡ some log
      → leb ((length log + length p) % 2 ^ 64) (size_of_int f.max_size) ≡ false
      → (w' : World D) × (write_to_log_file D f p w ≡ some (0, w'))
        × (D.contents w'.disk f.path ≡ some p)
        × (D.contents w'.disk (path_0 f.path) ≡ some log)
        × ((k : ℕ)
            → k ≤ m
            → D.contents w'.disk (slot f.path k)
              ≡ shifted (λ i. D.contents w.disk (slot f.path i)) m k)
        × (w'.tasks ≡ w.tasks ++ compress (path_0 f.path) ∷ [])
  unfolding write_to_log_file
  write_to_log_file-rotated f m p log w moves some_text fits rot alone there full =
      let (fd, o) = open-Opened f w in
      let w₁ = locked f w fd in
      let base : base_of D f w ≡ log = ap bytes_of there in
      let log_there : D.contents w₁.disk f.path ≡ some log = holds_log f w fd o ∙ ap some base in
      let on : leb_ℤ f.rotations (pos 0) ≡ false = ap (λ n. leb_ℤ n (pos 0)) rot ∙ ground arith in
      let (w₂, e, moved, old, gone, others, tasks) =
        do_rotate_log_file-shifted D moves f m w₁ log fits rot alone log_there in
      let turn : rotate_log_file D f fd (length p) w₁ ≡ some (true, w₂) =
        rotate_log_file-full f fd (length p) w₁ log o.leads log_there on full ∙ e in
      let w₃ = leave D fd w₂ in
      let same =
        λ (j : Bytes). D.close_lem fd (D.unlock fd w₂.disk) j ∙ D.unlock_lem fd w₂.disk j in
      let (w', run, x) = last f p w₃ in
      let text : (length p == 0) ≡ false = ground arith in
      (
        w',
        rw text (first f p w fd w₂ o turn ∙ run),
        x.file ∙ ap (λ b. some (bytes_of b ++ p)) (same f.path ∙ gone),
        x.others (path_0 f.path) (path-path_0 f.path m fits) ∙ same (path_0 f.path) ∙ old,
        λ k h.
            x.others (slot f.path k) (path-slot f.path m fits k h)
            ∙ same (slot f.path k)
            ∙ moved k h
            ∙ shifted-cong (λ i. D.contents w₁.disk (slot f.path i))
                (λ i. D.contents w.disk (slot f.path i)) m
                (λ i l. o.holds (slot f.path i) ∙ rw (path-slot f.path m fits i l) refl) k h,
        x.tasks ∙ tasks,
      )
