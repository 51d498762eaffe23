-- ===== src/Rotation.antt =====
-- src/main.c: the log files on disk. `WriteToLogFile` appends to one and rotates it when it is full;
-- `CompressFile`, `DoNotifySubscribers` and `FreeDiskSpace` are also tasks of the heavy operation
-- thread.
pub mod Names
pub mod Shift
pub mod Write
pub mod Append
pub mod Cleanup
use pmlogdaemon.Base.{
  ℕ, zero, suc, ◌+◌, ◌-◌, ◌^◌, ◌%◌, inl, inr, Bool, true, false, not, ◌&&◌, ◌||◌, Option, none,
  some, List, [], ◌∷◌, ◌++◌, Bytes, codes, length, take, leb, ◌==◌, if◌then◌else◌,
}
use pmlogdaemon.Base.Int.{ℤ, pos, negsuc, leb_ℤ, eqb_ℤ, pos_part}
use pmlogdaemon.Base.Strtol.{decimal}
use pmlogdaemon.Conf.{LogFile, max_num_rotations}
use pmlogdaemon.Disk.{Disk, Stat}

-- `PATH_MAX - 1`: what `snprintf` leaves of a path.
abbrev pub path_room : ℕ
path_room = 4095

-- `sizeof(inbuffer)` of `CompressFile`
abbrev pub chunk_size : ℕ
chunk_size = 128

-- `%d` of an `int`
abbrev pub decimal_ℤ : ℤ → Bytes
decimal_ℤ (pos n) = decimal n
decimal_ℤ (negsuc n) = b'-' ∷ decimal (suc n)

-- `PMLOGDAEMON_FILE_ROTATION_PATTERN`, "%s.%d.gz"
unfoldable pub rotation_path : Bytes → ℤ → Bytes
rotation_path path i = path ++ (b'.' ∷ (decimal_ℤ i ++ codes ".gz"))

-- The name of the file just rotated, until it is compressed: "%s.%d" with 0.
abbrev pub path_0 : Bytes → Bytes
path_0 path = take path_room (path ++ codes ".0")

-- An `int` as a `size_t`.
abbrev pub size_of_int : ℤ → ℕ
size_of_int (pos n) = n
size_of_int (negsuc n) = 2 ^ 64 - 1 - n

-- The tasks of the heavy operation thread.
pub data Task : Type 0 where
  compress : Bytes → Task
  notify : Bytes → Task
  free_space : Task
  report : ℕ → Bytes → Bytes → Task

module _ (D : Disk) where
  -- The disk, the tasks added and not yet run, oldest first, `g_haveRotSubscription`, and the
  -- replies to the subscribers of rotations.
  pub record World : Type 0 where
    pub disk : D.State
    pub tasks : List Task
    pub subscriptions : ℤ
    pub replies : List Bytes

  -- `AddHeavyOperationTask`
  unfoldable pub add_heavy_operation_task : Task → World → World
  add_heavy_operation_task t w = record w { tasks = w.tasks ++ t ∷ [] }

  -- The loop of `CompressFile`, with fuel: whether every chunk was written whole; none is no fuel.
  unfoldable pub compress_loop : ℕ → D.Fd → D.Fd → D.State → Option (Bool × D.State)
  compress_loop zero infile outfile s = none
  compress_loop (suc fuel) infile outfile s =
      let (chunk, s₁) = D.fread infile chunk_size s in
      let (n, s₂) = D.gzwrite outfile chunk s₁ in
      let rest = compress_loop fuel infile outfile s₂ in
      if length chunk == 0
      then some (true, s₁)
      else if eqb_ℤ n (pos (length chunk))
      then rest
      else some (false, s₂)

  -- `CompressFile`, whose loop needs one round more than the file has bytes.
  unfoldable pub compress_file : Bytes → World → Option (Bool × World)
  unfolding compress_loop
  compress_file name w =
      let (opened, s₁) = D.fopen name w.disk in
      elim opened [
        | none ↦ some (false, record w { disk = s₁ })
        | some infile ↦
            (let (made, s₂) = D.gzopen (name ++ codes ".gz") s₁ in
              elim made [
                | none ↦ some (false, record w { disk = D.close infile s₂ })
                | some outfile ↦
                    elim (compress_loop (suc (length (D.unread s₂ infile))) infile outfile s₂) [
                      | none ↦ none
                      | some (ok, s₃) ↦
                          (let s₄ = (if ok then (D.remove name s₃).1 else s₃) in
                            some (ok, record w { disk = D.gzclose outfile (D.close infile s₄) }))
                    ]
              ])
      ]

  -- `DoNotifySubscribers`, as long as the service bus takes the reply.
  unfoldable pub do_notify_subscribers : Bytes → World → World
  do_notify_subscribers path w = record w {
    replies = w.replies ++ (codes "{\"filepath\":\"" ++ (path ++ codes "\"}")) ∷ [];
  }

  -- The loop of `DoRotateLogFile` from `i` on: the errors of `rename` are only printed.
  unfoldable pub shift_files : Bytes → ℕ → D.State → D.State
  unfolding rotation_path
  shift_files path zero s = s
  shift_files path (suc i) s =
      shift_files path i
        (D.rename (take path_room (rotation_path path (pos i)))
          (take path_room (rotation_path path (pos (suc i)))) s).1

  -- A rotation without subscribers.
  unfoldable pub rotate_and_compress : LogFile → Bool → World → Option (Bool × World)
  unfolding shift_files compress_file add_heavy_operation_task
  rotate_and_compress f in_thread w =
      if leb_ℤ f.rotations (pos 0)
      then some (false, w)
      else (let s₁ = shift_files f.path (pos_part f.rotations - 1) w.disk in
          let w' = record w { disk = (D.rename f.path (path_0 f.path) s₁).1 } in
          if in_thread
          then some (true, add_heavy_operation_task (compress (path_0 f.path)) w')
          else elim (compress_file (path_0 f.path) w') [
            | none ↦ none
            | some (ok, w'') ↦ some (true, w'')
          ])

  -- A rotation for a subscriber, to a fresh name.
  unfoldable pub rotate_and_notify : LogFile → Bool → World → World
  unfolding do_notify_subscribers add_heavy_operation_task
  rotate_and_notify f in_thread w =
      let (made, s₁) = D.mkstemp (take path_room (f.path ++ codes ".XXXXXX")) w.disk in
      elim made [
        | none ↦ record w { disk = s₁ }
        | some (name, fd) ↦
            (let (err, s₂) = D.rename f.path name (D.close fd s₁) in
              let w' = record w { disk = s₂ } in
              if not (err == 0)
              then w'
              else if in_thread
              then add_heavy_operation_task (notify name) w'
              else do_notify_subscribers name w')
      ]

  -- `DoRotateLogFile`: whether the rotation was performed.
  unfoldable pub do_rotate_log_file : LogFile → Bool → World → Option (Bool × World)
  unfolding rotate_and_compress rotate_and_notify
  do_rotate_log_file f in_thread w =
      if eqb_ℤ w.subscriptions (pos 0)
      then rotate_and_compress f in_thread w
      else some (true, rotate_and_notify f in_thread w)

  -- `RotateLogFile`, whose rotation always compresses in the thread.
  unfoldable pub rotate_log_file : LogFile → D.Fd → ℕ → World → Option (Bool × World)
  rotate_log_file f fd num_to_write w =
      if leb_ℤ f.rotations (pos 0) then some (false, w) else elim (D.fstat fd w.disk) [
        | none ↦ some (false, w)
        | some st ↦
            if not st.is_regular
            then some (false, w)
            else if leb ((st.size + num_to_write) % 2 ^ 64) (size_of_int f.max_size)
            then some (false, w)
            else do_rotate_log_file f true w
      ]

  -- The write of `WriteToLogFile`: its error number is 0 where `write` was short without one.
  unfoldable pub write_out : D.Fd → Bytes → World → ℕ × World
  write_out fd p w =
      let (n, err, s) = D.write fd p w.disk in
      (if eqb_ℤ n (pos (length p)) then 0 else err, record w { disk = s })

  abbrev pub leave : D.Fd → World → World
  leave fd w = record w { disk = D.close fd (D.unlock fd w.disk) }

  -- `WriteToLogFile` from `Retry` on, with fuel: `did_rotate` is what the round before has set.
  unfoldable pub write_from : ℕ → Bool → LogFile → Bytes → World → Option (ℕ × World)
  unfolding rotate_log_file write_out
  write_from zero did_rotate f p w = none
  write_from (suc fuel) did_rotate f p w =
      let (opened, s₁) = D.open_append f.path w.disk in
      elim opened [
        | inl err ↦ some (err, record w { disk = s₁ })
        | inr fd ↦
            (let w₁ = record w { disk = D.lock fd s₁ } in
              elim (if did_rotate then some (false, w₁) else rotate_log_file f fd (length p) w₁) [
                | none ↦ none
                | some (true, w₂) ↦ write_from fuel true f p (leave fd w₂)
                | some (false, w₂) ↦ (let (err, w₃) = write_out fd p w₂ in some (err, leave fd w₃))
              ])
      ]

  -- `WriteToLogFile`, which opens the file twice at most.
  unfoldable pub write_to_log_file : LogFile → Bytes → World → Option (ℕ × World)
  unfolding write_from
  write_to_log_file f p w = if length p == 0 then some (0, w) else write_from 2 false f p w

  -- `ForceRotateLogFile`
  unfoldable pub force_rotate_log_file : LogFile → Bool → World → Option (Bool × World)
  unfolding do_rotate_log_file
  force_rotate_log_file f in_thread w = elim (D.stat f.path w.disk) [
    | none ↦ some (false, w)
    | some st ↦ if st.is_regular then do_rotate_log_file f in_thread w else some (false, w)
  ]
