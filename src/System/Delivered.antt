-- ===== src/System/Delivered.antt =====
-- What `OutputMessage` leaves in the log files.
use pmlogdaemon.Base.{
  ℕ, zero, suc, ◌+◌, ◌%◌, ◌^◌, ◌<◌, ◌≡◌, refl, ap, subst, Option, ◌∙◌, Bool, true, false, some,
  List, [], ◌∷◌, ◌++◌, arith, Bytes, length, get_elem?, get_or, str_eq, leb, if◌then◌else◌,
  str_eq_flip,
}
use pmlogdaemon.Base.Outcome.{done}
use pmlogdaemon.Conf.{LogFile, ContextConf}
use pmlogdaemon.Disk.{Disk, bytes_of}
use pmlogdaemon.Rotation.{World, size_of_int}
use pmlogdaemon.Rotation.Append.{Writes, Appended, base_of, write_to_log_file-Appended}
use pmlogdaemon.Rotation.Cleanup.{Reports}
use pmlogdaemon.Route.{write_wanted, output_message}
use pmlogdaemon.Route.Wanted.{AllNamed, decide_last, want_outputs_last}
use pmlogdaemon.System.{System, write_to, log_files}

-- No two of the files have one path.
abbrev pub Apart : List LogFile → Type 0
Apart [] = Unit
Apart (f ∷ fs) =
    ((k : ℕ) (g : LogFile) → get_elem? fs k ≡ some g → str_eq f.path g.path ≡ false) × Apart fs

next : (fs : List LogFile) (i k : ℕ) → get_elem? fs (i + 1 + k) ≡ get_elem? fs (i + suc k)
next fs i k = ap (get_elem? fs) (omega arith)

first : (fs : List LogFile) (i : ℕ) → get_elem? fs i ≡ get_elem? fs (i + 0)
first fs i = ap (get_elem? fs) (omega arith)

module _ (D : Disk) (r : Reports D.State) where
  -- The message fits in the log.
  abbrev pub Fits : Bytes → World D → LogFile → Type 0
  Fits msg w f =
      leb ((length (base_of D f w) + length msg) % 2 ^ 64) (size_of_int f.max_size) ≡ true

  -- A write to a log that has room for the message.
  write_to-Appended :
      Writes D
      → (i : ℕ) (f : LogFile) (msg : Bytes) (sys : System D r) → 0 < length msg
      → get_elem? sys.files i ≡ some f
      → Fits msg sys.world f
      → (w' : World D) × (write_to D r i msg sys ≡ (0, record sys { world = w' }))
        × Appended D f msg (base_of D f sys.world) sys.world w'
  unfolding write_to
  write_to-Appended sound i f msg sys text at fits =
      let (w', e, x) = write_to_log_file-Appended D sound f msg sys.world text fits in
      (w', rw (write_to, at, e) refl, x)

  -- What the writes of one message leave: `want` says for each of the files `fs` whether it is an
  -- output of the message.
  pub record Delivered (msg : Bytes) (fs : List LogFile) (want : List Bool) (sys sys' : System D r)
      : Type 0 where
    pub files : sys'.files ≡ sys.files
    pub tasks : sys'.world.tasks ≡ sys.world.tasks
    pub logs :
        (k : ℕ) (f : LogFile)
        → get_elem? fs k ≡ some f
        → D.contents sys'.world.disk f.path ≡ (
            if get_or want k false
            then some (base_of D f sys.world ++ msg)
            else D.contents sys.world.disk f.path)
    pub others :
        (j : Bytes)
        → ((k : ℕ) (f : LogFile) → get_elem? fs k ≡ some f → str_eq f.path j ≡ false)
        → D.contents sys'.world.disk j ≡ D.contents sys.world.disk j

  -- The first file, then the others.
  Delivered-cons :
      (msg : Bytes) (f : LogFile) (fs : List LogFile) (b : Bool) (want : List Bool)
      (sys sys₁ sys' : System D r)
      → ((k : ℕ) (g : LogFile) → get_elem? fs k ≡ some g → str_eq f.path g.path ≡ false)
      → sys₁.files ≡ sys.files
      → sys₁.world.tasks ≡ sys.world.tasks
      → D.contents sys₁.world.disk f.path
        ≡ (if b then some (base_of D f sys.world ++ msg) else D.contents sys.world.disk f.path)
      → ((j : Bytes)
          → str_eq f.path j ≡ false
          → D.contents sys₁.world.disk j ≡ D.contents sys.world.disk j)
      → Delivered msg fs want sys₁ sys'
      → Delivered msg (f ∷ fs) (b ∷ want) sys sys'
  Delivered-cons msg f fs b want sys sys₁ sys' here files tasks log other d = record {
    files = d.files ∙ files;
    tasks = d.tasks ∙ tasks;
    logs = logs;
    others = λ j apart. d.others j (λ k g h. apart (suc k) g h) ∙ other j (apart 0 f refl);
  }
    where
      logs :
          (k : ℕ) (g : LogFile)
          → get_elem? (f ∷ fs) k ≡ some g
          → D.contents sys'.world.disk g.path ≡ (
              if get_or (b ∷ want) k false
              then some (base_of D g sys.world ++ msg)
              else D.contents sys.world.disk g.path)
      logs zero g h =
          let same : f ≡ g = ground arith in
          subst
            (λ g. D.contents sys'.world.disk g.path ≡ (
              if b then some (base_of D g sys.world ++ msg) else D.contents sys.world.disk g.path))
            same (d.others f.path (λ k g h. str_eq_flip f.path g.path (here k g h)) ∙ log)
      logs (suc k) g h =
          d.logs k g h
          ∙ ap (λ c. if get_or want k false then some (bytes_of c ++ msg) else c)
              (other g.path (here k g h))

  Fits-same :
      (msg : Bytes) (g : LogFile) (w w' : World D)
      → D.contents w'.disk g.path ≡ D.contents w.disk g.path
      → Fits msg w g
      → Fits msg w' g
  Fits-same msg g w w' e h = rw e h

  write_wanted-Delivered :
      Writes D
      → (msg : Bytes) (fs : List LogFile) (want : List Bool) (i : ℕ) (sys : System D r)
      → 0 < length msg
      → length want ≡ length fs
      → Apart fs
      → ((k : ℕ) → get_elem? sys.files (i + k) ≡ get_elem? fs k)
      → ((k : ℕ) (f : LogFile) → get_elem? fs k ≡ some f → Fits msg sys.world f)
      → Delivered msg fs want sys (write_wanted (log_files D r) msg i want sys)
  unfolding write_wanted
  write_wanted-Delivered sound msg [] [] i sys text size apart at fits = record {
    files = refl;
    tasks = refl;
    logs = λ k f h. absurd (ground arith);
    others = λ j h. refl;
  }
  write_wanted-Delivered sound msg [] (b ∷ want) i sys text size apart at fits =
      absurd (omega arith)
  write_wanted-Delivered sound msg (f ∷ fs) [] i sys text size apart at fits = absurd (omega arith)
  write_wanted-Delivered sound msg (f ∷ fs) (false ∷ want) i sys text size (here, apart) at fits =
      Delivered-cons msg f fs false want sys sys (write_wanted (log_files D r) msg (i + 1) want sys)
        here refl refl refl (λ j _. refl)
        (write_wanted-Delivered sound msg fs want (i + 1) sys text (omega arith) apart
          (λ k. next sys.files i k ∙ at (suc k)) (λ k g h. fits (suc k) g h))
  write_wanted-Delivered sound msg (f ∷ fs) (true ∷ want) i sys text size (here, apart) at fits =
      let (w', e, x) =
        write_to-Appended sound i f msg sys text (first sys.files i ∙ at 0) (fits 0 f refl) in
      let sys₁ = record sys { world = w' } in
      rw e (
        Delivered-cons msg f fs true want sys sys₁
          (write_wanted (log_files D r) msg (i + 1) want sys₁) here refl x.tasks x.file
          (λ j apart. x.others j apart)
          (write_wanted-Delivered sound msg fs want (i + 1) sys₁ text (omega arith) apart
            (λ k. next sys.files i k ∙ at (suc k))
            (λ k g h.
              Fits-same msg g sys.world w' (x.others g.path (here k g h)) (fits (suc k) g h))))

  -- `OutputMessage` of a message that is not empty, on a disk that opens and writes what it is asked
  -- to, with no two files at one path, each with room for the message, and rules that name them: the
  -- message is added to the log of each output that the last rule to cover it does not omit, and no
  -- other file and no task changes.
  pub output_message-Delivered :
      (sound : Writes D) (conf : ContextConf) (pri : ℕ) (program : Option Bytes) (msg : Bytes)
      (sys : System D r)
      → 0 < length msg
      → AllNamed (length sys.files) conf.rules
      → Apart sys.files
      → ((k : ℕ) (f : LogFile) → get_elem? sys.files k ≡ some f → Fits msg sys.world f)
      → (want : List Bool) × (sys' : System D r) × (output_message
            (log_files D r)
            (length sys.files)
            (some conf)
            pri
            program
            msg
            sys
          ≡ done sys')
        × ((k : ℕ) → get_or want k false ≡ decide_last pri program k false conf.rules)
        × Delivered msg sys.files want sys sys'
  unfolding output_message
  output_message-Delivered sound conf pri program msg sys text named apart fits =
      let (want, e, size, decides) =
        want_outputs_last (length sys.files) pri program conf.rules named in
      (
        want,
        write_wanted (log_files D r) msg 0 want sys,
        rw e refl,
        decides,
        write_wanted-Delivered sound msg sys.files want 0 sys text size apart
            (λ k. ap (get_elem? sys.files) (omega arith)) fits,
      )
