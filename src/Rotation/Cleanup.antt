-- ===== src/Rotation/Cleanup.antt =====
-- src/main.c: `LogFileKillRotations`, `LogFileInit` and `FreeDiskSpace`, which remove rotated files.
use pmlogdaemon.Base.{
  ℕ, zero, suc, ◌+◌, ◌-◌, ◌≤◌, ◌<◌, ◌≡◌, inl, inr, refl, ap, subst, ◌∙◌, Bool, true, false, Option,
  none, some, List, [], ◌∷◌, arith, Bytes, length, str_eq, str_eq_same, str_eq_ne, ◌==◌,
  if◌then◌else◌, Bool-cases, Option-cases,
}
use pmlogdaemon.Base.Int.{suc_ℤ, ℤ, pos, negsuc}
use pmlogdaemon.Conf.{LogFile, max_num_rotations}
use pmlogdaemon.Disk.{Disk}
use pmlogdaemon.Rotation.{rotation_path}
use pmlogdaemon.Rotation.Names.{length-rotation_path, rotation_path_injective}

-- The file of an index: 0 is the log itself.
abbrev pub rotation_file : Bytes → ℤ → Bytes
rotation_file path (pos zero) = path
rotation_file path (pos (suc r)) = rotation_path path (pos r)
rotation_file path (negsuc r) = rotation_path path (negsuc (suc r))

-- The rounds of the loop: those up to `PMLOG_MAX_NUM_ROTATIONS`.
abbrev rounds : ℤ → ℕ
rounds (pos r) = max_num_rotations - r
rounds (negsuc r) = max_num_rotations + suc r

-- What `FreeDiskSpace` calls: the script, which gives the name of its report (none: it could not be
-- run), the reports to RDX, and the removal of everything in the log directory.
pub record Reports (S : Type 0) : Type 0 where
  pub show_disk_usage : S → Option Bytes × S
  pub make_report : Bytes → S → Bool × S
  pub remove_logs : S → S
  -- of a message: the cause, the detail and the text
  pub report_message : Bytes → Bytes → Bytes → S → S

module _ (D : Disk) where
  -- The loop of `LogFileKillRotations`. The result of `g_remove` is not used.
  unfoldable pub kill_from : ℕ → ℤ → Bytes → D.State → D.State
  kill_from zero r path s = s
  kill_from (suc n) r path s = kill_from n (suc_ℤ r) path (D.remove (rotation_file path r) s).1

  unfoldable pub kill_rotations : LogFile → ℤ → D.State → D.State
  unfolding kill_from
  kill_rotations f start s = kill_from (rounds start) start f.path s

  -- `LogFileInit`: the entry of `g_logFiles` for an output.
  unfoldable pub log_file_init : LogFile → D.State → LogFile × D.State
  unfolding kill_rotations
  log_file_init conf s = (conf, kill_rotations conf (suc_ℤ conf.rotations) s)

  -- The loop of `RunSysLogD` over the outputs.
  unfoldable pub init_log_files : List LogFile → D.State → List LogFile × D.State
  unfolding log_file_init
  init_log_files [] s = ([], s)
  init_log_files (o ∷ outputs) s =
      let (f, s₁) = log_file_init o s in
      let (files, s₂) = init_log_files outputs s₁ in (f ∷ files, s₂)

  -- The loop of `FreeDiskSpace` over the log files.
  unfoldable pub kill_all : List LogFile → D.State → D.State
  unfolding kill_rotations
  kill_all [] s = s
  kill_all (f ∷ files) s = kill_all files (kill_rotations f (pos 0) s)

  -- `FreeDiskSpace`
  unfoldable pub free_disk_space : Reports D.State → List LogFile → D.State → D.State
  unfolding kill_all
  free_disk_space r files s =
      let (report, s₁) = r.show_disk_usage s in
      elim report [
        | none ↦ s₁
        | some name ↦
            (let s₂ = kill_all files s₁ in
              let (ok, s₃) = r.make_report name s₂ in
              let s₄ = (if ok then s₃ else (r.make_report name (r.remove_logs s₃)).1) in
              (D.remove name s₄).1)
      ]

-- A disk that removes every file that is there.
pub record Removes (D : Disk) : Type 0 where
  pub works : (p x : Bytes) (s : D.State) → D.contents s p ≡ some x → ((D.remove p s).0 == 0) ≡ true

module _ (D : Disk) where
  remove_kept :
      (p j : Bytes) (s : D.State)
      → str_eq p j ≡ false
      → D.contents (D.remove p s).1 j ≡ D.contents s j
  remove_kept p j s apart = D.remove_lem p j s ∙ rw apart (ground arith)

  remove_none :
      (p j : Bytes) (s : D.State) → D.contents s j ≡ none → D.contents (D.remove p s).1 j ≡ none
  remove_none p j s gone = D.remove_lem p j s ∙ rw gone (ground arith)

  remove_gone : Removes D → (p : Bytes) (s : D.State) → D.contents (D.remove p s).1 p ≡ none
  remove_gone sound p s = elim (Option-cases (D.contents s p)) [
    | inl gone ↦ remove_none p p s gone
    | inr (x, there) ↦ D.remove_lem p p s ∙ rw (sound.works p x s there, str_eq_same p) refl
  ]

  pub kill_from-kept :
      (n r : ℕ) (path j : Bytes) (s : D.State)
      → ((k : ℕ) → r ≤ k → k < r + n → str_eq (rotation_file path (pos k)) j ≡ false)
      → D.contents (kill_from D n (pos r) path s) j ≡ D.contents s j
  unfolding kill_from
  kill_from-kept zero r path j s apart = refl
  kill_from-kept (suc n) r path j s apart =
      kill_from-kept n (suc r) path j _ (λ k h l. apart k (omega arith) (omega arith))
      ∙ remove_kept (rotation_file path (pos r)) j s (apart r (omega arith) (omega arith))

  kill_from-none :
      (n : ℕ) (r : ℤ) (path j : Bytes) (s : D.State)
      → D.contents s j ≡ none
      → D.contents (kill_from D n r path s) j ≡ none
  unfolding kill_from
  kill_from-none zero r path j s gone = gone
  kill_from-none (suc n) r path j s gone =
      kill_from-none n (suc_ℤ r) path j _ (remove_none (rotation_file path r) j s gone)

  kill_from-gone :
      Removes D
      → (n r k : ℕ) (path : Bytes) (s : D.State) → r ≤ k
      → k < r + n
      → D.contents (kill_from D n (pos r) path s) (rotation_file path (pos k)) ≡ none
  unfolding kill_from
  kill_from-gone sound zero r k path s h l = absurd (omega arith)
  kill_from-gone sound (suc n) r k path s h l = elim (Bool-cases (r == k)) [
    | inl here ↦
        let is : r ≡ k = ground arith in
        kill_from-none n (pos (suc r)) path (rotation_file path (pos k)) _ (
          subst
            (λ x.
              D.contents (D.remove (rotation_file path (pos r)) s).1 (rotation_file path (pos x))
              ≡ none)
            is (remove_gone sound (rotation_file path (pos r)) s))
    | inr later ↦ kill_from-gone sound n (suc r) k path _ (ground arith) (omega arith)
  ]

  -- `LogFileKillRotations` from index 0, as `FreeDiskSpace` calls it, on a disk that removes every
  -- file that is there: the log is gone and so is each of the first 19 rotated files; the twentieth
  -- is left as it was.
  pub kill_rotations-gone :
      (f : LogFile) (s : D.State)
      → Removes D
      → (D.contents (kill_rotations D f (pos 0) s) f.path ≡ none)
        × ((k : ℕ)
            → k < 19
            → D.contents (kill_rotations D f (pos 0) s) (rotation_path f.path (pos k)) ≡ none)
        × (D.contents (kill_rotations D f (pos 0) s) (rotation_path f.path (pos 19))
            ≡ D.contents s (rotation_path f.path (pos 19)))
  unfolding kill_rotations
  kill_rotations-gone f s sound = (
    kill_from-gone sound 20 0 0 f.path s (omega arith) (omega arith),
    λ k l. kill_from-gone sound 20 0 (suc k) f.path s (omega arith) (omega arith),
    kill_from-kept 20 0 f.path (rotation_path f.path (pos 19)) s (λ k h l. apart k l),
  )
    where
      apart :
          (k : ℕ)
          → k < 20
          → str_eq (rotation_file f.path (pos k)) (rotation_path f.path (pos 19)) ≡ false
      apart zero l = str_eq_ne _ _ (λ (e : f.path ≡ rotation_path f.path (pos 19)).
          omega (arith, length-rotation_path f.path 19, ap length e))
      apart (suc k) l =
          str_eq_ne _ _ (λ (e : rotation_path f.path (pos k) ≡ rotation_path f.path (pos 19)).
            omega (arith, rotation_path_injective f.path k 19 e))

  above :
      (path j : Bytes) (n : ℕ)
      → ((k : ℕ) → n ≤ k → k < 19 → str_eq (rotation_path path (pos k)) j ≡ false)
      → (k : ℕ) → suc n ≤ k
      → k < suc n + (20 - suc n)
      → str_eq (rotation_file path (pos k)) j ≡ false
  above path j n apart zero h l = absurd (omega arith)
  above path j n apart (suc k) h l = apart k (omega arith) (omega arith)

  -- `LogFileInit` on a disk that removes every file that is there, for an output whose number of
  -- rotations is not negative: of the rotated files that the output will not use, those below index
  -- 19 are gone, and any other file is left as it was; the entry is the output's configuration.
  log_file_init-gone :
      (conf : LogFile) (s : D.State) (n : ℕ)
      → Removes D
      → conf.rotations ≡ pos n
      → ((log_file_init D conf s).0 ≡ conf)
        × ((k : ℕ)
            → n ≤ k
            → k < 19
            → D.contents (log_file_init D conf s).1 (rotation_path conf.path (pos k)) ≡ none)
        × ((j : Bytes)
            → ((k : ℕ) → n ≤ k → k < 19 → str_eq (rotation_path conf.path (pos k)) j ≡ false)
            → D.contents (log_file_init D conf s).1 j ≡ D.contents s j)
  unfolding log_file_init kill_rotations
  log_file_init-gone conf s n sound rot = rw rot (
    refl,
    λ k h l.
        kill_from-gone sound (20 - suc n) (suc n) (suc k) conf.path s (omega arith) (omega arith),
    λ j apart. kill_from-kept (20 - suc n) (suc n) conf.path j s (above conf.path j n apart),
  )
