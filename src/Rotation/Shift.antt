-- ===== src/Rotation/Shift.antt =====
-- Where the rotated files of a log stand behind a rotation.
use pmlogdaemon.Base.{
  ℕ, zero, suc, ◌+◌, ◌-◌, ◌≤◌, ◌≡◌, inl, inr, refl, sym, ap, ◌∙◌, true, false, Option, none, some,
  [], ◌∷◌, ◌++◌, arith, Bytes, length, str_eq, str_eq_iff, str_eq_same, ltb, ◌==◌, if◌then◌else◌,
  Bool-cases, Option-cases,
}
use pmlogdaemon.Base.Int.{pos}
use pmlogdaemon.Conf.{LogFile}
use pmlogdaemon.Disk.{Disk}
use pmlogdaemon.Rotation.{
  path_room, path_0, compress, World, add_heavy_operation_task, shift_files, do_rotate_log_file,
}
use pmlogdaemon.Rotation.Names.{slot, path-slot, slot_apart, slot-path, path_0-path, path_0-slot}

-- A disk that renames every file that is there.
pub record Renames (D : Disk) : Type 0 where
  pub works :
      (a b x : Bytes) (s : D.State) → D.contents s a ≡ some x → ((D.rename a b s).0 == 0) ≡ true

abbrev pub or_else : Option Bytes → Option Bytes → Option Bytes
or_else none o = o
or_else (some b) o = some b

-- What slot `k` holds when the slots up to `n` have moved up by one.
abbrev pub shifted : (ℕ → Option Bytes) → ℕ → ℕ → Option Bytes
shifted old n zero = if n == 0 then old 0 else none
shifted old n (suc k) =
    if suc k == n then or_else (old k) (old n) else if ltb (suc k) n then old k else old (suc k)

or_else-none : (o : Option Bytes) → or_else o none ≡ o
or_else-none none = refl
or_else-none (some b) = refl

pub shifted-cong :
    (old new : ℕ → Option Bytes) (m : ℕ)
    → ((i : ℕ) → i ≤ m → old i ≡ new i)
    → (k : ℕ) → k ≤ m
    → shifted old m k ≡ shifted new m k
shifted-cong old new m same zero h = ground (arith, same 0 h)
shifted-cong old new m same (suc k) h =
    let here = same (suc k) h in
    let below = same k (omega arith) in
    let top = same m (omega arith) in ground (arith, here, below, top)

-- One more slot to move: first its rename, then the others.
shifted-suc :
    (old new : ℕ → Option Bytes) (i m : ℕ)
    → suc i ≤ m
    → ((k : ℕ)
        → k ≤ m
        → new k ≡ (if suc i == k then or_else (old i) (old k) else if i == k then none else old k))
    → (k : ℕ) → k ≤ m
    → shifted new i k ≡ shifted old (suc i) k
shifted-suc old new i m h step zero l = ground (arith, step 0 l)
shifted-suc old new i m h step (suc k) l =
    let here = step (suc k) l in
    let below = step k (omega arith) in
    let top = step i (omega arith) in ground (arith, here, below, top, or_else-none (old k))

-- The branch that shifts, renames the log and leaves its compression to the thread.
do_rotate_runs :
    (D : Disk) (f : LogFile) (m : ℕ) (w : World D)
    → f.rotations ≡ pos (suc m)
    → w.subscriptions ≡ pos 0
    → do_rotate_log_file D f true w
      ≡ some (
        true,
        add_heavy_operation_task D (compress (path_0 f.path)) (record w {
          disk = (D.rename f.path (path_0 f.path) (shift_files D f.path m w.disk)).1;
        }),
      )
unfolding do_rotate_log_file
do_rotate_runs D f m w rot alone =
    let one : suc m - 1 ≡ m = omega arith in simp (alone, rot, one) (ground arith)

module _ (D : Disk) (sound : Renames D) where
  -- A rename moves a file that is there, and does nothing else.
  rename_moves :
      (a b j : Bytes) (s : D.State)
      → D.contents (D.rename a b s).1 j ≡ (
          if str_eq b j
          then or_else (D.contents s a) (D.contents s j)
          else if str_eq a j
          then none
          else D.contents s j)
  rename_moves a b j s = elim (Option-cases (D.contents s a)) [
    | inl missing ↦
        D.rename_lem a b j s
        ∙ rw (D.rename_missing a b s missing, missing)
            (elim (Bool-cases (str_eq a j)) [
              | inl same ↦
                  let gone : D.contents s j ≡ none =
                    ap (D.contents s) (sym ((str_eq_iff a j).0 same)) ∙ missing in
                  rw gone (ground arith)
              | inr other ↦ rw other (ground arith)
            ])
    | inr (x, there) ↦ D.rename_lem a b j s ∙ rw (sound.works a b x s there, there) refl
  ]

  module _ (path : Bytes) (m : ℕ) (fits : length path + m + 5 ≤ path_room) where
    abbrev slots : D.State → ℕ → Option Bytes
    slots s k = D.contents s (slot path k)

    slot_eq : (a b : ℕ) → a ≤ m → b ≤ m → str_eq (slot path a) (slot path b) ≡ (a == b)
    slot_eq a b h l = elim (Bool-cases (a == b)) [
      | inl same ↦
          let is : a ≡ b = ground arith in rw (is, str_eq_same (slot path b)) (ground arith)
      | inr other ↦ rw other (slot_apart path m fits a b h l (λ e. ground arith))
    ]

    -- One rename of the loop, seen on the slots.
    slots-rename :
        (i k : ℕ) (s : D.State)
        → suc i ≤ m
        → k ≤ m
        → slots (D.rename (slot path i) (slot path (suc i)) s).1 k ≡ (
            if suc i == k
            then or_else (slots s i) (slots s k)
            else if i == k
            then none
            else slots s k)
    slots-rename i k s h l =
        rename_moves (slot path i) (slot path (suc i)) (slot path k) s
        ∙ rw (slot_eq (suc i) k h l, slot_eq i k (omega arith) l) refl

    shift_files-slots :
        (n : ℕ) (s : D.State)
        → n ≤ m
        → (k : ℕ) → k ≤ m
        → slots (shift_files D path n s) k ≡ shifted (slots s) n k
    unfolding shift_files
    shift_files-slots zero s h zero l = refl
    shift_files-slots zero s h (suc k) l = ground arith
    shift_files-slots (suc i) s h k l =
        let s' = (D.rename (slot path i) (slot path (suc i)) s).1 in
        shift_files-slots i s' (omega arith) k l
        ∙ shifted-suc (slots s) (slots s') i m h (λ j g. slots-rename i j s h g) k l

    -- The loop leaves every other file alone.
    shift_files-others :
        (n : ℕ) (s : D.State) (j : Bytes)
        → ((k : ℕ) → k ≤ n → str_eq (slot path k) j ≡ false)
        → D.contents (shift_files D path n s) j ≡ D.contents s j
    unfolding shift_files
    shift_files-others zero s j apart = refl
    shift_files-others (suc i) s j apart =
        shift_files-others i _ j (λ k h. apart k (omega arith))
        ∙ rename_moves (slot path i) (slot path (suc i)) j s
        ∙ rw (apart i (omega arith), apart (suc i) (omega arith)) refl

  -- A rotation that compresses in the thread, on a disk that renames every file that is there, of a
  -- log that is there, with at least one rotation, no subscriber and a path that leaves room for the
  -- names: the slots move up by one, and only the last of them is overwritten; the log stands behind
  -- the name of the file just rotated, nothing stands behind its own, no other file is touched, and
  -- its compression is the last task.
  pub do_rotate_log_file-shifted :
      (f : LogFile) (m : ℕ) (w : World D) (log : Bytes)
      → length f.path + m + 5 ≤ path_room
      → f.rotations ≡ pos (suc m)
      → w.subscriptions ≡ pos 0
      → D.contents w.disk f.path ≡ some log
      → (w' : World D) × (do_rotate_log_file D f true w ≡ some (true, w'))
        × ((k : ℕ)
            → k ≤ m
            → D.contents w'.disk (slot f.path k)
              ≡ shifted (λ i. D.contents w.disk (slot f.path i)) m k)
        × (D.contents w'.disk (path_0 f.path) ≡ some log)
        × (D.contents w'.disk f.path ≡ none)
        × ((j : Bytes)
            → ((k : ℕ) → k ≤ m → str_eq (slot f.path k) j ≡ false)
            → str_eq f.path j ≡ false
            → str_eq (path_0 f.path) j ≡ false
            → D.contents w'.disk j ≡ D.contents w.disk j)
        × (w'.tasks ≡ w.tasks ++ compress (path_0 f.path) ∷ [])
  do_rotate_log_file-shifted f m w log fits rot alone there =
      let p = f.path in
      let s₁ = shift_files D p m w.disk in
      let still : D.contents s₁ p ≡ some log =
        shift_files-others p m fits m w.disk p (λ k h. slot-path p m fits k h) ∙ there in
      let move = rename_moves p (path_0 p) in
      (
        add_heavy_operation_task D (compress (path_0 p))
            (record w { disk = (D.rename p (path_0 p) s₁).1 }),
        do_rotate_runs D f m w rot alone,
        λ k h.
            unfold add_heavy_operation_task in
            move (slot p k) s₁
            ∙ rw (path_0-slot p m fits k h, path-slot p m fits k h)
                (shift_files-slots p m fits m w.disk (omega arith) k h),
        unfold add_heavy_operation_task in
            (move (path_0 p) s₁ ∙ rw (str_eq_same (path_0 p), still) refl),
        unfold add_heavy_operation_task in
            (move p s₁ ∙ rw (path_0-path p m fits, str_eq_same p) refl),
        λ j slots_apart own zero_apart.
            unfold add_heavy_operation_task in
            move j s₁ ∙ rw (zero_apart, own) (shift_files-others p m fits m w.disk j slots_apart),
        unfold add_heavy_operation_task in refl,
      )
