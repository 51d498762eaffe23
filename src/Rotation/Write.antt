-- ===== src/Rotation/Write.antt =====
-- `WriteToLogFile`: it opens the file twice at most, and what it leaves in the file.
use pmlogdaemon.Base.{
  ℕ, zero, suc, ◌+◌, ◌-◌, ◌%◌, ◌^◌, ◌<◌, ◌≡◌, ◌⊎◌, inl, inr, refl, sym, ap, ◌∙◌, Bool, true, false,
  Option, none, some, ◌++◌, arith, Bytes, codes, not, length-append, length, leb, ◌==◌,
  if◌then◌else◌, Bool-cases,
}
use pmlogdaemon.Base.Int.{pos, leb_ℤ, eqb_ℤ, pos_part}
use pmlogdaemon.Conf.{LogFile}
use pmlogdaemon.Disk.{Disk}
use pmlogdaemon.Rotation.{
  path_0, shift_files, chunk_size, World, compress_loop, compress_file, size_of_int,
  do_rotate_log_file, rotate_log_file, leave, write_from, write_to_log_file,
}

-- A call that has fuel enough.
abbrev pub Returned {ℓ} : {A : Type ℓ} → Option A → Type ℓ
Returned {A} o = (a : A) × (o ≡ some a)

Returned-if {ℓ} :
    {A : Type ℓ} {x y : Option A} (b : Bool)
    → Returned x
    → Returned y
    → Returned (if b then x else y)
Returned-if true h g = h
Returned-if false h g = g

Returned-option {ℓ κ} :
    {A : Type ℓ} {B : Type κ} (o : Option B) {z : Option A} (k : B → Option A)
    → Returned z
    → ((b : B) → o ≡ some b → Returned (k b))
    → Returned (elim o [ none ↦ z | some b ↦ k b ])
Returned-option none k h g = h
Returned-option (some b) k h g = g b refl

Returned-sum {ℓ κ} :
    {A : Type ℓ} {B C : Type κ} (o : B ⊎ C) (l : B → Option A) (k : C → Option A)
    → ((b : B) → Returned (l b))
    → ((c : C) → o ≡ inr c → Returned (k c))
    → Returned (elim o [ inl b ↦ l b | inr c ↦ k c ])
Returned-sum (inl b) l k h g = h b
Returned-sum (inr c) l k h g = g c refl

module _ (D : Disk) where
  -- The loop of `CompressFile` ends within as many rounds as the file has bytes, and one.
  pub compress_loop-returns :
      (fuel : ℕ) (infile outfile : D.Fd) (s : D.State)
      → length (D.unread s infile) < fuel
      → Returned (compress_loop D fuel infile outfile s)
  unfolding compress_loop
  compress_loop-returns zero infile outfile s h = absurd (omega arith)
  compress_loop-returns (suc fuel) infile outfile s h =
      let (chunk, s₁) = D.fread infile chunk_size s in
      let (n, s₂) = D.gzwrite outfile chunk s₁ in
      let read : length chunk + length (D.unread s₁ infile) ≡ length (D.unread s infile) =
        sym (length-append chunk (D.unread s₁ infile))
        ∙ ap length (D.fread_lem infile chunk_size s) in
      let kept : length (D.unread s₂ infile) ≡ length (D.unread s₁ infile) =
        ap length (D.gzwrite_lem outfile infile chunk s₁) in
      elim (Bool-cases (length chunk == 0)) [
        | inl end ↦ ((true, s₁), rw end refl)
        | inr more ↦
            let fewer : length (D.unread s₂ infile) < fuel = ground arith in
            rw more (
              Returned-if (eqb_ℤ n (pos (length chunk)))
                (compress_loop-returns fuel infile outfile s₂ fewer) ((false, s₂), refl))
      ]

  -- `CompressFile` always returns.
  compress_file-returns : (name : Bytes) (w : World D) → Returned (compress_file D name w)
  unfolding compress_file
  compress_file-returns name w =
      Returned-option (D.fopen name w.disk).0 _ (_, refl)
        (λ infile _.
          let s₁ = (D.fopen name w.disk).1 in
          let (made, s₂) = D.gzopen (name ++ codes ".gz") s₁ in
          Returned-option made _ (_, refl)
            (λ outfile _.
              let (r, e) =
                compress_loop-returns (suc (length (D.unread s₂ infile))) infile outfile s₂
                  (omega arith) in
              rw e (_, refl)))

  do_rotate_log_file-returns :
      (f : LogFile) (in_thread : Bool) (w : World D) → Returned (do_rotate_log_file D f in_thread w)
  unfolding do_rotate_log_file
  do_rotate_log_file-returns f in_thread w =
      Returned-if (eqb_ℤ w.subscriptions (pos 0))
        (Returned-if (leb_ℤ f.rotations (pos 0)) (_, refl)
          (Returned-if in_thread (_, refl)
            (let w' = record w {
              disk =
                  (D.rename f.path (path_0 f.path)
                    (shift_files D f.path (pos_part f.rotations - 1) w.disk)).1;
            } in
              let (r, e) = compress_file-returns (path_0 f.path) w' in rw e (_, refl))))
        (_, refl)

  rotate_log_file-returns :
      (f : LogFile) (fd : D.Fd) (n : ℕ) (w : World D) → Returned (rotate_log_file D f fd n w)
  unfolding rotate_log_file
  rotate_log_file-returns f fd n w =
      Returned-if (leb_ℤ f.rotations (pos 0)) (_, refl)
        (Returned-option (D.fstat fd w.disk) _ (_, refl)
          (λ st _.
            Returned-if (not st.is_regular) (_, refl)
              (Returned-if (leb ((st.size + n) % 2 ^ 64) (size_of_int f.max_size)) (_, refl)
                (do_rotate_log_file-returns f true w))))

  -- The round behind a rotation does not rotate, so it is the last.
  write_from-last :
      (fuel : ℕ) (f : LogFile) (p : Bytes) (w : World D)
      → Returned (write_from D (suc fuel) true f p w)
  unfolding write_from
  write_from-last fuel f p w =
      Returned-sum (D.open_append f.path w.disk).0 _ _ (λ _. (_, refl)) (λ _ _. (_, refl))

  first_round : (f : LogFile) (p : Bytes) (w : World D) → Returned (write_from D 2 false f p w)
  unfolding write_from
  first_round f p w =
      let (opened, s₁) = D.open_append f.path w.disk in
      Returned-sum opened _ _ (λ _. (_, refl))
        (λ fd _.
          let w₁ = record w { disk = D.lock fd s₁ } in
          let (r, e) = rotate_log_file-returns f fd (length p) w₁ in
          rw e (elim (Bool-cases r.0) [
            | inl did ↦ rw did (write_from-last 0 f p (leave D fd r.1))
            | inr stayed ↦ rw stayed (_, refl)
          ]))

  -- `WriteToLogFile` opens the file twice at most, whatever the disk does, and then returns.
  pub write_to_log_file-returns :
      (f : LogFile) (p : Bytes) (w : World D) → Returned (write_to_log_file D f p w)
  unfolding write_to_log_file
  write_to_log_file-returns f p w = Returned-if (length p == 0) (_, refl) (first_round f p w)
