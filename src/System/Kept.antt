-- ===== src/System/Kept.antt =====
-- What every call on the log files keeps: the count of subscriptions, and tasks that compress only
-- the file just rotated of one of the outputs.
use pmlogdaemon.Base.{
  ℕ, zero, suc, ◌+◌, ◌-◌, ◌%◌, ◌^◌, ◌≡◌, ◌⊎◌, inl, inr, refl, ◌∙◌, Bool, true, false, not, Option,
  none, some, List, [], ◌∷◌, ◌++◌, Bytes, codes, length, take, get_elem?, leb, ◌==◌, if◌then◌else◌,
  Bool-cases,
}
use pmlogdaemon.Base.Int.{pos, leb_ℤ, eqb_ℤ, pos_part}
use pmlogdaemon.Conf.{LogFile}
use pmlogdaemon.Disk.{Disk}
use pmlogdaemon.Rotation.{
  World, Task, compress, notify, free_space, report, path_0, path_room, size_of_int, shift_files,
  add_heavy_operation_task, compress_loop, compress_file, do_notify_subscribers,
  rotate_and_compress, rotate_and_notify, do_rotate_log_file, rotate_log_file, write_out, leave,
  write_from, write_to_log_file, force_rotate_log_file,
}

-- What holds of the value where there is one.
pub data Leaves {ℓ} {A : Type ℓ} (P : A → Type 0) : Option A → Type ℓ where
  nothing : Leaves P none
  value : {a : A} → P a → Leaves P (some a)

Leaves-if {ℓ} :
    {A : Type ℓ} {P : A → Type 0} {x y : Option A} (b : Bool)
    → Leaves P x
    → Leaves P y
    → Leaves P (if b then x else y)
Leaves-if true h g = h
Leaves-if false h g = g

Leaves-option {ℓ κ} :
    {A : Type ℓ} {B : Type κ} {P : A → Type 0} {z : Option A} (o : Option B) (k : B → Option A)
    → Leaves P z
    → ((b : B) → Leaves P (k b))
    → Leaves P (elim o [ none ↦ z | some b ↦ k b ])
Leaves-option none k h g = h
Leaves-option (some b) k h g = g b

Leaves-sum {ℓ κ} :
    {A : Type ℓ} {B C : Type κ} {P : A → Type 0} (o : B ⊎ C) (l : B → Option A) (k : C → Option A)
    → ((b : B) → Leaves P (l b))
    → ((c : C) → Leaves P (k c))
    → Leaves P (elim o [ inl b ↦ l b | inr c ↦ k c ])
Leaves-sum (inl b) l k h g = h b
Leaves-sum (inr c) l k h g = g c

Leaves-bind {ℓ} :
    {A : Type ℓ} {B : Type 0} {P : A → Type 0} {Q : B → Type 0} {o : Option B} (k : B → Option A)
    → Leaves Q o
    → ((b : B) → Q b → Leaves P (k b))
    → Leaves P (elim o [ none ↦ none | some b ↦ k b ])
Leaves-bind k nothing g = nothing
Leaves-bind k (value h) g = g _ h

module _ (files : List LogFile) where
  abbrev pub Listed : LogFile → Type 0
  Listed f = (k : ℕ) × (get_elem? files k ≡ some f)

  abbrev pub IsTask : Task → Type 0
  IsTask (compress name) = (f : LogFile) × Listed f × (name ≡ path_0 f.path)
  IsTask (notify name) = Unit
  IsTask free_space = Unit
  IsTask (report pri program msg) = Unit

  abbrev pub AllTasks : List Task → Type 0
  AllTasks [] = Unit
  AllTasks (t ∷ ts) = IsTask t × AllTasks ts

  AllTasks-add : (ts : List Task) (t : Task) → AllTasks ts → IsTask t → AllTasks (ts ++ t ∷ [])
  AllTasks-add [] t h one = (one, tt)
  AllTasks-add (x ∷ ts) t (first, h) one = (first, AllTasks-add ts t h one)

  module _ (D : Disk) where
    pub record Kept (w w' : World D) : Type 0 where
      pub subscriptions : w'.subscriptions ≡ w.subscriptions
      pub tasks : AllTasks w.tasks → AllTasks w'.tasks

    pub same : (w : World D) (s : D.State) → Kept w (record w { disk = s })
    same w s = record { subscriptions = refl; tasks = λ h. h }

    pub Kept-trans : (u v w : World D) → Kept u v → Kept v w → Kept u w
    Kept-trans u v w h g = record {
      subscriptions = g.subscriptions ∙ h.subscriptions;
      tasks = λ t. g.tasks (h.tasks t);
    }

    Kept-if :
        (w : World D) {x y : World D} (b : Bool) → Kept w x → Kept w y → Kept w (if b then x else y)
    Kept-if w true h g = h
    Kept-if w false h g = g

    Kept-option {ℓ} :
        {B : Type ℓ} (w : World D) {z : World D} (o : Option B) (k : B → World D)
        → Kept w z
        → ((b : B) → Kept w (k b))
        → Kept w (elim o [ none ↦ z | some b ↦ k b ])
    Kept-option w none k h g = h
    Kept-option w (some b) k h g = g b

    pub do_notify_subscribers-Kept :
        (name : Bytes) (w : World D) → Kept w (do_notify_subscribers D name w)
    unfolding do_notify_subscribers
    do_notify_subscribers-Kept name w = record { subscriptions = refl; tasks = λ h. h }

    abbrev pub Keeps : {A : Type 0} → World D → Option (A × World D) → Type 0
    Keeps {A} w = Leaves (λ a. Kept w a.1)

    pub add-Kept : (t : Task) (w : World D) → IsTask t → Kept w (add_heavy_operation_task D t w)
    unfolding add_heavy_operation_task
    add-Kept t w one = record { subscriptions = refl; tasks = λ h. AllTasks-add w.tasks t h one }

    pub Keeps-from :
        {A : Type 0} {o : Option (A × World D)} (u v : World D) → Kept u v → Keeps v o → Keeps u o
    Keeps-from u v h nothing = nothing
    Keeps-from u v h (value g) = value (Kept-trans u v _ h g)

    pub compress_file-Keeps : (name : Bytes) (w : World D) → Keeps w (compress_file D name w)
    unfolding compress_file
    compress_file-Keeps name w =
        Leaves-option (D.fopen name w.disk).0 _ (value (same w _)) (λ infile.
          let s₁ = (D.fopen name w.disk).1 in
          let (made, s₂) = D.gzopen (name ++ codes ".gz") s₁ in
          Leaves-option made _ (value (same w _)) (λ outfile.
            Leaves-option (compress_loop D (suc (length (D.unread s₂ infile))) infile outfile s₂) _
              nothing (λ out. value (same w _))))

    module _ (f : LogFile) (listed : Listed f) where
      rotate_and_compress-Keeps :
          (in_thread : Bool) (w : World D) → Keeps w (rotate_and_compress D f in_thread w)
      unfolding rotate_and_compress
      rotate_and_compress-Keeps in_thread w =
          let s =
            (D.rename f.path (path_0 f.path)
              (shift_files D f.path (pos_part f.rotations - 1) w.disk)).1 in
          let w' = record w { disk = s } in
          Leaves-if (leb_ℤ f.rotations (pos 0)) (value (same w _)) (
            Leaves-if in_thread
              (value (
                Kept-trans w w' _ (same w s)
                  (add-Kept (compress (path_0 f.path)) w' (f, listed, refl))))
              (Leaves-bind _ (compress_file-Keeps (path_0 f.path) w')
                (λ a h. value (Kept-trans w w' a.1 (same w s) h))))

      rotate_and_notify-Kept :
          (in_thread : Bool) (w : World D) → Kept w (rotate_and_notify D f in_thread w)
      unfolding rotate_and_notify
      rotate_and_notify-Kept in_thread w =
          let (made, s₁) = D.mkstemp (take path_room (f.path ++ codes ".XXXXXX")) w.disk in
          Kept-option w made _ (same w s₁) (λ m.
            let (err, s₂) = D.rename f.path m.0 (D.close m.1 s₁) in
            let w' = record w { disk = s₂ } in
            Kept-if w (not (err == 0)) (same w s₂) (
              Kept-if w in_thread (Kept-trans w w' _ (same w s₂) (add-Kept (notify m.0) w' tt))
                (Kept-trans w w' _ (same w s₂) (do_notify_subscribers-Kept m.0 w'))))

      do_rotate_log_file-Keeps :
          (in_thread : Bool) (w : World D) → Keeps w (do_rotate_log_file D f in_thread w)
      unfolding do_rotate_log_file
      do_rotate_log_file-Keeps in_thread w =
          Leaves-if (eqb_ℤ w.subscriptions (pos 0)) (rotate_and_compress-Keeps in_thread w)
            (value (rotate_and_notify-Kept in_thread w))

      rotate_log_file-Keeps :
          (fd : D.Fd) (n : ℕ) (w : World D) → Keeps w (rotate_log_file D f fd n w)
      unfolding rotate_log_file
      rotate_log_file-Keeps fd n w = Leaves-if (leb_ℤ f.rotations (pos 0)) (value (same w _)) (
          Leaves-option (D.fstat fd w.disk) _ (value (same w _)) (λ st.
            Leaves-if (not st.is_regular) (value (same w _)) (
              Leaves-if (leb ((st.size + n) % 2 ^ 64) (size_of_int f.max_size)) (value (same w _))
                (do_rotate_log_file-Keeps true w))))

      write_from-Keeps :
          (fuel : ℕ) (did : Bool) (p : Bytes) (w : World D) → Keeps w (write_from D fuel did f p w)
      unfolding write_from
      write_from-Keeps zero did p w = nothing
      write_from-Keeps (suc fuel) did p w =
          let (opened, s₁) = D.open_append f.path w.disk in
          Leaves-sum opened _ _ (λ err. value (same w _))
            (λ fd.
              let w₁ = record w { disk = D.lock fd s₁ } in
              Leaves-bind _
                (Leaves-if did (value (same w _))
                  (Keeps-from w w₁ (same w _) (rotate_log_file-Keeps fd (length p) w₁)))
                (λ a h. elim (Bool-cases a.0) [
                  | inl rotated ↦ rw rotated (
                      Keeps-from w (leave D fd a.1) (Kept-trans w a.1 _ h (same a.1 _))
                        (write_from-Keeps fuel true p (leave D fd a.1)))
                  | inr stayed ↦
                      rw stayed (value (Kept-trans w a.1 _ h (unfold write_out in same a.1 _)))
                ]))

      pub write_to_log_file-Keeps : (p : Bytes) (w : World D) → Keeps w (write_to_log_file D f p w)
      unfolding write_to_log_file
      write_to_log_file-Keeps p w =
          Leaves-if (length p == 0) (value (same w _)) (write_from-Keeps 2 false p w)

      pub force_rotate_log_file-Keeps :
          (in_thread : Bool) (w : World D) → Keeps w (force_rotate_log_file D f in_thread w)
      unfolding force_rotate_log_file
      force_rotate_log_file-Keeps in_thread w =
          Leaves-option (D.stat f.path w.disk) _ (value (same w _)) (λ st.
            Leaves-if st.is_regular (do_rotate_log_file-Keeps in_thread w) (value (same w _)))
