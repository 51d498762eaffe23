-- ===== src/System/Stays.antt =====
-- The calls of the daemon leave the outputs as they are, and keep what `Kept` says.
use pmlogdaemon.Base.{
  ℕ, ◌+◌, ◌≡◌, ◌∙◌, inl, inr, refl, sym, ap, subst, Bool, true, false, Option, none, some, List, [],
  ◌∷◌, arith, Bytes, get_elem?, ◌==◌, if◌then◌else◌, Option-cases,
}
use pmlogdaemon.Base.Outcome.{Outcome, done, aborted, overflow, ◌>>=◌}
use pmlogdaemon.Conf.{LogFile, ContextConf}
use pmlogdaemon.Disk.{Disk}
use pmlogdaemon.Rotation.{
  World, add_heavy_operation_task, Task, compress, notify, free_space, report,
}
use pmlogdaemon.Rotation.Cleanup.{Reports}
use pmlogdaemon.Route.{want_outputs, enospc, write_wanted, output_message}
use pmlogdaemon.System.{
  System, clear_disk, add_report, returned, log_files, write_to, force_rotate, add_report, run_task,
}
use pmlogdaemon.System.Kept.{
  value, Kept, Kept-trans, Keeps, same, add-Kept, compress_file-Keeps, do_notify_subscribers-Kept,
  write_to_log_file-Keeps, force_rotate_log_file-Keeps,
}

done_back {ℓ κ} :
    {A : Type ℓ} {B : Type κ} (m : Outcome A) (k : A → B) (b : B)
    → (m >>= (λ a. done (k a))) ≡ done b
    → (a : A) × (k a ≡ b)
done_back (done a) k b e = (a, ground arith)
done_back aborted k b e = absurd (ground arith)
done_back overflow k b e = absurd (ground arith)

module _ (D : Disk) (r : Reports D.State) where
  -- A call that leaves the outputs as they are and keeps what `Kept` says.
  pub record Stays (files : List LogFile) (sys sys' : System D r) : Type 0 where
    pub outputs : sys'.files ≡ sys.files
    pub kept : Kept files D sys.world sys'.world

  Stays-refl : (files : List LogFile) (sys : System D r) → Stays files sys sys
  Stays-refl files sys = record { outputs = refl; kept = same files D sys.world sys.world.disk }

  Stays-trans :
      (files : List LogFile) (x y z : System D r)
      → Stays files x y
      → Stays files y z
      → Stays files x z
  Stays-trans files x y z h g = record {
    outputs = g.outputs ∙ h.outputs;
    kept = Kept-trans files D x.world y.world z.world h.kept g.kept;
  }

  returned-Stays :
      {A : Type 0} (files : List LogFile) (default : A) (sys : System D r)
      (o : Option (A × World D))
      → Keeps files D sys.world o
      → Stays files sys (returned D r default sys o).1
  returned-Stays files default sys none h = Stays-refl files sys
  returned-Stays files default sys (some (a, w)) (value h) = record { outputs = refl; kept = h }

  Stays-if :
      (files : List LogFile) (sys : System D r) {x y : System D r} (b : Bool)
      → Stays files sys x
      → Stays files sys y
      → Stays files sys (if b then x else y)
  Stays-if files sys true h g = h
  Stays-if files sys false h g = g

  module _ (files : List LogFile) where
    listed :
        (i : ℕ) (f : LogFile) (sys : System D r)
        → sys.files ≡ files
        → get_elem? sys.files i ≡ some f
        → get_elem? files i ≡ some f
    listed i f sys e at = ap (λ fs. get_elem? fs i) (sym e) ∙ at

    pub write_to-Stays :
        (i : ℕ) (msg : Bytes) (sys : System D r)
        → sys.files ≡ files
        → Stays files sys (write_to D r i msg sys).1
    unfolding write_to
    write_to-Stays i msg sys e = elim (Option-cases (get_elem? sys.files i)) [
      | inl missing ↦ rw (write_to, missing) (Stays-refl files sys)
      | inr (f, at) ↦
          rw (write_to, at)
            (returned-Stays files 0 sys _
              (write_to_log_file-Keeps files D f (i, listed i f sys e at) msg sys.world))
    ]

    pub force_rotate-Stays :
        (in_thread : Bool) (sys : System D r)
        → sys.files ≡ files
        → Stays files sys (force_rotate D r in_thread sys).1
    unfolding force_rotate
    force_rotate-Stays in_thread sys e = elim (Option-cases (get_elem? sys.files 0)) [
      | inl missing ↦ rw (force_rotate, missing) (Stays-refl files sys)
      | inr (f, at) ↦
          rw (force_rotate, at)
            (returned-Stays files false sys _
              (force_rotate_log_file-Keeps files D f (0, listed 0 f sys e at) in_thread sys.world))
    ]

    clear_disk-Stays : (sys : System D r) → Stays files sys (clear_disk D r sys)
    clear_disk-Stays sys = record { outputs = refl; kept = same files D sys.world _ }

    pub write_wanted-Stays :
        (msg : Bytes) (i : ℕ) (want : List Bool) (sys : System D r)
        → sys.files ≡ files
        → Stays files sys (write_wanted (log_files D r) msg i want sys)
    unfolding write_wanted
    write_wanted-Stays msg i [] sys e = Stays-refl files sys
    write_wanted-Stays msg i (wanted ∷ want) sys e =
        let (err, written) = write_to D r i msg sys in
        let w : Stays files sys written = write_to-Stays i msg sys e in
        let task = add_heavy_operation_task D free_space written.world in
        let queued : System D r = record written { world = task } in
        let one : Stays files sys
            (if wanted then (if err == enospc then clear_disk D r queued else written) else sys) =
          Stays-if files sys wanted
            (Stays-if files sys (err == enospc)
              (Stays-trans files sys queued _
                (Stays-trans files sys written queued w
                  (record { outputs = refl; kept = add-Kept files D free_space written.world tt }))
                (clear_disk-Stays queued))
              w)
            (Stays-refl files sys) in
        Stays-trans files sys _ _ one (write_wanted-Stays msg (i + 1) want _ (one.outputs ∙ e))

    pub output_message-Stays :
        (n : ℕ) (conf : ContextConf) (pri : ℕ) (program : Option Bytes) (msg : Bytes)
        (sys sys' : System D r)
        → sys.files ≡ files
        → output_message (log_files D r) n (some conf) pri program msg sys ≡ done sys'
        → Stays files sys sys'
    unfolding output_message
    output_message-Stays n conf pri program msg sys sys' e finished =
        let (want, is) =
          done_back (want_outputs n pri program conf.rules)
            (λ want. write_wanted (log_files D r) msg 0 want sys) sys' finished in
        subst (Stays files sys) is (write_wanted-Stays msg 0 want sys e)

    pub run_task-Stays : (t : Task) (sys : System D r) → Stays files sys (run_task D r t sys)
    unfolding run_task
    run_task-Stays (compress name) sys =
        returned-Stays files false sys _ (compress_file-Keeps files D name sys.world)
    run_task-Stays (notify name) sys = record {
      outputs = refl;
      kept = do_notify_subscribers-Kept files D name sys.world;
    }
    run_task-Stays free_space sys = clear_disk-Stays sys
    run_task-Stays (report pri program msg) sys = record {
      outputs = refl;
      kept = same files D sys.world _;
    }

    pub add_report-Stays :
        (pri : ℕ) (program msg : Bytes) (sys : System D r)
        → Stays files sys (add_report D r pri program msg sys)
    add_report-Stays pri program msg sys = record {
      outputs = refl;
      kept = add-Kept files D (report pri program msg) sys.world tt;
    }
