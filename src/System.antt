-- ===== src/System.antt =====
-- src/main.c: the daemon's files and its two threads. The thread that logs writes to `g_logFiles`;
-- the heavy operation thread runs the tasks and answers the service bus.
pub mod Delivered
pub mod Ends
pub mod Events
pub mod Kept
pub mod Messages
pub mod Reachable
pub mod Stays
use pmlogdaemon.Base.{
  ℕ, ◌≡◌, Bool, true, false, not, Option, none, some, List, [], ◌∷◌, Bytes, codes, get_elem?,
  if◌then◌else◌,
}
use pmlogdaemon.Base.Int.{ℤ, pos, suc_ℤ, pred_ℤ, int32, eqb_ℤ}
use pmlogdaemon.Conf.{LogFile}
use pmlogdaemon.Disk.{Disk}
use pmlogdaemon.Rotation.{
  World, Task, compress, notify, free_space, report, add_heavy_operation_task, compress_file,
  do_notify_subscribers, write_to_log_file, force_rotate_log_file,
}
use pmlogdaemon.Rotation.Cleanup.{Reports, free_disk_space}
use pmlogdaemon.Dispatch.Report.{level_cause}
use pmlogdaemon.Route.{Files}

-- What a caller on the service bus is told: an error text, where `returnValue` is false.
abbrev pub Reply : Type 0
Reply = Option Bytes

module _ (D : Disk) (r : Reports D.State) where
  -- `g_logFiles` up to `g_numOutputs`, and the rest.
  pub record System : Type 0 where
    pub files : List LogFile
    pub world : World D

  -- What a call on the world returns; it has fuel enough, so the second case is not taken.
  abbrev pub returned : {A : Type 0} → A → System → Option (A × World D) → A × System
  returned default sys (some (a, w)) = (a, record sys { world = w })
  returned default sys none = (default, sys)

  -- `WriteToLogFile (&g_logFiles[i], ...)`
  unfoldable pub write_to : ℕ → Bytes → System → ℕ × System
  write_to i msg sys = elim (get_elem? sys.files i) [
    | none ↦ (0, sys)
    | some f ↦ returned 0 sys (write_to_log_file D f msg sys.world)
  ]

  abbrev pub clear_disk : System → System
  clear_disk sys = record sys {
    world = record sys.world { disk = free_disk_space D r sys.files sys.world.disk };
  }

  -- The task of a report, as `LogMessage` adds it.
  abbrev pub add_report : ℕ → Bytes → Bytes → System → System
  add_report pri program msg sys = record sys {
    world = add_heavy_operation_task D (report pri program msg) sys.world;
  }

  -- The files of `OutputMessage`.
  abbrev pub log_files : Files System
  log_files = record {
    write_to_log_file = write_to;
    add_free_task = λ sys. record sys { world = add_heavy_operation_task D free_space sys.world };
    free_disk_space = clear_disk;
  }

  -- `ForceRotateLogFile (&g_logFiles[0], ...)`. Where there is no output, its path is null, which
  -- `stat` refuses.
  unfoldable pub force_rotate : Bool → System → Bool × System
  force_rotate in_thread sys = elim (get_elem? sys.files 0) [
    | none ↦ (false, sys)
    | some f ↦ returned false sys (force_rotate_log_file D f in_thread sys.world)
  ]

  -- `force_rotate_ls`
  unfoldable pub force_rotate_ls : System → Reply × System
  unfolding force_rotate
  force_rotate_ls sys =
      let (rotated, sys') = force_rotate false sys in
      (if rotated then none else some (codes "Log rotation failed"), sys')

  -- `RdxLogReport`
  unfoldable pub rdx_log_report : ℕ → Bytes → Bytes → System → System
  rdx_log_report pri program msg sys = record sys {
    world = record sys.world {
      disk = r.report_message (level_cause pri) program msg sys.world.disk;
    };
  }

  -- The function of a task, as `HeavyOperationWrapper` calls it.
  unfoldable pub run_task : Task → System → System
  unfolding rdx_log_report
  run_task (compress name) sys = (returned false sys (compress_file D name sys.world)).1
  run_task (notify name) sys = record sys { world = do_notify_subscribers D name sys.world }
  run_task free_space sys = clear_disk sys
  run_task (report pri program msg) sys = rdx_log_report pri program msg sys

  -- `subscribe_on_rotations_ls`, with the result of `LSSubscriptionAdd`.
  unfoldable pub subscribe_on_rotations_ls : Bool → System → Reply × System
  subscribe_on_rotations_ls added sys =
      if not (eqb_ℤ sys.world.subscriptions (pos 0))
      then (some (codes "Already have a subscriber. Can't add another one."), sys)
      else if not added
      then (some (codes "Internal error. Can't add subscription"), sys)
      else (
        none,
        record sys {
          world = record sys.world { subscriptions = int32 (suc_ℤ sys.world.subscriptions) };
        },
      )

  -- `sub_cancel_func`
  unfoldable pub sub_cancel_func : System → System
  sub_cancel_func sys = record sys {
    world = record sys.world { subscriptions = int32 (pred_ℤ sys.world.subscriptions) };
  }
