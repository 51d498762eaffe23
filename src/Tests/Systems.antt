-- ===== src/Tests/Systems.antt =====
-- Runs of the daemon's files and threads together.
use pmlogdaemon.Base.{
  ℕ, zero, suc, ◌≡◌, refl, subst, Bool, true, false, none, some, List, [], ◌∷◌, arith, codes,
  get_elem?, get_or, str_eq,
}
use pmlogdaemon.Base.Outcome.{done}
use pmlogdaemon.Conf.{LogFile, ContextConf}
use pmlogdaemon.Config.Context.{match_all}
use pmlogdaemon.Rotation.Cleanup.{Reports}
use pmlogdaemon.Route.{output_message}
use pmlogdaemon.Route.Wanted.{decide_last}
use pmlogdaemon.System.{
  System, log_files, force_rotate_ls, subscribe_on_rotations_ls, sub_cancel_func,
}
use pmlogdaemon.System.Delivered.{Apart, Fits, Delivered, output_message-Delivered}
use pmlogdaemon.System.Reachable.{
  Service, Steps, stay, step, rotate_call, subscribe, cancel, IsService, reachable-IsService,
}
use pmlogdaemon.System.Messages.{Watch, host}
use pmlogdaemon.Dispatch.{ClockFits}
use pmlogdaemon.Base.Int.{pos}
use pmlogdaemon.Tests.Dispatches.{settings, clock, stack, stack_size}
use pmlogdaemon.Tests.Disks.{Files, disk, disk-Writes}
use pmlogdaemon.Tests.Rotations.{log, start}

-- Reports that are not made, and a clean-up that leaves the disk alone.
abbrev pub reports : Reports Files
reports = record {
  show_disk_usage = λ s. (some (codes "usage"), s);
  make_report = λ name s. (true, s);
  remove_logs = λ s. s;
  report_message = λ cause detail text s. s;
}

abbrev second : LogFile
second = record log { output_name = codes "other"; path = codes "/other" }

abbrev system : System disk reports
system = record { files = log ∷ second ∷ []; world = start }

abbrev conf : ContextConf
conf = record { context_name = codes "<global>"; rb = none; rules = match_all ∷ [] }

two_files :
    (k : ℕ) (f : LogFile)
    → get_elem? system.files k ≡ some f
    → Fits disk reports (codes "a\n") start f
two_files zero f e =
    let same : log ≡ f = ground (arith, e) in
    subst (Fits disk reports (codes "a\n") start) same refl
two_files (suc zero) f e =
    let same : second ≡ f = ground (arith, e) in
    subst (Fits disk reports (codes "a\n") start) same refl
two_files (suc (suc k)) f e = absurd (ground (arith, e))

apart : Apart system.files
apart = (others, (λ k g e. absurd (ground (arith, e)), tt))
  where
    others :
        (k : ℕ) (g : LogFile) → get_elem? (second ∷ []) k ≡ some g → str_eq log.path g.path ≡ false
    others zero g e =
        let same : second ≡ g = ground (arith, e) in
        subst (λ (g : LogFile). str_eq log.path g.path ≡ false) same refl
    others (suc k) g e = absurd (ground (arith, e))

output_message-Delivered_example :
    (want : List Bool) × (sys' : System disk reports) × (output_message
        (log_files disk reports)
        2
        (some conf)
        14
        (some (codes "app"))
        (codes "a\n")
        system
      ≡ done sys')
    × ((k : ℕ) → get_or want k false ≡ decide_last 14 (some (codes "app")) k false conf.rules)
    × Delivered disk reports (codes "a\n") system.files want system sys'
output_message-Delivered_example =
    output_message-Delivered disk reports disk-Writes conf 14 (some (codes "app")) (codes "a\n")
      system (omega arith) ((0, refl, omega arith), tt) apart two_files

abbrev service : Service disk reports
service = record { system = system; subscribers = 0 }

-- A subscription, a forced rotation, and the cancellation.
abbrev subscribed : Service disk reports
subscribed = record {
  system = (subscribe_on_rotations_ls disk reports true system).1;
  subscribers = 1;
}

abbrev rotated : Service disk reports
rotated = record subscribed { system = (force_rotate_ls disk reports subscribed.system).1 }

abbrev cancelled : Service disk reports
cancelled = record { system = sub_cancel_func disk reports rotated.system; subscribers = 0 }

steps : Steps disk reports service cancelled
steps = step (subscribe true) (step rotate_call (step (cancel 0 refl) stay))

reachable-IsService_example : IsService disk reports (log ∷ second ∷ []) cancelled
reachable-IsService_example =
    reachable-IsService disk reports service cancelled refl refl refl steps

-- A clock that stands still.
abbrev pub watch : Watch (System disk reports)
watch = record { settings = settings true (pos 2); time = λ sys. clock; block = λ sys. stack }

pub watch-ClockFits : ClockFits (host disk reports watch)
watch-ClockFits = record { digits = omega arith; block = λ s. stack_size; usec = λ s. omega arith }
