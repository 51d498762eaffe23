-- ===== src/System/Messages/Handled.antt =====
-- `LogMessage` and `HandleNewLog` as steps of the daemon.
use pmlogdaemon.Base.{Option, ◌==◌, ℕ, ◌≡◌, ◌∙◌, refl, ap, sym, Bool, true, Bytes, length, leb}
use pmlogdaemon.Base.GTree.{GTree}
use pmlogdaemon.Base.Outcome.{done}
use pmlogdaemon.Conf.{ContextConf}
use pmlogdaemon.Disk.{Disk}
use pmlogdaemon.Dispatch.{Daemon}
use pmlogdaemon.Dispatch.Log.{
  Build, plain_build, log_addressed, split_program, add_pid_tid, address, find_context, Addressed,
  log_message_if, log_message, process_message, handle_new_log,
}
use pmlogdaemon.Dispatch.Report.{report_critical, is_black_listed, black_list, log_crit}
use pmlogdaemon.Message.Program.{Program}
use pmlogdaemon.Message.Priority.{lvl_of}
use pmlogdaemon.Message.Priority.Names.{PmLogLib}
use pmlogdaemon.Message.Token.{is_rotate_command, strip_stamp}
use pmlogdaemon.Rotation.Cleanup.{Reports}
use pmlogdaemon.System.{System, force_rotate, add_report}
use pmlogdaemon.System.Ends.{ends, Ends-bind, Ends-any, ended, Ends-if, Ends-option}
use pmlogdaemon.System.Reachable.{stay, rotate_command, report_step}
use pmlogdaemon.System.Stays.{force_rotate-Stays}
use pmlogdaemon.System.Messages.{
  Watch, host, stamp-Goes, Runs, Goes, Sized, Runs-Step, Runs-if, log_in_context-Goes,
}
use pmlogdaemon.Dispatch.Log.{log_reported_message}

module _ (D : Disk) (r : Reports D.State) (clock : Watch (System D r)) where
  module _ (g : GTree ContextConf) (lib : PmLogLib) where
    -- What a build reports is a step.
    abbrev ReportsStep : Build (System D r) → Type 0
    ReportsStep build =
        (pri : ℕ) (program msg : Bytes) (a d : Daemon g lib (host D r clock))
        → Runs D r clock g lib a d
        → Runs D r clock g lib a (record d { sys = build.report pri program msg d.sys })

    log_addressed-Goes :
        (build : Build (System D r))
        → ReportsStep build
        → (pri : ℕ) (t msg : Bytes) (p : Program) (to : Addressed)
          (a d : Daemon g lib (host D r clock))
        → Runs D r clock g lib a d
        → Goes D r clock g lib a (log_addressed lib g (host D r clock) build pri t msg p to d)
    unfolding log_addressed
    log_addressed-Goes build reports pri t msg p to a d h =
        Ends-option (find_context lib g (host D r clock) to.context d) _ (ends h) (λ found.
          Ends-bind (Ends-any (build.test to)) (λ passed _.
            Ends-bind
              (Ends-if passed (log_in_context-Goes D r clock g lib found.0 found.1 pri _ _ a d h)
                (ends h))
              (λ d' h'. ends (reports pri _ msg a d' h'))))

    log_message_if-Goes :
        (build : Build (System D r))
        → ReportsStep build
        → (pri : ℕ) (msg : Bytes) (a d : Daemon g lib (host D r clock)) → Runs D r clock g lib a d
        → Goes D r clock g lib a (log_message_if lib g (host D r clock) build pri msg d)
    unfolding log_message_if
    log_message_if-Goes build reports pri msg a d h =
        Ends-bind (stamp-Goes D r clock g lib a d h) (λ out h₁.
          Ends-bind (Ends-any (split_program (strip_stamp msg))) (λ split _.
            Ends-bind (Ends-any (add_pid_tid split)) (λ p _.
              Ends-bind (Ends-any (address lib p.next)) (λ to _.
                Ends-if (is_rotate_command to.curr) (ends (rotated a out.1 h₁))
                  (log_addressed-Goes build reports pri out.0 (strip_stamp msg) p to a out.1 h₁)))))
      where
        rotated :
            (a d : Daemon g lib (host D r clock))
            → Runs D r clock g lib a d
            → Runs D r clock g lib a (record d { sys = (force_rotate D r true d.sys).1 })
        rotated a d h =
            Runs-Step D r clock g lib a d (record d { sys = (force_rotate D r true d.sys).1 }) h
              (λ n. rotate_command)
              (h.sized
                ∙ ap length (sym (force_rotate-Stays D r d.sys.files true d.sys refl).outputs))

    reported :
        (pri : ℕ) (program msg : Bytes) (a d : Daemon g lib (host D r clock))
        → Runs D r clock g lib a d
        → Runs D r clock g lib a
            (record d { sys = report_critical (add_report D r) pri program msg d.sys })
    unfolding report_critical
    reported pri program msg a d h =
        let queued =
          Runs-Step D r clock g lib a d (record d { sys = add_report D r pri program msg d.sys }) h
            (λ n. report_step pri program msg) h.sized in
        Runs-if D r clock g lib a d (leb (lvl_of pri) log_crit) _ _
          (Runs-if D r clock g lib a d (is_black_listed black_list program) _ _ h queued) h

    process_message-Goes :
        (buff : Bytes) (a d : Daemon g lib (host D r clock))
        → Runs D r clock g lib a d
        → Goes D r clock g lib a (process_message lib g (host D r clock) buff d)
    unfolding process_message log_message
    process_message-Goes buff a d h =
        log_message_if-Goes plain_build (λ pri program msg a d h. h) _ _ a d h

    handle_new_log-Goes :
        (ready : Bool) (received : Option Bytes) (a d : Daemon g lib (host D r clock))
        → Runs D r clock g lib a d
        → Goes D r clock g lib a (handle_new_log lib g (host D r clock) ready received d)
    unfolding handle_new_log
    handle_new_log-Goes ready received a d h =
        Ends-if ready
          (Ends-option received _ (ends h)
            (λ bytes. Ends-if (length bytes == 0) (ends h) (process_message-Goes _ a d h)))
          (ends h)

    -- `LogMessage` in a build with reports is a sequence of steps, too.
    pub log_reported_message-Runs :
        (pri : ℕ) (msg : Bytes) (d d' : Daemon g lib (host D r clock))
        → Sized D r clock g lib d
        → log_reported_message lib g (host D r clock) pri msg d ≡ done d'
        → Runs D r clock g lib d d'
    unfolding log_reported_message
    log_reported_message-Runs pri msg d d' sized e =
        ended
          (log_message_if-Goes (record plain_build { report = report_critical (add_report D r) })
            reported pri msg d d (record { steps = λ n. stay; sized = sized }))
          e

    -- `HandleNewLog` on a daemon that has as many files as outputs, whatever is received: where it
    -- goes on, what it has done to the files, the tasks and the subscriptions is a sequence of steps
    -- of the daemon, and the daemon still has as many files as outputs.
    pub handle_new_log-Runs :
        (ready : Bool) (received : Option Bytes) (d d' : Daemon g lib (host D r clock))
        → Sized D r clock g lib d
        → handle_new_log lib g (host D r clock) ready received d ≡ done d'
        → Runs D r clock g lib d d'
    handle_new_log-Runs ready received d d' sized e =
        ended (handle_new_log-Goes ready received d d (record { steps = λ n. stay; sized = sized }))
          e
