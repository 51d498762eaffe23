-- ===== src/Startup/Laws.antt =====
-- What the configuration of `InitConfig` in src/config.c and the main loop of `RunSysLogD` in src/main.c
-- do together.
use pmlogdaemon.Base.{◌≡◌, refl, ap, subst, List, [], ◌∷◌, Bytes}
use pmlogdaemon.Base.GTree.{GTree}
use pmlogdaemon.Base.Outcome.{done}
use pmlogdaemon.Conf.{LogFile, ContextConf}
use pmlogdaemon.Config.Context.{Config}
use pmlogdaemon.Config.Context.Laws.{IsConfig}
use pmlogdaemon.Config.Init.{Files, init_config}
use pmlogdaemon.Config.Init.Laws.{AllOf, init_config-IsConfig}
use pmlogdaemon.Config.Json.{Json}
use pmlogdaemon.Config.Json.Contexts.Laws.{ContextsFit}
use pmlogdaemon.Config.Json.Laws.{DocumentFits}
use pmlogdaemon.Disk.{Disk}
use pmlogdaemon.Dispatch.{ClockFits}
use pmlogdaemon.Message.Priority.Names.{PmLogLib}
use pmlogdaemon.Rotation.Cleanup.{Reports, init_log_files, log_file_init}
use pmlogdaemon.Startup.{start_logging}
use pmlogdaemon.System.{System}
use pmlogdaemon.System.Events.{Event, Running, handle_events}
use pmlogdaemon.System.Events.Laws.{AllReadable, GoesOn, handle_events-GoesOn}
use pmlogdaemon.System.Messages.{Watch, host, with_subscribers}
use pmlogdaemon.System.Reachable.{IsService, IsService-start}

module _ (D : Disk) (r : Reports D.State) (clock : Watch (System D r)) where
  -- Each output has its log file.
  init_log_files-outputs :
      (outputs : List LogFile) (s : D.State) → (init_log_files D outputs s).0 ≡ outputs
  unfolding init_log_files log_file_init
  init_log_files-outputs [] s = refl
  init_log_files-outputs (o ∷ outputs) s =
      ap (◌∷◌ o) (init_log_files-outputs outputs (log_file_init D o s).1)

  module _ (g : GTree ContextConf) (lib : PmLogLib) where
    start_logging-GoesOn :
        (c : Config g) (disk : D.State)
        → IsConfig g c
        → GoesOn D r clock g lib c.outputs (start_logging D r clock g lib c disk)
    unfolding start_logging
    start_logging-GoesOn c disk h =
        let s = start_logging D r clock g lib c disk in
        record {
          daemon = record { valid = h; size = refl };
          service =
              subst (λ files. IsService D r files (with_subscribers D r clock g lib 0 s.daemon))
                (init_log_files-outputs c.outputs disk)
                (IsService-start D r (with_subscribers D r clock g lib 0 s.daemon) refl refl refl);
        }

    -- In a build without whitelist and reports: on files whose names of outputs and of contexts fit and
    -- whose contexts have at most 16 rules each, whatever else they hold, `InitConfig` returns; and from
    -- the files and the queue that `RunSysLogD` then sets up, all events are handled, in whatever order
    -- datagrams, calls of the service bus and tasks come, where the datagrams are readable, the option
    -- `--fractional` asks for 14 digits at most, the buffer of the fraction is 16 bytes and the clock
    -- gives less than a million microseconds. The daemon then has a valid configuration, a file for each
    -- output, at most one subscriber, which it has counted, and no task that compresses another file
    -- than the one just rotated of an output.
    pub start_logging-handle_events :
        (j : Json) (log_dir : Bytes) (output_files context_files : Files j lib g)
        (events : List Event) (disk : D.State)
        → ClockFits (host D r clock)
        → AllOf j lib g (DocumentFits j) output_files
        → AllOf j lib g (ContextsFit j lib g) context_files
        → AllReadable lib.identifier events
        → (c : Config g) × (s : Running D r clock g lib) × (init_config j lib g log_dir output_files
              context_files
            ≡ done c)
          × (handle_events D r clock g lib events (start_logging D r clock g lib c disk) ≡ done s)
          × GoesOn D r clock g lib c.outputs s
    start_logging-handle_events j log_dir output_files context_files events disk fits outputs_fit
          contexts_fit readable =
        let (c, e, h) =
          init_config-IsConfig j lib g log_dir output_files context_files outputs_fit
            contexts_fit in
        let (s, e', h') =
          handle_events-GoesOn D r clock g lib c.outputs fits events
            (start_logging D r clock g lib c disk) readable (start_logging-GoesOn c disk h) in
        (c, s, e, e', h')
