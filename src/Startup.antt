-- ===== src/Startup.antt =====
-- src/main.c: what `RunSysLogD` sets up before its main loop: the log files, the socket and the heavy
-- operation thread.
pub mod Laws
pub mod Reader
pub mod Thread
use pmlogdaemon.Base.{[]}
use pmlogdaemon.Base.GTree.{GTree}
use pmlogdaemon.Base.Int.{pos}
use pmlogdaemon.Conf.{ContextConf}
use pmlogdaemon.Config.Context.{Config}
use pmlogdaemon.Disk.{Disk}
use pmlogdaemon.Message.Priority.Names.{PmLogLib}
use pmlogdaemon.Rotation.Cleanup.{Reports, init_log_files}
use pmlogdaemon.System.{System}
use pmlogdaemon.System.Events.{Running}
use pmlogdaemon.System.Messages.{Watch}

module _ (D : Disk) (r : Reports D.State) (clock : Watch (System D r)) where
  module _ (g : GTree ContextConf) (lib : PmLogLib) where
    -- The loop over the outputs in `RunSysLogD`, and the queue and the subscriptions at the start.
    unfoldable pub start_logging : Config g → D.State → Running D r clock g lib
    start_logging c disk =
        let (files, disk') = init_log_files D c.outputs disk in
        record {
          daemon = record {
            config = c;
            sys = record {
              files = files;
              world = record { disk = disk'; tasks = []; subscriptions = pos 0; replies = [] };
            };
          };
          subscribers = 0;
        }
