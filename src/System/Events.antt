-- ===== src/System/Events.antt =====
-- src/main.c: the datagrams of the main loop, and between them what the heavy operation thread does:
-- the calls of the service bus and the tasks.
pub mod Laws
use pmlogdaemon.Base.{ℕ, zero, suc, Bool, ◌&&◌, Option, List, [], ◌∷◌, Bytes, if◌then◌else◌}
use pmlogdaemon.Base.GTree.{GTree}
use pmlogdaemon.Base.Int.{pos, eqb_ℤ}
use pmlogdaemon.Base.Outcome.{Outcome, done, ◌>>=◌}
use pmlogdaemon.Conf.{ContextConf}
use pmlogdaemon.Disk.{Disk}
use pmlogdaemon.Dispatch.{Daemon}
use pmlogdaemon.Dispatch.Log.{handle_new_log}
use pmlogdaemon.Message.Priority.Names.{PmLogLib}
use pmlogdaemon.Rotation.Cleanup.{Reports}
use pmlogdaemon.System.{
  System, force_rotate_ls, run_task, subscribe_on_rotations_ls, sub_cancel_func,
}
use pmlogdaemon.System.Messages.{Watch, host}

-- A wake of the main loop; the oldest task; and the calls of the service bus, with the result of
-- `LSSubscriptionAdd`.
pub data Event : Type 0 where
  datagram : Bool → Option Bytes → Event
  oldest_task : Event
  call_rotate : Event
  call_subscribe : Bool → Event
  call_cancel : Event

module _ (D : Disk) (r : Reports D.State) (clock : Watch (System D r)) where
  module _ (g : GTree ContextConf) (lib : PmLogLib) where
    -- The daemon, and how many subscriptions the service bus holds.
    pub record Running : Type 0 where
      pub daemon : Daemon g lib (host D r clock)
      pub subscribers : ℕ

    abbrev pub with_system : System D r → Running → Running
    with_system sys s = record s { daemon = record s.daemon { sys = sys } }

    -- The oldest task, where there is one.
    unfoldable pub run_oldest : Running → Running
    run_oldest s =
        let sys = s.daemon.sys in
        elim sys.world.tasks [
          | [] ↦ s
          | t ∷ rest ↦
              with_system
                (run_task D r t (record sys { world = record sys.world { tasks = rest } })) s
        ]

    -- The end of a subscription, where the service bus holds one.
    unfoldable pub cancel_held : ℕ → Running → Running
    cancel_held zero s = s
    cancel_held (suc n) s = record {
      daemon = record s.daemon { sys = sub_cancel_func D r s.daemon.sys };
      subscribers = n;
    }

    unfoldable pub handle_event : Event → Running → Outcome Running
    unfolding run_oldest cancel_held
    handle_event (datagram ready received) s =
        handle_new_log lib g (host D r clock) ready received s.daemon
        >>= (λ d. done (record s { daemon = d }))
    handle_event oldest_task s = done (run_oldest s)
    handle_event call_rotate s = done (with_system (force_rotate_ls D r s.daemon.sys).1 s)
    handle_event (call_subscribe added) s = done (record {
      daemon = record s.daemon { sys = (subscribe_on_rotations_ls D r added s.daemon.sys).1 };
      subscribers =
          if eqb_ℤ s.daemon.sys.world.subscriptions (pos 0) && added
          then suc s.subscribers
          else s.subscribers;
    })
    handle_event call_cancel s = done (cancel_held s.subscribers s)

    unfoldable pub handle_events : List Event → Running → Outcome Running
    unfolding handle_event
    handle_events [] s = done s
    handle_events (e ∷ es) s = handle_event e s >>= (λ s'. handle_events es s')
