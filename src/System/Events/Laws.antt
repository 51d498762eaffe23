-- ===== src/System/Events/Laws.antt =====
-- What the events of both threads of src/main.c leave, in whatever order they come.
use pmlogdaemon.Base.{ℕ, zero, suc, ◌≡◌, refl, sym, ap, ◌∙◌, some, List, [], ◌∷◌, Bytes, length}
use pmlogdaemon.Base.GTree.{GTree}
use pmlogdaemon.Base.Outcome.{done}
use pmlogdaemon.Conf.{LogFile, ContextConf}
use pmlogdaemon.Disk.{Disk}
use pmlogdaemon.Dispatch.{ClockFits}
use pmlogdaemon.Dispatch.Laws.{IsDaemon}
use pmlogdaemon.Dispatch.Returns.{Readable}
use pmlogdaemon.Dispatch.Serve.{message_of, handle_new_log-Keeps}
use pmlogdaemon.Message.Priority.Names.{PmLogLib}
use pmlogdaemon.Rotation.{Task}
use pmlogdaemon.Rotation.Cleanup.{Reports}
use pmlogdaemon.System.{System}
use pmlogdaemon.System.Events.{
  Event, datagram, oldest_task, call_rotate, call_subscribe, call_cancel, Running, run_oldest,
  cancel_held, handle_event, handle_events,
}
use pmlogdaemon.System.Messages.{Watch, host, with_subscribers}
use pmlogdaemon.System.Messages.Handled.{handle_new_log-Runs}
use pmlogdaemon.System.Reachable.{
  IsService, Step-IsService, Steps-IsService, rotate_call, subscribe, cancel, run,
}

-- Every datagram among the events is readable.
abbrev pub EventReadable : Bytes → Event → Type 0
EventReadable identifier (datagram ready received) =
    (bytes : Bytes) → received ≡ some bytes → Readable identifier (message_of bytes)
EventReadable identifier oldest_task = Unit
EventReadable identifier call_rotate = Unit
EventReadable identifier (call_subscribe added) = Unit
EventReadable identifier call_cancel = Unit

abbrev pub AllReadable : Bytes → List Event → Type 0
AllReadable identifier [] = Unit
AllReadable identifier (e ∷ es) = EventReadable identifier e × AllReadable identifier es

module _ (D : Disk) (r : Reports D.State) (clock : Watch (System D r)) where
  module _ (g : GTree ContextConf) (lib : PmLogLib) (files : List LogFile) where
    -- A daemon that goes on: its configuration is valid, with one of the files for each output, and
    -- its tasks and its count of subscribers are in order.
    pub record GoesOn (s : Running D r clock g lib) : Type 0 where
      pub daemon : IsDaemon g lib (host D r clock) (length files) s.daemon
      pub service : IsService D r files (with_subscribers D r clock g lib s.subscribers s.daemon)

    run_oldest-GoesOn :
        (s : Running D r clock g lib) → GoesOn s → GoesOn (run_oldest D r clock g lib s)
    unfolding run_oldest
    run_oldest-GoesOn s h = tasks s.daemon.sys.world.tasks refl
      where
        tasks :
            (ts : List Task) → s.daemon.sys.world.tasks ≡ ts → GoesOn (run_oldest D r clock g lib s)
        tasks [] e = rw (run_oldest, e) h
        tasks (t ∷ rest) e =
            rw (run_oldest, e)
              (record {
                daemon = record { valid = h.daemon.valid; size = h.daemon.size };
                service = Step-IsService D r files _ _ (run t rest e) h.service;
              })

    cancel_held-GoesOn :
        (n : ℕ) (s : Running D r clock g lib)
        → s.subscribers ≡ n
        → GoesOn s
        → GoesOn (cancel_held D r clock g lib n s)
    unfolding cancel_held
    cancel_held-GoesOn zero s e h = h
    cancel_held-GoesOn (suc n) s e h = record {
      daemon = record { valid = h.daemon.valid; size = h.daemon.size };
      service = Step-IsService D r files _ _ (cancel n e) h.service;
    }

    handle_event-GoesOn :
        ClockFits (host D r clock)
        → (e : Event) (s : Running D r clock g lib) → EventReadable lib.identifier e
        → GoesOn s
        → (s' : Running D r clock g lib) × (handle_event D r clock g lib e s ≡ done s') × GoesOn s'
    unfolding handle_event
    handle_event-GoesOn fits (datagram ready received) s readable h =
        let (d, e, h') =
          handle_new_log-Keeps lib g (host D r clock) (length files) fits ready received s.daemon
            readable h.daemon in
        let runs =
          handle_new_log-Runs D r clock g lib ready received s.daemon d
            (h.daemon.size ∙ ap length (sym h.service.outputs)) e in
        (
          record s { daemon = d },
          rw e refl,
          record {
            daemon = h';
            service = Steps-IsService D r files _ _ (runs.steps s.subscribers) h.service;
          },
        )
    handle_event-GoesOn fits oldest_task s readable h = (_, refl, run_oldest-GoesOn s h)
    handle_event-GoesOn fits call_rotate s readable h = (
      _,
      refl,
      record {
        daemon = record { valid = h.daemon.valid; size = h.daemon.size };
        service = Step-IsService D r files _ _ rotate_call h.service;
      },
    )
    handle_event-GoesOn fits (call_subscribe added) s readable h = (
      _,
      refl,
      record {
        daemon = record { valid = h.daemon.valid; size = h.daemon.size };
        service = Step-IsService D r files _ _ (subscribe added) h.service;
      },
    )
    handle_event-GoesOn fits call_cancel s readable h =
        (_, refl, cancel_held-GoesOn s.subscribers s refl h)

    -- Datagrams that are readable, calls of the service bus and tasks, in whatever order they come and
    -- whatever the datagrams hold, are all handled by a daemon that goes on, and it goes on.
    pub handle_events-GoesOn :
        ClockFits (host D r clock)
        → (es : List Event) (s : Running D r clock g lib) → AllReadable lib.identifier es
        → GoesOn s
        → (s' : Running D r clock g lib) × (handle_events D r clock g lib es s ≡ done s')
          × GoesOn s'
    unfolding handle_events
    handle_events-GoesOn fits [] s readable h = (s, refl, h)
    handle_events-GoesOn fits (e ∷ es) s readable h =
        let (s', run_e, h') = handle_event-GoesOn fits e s readable.0 h in
        let (s₂, run_es, h₂) = handle_events-GoesOn fits es s' readable.1 h' in
        (s₂, rw run_e run_es, h₂)
