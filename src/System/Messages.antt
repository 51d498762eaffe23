-- ===== src/System/Messages.antt =====
-- The processing of a message as steps of the daemon: the calls from the context on.
pub mod Handled
use pmlogdaemon.Base.{
  Option, ◌==◌, ℕ, ◌≡◌, ◌∙◌, refl, ap, sym, subst, Bool, true, false, some, List, [], ◌∷◌, Bytes,
  length, leb, if◌then◌else◌, str_eq,
}
use pmlogdaemon.Base.GTree.{GTree}
use pmlogdaemon.Base.Int.{pos, leb_ℤ}
use pmlogdaemon.Base.Outcome.{Outcome, done}
use pmlogdaemon.Conf.{ContextConf}
use pmlogdaemon.Config.Context.{lookup_context, change_context}
use pmlogdaemon.Config.Context.Laws.{outputs-change_context}
use pmlogdaemon.Disk.{Disk}
use pmlogdaemon.Dispatch.{
  Host, Daemon, stamp, output, flush_message, flush_messages, flush_ring, flush_other, flush_not_me,
  flush_others, flush_and_log, buffer_message, log_in_context, context_keys,
}
use pmlogdaemon.Dispatch.Buffered.{read_buffered}
use pmlogdaemon.Dispatch.Stamp.{Settings, Clock, make_message_timestamp}
use pmlogdaemon.Dispatch.Log.{
  Build, plain_build, log_addressed, split_program, add_pid_tid, address, find_context, Addressed,
  log_message_if, log_message, process_message, handle_new_log,
}
use pmlogdaemon.Dispatch.Report.{report_critical, is_black_listed, black_list, log_crit}
use pmlogdaemon.Message.Program.{Program}
use pmlogdaemon.Message.Priority.{lvl_of}
use pmlogdaemon.Message.Priority.Names.{PmLogLib}
use pmlogdaemon.Message.Token.{is_rotate_command, strip_stamp}
use pmlogdaemon.Ring.{RingBuffer, rb_write, rb_flush}
use pmlogdaemon.Rotation.Cleanup.{Reports}
use pmlogdaemon.Route.{output_message}
use pmlogdaemon.System.{System, log_files, force_rotate, add_report}
use pmlogdaemon.System.Ends.{
  Ends, ends, Ends-bind, Ends-any, Ends-known, ended, Ends-if, Ends-test, Ends-option,
}
use pmlogdaemon.System.Reachable.{
  Service, Step, Steps, stay, step, output_step, rotate_command, report_step,
}
use pmlogdaemon.System.Stays.{output_message-Stays, force_rotate-Stays}

-- The options of the time stamps, the clock, and what the stack holds where `MakeMessageTimestamp` is
-- called.
pub record Watch (S : Type 0) : Type 0 where
  pub settings : Settings
  pub time : S → Clock
  pub block : S → Bytes

module _ (D : Disk) (r : Reports D.State) (clock : Watch (System D r)) where
  -- The daemon's own files, with a clock.
  abbrev pub host : Host (System D r)
  host = record {
    files = log_files D r;
    settings = clock.settings;
    read_clock = λ sys. (clock.time sys, sys);
    stack = clock.block;
    force_rotate = λ sys. (force_rotate D r true sys).1;
    add_report = add_report D r;
  }

  Steps-trans : {s t u : Service D r} → Steps D r s t → Steps D r t u → Steps D r s u
  Steps-trans stay g = g
  Steps-trans (step x xs) g = step x (Steps-trans xs g)

  module _ (g : GTree ContextConf) (lib : PmLogLib) where
    abbrev pub Logger : Type 0
    Logger = Daemon g lib host

    abbrev pub with_subscribers : ℕ → Logger → Service D r
    with_subscribers n d = record { system = d.sys; subscribers = n }

    -- As many outputs as files.
    abbrev pub Sized : Logger → Type 0
    Sized d = length d.config.outputs ≡ length d.sys.files

    pub record Runs (d d' : Logger) : Type 0 where
      pub steps : (n : ℕ) → Steps D r (with_subscribers n d) (with_subscribers n d')
      pub sized : Sized d'

    -- A call that goes on from `d'`.
    abbrev pub Goes : Logger → Outcome Logger → Type 0
    Goes d o = Ends (Runs d) o

    Runs-trans : (a b c : Logger) → Runs a b → Runs b c → Runs a c
    Runs-trans a b c h f = record {
      steps = λ n. Steps-trans (h.steps n) (f.steps n);
      sized = f.sized;
    }

    -- One more step of the daemon behind those of `h`.
    pub Runs-Step :
        (a d d' : Logger)
        → Runs a d
        → ((n : ℕ) → Step D r (with_subscribers n d) (with_subscribers n d'))
        → Sized d'
        → Runs a d'
    Runs-Step a d d' h one sized = record {
      steps = λ n. Steps-trans (h.steps n) (step (one n) stay);
      sized = sized;
    }

    -- A call of `MakeMessageTimestamp` is no step.
    pub stamp-Goes : (a d : Logger) → Runs a d → Ends (λ out. Runs a out.1) (stamp g lib host d)
    unfolding stamp
    stamp-Goes a d h =
        Ends-bind
          (Ends-any (make_message_timestamp clock.settings (clock.time d.sys) (clock.block d.sys)))
          (λ text _. ends h)

    output-Goes :
        (conf : ContextConf) (pri : ℕ) (program msg : Bytes) (a d : Logger)
        → Runs a d
        → Goes a (output g lib host conf pri program msg d)
    output-Goes conf pri program msg a d h =
        Ends-bind
          (Ends-known (
            output_message host.files (length d.config.outputs) (some conf) pri (some program) msg
              d.sys))
          (λ s e. ends (
            Runs-Step a d (record d { sys = s }) h
              (λ n. output_step conf pri (some program) msg s (
                subst
                  (λ k.
                    output_message host.files k (some conf) pri (some program) msg d.sys ≡ done s)
                  h.sized e))
              (h.sized
                ∙ ap length (
                    sym
                      (output_message-Stays D r d.sys.files (length d.config.outputs) conf pri
                        (some program) msg d.sys s refl e).outputs))))

    flush_message-Goes :
        (conf : ContextConf) (msg : Bytes) (a d : Logger)
        → Runs a d
        → Goes a (flush_message g lib host conf msg d)
    unfolding flush_message
    flush_message-Goes conf msg a d h =
        Ends-option (read_buffered msg) _ (ends h) (λ m. output-Goes conf m.0 m.1 m.2 a d h)

    flush_messages-Goes :
        (conf : ContextConf) (ms : List Bytes) (a d : Logger)
        → Runs a d
        → Goes a (flush_messages g lib host conf ms d)
    unfolding flush_messages
    flush_messages-Goes conf [] a d h = ends h
    flush_messages-Goes conf (m ∷ ms) a d h =
        Ends-bind (flush_message-Goes conf m a d h) (λ d' h'. flush_messages-Goes conf ms a d' h')

    pub Runs-if :
        (a d : Logger) (b : Bool) (x y : System D r)
        → Runs a (record d { sys = x })
        → Runs a (record d { sys = y })
        → Runs a (record d { sys = if b then x else y })
    Runs-if a d true x y h f = h
    Runs-if a d false x y h f = f

    -- A change of the contexts is no step.
    pub Runs-config :
        (a d : Logger) (key : Bytes) (conf : ContextConf)
        → Runs a d
        → Runs a (record d { config = change_context g key conf d.config })
    Runs-config a d key conf h = record {
      steps = h.steps;
      sized = ap length (outputs-change_context g key conf d.config) ∙ h.sized;
    }

    flush_ring-Goes :
        (key : Bytes) (conf : ContextConf) (rb : RingBuffer) (a d : Logger)
        → Runs a d
        → Goes a (flush_ring g lib host key conf rb d)
    unfolding flush_ring
    flush_ring-Goes key conf rb a d h = Ends-bind (Ends-any (rb_flush rb)) (λ out _.
        Ends-bind (flush_messages-Goes conf out.0 a d h)
          (λ d' h'. ends (Runs-config a d' key (record conf { rb = some out.1 }) h')))

    flush_other-Goes :
        (me_conf : ContextConf) (key : Bytes) (conf : ContextConf) (rb : RingBuffer) (a d : Logger)
        → Runs a d
        → Goes a (flush_other g lib host me_conf key conf rb d)
    unfolding flush_other
    flush_other-Goes me_conf key conf rb a d h = Ends-bind (stamp-Goes a d h) (λ out h₁.
        Ends-bind (output-Goes conf _ _ _ a out.1 h₁) (λ d₂ h₂.
          Ends-bind (flush_ring-Goes key conf rb a d₂ h₂) (λ d₃ h₃.
            Ends-bind (stamp-Goes a d₃ h₃) (λ out' h₄. output-Goes conf _ _ _ a out'.1 h₄))))

    flush_not_me-Goes :
        (me : Bytes) (me_conf : ContextConf) (key : Bytes) (a d : Logger)
        → Runs a d
        → Goes a (flush_not_me g lib host me me_conf key d)
    unfolding flush_not_me
    flush_not_me-Goes me me_conf key a d h = Ends-if (str_eq key me) (ends h) (
        Ends-option (lookup_context g d.config.contexts key) _ (ends h) (λ conf.
          Ends-option conf.rb _ (ends h)
            (λ rb. Ends-if rb.is_empty (ends h) (flush_other-Goes me_conf key conf rb a d h))))

    flush_others-Goes :
        (me : Bytes) (me_conf : ContextConf) (keys : List Bytes) (a d : Logger)
        → Runs a d
        → Goes a (flush_others g lib host me me_conf keys d)
    unfolding flush_others
    flush_others-Goes me me_conf [] a d h = ends h
    flush_others-Goes me me_conf (key ∷ keys) a d h =
        Ends-bind (flush_not_me-Goes me me_conf key a d h)
          (λ d' h'. flush_others-Goes me me_conf keys a d' h')

    flush_and_log-Goes :
        (me : Bytes) (conf : ContextConf) (rb : RingBuffer) (pri : ℕ) (program line : Bytes)
        (a d : Logger)
        → Runs a d
        → Goes a (flush_and_log g lib host me conf rb pri program line d)
    unfolding flush_and_log
    flush_and_log-Goes me conf rb pri program line a d h =
        Ends-bind (flush_others-Goes me conf (context_keys g lib host d) a d h) (λ d₁ h₁.
          Ends-bind (stamp-Goes a d₁ h₁) (λ out h₂.
            Ends-bind (output-Goes conf _ _ _ a out.1 h₂) (λ d₃ h₃.
              Ends-bind (flush_ring-Goes me conf rb a d₃ h₃) (λ d₄ h₄.
                Ends-bind (output-Goes conf _ _ _ a d₄ h₄) (λ d₅ h₅.
                  Ends-bind (stamp-Goes a d₅ h₅)
                    (λ out' h₆. output-Goes conf _ _ _ a out'.1 h₆))))))

    pub log_in_context-Goes :
        (me : Bytes) (conf : ContextConf) (pri : ℕ) (program line : Bytes) (a d : Logger)
        → Runs a d
        → Goes a (log_in_context g lib host me conf pri program line d)
    unfolding log_in_context buffer_message
    log_in_context-Goes me conf pri program line a d h =
        Ends-option conf.rb _ (output-Goes conf pri program line a d h) (λ rb.
          Ends-if (leb_ℤ (pos (lvl_of pri)) rb.flush_level)
            (flush_and_log-Goes me conf rb pri program line a d h)
            (Ends-bind (Ends-any (rb_write rb _ _))
              (λ rb' _. ends (Runs-config a d me (record conf { rb = some rb' }) h))))
