-- ===== src/Tests/Dispatches.antt =====
-- Runs of the buffering of messages in src/main.c.
use pmlogdaemon.Base.{
  ℕ, ◌≡◌, inl, inr, refl, none, some, List, [], ◌∷◌, ◌++◌, arith, Bytes, codes, str_eq,
  if◌then◌else◌, Bool-cases, Bool, true, length, replicate,
}
use pmlogdaemon.Base.Int.{ℤ, pos}
use pmlogdaemon.Base.Outcome.{done}
use pmlogdaemon.Base.Strtol.{decimal}
use pmlogdaemon.Conf.{ContextConf}
use pmlogdaemon.Config.Context.{lookup_context, change_context, default_output, match_all}
use pmlogdaemon.Config.Context.Laws.{IsContext}
use pmlogdaemon.Config.Output.{find_output_by_name}
use pmlogdaemon.Dispatch.{Host, ClockFits, Daemon, buffer_message, log_in_context}
use pmlogdaemon.Dispatch.Buffered.{buffered_text, read_buffered, read_buffered-buffered_text}
use pmlogdaemon.Dispatch.Stamp.{Settings, Clock, frac_sec_size}
use pmlogdaemon.Dispatch.Laws.{IsDaemon}
use pmlogdaemon.Dispatch.Logged.{buffer_message-slide, log_in_context-IsDaemon}
use pmlogdaemon.Ring.{RingBuffer}
use pmlogdaemon.Ring.Window.{contents, slide}
use pmlogdaemon.Tests.Configs.{tree, find, log}
use pmlogdaemon.Tests.Rings.{fresh, fresh-IsRing}
use pmlogdaemon.Tests.Routes.{lib}

-- 1985-04-12T23:20:50.52Z, with a monotonic clock at 42 seconds.
abbrev pub clock : Clock
clock = record {
  year = 1985;
  month = 4;
  day = 12;
  hour = 23;
  minute = 20;
  second = 50;
  tv_usec = 520000;
  ctime = codes "Fri Apr 12 23:20:50 1985\n";
  clock_result = pos 0;
  monotonic_sec = pos 42;
}

abbrev pub settings : Bool → ℤ → Settings
settings full digits = record {
  use_full_time_stamps = full;
  frac_sec_digits = digits;
  monotonic = true;
}

abbrev pub stack : Bytes
stack = replicate frac_sec_size 170

pub stack_size : length stack ≡ frac_sec_size
stack_size = refl

-- A world that keeps what is written, with a clock that stands still.
abbrev pub host : Host (List (ℕ × Bytes))
host = record {
  files = record {
    write_to_log_file = λ i msg s. (0, s ++ (i, msg) ∷ []);
    add_free_task = λ s. s;
    free_disk_space = λ s. s;
  };
  settings = settings true (pos 2);
  read_clock = λ s. (clock, s);
  stack = λ s. stack;
  force_rotate = λ s. s;
  add_report = λ pri program msg s. s;
}

pub host-ClockFits : ClockFits host
host-ClockFits = record { digits = omega arith; block = λ s. stack_size; usec = λ s. omega arith }

abbrev pub name : Bytes
name = codes "<global>"

-- One context, with an empty ring that errors flush.
abbrev pub conf : ContextConf
conf = record { context_name = name; rb = some fresh; rules = match_all ∷ [] }

abbrev pub daemon : Daemon tree lib host
daemon = record {
  config = record {
    outputs = default_output log ∷ [];
    contexts = some ((name, conf) ∷ []);
    num_contexts = 1;
  };
  sys = [];
}

there : lookup_context tree daemon.config.contexts name ≡ some conf
unfolding lookup_context find
there = refl

pub daemon-IsDaemon : IsDaemon tree lib host 1 daemon
unfolding lookup_context find
daemon-IsDaemon = record {
  valid = record {
    table = record { distinct = (unfold find_output_by_name in refl, tt); bounded = omega arith };
    contexts_ok = λ j c e. context j c e;
  };
  size = refl;
}
  where
    context :
        (j : Bytes) (c : ContextConf)
        → (if str_eq name j then some conf else none) ≡ some c
        → IsContext 1 c
    context j c e = elim (Bool-cases (str_eq name j)) [
      | inl here ↦
          let is : conf ≡ c = ground arith in
          rw (← is) (record {
            named = ((0, refl, omega arith), tt);
            few = omega arith;
            ring = fresh-IsRing;
          })
      | inr other ↦ absurd (ground arith)
    ]

abbrev line : Bytes
line = codes "T user.info app hi\n"

read_buffered-buffered_text_example :
    read_buffered (buffered_text 16 14 (codes "app") (codes "T hello"))
    ≡ some (14, codes "app", codes "T hello")
unfolding decimal
read_buffered-buffered_text_example =
    read_buffered-buffered_text 16 14 (codes "app") (codes "T hello") (omega arith) (ground arith)
      (omega arith)

buffer_message-slide_example :
    (after : RingBuffer) × (buffer_message tree lib host name conf fresh 14
        (codes "app")
        line
        daemon
      ≡ done (record daemon {
        config = change_context tree name (record conf { rb = some after }) daemon.config;
      }))
    × (contents after ≡ slide (contents fresh) (buffered_text 2048 14 (codes "app") line ++ 0 ∷ []))
    × IsDaemon tree lib host 1 (record daemon {
      config = change_context tree name (record conf { rb = some after }) daemon.config;
    })
buffer_message-slide_example =
    buffer_message-slide tree lib host 1 name conf fresh 14 (codes "app") line daemon
      daemon-IsDaemon there refl

log_in_context-IsDaemon_example :
    (d' : Daemon tree lib host) × (log_in_context tree lib host name conf 11
        (codes "app")
        line
        daemon
      ≡ done d')
    × IsDaemon tree lib host 1 d'
log_in_context-IsDaemon_example =
    log_in_context-IsDaemon tree lib host 1 host-ClockFits name conf 11 (codes "app") line daemon
      daemon-IsDaemon there
