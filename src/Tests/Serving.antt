-- ===== src/Tests/Serving.antt =====
-- Runs of datagrams through the whole of `HandleNewLog` in src/main.c.
use pmlogdaemon.Base.{
  ◌≢◌, sym, ◌∙◌, ◌+◌, ◌-◌, ◌<◌, ◌≡◌, ◌↔◌, refl, Bool, true, false, Option, none, some, List, [],
  ◌∷◌, ◌++◌, arith, Bytes, codes, replicate, drop,
}
use pmlogdaemon.Base.Outcome.{done, overflow}
use pmlogdaemon.Dispatch.{Daemon, msg_program_size, stamp}
use pmlogdaemon.Dispatch.Laws.{IsDaemon}
use pmlogdaemon.Dispatch.Log.{add_pid_tid, serve}
use pmlogdaemon.Dispatch.Returns.{Readable, behind_pid, behind_name, add_pid_tid_iff}
use pmlogdaemon.Dispatch.Serve.{message_of, AllReadable, Readable-short, serve-IsDaemon}
use pmlogdaemon.Base.Int.{pos}
use pmlogdaemon.Base.Strtol.{decimal}
use pmlogdaemon.Dispatch.Stamp.{frac_sec, full_date, monotonic_part, make_message_timestamp}
use pmlogdaemon.Dispatch.Stamp.Laws.{fraction, make_message_timestamp-full}
use pmlogdaemon.Dispatch.Stamp.Strip.{IsCtime, strip_stamp-make_message_timestamp}
use pmlogdaemon.Ring.{write_at}
use pmlogdaemon.Message.PidTid.{parse_msg_pid_tid, byte, inside, pid_tid, digits, tid}
use pmlogdaemon.Message.Token.{parse_msg_tag, strip_stamp, has_stamp}
use pmlogdaemon.Message.Escape.{escape_line}
use pmlogdaemon.Message.Priority.{parse_priority}
use pmlogdaemon.Message.Program.{Program, behind_colon, span_from}
use pmlogdaemon.Tests.Configs.{tree}
use pmlogdaemon.Tests.Dispatches.{
  host, host-ClockFits, clock, settings, stack, stack_size, name, daemon, daemon-IsDaemon,
}
use pmlogdaemon.Tests.Routes.{lib}

-- A datagram, one that `recv` has failed on, and a wake without data.
abbrev pub events : List (Bool × Option Bytes)
events = (true, some (codes "<11>app: [1] hi")) ∷ ((true, none) ∷ ((false, none) ∷ []))

abbrev app : Bytes
app = codes "app: [1] hi"

app_message : message_of (codes "<11>app: [1] hi") ≡ app
unfolding strip_stamp has_stamp escape_line parse_priority
app_message = refl

app_tag : parse_msg_tag lib.identifier (behind_pid (behind_name app)) ≡ none
unfolding parse_msg_tag parse_msg_pid_tid byte behind_colon span_from inside pid_tid digits tid
app_tag = refl

app_Readable : Readable lib.identifier app
app_Readable =
    Readable-short lib.identifier app (omega arith) (λ next e. absurd (some_none (sym e ∙ app_tag)))
  where
    some_none : {x : Bytes} → some x ≢ none
    some_none e = ground arith

served :
    (bytes : Bytes)
    → some (codes "<11>app: [1] hi") ≡ some bytes
    → Readable lib.identifier (message_of bytes)
served bytes e =
    let same : codes "<11>app: [1] hi" ≡ bytes = cc in rw (← same) (rw app_message app_Readable)

unread : (bytes : Bytes) → none ≡ some bytes → Readable lib.identifier (message_of bytes)
unread bytes e = absurd (ground arith)

pub events-AllReadable : AllReadable lib.identifier events
events-AllReadable = (served, (unread, (unread, tt)))

serve-IsDaemon_example :
    (d' : Daemon tree lib host) × (serve lib tree host events daemon ≡ done d')
    × IsDaemon tree lib host 1 d'
serve-IsDaemon_example =
    serve-IsDaemon lib tree host 1 host-ClockFits events daemon events-AllReadable daemon-IsDaemon

abbrev long_name : Program
long_name = record {
  next = codes "[1:2] x";
  full = replicate msg_program_size 0;
  name = [];
  name_len = 250;
}

long_prefix : parse_msg_pid_tid (codes "[1:2] x") ≡ some (codes "x")
unfolding parse_msg_pid_tid byte inside pid_tid digits tid
long_prefix = refl

add_pid_tid_iff_example :
    (add_pid_tid long_name ≡ overflow) ↔ (msg_program_size < 250 + 2 + (7 - 1))
add_pid_tid_iff_example = add_pid_tid_iff long_name (codes "x") long_prefix refl (omega arith)

stamp_test :
    make_message_timestamp (settings true (pos 2)) clock stack
    ≡ done (codes "1985-04-12T23:20:50.52Z [42]")
unfolding make_message_timestamp frac_sec write_at full_date decimal monotonic_part
stamp_test = refl

make_message_timestamp-full_example :
    make_message_timestamp (settings true (pos 2)) clock stack
    ≡ done (
        (full_date clock ++ (fraction (pos 2) 520000 ++ codes "Z"))
        ++ monotonic_part (settings true (pos 2)) clock)
make_message_timestamp-full_example =
    make_message_timestamp-full (settings true (pos 2)) clock stack stack_size (omega arith) refl

ctime-IsCtime : IsCtime clock.ctime
ctime-IsCtime = record {
  wday = (b'F', b'r', b'i');
  mon = (b'A', b'p', b'r');
  day = (b'1', b'2');
  hour = (b'2', b'3');
  minute = (b'2', b'0');
  second = (b'5', b'0');
  year = codes "1985\n";
  day_digit = refl;
  hour_digit = refl;
  minute_digits = (refl, refl);
  second_digits = (refl, refl);
  is = refl;
}

strip_stamp-make_message_timestamp_example :
    (stamp : Bytes) × (make_message_timestamp (settings false (pos 2)) clock stack ≡ done stamp)
    × (strip_stamp (stamp ++ b' ' ∷ codes "hi")
        ≡ drop 1 (monotonic_part (settings false (pos 2)) clock ++ b' ' ∷ codes "hi"))
strip_stamp-make_message_timestamp_example =
    strip_stamp-make_message_timestamp (settings false (pos 2)) clock stack (codes "hi")
      ctime-IsCtime refl
