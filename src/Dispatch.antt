-- ===== src/Dispatch.antt =====
-- src/main.c: `LogMessage` with `FlushMessage` and `FlushNotMe`, which buffer a message in the ring
-- of its context or write it to the log.
pub mod Buffered
pub mod Flushed
pub mod Laws
pub mod Log
pub mod Logged
pub mod Named
pub mod Report
pub mod Returns
pub mod Serve
pub mod Stamp
use pmlogdaemon.Base.{
  ℕ, ◌+◌, ◌-◌, ◌^◌, ◌<◌, ◌≡◌, Bool, true, false, Option, none, some, List, [], ◌∷◌, ◌++◌, map,
  Bytes, codes, length, take, drop, replicate, str_eq, ◌==◌, if◌then◌else◌,
}
use pmlogdaemon.Base.GTree.{GTree}
use pmlogdaemon.Base.Int.{pos, pos_part, leb_ℤ}
use pmlogdaemon.Base.Outcome.{Outcome, done, ◌>>=◌}
use pmlogdaemon.Conf.{ContextConf, program_max_name_length}
use pmlogdaemon.Config.Context.{Config, lookup_context, change_context}
use pmlogdaemon.Dispatch.Buffered.{buffered_text, read_buffered}
use pmlogdaemon.Dispatch.Stamp.{Settings, Clock, frac_sec_size, make_message_timestamp}
use pmlogdaemon.Message.PidTid.{parse_msg_pid_tid}
use pmlogdaemon.Message.Priority.{lvl_of, syslog_info}
use pmlogdaemon.Message.Priority.Names.{PmLogLib, format_pri}
use pmlogdaemon.Message.Program.{Program, c_str, parse_msg_program}
use pmlogdaemon.Message.Token.{parse_msg_context, parse_msg_tag, is_rotate_command, strip_stamp}
use pmlogdaemon.Ring.{RingBuffer, write_at, rb_write, rb_flush}
use pmlogdaemon.Route.{Files, output_message}

-- What lies outside the contexts: the files, the options of the time stamps, what the system says of
-- the time and what the stack holds where `MakeMessageTimestamp` is called, the command that rotates
-- the main log, and the task of a report.
pub record Host (S : Type 0) : Type 1 where
  pub files : Files S
  pub settings : Settings
  pub read_clock : S → Clock × S
  pub stack : S → Bytes
  pub force_rotate : S → S
  pub add_report : ℕ → Bytes → Bytes → S → S

-- What keeps `MakeMessageTimestamp` inside its buffer: the option `--fractional` asks for 14 digits at
-- most, the block is the 16 bytes declared, and `gettimeofday` gives less than a million microseconds.
pub record ClockFits {S : Type 0} (host : Host S) : Type 0 where
  pub digits : pos_part host.settings.frac_sec_digits < 15
  pub block : (s : S) → length (host.stack s) ≡ frac_sec_size
  pub usec : (s : S) → (host.read_clock s).0.tv_usec < 10 ^ 6

-- `char priStr[20]`
abbrev pub pri_size : ℕ
pri_size = 20

-- `char msgProgram[256]`
abbrev pub msg_program_size : ℕ
msg_program_size = 256

abbrev pub pmsyslogd : Bytes
pmsyslogd = codes "pmsyslogd"

-- The lines that stand around a flush.
abbrev pub flushing_for : Bytes → Bytes → Bytes → Bytes → Bytes → Bytes
flushing_for stamp pri_str name kind what =
    stamp
    ++ (b' '
        ∷ (pri_str
            ++ (codes " pmsyslogd: {"
                ++ (name
                    ++ (codes "}: ------ Flushing ring buffer for "
                        ++ (kind ++ (what ++ codes " ------\n")))))))

abbrev pub done_flushing : Bytes → Bytes → Bytes → Bytes
done_flushing stamp pri_str name =
    stamp
    ++ (b' '
        ∷ (pri_str
            ++ (codes " pmsyslogd: {" ++ (name ++ codes "}: ------ Done flushing ------\n"))))

module _ {S : Type 0} (g : GTree ContextConf) (lib : PmLogLib) (host : Host S) where
  -- The configuration, and the rest of the world.
  pub record Daemon : Type 0 where
    pub config : Config g
    pub sys : S

  -- `OutputMessage` on the tables at hand.
  abbrev pub output : ContextConf → ℕ → Bytes → Bytes → Daemon → Outcome Daemon
  output conf pri program msg d = do
    s ← output_message host.files (length d.config.outputs) (some conf) pri (some program) msg d.sys
    done (record d { sys = s })

  -- `FlushMessage`: text that does not read as a buffered message is dropped.
  unfoldable pub flush_message : ContextConf → Bytes → Daemon → Outcome Daemon
  flush_message conf msg d = elim (read_buffered msg) [
    | none ↦ done d
    | some (pri, program, text) ↦ output conf pri program text d
  ]

  -- The calls of `FlushMessage` in a flush.
  unfoldable pub flush_messages : ContextConf → List Bytes → Daemon → Outcome Daemon
  unfolding flush_message
  flush_messages conf [] d = done d
  flush_messages conf (m ∷ ms) d = do d' ← flush_message conf m d; flush_messages conf ms d'

  -- `RBFlush (rb, FlushMessage, conf)` on the context of a key.
  unfoldable pub flush_ring : Bytes → ContextConf → RingBuffer → Daemon → Outcome Daemon
  unfolding flush_messages
  flush_ring key conf rb d = do
    (messages, cleared) ← rb_flush rb
    d' ← flush_messages conf messages d
    done (record d' { config = change_context g key (record conf { rb = some cleared }) d'.config })

  -- A call of `MakeMessageTimestamp`.
  unfoldable pub stamp : Daemon → Outcome (Bytes × Daemon)
  stamp d = do
    let (t, s) = host.read_clock d.sys
    text ← make_message_timestamp host.settings t (host.stack d.sys)
    done (text, record d { sys = s })

  -- The flush that `FlushNotMe` makes of a ring that is not empty.
  unfoldable pub flush_other :
      ContextConf → Bytes → ContextConf → RingBuffer → Daemon → Outcome Daemon
  unfolding flush_ring
  flush_other me_conf key conf rb d = do
    (t, d₁) ← stamp d
    let pri_str = format_pri lib pri_size syslog_info
    let start = flushing_for t pri_str conf.context_name (codes "context ") me_conf.context_name
    d₂ ← output conf syslog_info pmsyslogd start d₁
    d₃ ← flush_ring key conf rb d₂
    (t', d₄) ← stamp d₃
    output conf syslog_info pmsyslogd (done_flushing t' pri_str conf.context_name) d₄

  -- `FlushNotMe` on the entry of a key, for the context of the key `me`. The two contexts are one
  -- exactly when their keys are.
  unfoldable pub flush_not_me : Bytes → ContextConf → Bytes → Daemon → Outcome Daemon
  unfolding flush_other
  flush_not_me me me_conf key d =
      if str_eq key me then done d else elim (lookup_context g d.config.contexts key) [
        | none ↦ done d
        | some conf ↦ elim conf.rb [
          | none ↦ done d
          | some rb ↦ if rb.is_empty then done d else flush_other me_conf key conf rb d
        ]
      ]

  -- `g_tree_foreach (g_contextConfs, FlushNotMe, me)`
  unfoldable pub flush_others : Bytes → ContextConf → List Bytes → Daemon → Outcome Daemon
  unfolding flush_not_me
  flush_others me me_conf [] d = done d
  flush_others me me_conf (key ∷ keys) d = do
    d' ← flush_not_me me me_conf key d
    flush_others me me_conf keys d'

  abbrev pub context_keys : Daemon → List Bytes
  context_keys d = elim d.config.contexts [ none ↦ [] | some t ↦ map (λ e. e.0) (g.entries t) ]

  -- A message of the flush level or above: every other ring is flushed, then that of the context,
  -- and then the message is logged.
  unfoldable pub flush_and_log :
      Bytes → ContextConf → RingBuffer → ℕ → Bytes → Bytes → Daemon → Outcome Daemon
  unfolding flush_others flush_ring
  flush_and_log me conf rb pri program line d = do
    d₁ ← flush_others me conf (context_keys d) d
    (t, d₂) ← stamp d₁
    let pri_str = format_pri lib pri_size syslog_info
    let start =
        flushing_for t pri_str conf.context_name []
          (format_pri lib pri_size pri ++ codes " message")
    d₃ ← output conf pri pmsyslogd start d₂
    d₄ ← flush_ring me conf rb d₃
    d₅ ← output conf pri program line d₄
    (t', d₆) ← stamp d₅
    output conf pri pmsyslogd (done_flushing t' pri_str conf.context_name) d₆

  -- A message below it is written to the ring.
  unfoldable pub buffer_message :
      Bytes → ContextConf → RingBuffer → ℕ → Bytes → Bytes → Daemon → Outcome Daemon
  buffer_message me conf rb pri program line d = do
    let text = buffered_text rb.buffer_size pri program line
    rb' ← rb_write rb text (length text + 1)
    done (record d { config = change_context g me (record conf { rb = some rb' }) d.config })

  -- `LogMessage` from the ring buffer on: the context of the key `me`, the name of the program and
  -- the line to be logged.
  unfoldable pub log_in_context : Bytes → ContextConf → ℕ → Bytes → Bytes → Daemon → Outcome Daemon
  unfolding flush_and_log buffer_message
  log_in_context me conf pri program line d = elim conf.rb [
    | none ↦ output conf pri program line d
    | some rb ↦
        if leb_ℤ (pos (lvl_of pri)) rb.flush_level
        then flush_and_log me conf rb pri program line d
        else buffer_message me conf rb pri program line d
  ]
