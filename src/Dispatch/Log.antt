-- ===== src/Dispatch/Log.antt =====
-- src/main.c: `LogMessage` up to the context of a message, `ProcessMessage` and `HandleNewLog`.
use pmlogdaemon.Base.{
  ℕ, ◌+◌, ◌-◌, Bool, true, Option, none, some, List, [], ◌∷◌, ◌++◌, Bytes, length, take, replicate,
  ◌==◌, if◌then◌else◌,
}
use pmlogdaemon.Base.GTree.{GTree}
use pmlogdaemon.Base.Outcome.{Outcome, done, ◌>>=◌}
use pmlogdaemon.Conf.{ContextConf, program_max_name_length}
use pmlogdaemon.Config.Context.{lookup_context}
use pmlogdaemon.Dispatch.{Host, Daemon, stamp, log_in_context, pri_size, msg_program_size}
use pmlogdaemon.Dispatch.Report.{report_critical}
use pmlogdaemon.Message.Escape.{escape_line}
use pmlogdaemon.Message.PidTid.{parse_msg_pid_tid}
use pmlogdaemon.Message.Priority.{parse_priority}
use pmlogdaemon.Message.Priority.Names.{PmLogLib, format_pri}
use pmlogdaemon.Message.Program.{Program, c_str, parse_msg_program}
use pmlogdaemon.Message.Token.{parse_msg_context, parse_msg_tag, is_rotate_command, strip_stamp}
use pmlogdaemon.Ring.{write_at}

-- `MAXLINE`, the bytes of a datagram that `HandleNewLog` has room for.
abbrev pub max_line : ℕ
max_line = 1024

-- The message behind the program identifier and the pid and tid of the logging library: what is
-- left of it, with `msgProgram`, `programName` and `msgProgramNameLen`. Where there is no program,
-- both buffers hold the empty string.
unfoldable pub split_program : Bytes → Outcome Program
split_program msg = do
  parsed ←
      parse_msg_program (replicate msg_program_size 0) (replicate (program_max_name_length + 1) 0)
        msg
  done (elim parsed [
    | some p ↦ p
    | none ↦ record {
      next = msg;
      full = replicate msg_program_size 0;
      name = replicate (program_max_name_length + 1) 0;
      name_len = 0;
    }
  ])

-- "integrate into msgProgram": `snprintf` behind the name and its space.
unfoldable pub add_pid_tid : Program → Outcome Program
add_pid_tid p = elim (parse_msg_pid_tid p.next) [
  | none ↦ done p
  | some next ↦ do
    let prefix = take (length p.next - length next) p.next
    full ← write_at p.full (p.name_len + 1) (take (msg_program_size - p.name_len) prefix ++ 0 ∷ [])
    done (record p { next = next; full = full })
]

-- The name of the context, what is logged of the message, and where a command may stand in it.
pub record Addressed : Type 0 where
  pub context : Bytes
  pub left : Bytes
  pub curr : Bytes

-- What depends on the build: the test of a production build, once the context is known, and the
-- report of a message.
pub record Build (S : Type 0) : Type 0 where
  pub test : Addressed → Outcome Bool
  pub report : ℕ → Bytes → Bytes → S → S

abbrev pub plain_build : {S : Type 0} → Build S
plain_build = record { test = λ a. done true; report = λ pri program msg s. s }

module _ (lib : PmLogLib) where
  unfoldable pub address : Bytes → Outcome Addressed
  address msg = elim (parse_msg_tag lib.identifier msg) [
    | none ↦ done (record { context = lib.legacy_log; left = msg; curr = msg })
    | some next ↦ do
      word ← parse_msg_context (lib.max_context_name_len + 1) next
      done (elim word [
        | none ↦ record { context = []; left = next; curr = next }
        | some (rest, name) ↦ record { context = name; left = next; curr = rest }
      ])
  ]

  module _ {S : Type 0} (g : GTree ContextConf) (host : Host S) where
    -- The context of a name and its key: the default context where there is none.
    unfoldable pub find_context : Bytes → Daemon g lib host → Option (Bytes × ContextConf)
    find_context name d =
        let found : Option ContextConf =
          if length name == 0 then none else lookup_context g d.config.contexts name in
        elim found [
          | some conf ↦ some (name, conf)
          | none ↦ elim (lookup_context g d.config.contexts lib.default_context_name) [
            | none ↦ none
            | some conf ↦ some (lib.default_context_name, conf)
          ]
        ]

    -- `LogMessage`: where the message goes to the context found.
    unfoldable pub log_addressed :
        Build S
        → ℕ
        → Bytes
        → Bytes
        → Program
        → Addressed
        → Daemon g lib host
        → Outcome (Daemon g lib host)
    unfolding find_context
    log_addressed build pri t msg p a d = elim (find_context a.context d) [
      | none ↦ done d
      | some (key, conf) ↦ do
        passed ← build.test a
        let line =
            t
            ++ (b' '
                ∷ (format_pri lib pri_size pri
                    ++ (b' ' ∷ (c_str p.full ++ (a.left ++ b'\n' ∷ [])))))
        logged ←
            (if passed
              then log_in_context g lib host key conf pri (c_str p.name) line d
              else done d)
        done (record logged { sys = build.report pri (c_str p.name) msg logged.sys })
    ]

    -- `LogMessage` in a build.
    unfoldable pub log_message_if :
        Build S → ℕ → Bytes → Daemon g lib host → Outcome (Daemon g lib host)
    unfolding split_program add_pid_tid address log_addressed
    log_message_if build pri msg d = do
      (t, d₁) ← stamp g lib host d
      split ← split_program (strip_stamp msg)
      p ← add_pid_tid split
      a ← address p.next
      (if is_rotate_command a.curr
          then done (record d₁ { sys = host.force_rotate d₁.sys })
          else log_addressed build pri t (strip_stamp msg) p a d₁)

    -- `LogMessage` in a build with neither a whitelist nor reports, and in one with reports.
    unfoldable pub log_message : ℕ → Bytes → Daemon g lib host → Outcome (Daemon g lib host)
    unfolding log_message_if
    log_message pri msg d = log_message_if plain_build pri msg d

    unfoldable pub log_reported_message :
        ℕ → Bytes → Daemon g lib host → Outcome (Daemon g lib host)
    unfolding log_message_if report_critical
    log_reported_message pri msg d =
        log_message_if (record plain_build { report = report_critical host.add_report }) pri msg d

    -- `ProcessMessage`, on the bytes of a datagram.
    unfoldable pub process_message : Bytes → Daemon g lib host → Outcome (Daemon g lib host)
    unfolding log_message
    process_message buff d =
        let (pri, text) = parse_priority buff in log_message pri (escape_line text) d

    -- `HandleNewLog`: whether the channel has data, and what `recv` gives, none where it fails.
    unfoldable pub handle_new_log :
        Bool → Option Bytes → Daemon g lib host → Outcome (Daemon g lib host)
    unfolding process_message
    handle_new_log ready received d =
        if ready
        then elim received [
          | none ↦ done d
          | some bytes ↦
              if length bytes == 0 then done d else process_message (c_str (take max_line bytes)) d
        ]
        else done d

    -- The calls of `HandleNewLog` that the watch on the socket makes, one for each datagram.
    unfoldable pub serve :
        List (Bool × Option Bytes) → Daemon g lib host → Outcome (Daemon g lib host)
    unfolding handle_new_log
    serve [] d = done d
    serve ((ready, received) ∷ events) d = do d' ← handle_new_log ready received d; serve events d'
