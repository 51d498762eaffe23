-- ===== src/Dispatch/Serve.antt =====
-- `LogMessage`, `ProcessMessage` and `HandleNewLog` as a whole, and the datagrams of the main loop one
-- after another: what readable messages do to the daemon.
use pmlogdaemon.Base.{
  arith, ℕ, ◌+◌, ◌≤◌, ◌≡◌, ◌∙◌, ap, inl, inr, refl, Bool, true, false, Option, none, some, List, [],
  ◌∷◌, Bytes, length, take, ◌==◌, if◌then◌else◌, Option-cases,
}
use pmlogdaemon.Base.GTree.{GTree}
use pmlogdaemon.Base.Outcome.{Outcome, done, ◌>>=◌, Returns}
use pmlogdaemon.Conf.{ContextConf}
use pmlogdaemon.Config.Context.{lookup_context}
use pmlogdaemon.Dispatch.{Host, ClockFits, Daemon, msg_program_size}
use pmlogdaemon.Dispatch.Flushed.{stamp-done}
use pmlogdaemon.Dispatch.Laws.{IsDaemon}
use pmlogdaemon.Dispatch.Log.{
  Addressed, address, add_pid_tid, log_message, find_context, Build, plain_build, log_addressed,
  log_message_if, process_message, handle_new_log, serve, max_line,
}
use pmlogdaemon.Dispatch.Logged.{log_in_context-IsDaemon}
use pmlogdaemon.Dispatch.Returns.{
  Readable, has_space, behind_name, name_end, behind_pid, split_program-returns,
  add_pid_tid-returns, address-Returns,
}
use pmlogdaemon.Message.Escape.{escape_line}
use pmlogdaemon.Message.Priority.{parse_priority}
use pmlogdaemon.Message.Priority.Names.{PmLogLib}
use pmlogdaemon.Message.Program.{Program, c_str, span, behind_colon}
use pmlogdaemon.Message.Program.Returns.{behind_colon_bounds}
use pmlogdaemon.Message.Token.{is_rotate_command, parse_msg_tag, strip_stamp}

-- What `LogMessage` splits of a datagram.
abbrev pub message_of : Bytes → Bytes
message_of bytes = strip_stamp (escape_line ((parse_priority (c_str (take max_line bytes))).1))

-- Every datagram that is received is readable.
abbrev pub AllReadable : Bytes → List (Bool × Option Bytes) → Type 0
AllReadable identifier [] = Unit
AllReadable identifier ((ready, received) ∷ events) =
    ((bytes : Bytes) → received ≡ some bytes → Readable identifier (message_of bytes))
    × AllReadable identifier events

-- A message of at most 254 bytes is, where a context that the logging library names ends in a space.
pub Readable-short :
    (identifier msg : Bytes)
    → length msg + 2 ≤ msg_program_size
    → ((next : Bytes)
        → parse_msg_tag identifier (behind_pid (behind_name msg)) ≡ some next
        → has_space next ≡ true)
    → Readable identifier msg
Readable-short identifier msg short tag = record {
  name = λ next e. omega (arith, behind_colon_bounds msg next e);
  pid = λ next e. elim (Option-cases (behind_colon (span msg))) [
    | inl no_name ↦ rw (behind_name, name_end, no_name) (omega arith)
    | inr (after, cut) ↦
        rw (behind_name, name_end, cut) (omega (arith, behind_colon_bounds msg after cut))
  ];
  tag = tag;
}

add_pid_tid-Readable :
    (identifier msg : Bytes) (p : Program)
    → Readable identifier msg
    → p.next ≡ behind_name msg
    → p.name_len ≡ name_end msg
    → length p.full ≡ msg_program_size
    → (p' : Program) × (add_pid_tid p ≡ done p') × (p'.next ≡ behind_pid (behind_name msg))
add_pid_tid-Readable identifier msg p r next len size =
    let (p', e, left) =
      add_pid_tid-returns p size (λ after pid. rw (next, len) (r.pid after (rw next at pid))) in
    (p', e, left ∙ ap behind_pid next)

address-Readable :
    (lib : PmLogLib) (msg : Bytes) (p : Program)
    → Readable lib.identifier msg
    → p.next ≡ behind_pid (behind_name msg)
    → Returns (address lib p.next)
address-Readable lib msg p r left =
    address-Returns lib p.next (λ next tagged. r.tag next (rw left at tagged))

module _ (lib : PmLogLib) {S : Type 0} (g : GTree ContextConf) (host : Host S) (n : ℕ) where
  -- A step that returns, after which the daemon goes on.
  abbrev pub Keeps : Outcome (Daemon g lib host) → Type 0
  Keeps o = (d : Daemon g lib host) × (o ≡ done d) × IsDaemon g lib host n d

  Keeps-bind :
      {A : Type 0} (m : Outcome A) (k : A → Outcome (Daemon g lib host))
      → Returns m
      → ((a : A) → m ≡ done a → Keeps (k a))
      → Keeps (m >>= k)
  Keeps-bind m k (a, e) h = let (d, f, i) = h a e in (d, rw e f, i)

  Keeps-then :
      (m : Outcome (Daemon g lib host)) (k : Daemon g lib host → Outcome (Daemon g lib host))
      → Keeps m
      → ((d : Daemon g lib host) → IsDaemon g lib host n d → Keeps (k d))
      → Keeps (m >>= k)
  Keeps-then m k (a, e, i) h = let (d, f, j) = h a i in (d, rw e f, j)

  Keeps-option :
      {A : Type 0} (o : Option A) {z : Outcome (Daemon g lib host)}
      (k : A → Outcome (Daemon g lib host))
      → Keeps z
      → ((a : A) → o ≡ some a → Keeps (k a))
      → Keeps (elim o [ none ↦ z | some a ↦ k a ])
  Keeps-option none k h i = h
  Keeps-option (some a) k h i = i a refl

  Keeps-if :
      (b : Bool) {x y : Outcome (Daemon g lib host)}
      → Keeps x
      → Keeps y
      → Keeps (if b then x else y)
  Keeps-if true h i = h
  Keeps-if false h i = i

  find_context-lookup :
      (name key : Bytes) (conf : ContextConf) (d : Daemon g lib host)
      → find_context lib g host name d ≡ some (key, conf)
      → lookup_context g d.config.contexts key ≡ some conf
  unfolding find_context
  find_context-lookup name key conf d e = ground arith

  log_addressed-Keeps :
      ClockFits host
      → (build : Build S) (pri : ℕ) (t msg : Bytes) (p : Program) (a : Addressed)
        (d : Daemon g lib host)
      → ((to : Addressed) → Returns (build.test to))
      → IsDaemon g lib host n d
      → Keeps (log_addressed lib g host build pri t msg p a d)
  unfolding log_addressed
  log_addressed-Keeps fits build pri t msg p a d tested h =
      Keeps-option (find_context lib g host a.context d) _ (d, refl, h)
        (λ found e.
          let there = find_context-lookup a.context found.0 found.1 d e in
          Keeps-bind (build.test a) _ (tested a) (λ passed _.
            Keeps-then _ _
              (Keeps-if passed
                (log_in_context-IsDaemon g lib host n fits found.0 found.1 pri (c_str p.name) _ d h
                  there)
                (d, refl, h))
              (λ d' h'. (_, refl, record { valid = h'.valid; size = h'.size }))))

  log_message_if-Keeps :
      ClockFits host
      → (build : Build S) (pri : ℕ) (msg : Bytes) (d : Daemon g lib host)
      → ((to : Addressed) → Returns (build.test to))
      → Readable lib.identifier (strip_stamp msg)
      → IsDaemon g lib host n d
      → Keeps (log_message_if lib g host build pri msg d)
  unfolding log_message_if
  log_message_if-Keeps fits build pri msg d tested r h =
      let (t, s, stamped) = stamp-done g lib host fits d in
      let (split, e, next, len, size) = split_program-returns (strip_stamp msg) r.name in
      let (p, f, left) =
        add_pid_tid-Readable lib.identifier (strip_stamp msg) split r next len size in
      let (a, k) = address-Readable lib (strip_stamp msg) p r left in
      rw (stamped, e, f, k)
        (Keeps-if (is_rotate_command a.curr) (_, refl, record { valid = h.valid; size = h.size })
          (log_addressed-Keeps fits build pri t (strip_stamp msg) p a (record d { sys = s }) tested
            (record { valid = h.valid; size = h.size })))

  process_message-Keeps :
      ClockFits host
      → (buff : Bytes) (d : Daemon g lib host)
      → Readable lib.identifier (strip_stamp (escape_line ((parse_priority buff).1)))
      → IsDaemon g lib host n d
      → Keeps (process_message lib g host buff d)
  unfolding process_message log_message
  process_message-Keeps fits buff d r h =
      log_message_if-Keeps fits plain_build _ _ d (λ to. (true, refl)) r h

  pub handle_new_log-Keeps :
      ClockFits host
      → (ready : Bool) (received : Option Bytes) (d : Daemon g lib host)
      → ((bytes : Bytes) → received ≡ some bytes → Readable lib.identifier (message_of bytes))
      → IsDaemon g lib host n d
      → Keeps (handle_new_log lib g host ready received d)
  unfolding handle_new_log
  handle_new_log-Keeps fits ready received d r h =
      Keeps-if ready
        (Keeps-option received _ (d, refl, h)
          (λ bytes e.
            Keeps-if (length bytes == 0) (d, refl, h)
              (process_message-Keeps fits _ d (r bytes e) h)))
        (d, refl, h)

  -- In a build without whitelist and reports, on a daemon that goes on, datagrams that are readable,
  -- whatever else they hold and however many there are, are all served: no assertion fails, nothing
  -- goes outside an object, and the daemon goes on. The option `--fractional` asks for 14 digits at
  -- most, the buffer of the fraction is 16 bytes, and the clock gives less than a million microseconds.
  pub serve-IsDaemon :
      ClockFits host
      → (events : List (Bool × Option Bytes)) (d : Daemon g lib host)
      → AllReadable lib.identifier events
      → IsDaemon g lib host n d
      → (d' : Daemon g lib host) × (serve lib g host events d ≡ done d') × IsDaemon g lib host n d'
  unfolding serve
  serve-IsDaemon fits [] d r h = (d, refl, h)
  serve-IsDaemon fits ((ready, received) ∷ events) d (r, rs) h =
      Keeps-then _ _ (handle_new_log-Keeps fits ready received d r h)
        (λ d' h'. serve-IsDaemon fits events d' rs h')
