-- ===== src/Tests/Documents.antt =====
-- Runs of the configuration files and of the start of the daemon.
use pmlogdaemon.Base.{
  ◌⊎◌, leb, ℕ, ◌≡◌, refl, Bool, true, false, Option, none, some, List, [], ◌∷◌, arith, Bytes, codes,
  str_eq, if◌then◌else◌,
}
use pmlogdaemon.Base.Int.{ℤ, pos}
use pmlogdaemon.Base.Outcome.{done}
use pmlogdaemon.Config.Context.{Config}
use pmlogdaemon.Config.Context.Laws.{IsConfig}
use pmlogdaemon.Config.Init.{init_config}
use pmlogdaemon.Config.Json.{Json}
use pmlogdaemon.Config.Json.Contexts.{read_string, parse_json_contexts}
use pmlogdaemon.Config.Json.Contexts.Laws.{ContextsFit, parse_json_contexts-IsConfig}
use pmlogdaemon.Config.Json.Laws.{DocumentFits, parse_json_outputs-IsConfig}
use pmlogdaemon.Config.Json.Outputs.{read_name, parse_json_outputs}
use pmlogdaemon.Startup.{start_logging}
use pmlogdaemon.Startup.Laws.{start_logging-handle_events}
use pmlogdaemon.Startup.Reader.{
  View, set_at, Sockets, SocketLaws, Listens, GivesUp, initialize_sys_log_reader,
  initialize_sys_log_reader-Listens,
}
use pmlogdaemon.System.Events.{
  Event, datagram, oldest_task, call_rotate, call_subscribe, call_cancel, Running, handle_events,
}
use pmlogdaemon.System.Events.Laws.{GoesOn}
use pmlogdaemon.Tests.Configs.{tree, log, start, start-IsConfig}
use pmlogdaemon.Tests.Disks.{disk}
use pmlogdaemon.Tests.Rotations
use pmlogdaemon.Tests.Routes.{lib}
use pmlogdaemon.Tests.Serving.{events-AllReadable}
use pmlogdaemon.Tests.Systems.{reports, watch, watch-ClockFits}

-- A document with one output, "app" in /var/log/app, of 100 kilobytes, and the default context, which
-- sends everything there.
data Doc : Type 0 where
  root : Doc
  outputs : Doc
  app : Doc
  name : Doc
  file : Doc
  max_size : Doc
  rotations : Doc
  contexts : Doc
  global : Doc
  global_name : Doc
  rules : Doc
  rule : Doc
  filter : Doc

member : Doc → Bytes → Option Doc
member root key =
    if str_eq key (codes "outputs")
    then some outputs
    else if str_eq key (codes "contexts")
    then some contexts
    else none
member app key =
    if str_eq key (codes "name")
    then some name
    else if str_eq key (codes "file")
    then some file
    else if str_eq key (codes "maxSize")
    then some max_size
    else if str_eq key (codes "rotations")
    then some rotations
    else none
member global key =
    if str_eq key (codes "name")
    then some global_name
    else if str_eq key (codes "rules")
    then some rules
    else none
member rule key =
    if str_eq key (codes "filter")
    then some filter
    else if str_eq key (codes "output")
    then some name
    else none
member _ key = none

text_of : Doc → Option Bytes
text_of name = some (codes "app")
text_of file = some (codes "/var/log/app")
text_of global_name = some (codes "<global>")
text_of filter = some (codes "*.*")
text_of _ = none

number_of : Doc → ℤ → Bool × ℤ
number_of max_size n = (true, pos 100)
number_of rotations n = (true, pos 2)
number_of _ n = (false, n)

elements_of : Doc → List Doc
elements_of outputs = app ∷ []
elements_of contexts = global ∷ []
elements_of rules = rule ∷ []
elements_of _ = []

abbrev json : Json
json = record {
  Value = Doc;
  is_null = λ v. false;
  get_exists = member;
  elements = elements_of;
  jstring = text_of;
  number = number_of;
}

outputs_fit : DocumentFits json (some root)
unfolding member text_of elements_of read_name
outputs_fit = (λ s e. ground arith, tt)

contexts_fit : ContextsFit json lib tree (some root)
unfolding member text_of elements_of read_string
contexts_fit = (record { name = λ s e. ground arith; rules = omega arith }, tt)

parse_json_outputs-IsConfig_example :
    (ret : Bool) × (c' : Config tree) × (parse_json_outputs json tree lib log
        (codes "app.conf")
        (some root)
        start
      ≡ done (ret, c'))
    × IsConfig tree c'
parse_json_outputs-IsConfig_example =
    parse_json_outputs-IsConfig json tree lib log (codes "app.conf") (some root) start
      start-IsConfig outputs_fit

parse_json_contexts-IsConfig_example :
    (r : Bool × Config tree) × (parse_json_contexts json lib tree log
        (codes "app.conf")
        (some root)
        start
      ≡ done r)
    × IsConfig tree r.1
parse_json_contexts-IsConfig_example =
    parse_json_contexts-IsConfig json lib tree log (codes "app.conf") (some root) start
      start-IsConfig contexts_fit

abbrev files : List (Bytes × Option Doc)
files = (codes "app.conf", some root) ∷ []

-- A datagram between a subscription and its end, and the tasks that it leaves.
abbrev all_events : List Event
all_events =
    call_subscribe true
    ∷ (datagram true (some (codes "<11>app: [1] hi"))
        ∷ (call_rotate ∷ (oldest_task ∷ (call_cancel ∷ []))))

start_logging-handle_events_example :
    (c : Config tree) × (s : Running disk reports watch tree lib) × (init_config json lib tree log
        files files
      ≡ done c)
    × (handle_events disk reports watch tree lib all_events
          (start_logging disk reports watch tree lib c Rotations.start.disk)
        ≡ done s)
    × GoesOn disk reports watch tree lib c.outputs s
start_logging-handle_events_example =
    start_logging-handle_events disk reports watch tree lib json log files files all_events
      Rotations.start.disk watch-ClockFits (outputs_fit, tt) (contexts_fit, tt)
      (tt, (events-AllReadable.0, (tt, (tt, (tt, tt)))))

-- A process that may have descriptor 3 for its socket; `chmod` fails.
take_three : Bool → View → Option ℕ × View
take_three true v = (none, v)
take_three false v = (some 3, record v { opened = set_at 3 true v.opened })

abbrev sockets : Sockets View
sockets = record {
  socket = λ v. take_three (v.opened 3) v;
  bind = λ fd path v. (true, v);
  chmod = λ path v. (false, v);
  channel_new = λ fd v. (true, v);
  add_watch = λ fd v. record v { watched = set_at fd true v.watched };
  close = λ fd v. record v { opened = set_at fd false v.opened };
  main_loop_quit = λ v. record v { quitting = true };
}

three_new :
    (b : Bool) (v : View) (fd : ℕ)
    → v.opened 3 ≡ b
    → (take_three b v).0 ≡ some fd
    → (v.opened fd ≡ false) × ((take_three b v).1 ≡ record v { opened = set_at fd true v.opened })
unfolding take_three
three_new true v fd e h = absurd (ground arith)
three_new false v fd e h = let is : 3 ≡ fd = ground (arith, h) in rw (← is) (e, refl)

three_fails : (b : Bool) (v : View) → (take_three b v).0 ≡ none → (take_three b v).1 ≡ v
unfolding take_three
three_fails true v h = refl
three_fails false v h = absurd (ground arith)

sockets-SocketLaws : SocketLaws sockets (λ v. v)
sockets-SocketLaws = record {
  socket_new = λ v fd h. three_new (v.opened 3) v fd refl h;
  socket_fails = λ v h. three_fails (v.opened 3) v h;
  bind_view = λ fd path v. refl;
  chmod_view = λ path v. refl;
  channel_view = λ fd v. refl;
  watch_view = λ fd v. refl;
  close_view = λ fd v. refl;
  quit_view = λ v. refl;
}

abbrev idle : View
idle = record { opened = λ i. leb i 2; watched = λ i. false; quitting = false }

initialize_sys_log_reader-Listens_example :
    ((fd : ℕ) × Listens idle (initialize_sys_log_reader sockets (codes "/dev/log") idle) fd)
    ⊎ GivesUp idle (initialize_sys_log_reader sockets (codes "/dev/log") idle)
initialize_sys_log_reader-Listens_example =
    initialize_sys_log_reader-Listens sockets (λ v. v) sockets-SocketLaws (codes "/dev/log") idle
