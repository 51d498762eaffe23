-- ===== src/Config/Json/Outputs.antt =====
-- src/config.c: `ParseJsonOutputs`.
use pmlogdaemon.Base.{
  ℕ, Bool, true, false, not, ◌&&◌, Option, none, some, List, [], ◌∷◌, Bytes, codes, length, take,
  ◌==◌, if◌then◌else◌,
}
use pmlogdaemon.Base.GTree.{GTree}
use pmlogdaemon.Base.Int.{ℤ, minus_one, int32, mul_ℤ}
use pmlogdaemon.Base.Outcome.{Outcome, done, ◌>>=◌}
use pmlogdaemon.Conf.{LogFile, ContextConf}
use pmlogdaemon.Config.Context.{Config, set_default_conf}
use pmlogdaemon.Config.Json.{Json, Round, is_default_conf}
use pmlogdaemon.Config.Output.{ParseOutput, parse_output_init, make_output_conf}
use pmlogdaemon.Message.Priority.Names.{PmLogLib}

-- `sizeof(parseOutput.File) - 1`
abbrev path_room : ℕ
path_room = 4095

module _ (j : Json) where
  -- `max_size`: -1, or the number found, in kilobytes.
  unfoldable pub read_max_size : j.Value → ℤ
  read_max_size e = elim (j.get_exists e (codes "maxSize")) [
    | none ↦ minus_one
    | some v ↦ (let (ok, n) = j.number v minus_one in if ok then int32 (mul_ℤ n 1024) else n)
  ]

  -- `rotations`, and whether the entry has it, which is what `ret` then says.
  unfoldable pub read_rotations : j.Value → Bool × ℤ
  read_rotations e = elim (j.get_exists e (codes "rotations")) [
    | none ↦ (false, minus_one)
    | some v ↦ (true, (j.number v minus_one).1)
  ]

  -- The mandatory fields: the name, which may not be empty, and the file.
  unfoldable pub read_name : j.Value → Option Bytes
  read_name e = elim (j.get_exists e (codes "name")) [
    | none ↦ none
    | some v ↦ elim (j.jstring v) [ none ↦ none | some s ↦ if length s == 0 then none else some s ]
  ]

  unfoldable pub read_file : j.Value → Option Bytes
  read_file e = elim (j.get_exists e (codes "file")) [ none ↦ none | some v ↦ j.jstring v ]

  -- What is parsed of an entry with a name and a file. The result of `ParseOutputInit` is not used.
  unfoldable pub parsed_output : j.Value → List LogFile → Bytes → Bytes → ParseOutput
  parsed_output e outputs name file = record (parse_output_init outputs name).1 {
    file = take path_room file;
    max_size = read_max_size e;
    rotations = (read_rotations e).1;
  }

  -- One round of the loop over the entries.
  unfoldable pub output_round : j.Value → Bool → List LogFile → Outcome (Round (List LogFile))
  unfolding read_max_size read_rotations read_name read_file parsed_output
  output_round e ret outputs =
      if j.is_null e
      then done (record { on = true; ret = ret; state = outputs })
      else elim (read_name e) [
        | none ↦ done (record { on = true; ret = false; state = outputs })
        | some name ↦ elim (read_file e) [
          | none ↦ done (record { on = true; ret = false; state = outputs })
          | some file ↦ do
            (ok, outputs', p) ← make_output_conf (parsed_output e outputs name file) outputs
            let ret' = (read_rotations e).0 && ok
            done (record { on = ret'; ret = ret'; state = outputs' })
        ]
      ]

  -- The loop: its last `ret` and the table.
  unfoldable pub outputs_loop : List j.Value → Bool → List LogFile → Outcome (Bool × List LogFile)
  unfolding output_round
  outputs_loop [] ret outputs = done (ret, outputs)
  outputs_loop (e ∷ es) ret outputs = do
    r ← output_round e ret outputs
    if r.on then outputs_loop es r.ret r.state else done (r.ret, r.state)

  module _ (g : GTree ContextConf) where
    -- The part of `ParseJsonOutputs` before the defaults; none is a document that is null.
    unfoldable pub read_outputs : Option j.Value → Config g → Outcome (Bool × Config g)
    unfolding outputs_loop
    read_outputs none c = done (false, c)
    read_outputs (some parsed) c = elim (j.get_exists parsed (codes "outputs")) [
      | none ↦ done (false, c)
      | some array ↦ do
        (ret, outputs) ← outputs_loop (j.elements array) true c.outputs
        done (ret, record c { outputs = outputs })
    ]

    -- `ParseJsonOutputs`: a default.conf that fails is replaced by the built-in defaults.
    unfoldable pub parse_json_outputs :
        PmLogLib → Bytes → Bytes → Option j.Value → Config g → Outcome (Bool × Config g)
    unfolding read_outputs
    parse_json_outputs lib log_dir file_name parsed c = do
      (ret, c') ← read_outputs parsed c
      done (
        ret,
        if is_default_conf file_name && not ret then set_default_conf g lib log_dir c' else c',
      )
