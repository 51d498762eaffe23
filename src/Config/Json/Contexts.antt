-- ===== src/Config/Json/Contexts.antt =====
-- src/config.c: `ParseJsonContexts`.
pub mod Laws
pub mod Rules
use pmlogdaemon.Base.{
  ℕ, Bool, true, false, not, ◌&&◌, ◌++◌, Option, none, some, List, [], ◌∷◌, Bytes, codes, length,
  take, leb, if◌then◌else◌,
}
use pmlogdaemon.Base.GTree.{GTree}
use pmlogdaemon.Base.Int.{pos, int32, mul_ℤ}
use pmlogdaemon.Base.Outcome.{Outcome, done, ◌>>=◌}
use pmlogdaemon.Conf.{LogFile, ContextConf}
use pmlogdaemon.Config.Context.{Config, parse_context_init, make_context_conf, set_default_conf}
use pmlogdaemon.Config.Json.{Json, Round, is_default_conf}
use pmlogdaemon.Config.Rule.{ParseContext, parse_context_data}
use pmlogdaemon.Message.Priority.Names.{PmLogLib}
use pmlogdaemon.Util.Number.{parse_level}

-- The size of `finalString`, less its NUL.
abbrev pub final_room : ℕ
final_room = 31

-- The state of the loop over the rules: the context parsed so far, and `finalString`.
pub record RuleState : Type 0 where
  pub context : ParseContext
  pub final_string : Bytes

-- "<filter>,<output>", cut to the buffer; the string of the rule before stays where either is
-- empty.
unfoldable pub final_string_of : Bytes → Bytes → Bytes → Bytes
final_string_of old filter output =
    if leb 1 (length filter) && leb 1 (length output)
    then take final_room (filter ++ (b',' ∷ output))
    else old

module _ (j : Json) (lib : PmLogLib) where
  -- A mandatory string field.
  unfoldable pub read_string : j.Value → Bytes → Option Bytes
  read_string e key = elim (j.get_exists e key) [ none ↦ none | some v ↦ j.jstring v ]

  -- One round of the loop over the rules.
  unfoldable pub rule_round : List LogFile → j.Value → RuleState → Outcome (Round RuleState)
  unfolding read_string final_string_of
  rule_round outputs e s = elim (read_string e (codes "filter")) [
    | none ↦ done (record { on = true; ret = false; state = s })
    | some filter ↦ elim (read_string e (codes "output")) [
      | none ↦ done (record { on = true; ret = false; state = s })
      | some output ↦ do
        let text = final_string_of s.final_string filter output
        parsed ← parse_context_data lib outputs s.context text
        done (elim parsed [
          | none ↦ record { on = false; ret = false; state = record s { final_string = text } }
          | some p ↦ record {
            on = true;
            ret = true;
            state = record { context = p; final_string = text };
          }
        ])
    ]
  ]

  -- The loop over the rules: the last `ret`, which starts as true, and the context.
  unfoldable pub rules_loop :
      List LogFile → List j.Value → Bool → RuleState → Outcome (Bool × ParseContext)
  unfolding rule_round
  rules_loop outputs [] ret s = done (ret, s.context)
  rules_loop outputs (e ∷ es) ret s = do
    r ← rule_round outputs e s
    if r.on then rules_loop outputs es r.ret r.state else done (r.ret, r.state.context)

  -- "rules": without them `ret` is false.
  unfoldable pub read_rules : List LogFile → j.Value → ParseContext → Outcome (Bool × ParseContext)
  unfolding rules_loop
  read_rules outputs e p = elim (j.get_exists e (codes "rules")) [
    | none ↦ done (false, p)
    | some array ↦
        rules_loop outputs (j.elements array) true (record { context = p; final_string = [] })
  ]

  -- "bufferSize", in kilobytes, and "flushLevel", which leave `ret` alone.
  unfoldable pub read_buffer : j.Value → ParseContext → ParseContext
  read_buffer e p =
      let sized : ParseContext = elim (j.get_exists e (codes "bufferSize")) [
        | none ↦ p
        | some v ↦
            (let (ok, n) = j.number v (pos 1) in
              if ok then record p { buffer_size = int32 (mul_ℤ n 1024) } else p)
      ] in
      elim (read_string e (codes "flushLevel")) [
        | none ↦ sized
        | some s ↦ record sized { flush_level = (parse_level lib.string_to_level s).1 }
      ]

  module _ (g : GTree ContextConf) where
    -- The optional fields of a context and "create new PmLogContextConf_t object", where the rules
    -- have been read.
    unfoldable pub finish_context :
        j.Value → Bool → ParseContext → Config g → Outcome (Round (Config g))
    unfolding read_buffer
    finish_context e true p c = do
      c' ← make_context_conf g lib (read_buffer e p) c
      done (record { on = true; ret = true; state = c' })
    finish_context e false p c = done (record { on = false; ret = false; state = c })

    -- One round of the loop over the contexts. The result of `ParseContextInit` is not used.
    unfoldable pub context_round : j.Value → Bool → Config g → Outcome (Round (Config g))
    unfolding read_rules finish_context
    context_round e ret c =
        if j.is_null e
        then done (record { on = ret; ret = ret; state = c })
        else elim (read_string e (codes "name")) [
          | none ↦ done (record { on = true; ret = false; state = c })
          | some name ↦ do
            (ret', p) ← read_rules c.outputs e (parse_context_init lib c.num_contexts name).1
            finish_context e ret' p c
        ]

    unfoldable pub contexts_loop : List j.Value → Bool → Config g → Outcome (Bool × Config g)
    unfolding context_round
    contexts_loop [] ret c = done (ret, c)
    contexts_loop (e ∷ es) ret c = do
      r ← context_round e ret c
      if r.on then contexts_loop es r.ret r.state else done (r.ret, r.state)

    unfoldable pub read_contexts : Option j.Value → Config g → Outcome (Bool × Config g)
    unfolding contexts_loop
    read_contexts none c = done (false, c)
    read_contexts (some parsed) c = elim (j.get_exists parsed (codes "contexts")) [
      | none ↦ done (false, c)
      | some array ↦ contexts_loop (j.elements array) true c
    ]

    -- `ParseJsonContexts`
    unfoldable pub parse_json_contexts :
        Bytes → Bytes → Option j.Value → Config g → Outcome (Bool × Config g)
    unfolding read_contexts
    parse_json_contexts log_dir file_name parsed c = do
      (ret, c') ← read_contexts parsed c
      done (
        ret,
        if is_default_conf file_name && not ret then set_default_conf g lib log_dir c' else c',
      )
