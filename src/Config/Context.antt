-- ===== src/Config/Context.antt =====
-- src/config.c: `ParseContextInit`, `CreateContext`, `MakeContextConf`, `ClearConf` and
-- `SetDefaultConf`.
pub mod Laws
pub mod Made
use pmlogdaemon.Base.{
  ℕ, ◌+◌, Bool, true, false, not, ◌&&◌, Option, none, some, List, [], ◌∷◌, ◌++◌, map, Bytes, codes,
  length, take, str_eq, leb, ◌==◌, if◌then◌else◌,
}
use pmlogdaemon.Base.GTree.{GTree}
use pmlogdaemon.Base.Int.{ℤ, pos, minus_one}
use pmlogdaemon.Base.Outcome.{Outcome, done, overflow}
use pmlogdaemon.Conf.{LogFile, Rule, ContextConf, stdlog, default_log_size, default_log_rotations}
use pmlogdaemon.Config.Rule.{ParseRule, ParseContext}
use pmlogdaemon.Message.Priority.Names.{PmLogLib}
use pmlogdaemon.Ring.{rb_new}

-- `memset(parseContextP, 0, ...)`
abbrev pub zeroed_context : ParseContext
zeroed_context = record { name = []; buffer_size = pos 0; flush_level = pos 0; rules = [] }

-- `ParseContextInit`: with no context yet, only the default context is accepted.
unfoldable pub parse_context_init : PmLogLib → ℕ → Bytes → Bool × ParseContext
parse_context_init lib num_contexts name =
    if (num_contexts == 0) && not (str_eq lib.default_context_name name)
    then (false, zeroed_context)
    else (true, record zeroed_context { name = take (lib.max_context_name_len + 1) name })

-- The copy of one parsed rule in `MakeContextConf`.
unfoldable pub to_rule : ParseRule → Rule
to_rule r = record {
  facility = r.facility;
  level = r.level;
  level_invert = r.level_invert;
  program = if length r.program == 0 then none else some r.program;
  output_index = pos r.output_index;
  omit_output = r.omit_output;
}

-- `DEFAULT_LOG_FILE_PATH`, under the log directory of the build.
abbrev pub default_log_file_path : Bytes → Bytes
default_log_file_path log_dir = log_dir ++ codes "/messages"

-- The rule of the default configuration: every message, to the first output.
abbrev pub match_all : Rule
match_all = record {
  facility = minus_one;
  level = minus_one;
  level_invert = false;
  program = none;
  output_index = pos 0;
  omit_output = false;
}

abbrev pub default_output : Bytes → LogFile
default_output log_dir = record {
  output_name = stdlog;
  path = default_log_file_path log_dir;
  max_size = pos default_log_size;
  rotations = pos default_log_rotations;
}

module _ (g : GTree ContextConf) where
  -- The globals: `g_outputConfs` with `g_numOutputs`, `g_contextConfs` (none: null), `g_numContexts`.
  pub record Config : Type 0 where
    pub outputs : List LogFile
    pub contexts : Option g.Tree
    pub num_contexts : ℕ

  -- `g_tree_lookup`, which finds nothing in a null tree.
  unfoldable pub lookup_context : Option g.Tree → Bytes → Option ContextConf
  lookup_context none name = none
  lookup_context (some t) name = g.lookup t name

  abbrev pub empty_context : Bytes → ContextConf
  empty_context name = record { context_name = name; rb = none; rules = [] }

  -- `CreateContext`: the tree, made if it is null, with a new entry.
  unfoldable pub create_context : Bytes → Config → Config
  create_context name c =
      let t : g.Tree = elim c.contexts [ none ↦ g.new | some t ↦ t ] in
      let t' : g.Tree = g.insert name (empty_context name) t in
      record c { contexts = some t'; num_contexts = g.nnodes t' }

  -- A change to the context of a name that is there, in place.
  unfoldable pub change_context : Bytes → ContextConf → Config → Config
  change_context name conf c = elim c.contexts [
    | none ↦ c
    | some t ↦ record c { contexts = some (g.update name conf t) }
  ]

  -- What `MakeContextConf` writes into the entry at hand.
  unfoldable pub fill_context : ParseContext → ContextConf → ContextConf
  unfolding to_rule
  fill_context p old = record old {
    rules = map to_rule p.rules;
    rb = rb_new p.buffer_size p.flush_level;
  }

  -- `MakeContextConf`. A name that fills its array has no NUL, and is read past it.
  unfoldable pub make_context_conf : PmLogLib → ParseContext → Config → Outcome Config
  make_context_conf lib p c =
      if leb (lib.max_context_name_len + 1) (length p.name)
      then overflow
      else elim (lookup_context c.contexts p.name) [
        | some old ↦ done (change_context p.name (fill_context p old) c)
        | none ↦ done (
            change_context p.name (fill_context p (empty_context p.name)) (create_context p.name c))
      ]

  -- `ClearConf`
  unfoldable pub clear_conf : Config → Config
  clear_conf c = record { outputs = []; contexts = none; num_contexts = 0 }

  -- `SetDefaultConf`: behind `ClearConf` there is no tree, so the default context is created.
  unfoldable pub set_default_conf : PmLogLib → Bytes → Config → Config
  unfolding clear_conf
  set_default_conf lib log_dir c =
      let name : Bytes = lib.default_context_name in
      let c₁ = record (clear_conf c) { outputs = default_output log_dir ∷ [] } in
      change_context name (record (empty_context name) { rules = match_all ∷ [] })
        (create_context name c₁)
