-- ===== src/Config/Show.antt =====
-- src/main.c: `LogConfig` and `LogConfigInfo`, which log the configuration.
pub mod Laws
use pmlogdaemon.Base.{
  ℕ, Option, none, some, List, [], ◌∷◌, ◌++◌, map, Bytes, codes, take, get_elem?,
}
use pmlogdaemon.Base.GTree.{GTree}
use pmlogdaemon.Base.Int.{ℤ, pos, negsuc}
use pmlogdaemon.Base.Outcome.{Outcome, done, overflow, ◌>>=◌}
use pmlogdaemon.Base.Strtol.{show_ℤ}
use pmlogdaemon.Conf.{LogFile, Rule, ContextConf}
use pmlogdaemon.Config.Context.{Config}
use pmlogdaemon.Config.Rule.RoundTrip.{marked}
use pmlogdaemon.Message.Priority.Names.{PmLogLib, get_rule_facility_str, get_rule_level_str}

-- A call of `PmLogInfo`: the message id, and the keys with their values.
pub record Info : Type 0 where
  pub msgid : Bytes
  pub fields : List (Bytes × Bytes)

-- `sizeof(filter) - 1`, `sizeof(output) - 1`
abbrev pub text_room : ℕ
text_room = 31

-- A name that `%s` prints, which may not be null.
abbrev pub printed : Option Bytes → Outcome Bytes
printed none = overflow
printed (some s) = done s

-- An entry of `g_outputConfs`. The entries behind the last output have no name.
abbrev pub entry : List LogFile → ℤ → Outcome LogFile
entry outputs (negsuc i) = overflow
entry outputs (pos i) = elim (get_elem? outputs i) [ none ↦ overflow | some f ↦ done f ]

-- What stands for the program of a rule.
abbrev pub program_text : Option Bytes → Bytes
program_text none = codes "*"
program_text (some p) = p

module _ (lib : PmLogLib) where
  -- The line of one rule.
  unfoldable pub log_rule : List LogFile → Rule → Outcome Info
  log_rule outputs r = do
    output ← entry outputs r.output_index
    fac ← printed (get_rule_facility_str lib r.facility)
    lvl ← printed (get_rule_level_str lib r.level)
    let filter = fac ++ (b'.' ∷ marked b'!' r.level_invert (lvl ++ (b'.' ∷ program_text r.program)))
    let to = marked b'-' r.omit_output output.output_name
    done (record {
      msgid = codes "CFG_RULE";
      fields = (codes "Filter", take text_room filter) ∷ ((codes "Output", take text_room to) ∷ []);
    })

  unfoldable pub log_rules : List LogFile → List Rule → Outcome (List Info)
  unfolding log_rule
  log_rules outputs [] = done []
  log_rules outputs (r ∷ rules) = do
    line ← log_rule outputs r
    lines ← log_rules outputs rules
    done (line ∷ lines)

  -- `LogConfig` on the entry of a key, of which all rules are shown.
  unfoldable pub log_config : List LogFile → Bytes → ContextConf → Outcome (List Info)
  unfolding log_rules
  log_config outputs key conf = do
    lines ← log_rules outputs conf.rules
    done (record { msgid = codes "CFG_CTX"; fields = (codes "Name", key) ∷ [] } ∷ lines)

  unfoldable pub log_configs : List LogFile → List (Bytes × ContextConf) → Outcome (List Info)
  unfolding log_config
  log_configs outputs [] = done []
  log_configs outputs ((key, conf) ∷ entries) = do
    lines ← log_config outputs key conf
    rest ← log_configs outputs entries
    done (lines ++ rest)

  abbrev pub log_output : LogFile → Info
  log_output f = record {
    msgid = codes "CFG_OUTPUT";
    fields =
        (codes "Name", f.output_name)
        ∷ ((codes "Path", f.path)
            ∷ ((codes "Size", show_ℤ f.max_size) ∷ ((codes "Rotations", show_ℤ f.rotations) ∷ [])));
  }

  -- `LogConfigInfo`: every output, then every context in the order of the tree.
  unfoldable pub log_config_info : (g : GTree ContextConf) → Config g → Outcome (List Info)
  unfolding log_configs
  log_config_info g c = do
    let entries : List (Bytes × ContextConf) = elim c.contexts [ none ↦ [] | some t ↦ g.entries t ]
    lines ← log_configs c.outputs entries
    done (map log_output c.outputs ++ lines)
