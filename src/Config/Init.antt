-- ===== src/Config/Init.antt =====
-- src/main.c: `InitConfig`. The library that finds the configuration files is a parameter: what it
-- calls its argument on, and what pbnjson makes of each file.
pub mod Laws
use pmlogdaemon.Base.{Option, some, List, [], ◌∷◌, Bytes, Bool}
use pmlogdaemon.Base.GTree.{GTree}
use pmlogdaemon.Base.Outcome.{Outcome, done, ◌>>=◌}
use pmlogdaemon.Conf.{ContextConf}
use pmlogdaemon.Config.Context.{Config}
use pmlogdaemon.Config.Json.{Json}
use pmlogdaemon.Config.Json.Outputs.{parse_json_outputs}
use pmlogdaemon.Config.Json.Contexts.{parse_json_contexts}
use pmlogdaemon.Message.Priority.Names.{PmLogLib}

module _ (j : Json) (lib : PmLogLib) (g : GTree ContextConf) where
  -- The files that `PmLogPrvReadConfigs` calls its argument on, each with its document.
  abbrev pub Files : Type 0
  Files = List (Bytes × Option j.Value)

  unfoldable pub empty_config : Config g
  empty_config = record { outputs = []; contexts = some g.new; num_contexts = 0 }

  -- `PmLogPrvReadConfigs`, whose result is not used.
  unfoldable pub read_configs :
      (Bytes → Option j.Value → Config g → Outcome (Bool × Config g))
      → Files
      → Config g
      → Outcome (Config g)
  read_configs parse [] c = done c
  read_configs parse ((file_name, parsed) ∷ files) c = do
    (ret, c') ← parse file_name parsed c
    read_configs parse files c'

  unfoldable pub init_config : Bytes → Files → Files → Outcome (Config g)
  unfolding empty_config read_configs
  init_config log_dir output_files context_files = do
    c ← read_configs (parse_json_outputs j g lib log_dir) output_files empty_config
    read_configs (parse_json_contexts j lib g log_dir) context_files c
