-- ===== src/Config/Init/Laws.antt =====
-- What `InitConfig` in src/main.c starts the daemon with.
use pmlogdaemon.Base.{◌≡◌, refl, Bool, Option, [], ◌∷◌, Bytes, arith}
use pmlogdaemon.Base.GTree.{GTree}
use pmlogdaemon.Base.Outcome.{Outcome, done}
use pmlogdaemon.Conf.{ContextConf}
use pmlogdaemon.Config.Context.{Config, lookup_context}
use pmlogdaemon.Config.Context.Laws.{IsConfig}
use pmlogdaemon.Config.Init.{Files, empty_config, read_configs, init_config}
use pmlogdaemon.Config.Json.{Json}
use pmlogdaemon.Config.Json.Contexts.Laws.{ContextsFit, parse_json_contexts-IsConfig}
use pmlogdaemon.Config.Json.Laws.{DocumentFits, parse_json_outputs-IsConfig}
use pmlogdaemon.Message.Priority.Names.{PmLogLib}

module _ (j : Json) (lib : PmLogLib) (g : GTree ContextConf) where
  abbrev pub AllOf : (Option j.Value → Type 0) → Files j lib g → Type 0
  AllOf P [] = Unit
  AllOf P ((file_name, parsed) ∷ files) = P parsed × AllOf P files

  read_configs-IsConfig :
      (parse : Bytes → Option j.Value → Config g → Outcome (Bool × Config g))
      (P : Option j.Value → Type 0)
      → ((file_name : Bytes) (parsed : Option j.Value) (c : Config g)
          → IsConfig g c
          → P parsed
          → (r : Bool × Config g) × (parse file_name parsed c ≡ done r) × IsConfig g r.1)
      → (files : Files j lib g) (c : Config g) → IsConfig g c
      → AllOf P files
      → (c' : Config g) × (read_configs j lib g parse files c ≡ done c') × IsConfig g c'
  unfolding read_configs
  read_configs-IsConfig parse P keeps [] c h fit = (c, refl, h)
  read_configs-IsConfig parse P keeps ((file_name, parsed) ∷ files) c h fit =
      let (r, e, h') = keeps file_name parsed c h fit.0 in
      let (c', e', h₂) = read_configs-IsConfig parse P keeps files r.1 h' fit.1 in (c', rw e e', h₂)

  empty_config-IsConfig : IsConfig g (empty_config j lib g)
  unfolding empty_config lookup_context
  empty_config-IsConfig = record {
    table = record { distinct = tt; bounded = omega arith };
    contexts_ok = λ name conf e. absurd (ground (arith, g.lookup-new name));
  }

  -- `InitConfig`, on files whose names of outputs and of contexts fit and whose contexts have at most
  -- 16 rules each, whatever else they hold, returns a valid configuration.
  pub init_config-IsConfig :
      (log_dir : Bytes) (output_files context_files : Files j lib g)
      → AllOf (DocumentFits j) output_files
      → AllOf (ContextsFit j lib g) context_files
      → (c : Config g) × (init_config j lib g log_dir output_files context_files ≡ done c)
        × IsConfig g c
  unfolding init_config
  init_config-IsConfig log_dir output_files context_files outputs_fit contexts_fit =
      let (c, e, h) =
        read_configs-IsConfig _ _
          (λ file_name parsed c h fit.
            let (ret, c', e, h') =
              parse_json_outputs-IsConfig j g lib log_dir file_name parsed c h fit in
            ((ret, c'), e, h'))
          output_files (empty_config j lib g) empty_config-IsConfig outputs_fit in
      let (c', e', h') =
        read_configs-IsConfig _ _ (parse_json_contexts-IsConfig j lib g log_dir) context_files c h
          contexts_fit in
      (c', rw e e', h')
