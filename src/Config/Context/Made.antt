-- ===== src/Config/Context/Made.antt =====
-- What `MakeContextConf` and `SetDefaultConf` in src/config.c leave in the tables.
use pmlogdaemon.Base.{
  ◌+◌, ◌≤◌, ◌≡◌, inl, inr, refl, sym, ◌∙◌, Bool, true, false, Option, none, some, arith, [], ◌∷◌,
  Bytes, length, str_eq, str_eq_same, leb, if◌then◌else◌, Bool-cases, Option-cases,
}
use pmlogdaemon.Base.GTree.{GTree}
use pmlogdaemon.Base.Outcome.{done}
use pmlogdaemon.Conf.{ContextConf}
use pmlogdaemon.Config.Context.{
  Config, lookup_context, empty_context, create_context, change_context, fill_context,
  make_context_conf, clear_conf, set_default_conf, default_output, match_all,
}
use pmlogdaemon.Config.Output.{find_output_by_name}
use pmlogdaemon.Config.Rule.{ParseContext}
use pmlogdaemon.Message.Priority.Names.{PmLogLib}
use pmlogdaemon.Config.Context.Laws.{
  IsParsed, IsContext, IsConfig, fill_context-IsContext, lookup-create_context,
  lookup-change_context, outputs-create_context, outputs-change_context,
}

overwrite :
    (b : Bool) (new x y z : Option ContextConf)
    → x ≡ (if b then y else z)
    → (if b then new else x) ≡ (if b then new else z)
overwrite true new x y z e = refl
overwrite false new x y z e = e

module _ (g : GTree ContextConf) where
  -- What `MakeContextConf` has done: the context of the name parsed has the rules and the ring of
  -- `fill_context`, and nothing else has changed.
  pub record Placed (p : ParseContext) (c c' : Config g) : Type 0 where
    pub old : ContextConf
    pub same_outputs : c'.outputs ≡ c.outputs
    pub lookups :
        (j : Bytes)
        → lookup_context g c'.contexts j
          ≡ (if str_eq p.name j then some (fill_context g p old) else lookup_context g c.contexts j)

  pub make_context_conf-Placed :
      (lib : PmLogLib) (p : ParseContext) (c : Config g)
      → length p.name ≤ lib.max_context_name_len
      → (c' : Config g) × (make_context_conf g lib p c ≡ done c') × Placed p c c'
  unfolding make_context_conf
  make_context_conf-Placed lib p c fits =
      let short : leb (lib.max_context_name_len + 1) (length p.name) ≡ false = ground arith in
      elim (Option-cases (lookup_context g c.contexts p.name)) [
        | inr (old, e) ↦ (
          change_context g p.name (fill_context g p old) c,
          rw (short, e),
          record {
            old = old;
            same_outputs = outputs-change_context g p.name (fill_context g p old) c;
            lookups = λ j. lookup-change_context g p.name j (fill_context g p old) old c e;
          },
        )
        | inl e ↦
            let conf = fill_context g p (empty_context g p.name) in
            let c₁ = create_context g p.name c in
            let there : lookup_context g c₁.contexts p.name ≡ some (empty_context g p.name) =
              lookup-create_context g p.name p.name c ∙ rw (str_eq_same p.name) refl in
            (
              change_context g p.name conf c₁,
              rw (short, e),
              record {
                old = empty_context g p.name;
                same_outputs =
                    outputs-change_context g p.name conf c₁ ∙ outputs-create_context g p.name c;
                lookups = λ j.
                    lookup-change_context g p.name j conf (empty_context g p.name) c₁ there
                    ∙ overwrite (str_eq p.name j) (some conf) _ _ _
                        (lookup-create_context g p.name j c);
              },
            )
      ]

  Placed-IsConfig :
      {p : ParseContext} {c c' : Config g}
      → IsConfig g c
      → IsParsed (length c.outputs) p
      → Placed p c c'
      → IsConfig g c'
  Placed-IsConfig {p} {c} {c'} h parsed w = record {
    table = rw w.same_outputs h.table;
    contexts_ok = λ name conf e. rw w.same_outputs (context name conf (sym (w.lookups name) ∙ e));
  }
    where
      context :
          (name : Bytes) (conf : ContextConf)
          → (if str_eq p.name name
              then some (fill_context g p w.old)
              else lookup_context g c.contexts name)
            ≡ some conf
          → IsContext (length c.outputs) conf
      context name conf e = elim (Bool-cases (str_eq p.name name)) [
        | inl same ↦
            let is : fill_context g p w.old ≡ conf = ground arith in
            rw (← is) (fill_context-IsContext g (length c.outputs) p w.old parsed)
        | inr other ↦ h.contexts_ok name conf (ground arith)
      ]

  -- `MakeContextConf` on a name that fits its array and on rules that name outputs: the context of
  -- that name holds what was parsed, every other context and the outputs are untouched, and the
  -- configuration is still one that the daemon can run with.
  pub make_context_conf-IsConfig :
      (lib : PmLogLib) (p : ParseContext) (c : Config g)
      → IsConfig g c
      → IsParsed (length c.outputs) p
      → length p.name ≤ lib.max_context_name_len
      → (c' : Config g) × (make_context_conf g lib p c ≡ done c') × Placed p c c' × IsConfig g c'
  make_context_conf-IsConfig lib p c h parsed fits =
      let (c', e, w) = make_context_conf-Placed lib p c fits in
      (c', e, w, Placed-IsConfig h parsed w)

  -- `SetDefaultConf` makes, of any configuration, one with the one output `stdlog` and the one
  -- context that is the default, whose one rule sends everything there; the daemon can run with it.
  pub set_default_conf-IsConfig :
      (lib : PmLogLib) (log_dir : Bytes) (c : Config g)
      → let c' = set_default_conf g lib log_dir c in
        (c'.outputs ≡ default_output log_dir ∷ [])
        × ((j : Bytes)
            → lookup_context g c'.contexts j ≡ (
                if str_eq lib.default_context_name j
                then some
                    (record (empty_context g lib.default_context_name) { rules = match_all ∷ [] })
                else none))
        × IsConfig g c'
  unfolding set_default_conf lookup_context
  set_default_conf-IsConfig lib log_dir c = (
    same,
    looks,
    record {
      table =
          rw same
            (record { distinct = (unfold find_output_by_name in refl, tt); bounded = omega arith });
      contexts_ok = λ j conf e. rw same (context j conf (sym (looks j) ∙ e));
    },
  )
    where
      name : Bytes
      name = lib.default_context_name

      conf₀ : ContextConf
      conf₀ = record (empty_context g name) { rules = match_all ∷ [] }

      c₁ : Config g
      c₁ = record (clear_conf g c) { outputs = default_output log_dir ∷ [] }

      c₂ : Config g
      c₂ = create_context g name c₁

      same : (change_context g name conf₀ c₂).outputs ≡ default_output log_dir ∷ []
      same = outputs-change_context g name conf₀ c₂ ∙ outputs-create_context g name c₁

      there : lookup_context g c₂.contexts name ≡ some (empty_context g name)
      there = lookup-create_context g name name c₁ ∙ rw (str_eq_same name) refl

      looks :
          (j : Bytes)
          → lookup_context g (change_context g name conf₀ c₂).contexts j
            ≡ (if str_eq name j then some conf₀ else none)
      looks j =
          lookup-change_context g name j conf₀ (empty_context g name) c₂ there
          ∙ overwrite (str_eq name j) (some conf₀) _ _ _ (lookup-create_context g name j c₁)

      context :
          (j : Bytes) (conf : ContextConf)
          → (if str_eq name j then some conf₀ else none) ≡ some conf
          → IsContext 1 conf
      context j conf e =
          let is : conf₀ ≡ conf = ground arith in
          rw (← is) (record { named = ((0, refl, omega arith), tt); few = omega arith; ring = tt })
