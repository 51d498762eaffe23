-- ===== src/Config/Json/Contexts/Laws.antt =====
-- What reading the contexts of a configuration file makes of the tables.
use pmlogdaemon.Base.{
  ℕ, ◌+◌, ◌≤◌, ◌≡◌, inl, inr, refl, subst, Bool, true, false, not, ◌&&◌, Option, none, some, arith,
  List, [], ◌∷◌, Bytes, codes, length, str_eq, ◌==◌, Bool-cases, Option-cases, length-take,
}
use pmlogdaemon.Base.GTree.{GTree}
use pmlogdaemon.Base.Outcome.{done}
use pmlogdaemon.Conf.{ContextConf}
use pmlogdaemon.Config.Context.{Config, parse_context_init, set_default_conf}
use pmlogdaemon.Config.Context.Laws.{IsConfig}
use pmlogdaemon.Config.Context.Made.{make_context_conf-IsConfig, set_default_conf-IsConfig}
use pmlogdaemon.Config.Json.{Json, Round, is_default_conf}
use pmlogdaemon.Config.Json.Contexts.{
  read_string, read_buffer, finish_context, context_round, contexts_loop, read_contexts,
  parse_json_contexts,
}
use pmlogdaemon.Config.Json.Contexts.Rules.{Reads, FewRules, read_rules-Reads}
use pmlogdaemon.Config.Rule.{ParseContext}
use pmlogdaemon.Message.Priority.Names.{PmLogLib}

module _ (j : Json) (lib : PmLogLib) where
  -- An entry of the array "contexts" whose name fits and whose rules are at most 16.
  pub record ContextFits (e : j.Value) : Type 0 where
    pub name :
        (s : Bytes)
        → read_string j lib e (codes "name") ≡ some s
        → length s ≤ lib.max_context_name_len
    pub rules : FewRules j lib (j.get_exists e (codes "rules"))

  parse_context_init-fits :
      (n : ℕ) (name : Bytes)
      → length name ≤ lib.max_context_name_len
      → let p = (parse_context_init lib n name).1 in
        (p.rules ≡ []) × (length p.name ≤ lib.max_context_name_len)
  unfolding parse_context_init
  parse_context_init-fits n name h =
      elim (Bool-cases ((n == 0) && not (str_eq lib.default_context_name name))) [
        | inl refused ↦ rw refused (refl, omega arith)
        | inr taken ↦
            rw taken (refl, omega (arith, length-take (lib.max_context_name_len + 1) name))
      ]

  read_buffer-keeps :
      (e : j.Value) (p : ParseContext)
      → ((read_buffer j lib e p).name ≡ p.name) × ((read_buffer j lib e p).rules ≡ p.rules)
  unfolding read_buffer
  read_buffer-keeps e p = (ground arith, ground arith)

  module _ (g : GTree ContextConf) where
    finish_context-IsConfig :
        {name : Bytes} (e : j.Value) (ret : Bool) (p : ParseContext) (c : Config g)
        → IsConfig g c
        → Reads c.outputs name 0 p
        → length name ≤ lib.max_context_name_len
        → (r : Round (Config g)) × (finish_context j lib g e ret p c ≡ done r) × IsConfig g r.state
    unfolding finish_context
    finish_context-IsConfig e false p c h q short = (_, refl, h)
    finish_context-IsConfig e true p c h q short =
        let (kept_name, kept_rules) = read_buffer-keeps e p in
        let (c', made, _, h') =
          make_context_conf-IsConfig g lib (read_buffer j lib e p) c h
            (record { below = rw kept_rules q.below; few = rw kept_rules (omega (arith, q.few)) })
            (rw (kept_name, q.same) short) in
        (record { on = true; ret = true; state = c' }, rw made refl, h')

    context_round-IsConfig :
        (e : j.Value) (ret : Bool) (c : Config g)
        → IsConfig g c
        → ContextFits e
        → (r : Round (Config g)) × (context_round j lib g e ret c ≡ done r) × IsConfig g r.state
    unfolding context_round
    context_round-IsConfig e ret c h fit = elim (Bool-cases (j.is_null e)) [
      | inl null ↦ (record { on = ret; ret = ret; state = c }, rw null refl, h)
      | inr here ↦ elim (Option-cases (read_string j lib e (codes "name"))) [
        | inl nameless ↦ (
          record { on = true; ret = false; state = c },
          rw (context_round, here, nameless) refl,
          h,
        )
        | inr (name, named) ↦
            let (fresh, short) =
              parse_context_init-fits c.num_contexts name (fit.name name named) in
            let (read, run_rules, q) =
              read_rules-Reads j lib c.outputs e (parse_context_init lib c.num_contexts name).1
                fresh fit.rules in
            let (r, made, h') = finish_context-IsConfig e read.0 read.1 c h q short in
            (r, rw (context_round, here, named, run_rules) made, h')
      ]
    ]

    -- Every entry of the array "contexts" fits.
    abbrev pub AllFit : List j.Value → Type 0
    AllFit [] = Unit
    AllFit (e ∷ es) = ContextFits e × AllFit es

    contexts_loop-IsConfig :
        (es : List j.Value) (ret : Bool) (c : Config g)
        → IsConfig g c
        → AllFit es
        → (r : Bool × Config g) × (contexts_loop j lib g es ret c ≡ done r) × IsConfig g r.1
    unfolding contexts_loop
    contexts_loop-IsConfig [] ret c h fit = ((ret, c), refl, h)
    contexts_loop-IsConfig (e ∷ es) ret c h fit =
        let (r, run_e, h') = context_round-IsConfig e ret c h fit.0 in
        elim (Bool-cases r.on) [
          | inl on ↦
              let (out, run_es, h₂) = contexts_loop-IsConfig es r.ret r.state h' fit.1 in
              (out, rw (run_e, on) run_es, h₂)
          | inr off ↦ ((r.ret, r.state), rw (run_e, off) refl, h')
        ]

    abbrev pub ArrayFits : Option j.Value → Type 0
    ArrayFits none = Unit
    ArrayFits (some array) = AllFit (j.elements array)

    -- The entries of the array "contexts" of a document fit.
    abbrev pub ContextsFit : Option j.Value → Type 0
    ContextsFit none = Unit
    ContextsFit (some v) = ArrayFits (j.get_exists v (codes "contexts"))

    read_contexts-IsConfig :
        (parsed : Option j.Value) (c : Config g)
        → IsConfig g c
        → ContextsFit parsed
        → (r : Bool × Config g) × (read_contexts j lib g parsed c ≡ done r) × IsConfig g r.1
    unfolding read_contexts
    read_contexts-IsConfig none c h fit = ((false, c), refl, h)
    read_contexts-IsConfig (some v) c h fit =
        elim (Option-cases (j.get_exists v (codes "contexts"))) [
          | inl missing ↦ ((false, c), rw (read_contexts, missing) refl, h)
          | inr (array, there) ↦
              let fits : ArrayFits (some array) = subst ArrayFits there fit in
              let (r, run_es, h') = contexts_loop-IsConfig (j.elements array) true c h fits in
              (r, rw (read_contexts, there) run_es, h')
        ]

    -- `ParseJsonContexts`, on a document whose names of contexts fit and whose contexts have at most 16
    -- rules each, whatever else it holds, returns and keeps the configuration valid.
    pub parse_json_contexts-IsConfig :
        (log_dir file_name : Bytes) (parsed : Option j.Value) (c : Config g)
        → IsConfig g c
        → ContextsFit parsed
        → (r : Bool × Config g) × (parse_json_contexts j lib g log_dir file_name parsed c ≡ done r)
          × IsConfig g r.1
    unfolding parse_json_contexts
    parse_json_contexts-IsConfig log_dir file_name parsed c h fit =
        let (r, e, h') = read_contexts-IsConfig parsed c h fit in
        elim (Bool-cases (is_default_conf file_name && not r.0)) [
          | inl replaced ↦ (
            (r.0, set_default_conf g lib log_dir r.1),
            rw (e, replaced) refl,
            (set_default_conf-IsConfig g lib log_dir r.1).2,
          )
          | inr kept ↦ (r, rw (e, kept) refl, h')
        ]
