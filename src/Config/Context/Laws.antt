-- ===== src/Config/Context/Laws.antt =====
-- The contexts of a configuration: what each call of config.c keeps true of them.
use pmlogdaemon.Base.{
  ℕ, suc, ◌≤◌, ◌<◌, ◌≡◌, inl, inr, refl, ap, ◌∙◌, Option, none, some, arith, map, List, [], ◌∷◌,
  Bytes, length, str_eq, if◌then◌else◌, Option-cases,
}
use pmlogdaemon.Base.GTree.{GTree}
use pmlogdaemon.Base.Int.{ℤ}
use pmlogdaemon.Conf.{Rule, ContextConf, max_num_rules}
use pmlogdaemon.Config.Context.{
  to_rule, Config, lookup_context, empty_context, create_context, change_context, fill_context,
}
use pmlogdaemon.Config.Output.Laws.{IsTable}
use pmlogdaemon.Config.Rule.{ParseRule, ParseContext}
use pmlogdaemon.Ring.{RingBuffer, rb_new}
use pmlogdaemon.Ring.Bounds.{IsRing, rb_new-IsRing}
use pmlogdaemon.Route.Wanted.{AllNamed}

-- The parsed rules name outputs below `n`.
abbrev pub AllBelow : ℕ → List ParseRule → Type 0
AllBelow n [] = Unit
AllBelow n (r ∷ rules) = (r.output_index < n) × AllBelow n rules

pub record IsParsed (n : ℕ) (p : ParseContext) : Type 0 where
  pub below : AllBelow n p.rules
  pub few : length p.rules ≤ max_num_rules

abbrev pub MaybeRing : Option RingBuffer → Type 0
MaybeRing none = Unit
MaybeRing (some rb) = IsRing rb

-- A context that messages can be routed by, with `n` outputs.
pub record IsContext (n : ℕ) (conf : ContextConf) : Type 0 where
  pub named : AllNamed n conf.rules
  pub few : length conf.rules ≤ max_num_rules
  pub ring : MaybeRing conf.rb

AllNamed-to_rule :
    (n : ℕ) (rules : List ParseRule) → AllBelow n rules → AllNamed n (map to_rule rules)
unfolding to_rule
AllNamed-to_rule n [] h = tt
AllNamed-to_rule n (r ∷ rules) h = ((r.output_index, refl, h.0), AllNamed-to_rule n rules h.1)

length-map_rules : (rules : List ParseRule) → length (map to_rule rules) ≡ length rules
length-map_rules [] = refl
length-map_rules (r ∷ rules) = ap suc (length-map_rules rules)

pub AllNamed-mono : (m n : ℕ) (rules : List Rule) → m ≤ n → AllNamed m rules → AllNamed n rules
AllNamed-mono m n [] h a = tt
AllNamed-mono m n (r ∷ rules) h ((i, e, l), a) = ((i, e, omega arith), AllNamed-mono m n rules h a)

MaybeRing-rb_new : (size level : ℤ) → MaybeRing (rb_new size level)
MaybeRing-rb_new size level = elim (Option-cases (rb_new size level)) [
  | inl e ↦ rw e tt
  | inr (rb, e) ↦ rw e (rb_new-IsRing size level e).0
]

module _ (g : GTree ContextConf) where
  -- A configuration that the daemon can run with: distinct outputs, and contexts that name them.
  pub record IsConfig (c : Config g) : Type 0 where
    pub table : IsTable c.outputs
    pub contexts_ok :
        (name : Bytes) (conf : ContextConf)
        → lookup_context g c.contexts name ≡ some conf
        → IsContext (length c.outputs) conf

  pub fill_context-IsContext :
      (n : ℕ) (p : ParseContext) (old : ContextConf)
      → IsParsed n p
      → IsContext n (fill_context g p old)
  unfolding fill_context
  fill_context-IsContext n p old h = record {
    named = AllNamed-to_rule n p.rules h.below;
    few = omega (arith, h.few, length-map_rules p.rules);
    ring = MaybeRing-rb_new p.buffer_size p.flush_level;
  }

  pub lookup-create_context :
      (name j : Bytes) (c : Config g)
      → lookup_context g (create_context g name c).contexts j
        ≡ (if str_eq name j then some (empty_context g name) else lookup_context g c.contexts j)
  unfolding lookup_context create_context
  lookup-create_context name j c = created c.contexts
    where
      created :
          (o : Option g.Tree)
          → g.lookup (g.insert name (empty_context g name) (elim o [ none ↦ g.new | some t ↦ t ])) j
            ≡ (if str_eq name j then some (empty_context g name) else lookup_context g o j)
      created none =
          g.lookup-insert name j (empty_context g name) g.new
          ∙ ap (λ o. if str_eq name j then some (empty_context g name) else o) (g.lookup-new j)
      created (some t) = g.lookup-insert name j (empty_context g name) t

  -- A change of a context that is there.
  pub lookup-change_context :
      (name j : Bytes) (conf old : ContextConf) (c : Config g)
      → lookup_context g c.contexts name ≡ some old
      → lookup_context g (change_context g name conf c).contexts j
        ≡ (if str_eq name j then some conf else lookup_context g c.contexts j)
  unfolding lookup_context change_context
  lookup-change_context name j conf old c e = changed c.contexts e
    where
      changed :
          (o : Option g.Tree)
          → lookup_context g o name ≡ some old
          → lookup_context g
              (elim o as (λ _. Config g) [
                | none ↦ c
                | some t ↦ record c { contexts = some (g.update name conf t) }
              ]).contexts
              j
            ≡ (if str_eq name j then some conf else lookup_context g o j)
      changed none e = cc
      changed (some t) e = g.lookup-update name j conf old t e

  pub outputs-create_context :
      (name : Bytes) (c : Config g) → (create_context g name c).outputs ≡ c.outputs
  unfolding create_context
  outputs-create_context name c = refl

  pub outputs-change_context :
      (name : Bytes) (conf : ContextConf) (c : Config g)
      → (change_context g name conf c).outputs ≡ c.outputs
  unfolding change_context
  outputs-change_context name conf c = elim (Option-cases c.contexts) [
    | inl e ↦ rw e refl
    | inr (t, e) ↦ rw e refl
  ]
