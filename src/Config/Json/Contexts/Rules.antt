-- ===== src/Config/Json/Contexts/Rules.antt =====
-- src/config.c: the loop of `ParseJsonContexts` over the rules of a context.
use pmlogdaemon.Base.{
  ℕ, ◌+◌, ◌≤◌, ◌<◌, ◌≡◌, inl, inr, refl, subst, Bool, true, false, Option, none, some, arith, List,
  [], ◌∷◌, ◌++◌, Bytes, codes, length, leb, Bool-cases, Option-cases, length-append,
}
use pmlogdaemon.Base.Outcome.{done}
use pmlogdaemon.Conf.{LogFile, max_num_rules}
use pmlogdaemon.Config.Context.Laws.{AllBelow}
use pmlogdaemon.Config.Json.{Json, Round}
use pmlogdaemon.Config.Json.Contexts.{
  RuleState, read_string, final_string_of, rule_round, rules_loop, read_rules,
}
use pmlogdaemon.Config.Rule.{ParseRule, ParseContext, parse_rule, parse_context_data}
use pmlogdaemon.Config.Rule.RoundTrip.{parse_rule-lt}
use pmlogdaemon.Message.Priority.Names.{PmLogLib}

-- A context on the way through the loop over its rules: what it has read names outputs, there is
-- room for the rules that are left, and its name is the one it started with.
pub record Reads (outputs : List LogFile) (name : Bytes) (left : ℕ) (p : ParseContext)
    : Type 0 where
  pub below : AllBelow (length outputs) p.rules
  pub few : length p.rules + left ≤ max_num_rules
  pub same : p.name ≡ name

AllBelow-snoc :
    (n : ℕ) (rules : List ParseRule) (r : ParseRule)
    → AllBelow n rules
    → r.output_index < n
    → AllBelow n (rules ++ r ∷ [])
AllBelow-snoc n [] r h l = (l, tt)
AllBelow-snoc n (q ∷ rules) r h l = (h.0, AllBelow-snoc n rules r h.1 l)

Reads-less :
    (outputs : List LogFile) (name : Bytes) (m n : ℕ) (p : ParseContext)
    → n ≤ m
    → Reads outputs name m p
    → Reads outputs name n p
Reads-less outputs name m n p l h = record {
  below = h.below;
  few = omega (arith, h.few);
  same = h.same;
}

abbrev MaybeReads : List LogFile → Bytes → ℕ → Option ParseContext → Type 0
MaybeReads outputs name left none = Unit
MaybeReads outputs name left (some p) = Reads outputs name left p

parse_context_data-Reads :
    (lib : PmLogLib) (outputs : List LogFile) (name val : Bytes) (left : ℕ) (p : ParseContext)
    → Reads outputs name (left + 1) p
    → (o : Option ParseContext) × (parse_context_data lib outputs p val ≡ done o)
      × MaybeReads outputs name left o
unfolding parse_context_data
parse_context_data-Reads lib outputs name val left p h =
    let room : leb max_num_rules (length p.rules) ≡ false = ground (arith, h.few) in
    elim (Option-cases (parse_rule lib outputs val)) [
      | inl bad ↦ (none, rw (room, bad) refl, tt)
      | inr (r, good) ↦ (
        some (record p { rules = p.rules ++ r ∷ [] }),
        rw (room, good) refl,
        record {
          below = AllBelow-snoc _ p.rules r h.below (parse_rule-lt lib outputs val good);
          few = omega (arith, h.few, length-append p.rules (r ∷ []));
          same = h.same;
        },
      )
    ]

module _ (j : Json) (lib : PmLogLib) where
  rule_round-Reads :
      (outputs : List LogFile) (name : Bytes) (left : ℕ) (e : j.Value) (s : RuleState)
      → Reads outputs name (left + 1) s.context
      → (r : Round RuleState) × (rule_round j lib outputs e s ≡ done r)
        × Reads outputs name left r.state.context
  unfolding rule_round
  rule_round-Reads outputs name left e s h =
      let less = Reads-less outputs name (left + 1) left s.context (omega arith) h in
      elim (Option-cases (read_string j lib e (codes "filter"))) [
        | inl missing ↦
            (record { on = true; ret = false; state = s }, rw (rule_round, missing) refl, less)
        | inr (filter, found) ↦ elim (Option-cases (read_string j lib e (codes "output"))) [
          | inl missing ↦ (
            record { on = true; ret = false; state = s },
            rw (rule_round, found, missing) refl,
            less,
          )
          | inr (output, given) ↦
              let text = final_string_of s.final_string filter output in
              let (o, e', h') = parse_context_data-Reads lib outputs name text left s.context h in
              elim (Option-cases o) [
                | inl bad ↦ (
                  record { on = false; ret = false; state = record s { final_string = text } },
                  rw (rule_round, found, given, e', bad) refl,
                  less,
                )
                | inr (p, good) ↦ (
                  record {
                    on = true;
                    ret = true;
                    state = record { context = p; final_string = text };
                  },
                  rw (rule_round, found, given, e', good) refl,
                  subst (MaybeReads outputs name left) good h',
                )
              ]
        ]
      ]

  rules_loop-Reads :
      (outputs : List LogFile) (name : Bytes) (es : List j.Value) (ret : Bool) (s : RuleState)
      → Reads outputs name (length es) s.context
      → (r : Bool × ParseContext) × (rules_loop j lib outputs es ret s ≡ done r)
        × Reads outputs name 0 r.1
  unfolding rules_loop
  rules_loop-Reads outputs name [] ret s h = ((ret, s.context), refl, h)
  rules_loop-Reads outputs name (e ∷ es) ret s h =
      let (r, run_e, h') =
        rule_round-Reads outputs name (length es) e s
          (Reads-less outputs name _ _ s.context (omega arith) h) in
      elim (Bool-cases r.on) [
        | inl on ↦
            let (out, run_es, h₂) = rules_loop-Reads outputs name es r.ret r.state h' in
            (out, rw (run_e, on) run_es, h₂)
        | inr off ↦ (
          (r.ret, r.state.context),
          rw (run_e, off) refl,
          Reads-less outputs name _ 0 r.state.context (omega arith) h',
        )
      ]

  abbrev pub FewRules : Option j.Value → Type 0
  FewRules none = Unit
  FewRules (some array) = length (j.elements array) ≤ max_num_rules

  pub read_rules-Reads :
      (outputs : List LogFile) (e : j.Value) (p : ParseContext)
      → p.rules ≡ []
      → FewRules (j.get_exists e (codes "rules"))
      → (r : Bool × ParseContext) × (read_rules j lib outputs e p ≡ done r)
        × Reads outputs p.name 0 r.1
  unfolding read_rules
  read_rules-Reads outputs e p fresh few = elim (Option-cases (j.get_exists e (codes "rules"))) [
    | inl missing ↦ ((false, p), rw (read_rules, missing) refl, start 0 (omega arith))
    | inr (array, there) ↦
        let fits : length (j.elements array) ≤ max_num_rules = subst FewRules there few in
        let (r, run_es, h) =
          rules_loop-Reads outputs p.name (j.elements array) true
            (record { context = p; final_string = [] }) (start (length (j.elements array)) fits) in
        (r, rw (read_rules, there) run_es, h)
  ]
    where
      start : (n : ℕ) → n ≤ max_num_rules → Reads outputs p.name n p
      start n l = record { below = rw fresh tt; few = rw fresh (omega arith); same = refl }
