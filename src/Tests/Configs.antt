-- ===== src/Tests/Configs.antt =====
-- Runs of the configuration of src/config.c.
use pmlogdaemon.Base.{
  ◌≡◌, refl, true, false, Option, none, some, List, [], ◌∷◌, ◌++◌, arith, Bytes, codes, length,
  replicate, str_eq, str_eq_iff, if◌then◌else◌, sym, ◌∙◌, inl, inr, Bool-cases,
}
use pmlogdaemon.Base.GTree.{GTree}
use pmlogdaemon.Base.Int.{pos, minus_one}
use pmlogdaemon.Base.Outcome.{done}
use pmlogdaemon.Conf.{LogFile, Rule, ContextConf}
use pmlogdaemon.Config.Context.{Config, set_default_conf, zeroed_context}
use pmlogdaemon.Config.Context.Laws.{IsConfig, IsParsed}
use pmlogdaemon.Config.Context.Made.{set_default_conf-IsConfig}
use pmlogdaemon.Config.Output.{ParseOutput, new_entry, find_output_by_name, make_output_conf}
use pmlogdaemon.Config.Output.Laws.{IsTable, Made, make_output_conf-Made}
use pmlogdaemon.Config.Rule.{ParseRule, ParseContext, parse_context_data}
use pmlogdaemon.Config.Rule.RoundTrip.{Named, print_rule, parse_context_data-print_rule}
use pmlogdaemon.Config.Show.{log_rule}
use pmlogdaemon.Config.Json.Contexts.{final_string_of}
use pmlogdaemon.Config.Show.Laws.{log_rule-parse_context_data}
use pmlogdaemon.Message.Priority.Names.{
  parse_rule_facility, parse_rule_level, get_rule_facility_str, get_rule_level_str,
}
use pmlogdaemon.Tests.Routes.{lib}

abbrev pub Entries : Type 0
Entries = List (Bytes × ContextConf)

unfoldable pub find : Entries → Bytes → Option ContextConf
find [] name = none
find ((k, v) ∷ t) name = if str_eq k name then some v else find t name

pub put : Bytes → ContextConf → Entries → Entries
put k v [] = (k, v) ∷ []
put k v ((l, w) ∷ t) = if str_eq l k then (k, v) ∷ t else (l, w) ∷ put k v t

pub find-put :
    (k j : Bytes) (v : ContextConf) (t : Entries)
    → find (put k v t) j ≡ (if str_eq k j then some v else find t j)
unfolding find put
find-put k j v [] = refl
find-put k j v ((l, w) ∷ t) = elim (Bool-cases (str_eq l k)) [
  | inl same ↦ let is : l ≡ k = (str_eq_iff l k).0 same in rw same (rw is (ground arith))
  | inr other ↦ rw other (elim (Bool-cases (str_eq l j)) [
    | inl here ↦
        let at_j : l ≡ j = (str_eq_iff l j).0 here in
        let apart : str_eq k j ≡ false = elim (Bool-cases (str_eq k j)) [
          | inl both ↦
              let k_at_j : k ≡ j = (str_eq_iff k j).0 both in
              absurd (let bad : str_eq l k ≡ true = (str_eq_iff l k).1 (at_j ∙ sym k_at_j) in cc)
          | inr ne ↦ ne
        ] in
        rw (here, apart) refl
    | inr there ↦ rw there (find-put k j v t)
  ])
]

pub find_nil : (k : Bytes) → find [] k ≡ none
unfolding find
find_nil k = refl

abbrev pub tree : GTree ContextConf
tree = record {
  Tree = Entries;
  new = [];
  insert = put;
  update = put;
  lookup = find;
  nnodes = length;
  entries = λ t. t;
  lookup-new = find_nil;
  lookup-insert = λ k j v t. find-put k j v t;
  lookup-update = λ k j v old t e. find-put k j v t;
}

abbrev errlog : LogFile
errlog = record {
  output_name = codes "errlog";
  path = codes "/var/log/errors";
  max_size = pos 4096;
  rotations = pos 1;
}

-- `stdlog` and `errlog`.
abbrev two_outputs : List LogFile
two_outputs =
    record {
      output_name = codes "stdlog";
      path = codes "/var/log/messages";
      max_size = pos 4096;
      rotations = pos 1;
    }
    ∷ (errlog ∷ [])

two_outputs-IsTable : IsTable two_outputs
two_outputs-IsTable = record {
  distinct = (unfold find_output_by_name in refl, (unfold find_output_by_name in refl, tt));
  bounded = omega arith;
}

abbrev third : ParseOutput
third = record {
  name = codes "third";
  file = codes "/var/log/third";
  max_size = minus_one;
  rotations = minus_one;
}

abbrev pub log : Bytes
log = codes "/var/log"

-- The built-in configuration, made of an empty one.
abbrev pub start : Config tree
start = set_default_conf tree lib log (record { outputs = []; contexts = none; num_contexts = 0 })

pub start-IsConfig : IsConfig tree start
start-IsConfig =
    (set_default_conf-IsConfig tree lib log
      (record { outputs = []; contexts = none; num_contexts = 0 })).2

make_output_conf-Made_example : Made third two_outputs (two_outputs ++ new_entry third ∷ [])
unfolding make_output_conf
make_output_conf-Made_example = make_output_conf-Made third _ two_outputs _ two_outputs-IsTable refl

-- A relative path.
abbrev relative : ParseOutput
relative = record third { file = codes "log/third" }

-- user.!err.cron,-errlog
abbrev rule : ParseRule
rule = record {
  facility = pos 8;
  level = pos 3;
  level_invert = true;
  program = codes "cron";
  output_index = 1;
  omit_output = true;
}

abbrev first : ParseContext
first = record zeroed_context {
  name = codes "<global>";
  buffer_size = pos 4096;
  rules = record rule { output_index = 0 } ∷ [];
}

first-IsParsed : IsParsed 1 first
first-IsParsed = record { below = (omega arith, tt); few = omega arith }

rule-Named : Named lib two_outputs rule
unfolding parse_rule_facility parse_rule_level find_output_by_name
rule-Named = record {
  fac = codes "user";
  lvl = codes "err";
  out = codes "errlog";
  fac_is = refl;
  lvl_is = refl;
  out_is = refl;
  fac_part = record { inside = ground arith; short = omega arith };
  lvl_part = record { inside = ground arith; short = omega arith };
  out_part = record { inside = ground arith; short = omega arith };
  program_part = record { inside = ground arith; short = omega arith };
  lvl_unmarked = refl;
  out_unmarked = refl;
}

print_rule_text : print_rule rule-Named ≡ codes "user.!err.cron,-errlog"
unfolding rule-Named
print_rule_text = refl

parse_context_data-print_rule_example :
    parse_context_data lib two_outputs zeroed_context (print_rule rule-Named)
    ≡ done (some (record zeroed_context { rules = rule ∷ [] }))
parse_context_data-print_rule_example =
    parse_context_data-print_rule lib two_outputs zeroed_context rule rule-Named (omega arith)

-- Sixteen rules.
abbrev full : ParseContext
full = record zeroed_context { rules = replicate 16 rule }

-- The rule in the table of a context.
abbrev kept_rule : Rule
kept_rule = record {
  facility = pos 8;
  level = pos 3;
  level_invert = true;
  program = some (codes "cron");
  output_index = pos 1;
  omit_output = true;
}

log_rule-parse_context_data_example :
    (log_rule lib two_outputs kept_rule
      ≡ done (record {
        msgid = codes "CFG_RULE";
        fields =
            (codes "Filter", codes "user.!err.cron") ∷ ((codes "Output", codes "-errlog") ∷ []);
      }))
    × (parse_context_data lib two_outputs zeroed_context
          (final_string_of [] (codes "user.!err.cron") (codes "-errlog"))
        ≡ done (some (record zeroed_context { rules = rule ∷ [] })))
unfolding rule-Named get_rule_facility_str get_rule_level_str
log_rule-parse_context_data_example =
    log_rule-parse_context_data lib two_outputs kept_rule 1 rule-Named [] errlog zeroed_context refl
      refl refl refl refl (omega arith) (omega arith) (omega arith)
