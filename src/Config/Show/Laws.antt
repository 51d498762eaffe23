-- ===== src/Config/Show/Laws.antt =====
-- What `LogConfig` in src/main.c shows of a rule, and what the configuration file makes of it.
use pmlogdaemon.Base.{
  ℕ, ◌≤◌, ◌<◌, ◌≡◌, refl, ap, ◌∙◌, some, List, [], ◌∷◌, ◌++◌, append_assoc, Bytes, codes, length,
  take, take_all, get_elem?, length-append, leb, true, ◌+◌, arith,
}
use pmlogdaemon.Base.Int.{pos}
use pmlogdaemon.Base.Outcome.{done}
use pmlogdaemon.Conf.{LogFile, Rule, max_num_rules}
use pmlogdaemon.Config.Json.Contexts.{final_room, final_string_of}
use pmlogdaemon.Config.Rule.{ParseRule, ParseContext, parse_context_data}
use pmlogdaemon.Config.Rule.RoundTrip.{
  Named, marked, marked-append, print_rule, parse_context_data-print_rule,
}
use pmlogdaemon.Config.Show.{program_text, text_room, entry, log_rule}
use pmlogdaemon.Message.Priority.Names.{PmLogLib, get_rule_facility_str, get_rule_level_str}

-- The rule as the configuration file says it, with the program `*` where there is none.
abbrev pub said : Rule → ℕ → ParseRule
said r i = record {
  facility = r.facility;
  level = r.level;
  level_invert = r.level_invert;
  program = program_text r.program;
  output_index = i;
  omit_output = r.omit_output;
}

module _ (lib : PmLogLib) (outputs : List LogFile) (r : Rule) (i : ℕ)
    (n : Named lib outputs (said r i)) where
  abbrev pub filter_of : Bytes
  filter_of =
      n.fac ++ (b'.' ∷ marked b'!' r.level_invert (n.lvl ++ (b'.' ∷ program_text r.program)))

  abbrev pub output_of : Bytes
  output_of = marked b'-' r.omit_output n.out

  joined : filter_of ++ (b',' ∷ output_of) ≡ print_rule n
  joined =
      append_assoc n.fac
        (b'.' ∷ marked b'!' r.level_invert (n.lvl ++ (b'.' ∷ program_text r.program)))
        (b',' ∷ output_of)
      ∙ ap (λ t. n.fac ++ (b'.' ∷ t))
          (marked-append b'!' r.level_invert (n.lvl ++ (b'.' ∷ program_text r.program))
              (b',' ∷ output_of)
            ∙ ap (marked b'!' r.level_invert)
                (append_assoc n.lvl (b'.' ∷ program_text r.program) (b',' ∷ output_of)))

  uncut :
      (old : Bytes)
      → length filter_of + 1 + length output_of ≤ text_room
      → 0 < length output_of
      → final_string_of old filter_of output_of ≡ filter_of ++ (b',' ∷ output_of)
  unfolding final_string_of
  uncut old short some_output =
      let some_filter : leb 1 (length filter_of) ≡ true = ground (
        arith,
        length-append n.fac
            (b'.' ∷ marked b'!' r.level_invert (n.lvl ++ (b'.' ∷ program_text r.program))),
      ) in
      let other : leb 1 (length output_of) ≡ true = ground arith in
      rw (some_filter, other)
        (take_all _ final_room (omega (arith, length-append filter_of (b',' ∷ output_of))))

  -- A rule whose names the tables know, and whose two texts fit 31 bytes together with a comma between
  -- them, is shown in full, and what `ParseJsonContexts` joins of its texts, whatever string was there
  -- before, is read back as it, with the program `*` where it has none, behind the rules at hand, as
  -- long as there are fewer than 16 of them and the text of the output is not empty.
  pub log_rule-parse_context_data :
      (old : Bytes) (f : LogFile) (context : ParseContext)
      → r.output_index ≡ pos i
      → get_elem? outputs i ≡ some f
      → f.output_name ≡ n.out
      → get_rule_facility_str lib r.facility ≡ some n.fac
      → get_rule_level_str lib r.level ≡ some n.lvl
      → length filter_of + 1 + length output_of ≤ text_room
      → 0 < length output_of
      → length context.rules < max_num_rules
      → (log_rule lib outputs r
          ≡ done (record {
            msgid = codes "CFG_RULE";
            fields = (codes "Filter", filter_of) ∷ ((codes "Output", output_of) ∷ []);
          }))
        × (parse_context_data lib outputs context (final_string_of old filter_of output_of)
            ≡ done (some (record context { rules = context.rules ++ said r i ∷ [] })))
  unfolding log_rule
  log_rule-parse_context_data old f context at there out fac lvl short some_output room =
      let all_filter : take text_room filter_of ≡ filter_of =
        take_all filter_of text_room (omega arith) in
      let all_output : take text_room output_of ≡ output_of =
        take_all output_of text_room (omega arith) in
      (
        rw (at, entry, there, fac, lvl, out, all_filter, all_output) refl,
        ap (parse_context_data lib outputs context) (uncut old short some_output ∙ joined)
            ∙ parse_context_data-print_rule lib outputs context (said r i) n room,
      )
