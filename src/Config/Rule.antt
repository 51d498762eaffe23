-- ===== src/Config/Rule.antt =====
-- src/config.c: `ParseContextData`, one rule of a context in text.
pub mod RoundTrip
use pmlogdaemon.Base.{
  ℕ, zero, suc, ◌+◌, ◌-◌, Bool, true, false, not, ◌&&◌, Option, none, some, List, [], ◌∷◌, ◌++◌,
  Bytes, codes, length, take, str_eq, leb, ◌==◌, if◌then◌else◌,
}
use pmlogdaemon.Base.Int.{ℤ, pos, minus_one}
use pmlogdaemon.Base.Outcome.{Outcome, done, overflow}
use pmlogdaemon.Conf.{LogFile, max_num_rules}
use pmlogdaemon.Config.Output.{find_output_by_name}
use pmlogdaemon.Config.Token.{Token, get_token_to_sep}
use pmlogdaemon.Message.Priority.Names.{PmLogLib, parse_rule_facility, parse_rule_level}

-- `PmLogParseRule_t`: an empty program stands for all.
pub record ParseRule : Type 0 where
  pub facility : ℤ
  pub level : ℤ
  pub level_invert : Bool
  pub program : Bytes
  pub output_index : ℕ
  pub omit_output : Bool

-- `PmLogParseContext_t`: the list holds the first `numRules` rules of its 16.
pub record ParseContext : Type 0 where
  pub name : Bytes
  pub buffer_size : ℤ
  pub flush_level : ℤ
  pub rules : List ParseRule

abbrev pub token_size : ℕ
token_size = 32

abbrev pub separators : Bytes
separators = codes ".,"

-- A mark in front of a text: whether it is there, and what stands behind it.
abbrev pub mark : ℕ → Bytes → Bool × Bytes
mark c [] = (false, [])
mark c (d ∷ s) = if d == c then (true, s) else (false, d ∷ s)

-- "get level (optional)": the level, whether it is inverted, the terminator and the rest.
abbrev pub Level : Type 0
Level = ℤ × Bool × ℕ × Bytes

module _ (lib : PmLogLib) where
  unfoldable pub parse_level_part : Token → Option Level
  parse_level_part t =
      if t.terminator == b'.'
      then (let (invert, s) = mark b'!' t.rest in
          let u = get_token_to_sep token_size separators s in
          let (known, level) = parse_rule_level lib u.token in
          if known then some (level, invert, u.terminator, u.rest) else none)
      else some (minus_one, false, t.terminator, t.rest)

  -- "get program (optional)": the program, the terminator and the rest.
  unfoldable pub parse_program_part : ℕ → Bytes → Bytes × ℕ × Bytes
  parse_program_part sep s =
      if sep == b'.'
      then (let u = get_token_to_sep token_size separators s in (u.token, u.terminator, u.rest))
      else ([], sep, s)

  -- "we should be at the ',' separator": whether the output is left out, and its index.
  unfoldable pub parse_output_part : List LogFile → ℕ → Bytes → Option (Bool × ℕ)
  parse_output_part outputs sep s =
      if not (sep == b',')
      then none
      else (let (omit, s') = mark b'-' s in
          let u = get_token_to_sep token_size separators s' in
          elim (find_output_by_name outputs u.token) [
            | none ↦ none
            | some i ↦ if u.terminator == 0 then some (omit, i) else none
          ])

  -- The rule in the value string, or none where a part is not recognised.
  unfoldable pub parse_rule : List LogFile → Bytes → Option ParseRule
  parse_rule outputs val =
      let t = get_token_to_sep token_size separators val in
      let (known, facility) = parse_rule_facility lib t.token in
      if not known then none else elim (parse_level_part t) [
        | none ↦ none
        | some (level, invert, sep, s) ↦
            (let (program, sep', s') = parse_program_part sep s in
              elim (parse_output_part outputs sep' s') [
                | none ↦ none
                | some (omit, i) ↦ some (record {
                  facility = facility;
                  level = level;
                  level_invert = invert;
                  program = program;
                  output_index = i;
                  omit_output = omit;
                })
              ])
      ]

  -- `ParseContextData`: the context with one rule more, or none where the call is false. The call
  -- writes to the slot behind the last rule without a look at the size of the array.
  unfoldable pub parse_context_data :
      List LogFile → ParseContext → Bytes → Outcome (Option ParseContext)
  unfolding parse_rule
  parse_context_data outputs context val =
      if leb max_num_rules (length context.rules) then overflow else elim (parse_rule outputs val) [
        | none ↦ done none
        | some r ↦ done (some (record context { rules = context.rules ++ r ∷ [] }))
      ]
