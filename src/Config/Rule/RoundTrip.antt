-- ===== src/Config/Rule/RoundTrip.antt =====
-- A rule in the form of the configuration file is read back as it.
use pmlogdaemon.Base.{
  ℕ, zero, suc, ◌-◌, ◌≤◌, ◌<◌, ◌≡◌, inl, inr, refl, sym, ap, ◌∙◌, Bool, true, false, some, arith,
  List, [], ◌∷◌, ◌++◌, append-nil, Bytes, length, take, take_all, ◌==◌, leb, Option-cases,
}
use pmlogdaemon.Base.Outcome.{done, overflow}
use pmlogdaemon.Conf.{LogFile, max_num_rules}
use pmlogdaemon.Config.Output.{find_output_by_name}
use pmlogdaemon.Config.Rule.{
  ParseRule, ParseContext, mark, separators, token_size, parse_level_part, parse_program_part,
  parse_output_part, parse_rule, parse_context_data,
}
use pmlogdaemon.Config.Token.{AllInside, get_token_to_sep, get_token_to_sep_lem}
use pmlogdaemon.Message.Priority.Names.{PmLogLib, parse_rule_facility, parse_rule_level}

-- A part of a rule that is read whole: no separator in it, and room for it in the buffer.
pub record IsPart (s : Bytes) : Type 0 where
  pub inside : AllInside separators s
  pub short : length s < token_size

-- A part that does not begin with the mark that may stand before it.
abbrev pub Unmarked : ℕ → Bytes → Type 0
Unmarked c [] = Unit
Unmarked c (d ∷ s) = (d == c) ≡ false

-- The names that stand for the parts of a rule.
pub record Named (lib : PmLogLib) (outputs : List LogFile) (r : ParseRule) : Type 0 where
  pub fac : Bytes
  pub lvl : Bytes
  pub out : Bytes
  pub fac_is : parse_rule_facility lib fac ≡ (true, r.facility)
  pub lvl_is : parse_rule_level lib lvl ≡ (true, r.level)
  pub out_is : find_output_by_name outputs out ≡ some r.output_index
  pub fac_part : IsPart fac
  pub lvl_part : IsPart lvl
  pub out_part : IsPart out
  pub program_part : IsPart r.program
  pub lvl_unmarked : Unmarked b'!' lvl
  pub out_unmarked : Unmarked b'-' out

abbrev pub marked : ℕ → Bool → Bytes → Bytes
marked c true s = c ∷ s
marked c false s = s

module _ {lib : PmLogLib} {outputs : List LogFile} {r : ParseRule} where
  -- `<facility>.[!]<level>.<program>,[-]<output>`
  abbrev pub print_rule : Named lib outputs r → Bytes
  print_rule n =
      n.fac
      ++ (b'.'
          ∷ marked b'!' r.level_invert
              (n.lvl ++ (b'.' ∷ (r.program ++ (b',' ∷ marked b'-' r.omit_output n.out)))))

mark-marked : (c : ℕ) (b : Bool) (s : Bytes) → Unmarked c s → mark c (marked c b s) ≡ (b, s)
mark-marked c true s h = ground arith
mark-marked c false [] h = refl
mark-marked c false (d ∷ s) h = rw h

pub marked-append : (c : ℕ) (b : Bool) (s t : Bytes) → marked c b s ++ t ≡ marked c b (s ++ t)
marked-append c true s t = refl
marked-append c false s t = refl

Unmarked-append :
    (c d : ℕ) (s t : Bytes) → Unmarked c s → (d == c) ≡ false → Unmarked c (s ++ (d ∷ t))
Unmarked-append c d [] t h e = e
Unmarked-append c d (x ∷ s) t h e = h

cut_part : (s : Bytes) → IsPart s → take (token_size - 1) s ≡ s
cut_part s h = take_all s (token_size - 1) (omega (arith, h.short))

-- A part with a separator behind it.
token_dot :
    (s rest : Bytes)
    → IsPart s
    → get_token_to_sep token_size separators (s ++ (b'.' ∷ rest))
      ≡ record { token = s; terminator = b'.'; rest = rest }
token_dot s rest h =
    get_token_to_sep_lem token_size separators s (b'.' ∷ rest) rest b'.' h.inside (refl, refl, refl)
    ∙ ap (λ t. record { token = t; terminator = b'.'; rest = rest }) (cut_part s h)

token_comma :
    (s rest : Bytes)
    → IsPart s
    → get_token_to_sep token_size separators (s ++ (b',' ∷ rest))
      ≡ record { token = s; terminator = b','; rest = rest }
token_comma s rest h =
    get_token_to_sep_lem token_size separators s (b',' ∷ rest) rest b',' h.inside (refl, refl, refl)
    ∙ ap (λ t. record { token = t; terminator = b','; rest = rest }) (cut_part s h)

token_end :
    (s : Bytes)
    → IsPart s
    → get_token_to_sep token_size separators s ≡ record { token = s; terminator = 0; rest = [] }
token_end s h =
    ap (get_token_to_sep token_size separators) (sym (append-nil s))
    ∙ get_token_to_sep_lem token_size separators s [] [] 0 h.inside (refl, refl)
    ∙ ap (λ t. record { token = t; terminator = 0; rest = [] }) (cut_part s h)

module _ (lib : PmLogLib) (outputs : List LogFile) (r : ParseRule) (n : Named lib outputs r) where
  tail : Bytes
  tail = r.program ++ (b',' ∷ marked b'-' r.omit_output n.out)

  level_back :
      (f : Bytes)
      → parse_level_part lib (record {
        token = f;
        terminator = b'.';
        rest = marked b'!' r.level_invert (n.lvl ++ (b'.' ∷ tail));
      })
        ≡ some (r.level, r.level_invert, b'.', tail)
  unfolding parse_level_part
  level_back f = rw (
    mark-marked b'!' r.level_invert (n.lvl ++ (b'.' ∷ tail))
        (Unmarked-append b'!' b'.' n.lvl tail n.lvl_unmarked refl),
    token_dot n.lvl tail n.lvl_part,
    n.lvl_is,
  )

  program_back :
      parse_program_part lib b'.' tail ≡ (r.program, b',', marked b'-' r.omit_output n.out)
  unfolding parse_program_part tail
  program_back = rw (token_comma r.program (marked b'-' r.omit_output n.out) n.program_part)

  output_back :
      parse_output_part lib outputs b',' (marked b'-' r.omit_output n.out)
      ≡ some (r.omit_output, r.output_index)
  unfolding parse_output_part
  output_back =
      rw (mark-marked b'-' r.omit_output n.out n.out_unmarked, token_end n.out n.out_part, n.out_is)
        (rw (mark-marked b'-' r.omit_output n.out n.out_unmarked, token_end n.out n.out_part) refl)

  parse_rule-print_rule : parse_rule lib outputs (print_rule n) ≡ some r
  unfolding parse_rule tail
  parse_rule-print_rule =
      rw
        (
          token_dot n.fac (marked b'!' r.level_invert (n.lvl ++ (b'.' ∷ tail))) n.fac_part,
          n.fac_is,
          level_back n.fac,
          program_back,
          output_back,
        )
        (rw
          (
            token_dot n.fac (marked b'!' r.level_invert (n.lvl ++ (b'.' ∷ tail))) n.fac_part,
            n.fac_is,
            program_back,
          )
          refl)

-- A rule printed as `<facility>.[!]<level>.<program>,[-]<output>`, with names that the tables know
-- and that fit the buffer of a token, is read back as it, behind the rules at hand, as long as there
-- are fewer than 16 of them.
pub parse_context_data-print_rule :
    (lib : PmLogLib) (outputs : List LogFile) (context : ParseContext) (r : ParseRule)
    (n : Named lib outputs r)
    → length context.rules < max_num_rules
    → parse_context_data lib outputs context (print_rule n)
      ≡ done (some (record context { rules = context.rules ++ r ∷ [] }))
unfolding parse_context_data
parse_context_data-print_rule lib outputs context r n room =
    let free : leb max_num_rules (length context.rules) ≡ false = ground arith in
    rw (free, parse_rule-print_rule lib outputs r n)

-- A rule more than the array holds is written past its end, whatever it says.
parse_context_data-overflow :
    (lib : PmLogLib) (outputs : List LogFile) (context : ParseContext) (val : Bytes)
    → max_num_rules ≤ length context.rules
    → parse_context_data lib outputs context val ≡ overflow
unfolding parse_context_data
parse_context_data-overflow lib outputs context val full = ground arith

find-lt :
    (outputs : List LogFile) (name : Bytes) {i : ℕ}
    → find_output_by_name outputs name ≡ some i
    → i < length outputs
unfolding find_output_by_name
find-lt [] name e = cc
find-lt (o ∷ outputs) name {i = zero} e = omega arith
find-lt (o ∷ outputs) name {i = suc i} e =
    omega (arith, find-lt outputs name {i = i} (ground arith))

parse_output_part-lt :
    (lib : PmLogLib) (outputs : List LogFile) (sep : ℕ) (s : Bytes) {omit : Bool} {i : ℕ}
    → parse_output_part lib outputs sep s ≡ some (omit, i)
    → i < length outputs
unfolding parse_output_part
parse_output_part-lt lib outputs sep s {omit} {i} e =
    let name : Bytes = (get_token_to_sep token_size separators (mark b'-' s).1).token in
    elim (Option-cases (find_output_by_name outputs name)) [
      | inl missing ↦ absurd (ground arith)
      | inr (j, found) ↦ let same : j ≡ i = ground arith in rw (← same) (find-lt outputs name found)
    ]

-- A rule that is read, from whatever text, names an output of the table: the assertions of
-- `OutputMessage` hold of it.
pub parse_rule-lt :
    (lib : PmLogLib) (outputs : List LogFile) (val : Bytes) {r : ParseRule}
    → parse_rule lib outputs val ≡ some r
    → r.output_index < length outputs
unfolding parse_rule
parse_rule-lt lib outputs val {r} e =
    elim (Option-cases (parse_level_part lib (get_token_to_sep token_size separators val))) [
      | inl bad ↦ absurd (ground arith)
      | inr ((level, invert, sep, s), good) ↦
          let part = parse_program_part lib sep s in
          elim (Option-cases (parse_output_part lib outputs part.1 part.2)) [
            | inl bad ↦ absurd (ground arith)
            | inr ((omit, i), found) ↦
                let same : i ≡ r.output_index = ground arith in
                rw (← same) (parse_output_part-lt lib outputs part.1 part.2 found)
          ]
    ]
