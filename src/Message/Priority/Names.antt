-- ===== src/Message/Priority/Names.antt =====
-- src/main.c: `ParseRuleFacility`, `ParseRuleLevel`, `GetRuleFacilityStr`, `GetRuleLevelStr` and
-- `FormatPri`, over the tables of names of the logging library.
use pmlogdaemon.Base.{
  ℕ, ◌-◌, ◌≡◌, ◌≢◌, sym, ap, ◌∙◌, Bool, true, false, Option, none, some, [], ◌∷◌, ◌++◌, arith,
  Bytes, codes, str_eq, str_eq_iff, if◌then◌else◌, take, Bool-cases, inl, inr,
}
use pmlogdaemon.Base.Int.{ℤ, pos, minus_one, eqb_ℤ, eqb_ℤ_iff}
use pmlogdaemon.Base.Strtol.{decimal}
use pmlogdaemon.Message.Priority.{fac_of, lvl_of}

-- The functions and names of the logging library that the daemon uses.
pub record PmLogLib : Type 0 where
  pub string_to_facility : Bytes → Option ℤ
  pub string_to_level : Bytes → Option ℤ
  pub facility_to_string : ℤ → Option Bytes
  pub level_to_string : ℤ → Option Bytes
  pub default_context_name : Bytes
  pub identifier : Bytes
  pub legacy_log : Bytes
  pub max_context_name_len : ℕ

-- The body that `ParseRuleFacility` and `ParseRuleLevel` share: whether the name is known, and the
-- number stored, -1 for `*` and for an unknown name.
abbrev parse_name : (Bytes → Option ℤ) → Bytes → Bool × ℤ
parse_name table s =
    if str_eq s (codes "*")
    then (true, minus_one)
    else elim (table s) [ some n ↦ (true, n) | none ↦ (false, minus_one) ]

abbrev print_name : (ℤ → Option Bytes) → ℤ → Option Bytes
print_name table n = if eqb_ℤ n minus_one then some (codes "*") else table n

module _ (lib : PmLogLib) where
  unfoldable pub parse_rule_facility : Bytes → Bool × ℤ
  parse_rule_facility s = parse_name lib.string_to_facility s

  unfoldable pub parse_rule_level : Bytes → Bool × ℤ
  parse_rule_level s = parse_name lib.string_to_level s

  unfoldable pub get_rule_facility_str : ℤ → Option Bytes
  get_rule_facility_str fac = print_name lib.facility_to_string fac

  unfoldable pub get_rule_level_str : ℤ → Option Bytes
  get_rule_level_str level = print_name lib.level_to_string level

  -- `FormatPri`, into a buffer of the given size.
  unfoldable pub format_pri : ℕ → ℕ → Bytes
  unfolding get_rule_facility_str get_rule_level_str
  format_pri size pri =
      let number : Bytes = b'<' ∷ (decimal pri ++ b'>' ∷ []) in
      take (size - 1) (elim (get_rule_facility_str (pos (fac_of pri))) [
        | none ↦ number
        | some fac ↦ elim (get_rule_level_str (pos (lvl_of pri))) [
          | none ↦ number
          | some lvl ↦ fac ++ (b'.' ∷ lvl)
        ]
      ])

-- What the daemon relies on of the tables: a name printed for a number is read as that number, and
-- is not the name `*` of "all".
pub record NamesAgree (lib : PmLogLib) : Type 0 where
  pub facility_back :
      (n : ℤ) (s : Bytes) → lib.facility_to_string n ≡ some s → lib.string_to_facility s ≡ some n
  pub level_back :
      (n : ℤ) (s : Bytes) → lib.level_to_string n ≡ some s → lib.string_to_level s ≡ some n
  pub facility_star : (n : ℤ) → lib.facility_to_string n ≢ some (codes "*")
  pub level_star : (n : ℤ) → lib.level_to_string n ≢ some (codes "*")

parse_name-print_name :
    (parse : Bytes → Option ℤ) (print : ℤ → Option Bytes)
    → ((n : ℤ) (s : Bytes) → print n ≡ some s → parse s ≡ some n)
    → ((n : ℤ) → print n ≢ some (codes "*"))
    → (n : ℤ) (s : Bytes) → print_name print n ≡ some s
    → parse_name parse s ≡ (true, n)
parse_name-print_name parse print back star n s e = elim (Bool-cases (eqb_ℤ n minus_one)) [
  | inl all ↦
      let is : n ≡ minus_one = (eqb_ℤ_iff n minus_one).0 all in
      let text : codes "*" ≡ s = ground arith in rw (← text) (ap (λ m. (true, m)) (sym is))
  | inr one ↦
      let named : print n ≡ some s = ground arith in
      elim (Bool-cases (str_eq s (codes "*"))) [
        | inl text ↦ absurd (star n (named ∙ ap some ((str_eq_iff s (codes "*")).0 text)))
        | inr other ↦ rw (other, parse_name, back n s named)
      ]
]

-- The name shown for a facility or a level of a rule, `*` included, is read back as it.
rule_names_back :
    (lib : PmLogLib)
    → NamesAgree lib
    → (n : ℤ) (s : Bytes)
    → (get_rule_facility_str lib n ≡ some s → parse_rule_facility lib s ≡ (true, n))
      × (get_rule_level_str lib n ≡ some s → parse_rule_level lib s ≡ (true, n))
unfolding get_rule_facility_str get_rule_level_str parse_rule_facility parse_rule_level
rule_names_back lib h n s = (
  parse_name-print_name lib.string_to_facility lib.facility_to_string h.facility_back
      h.facility_star n s,
  parse_name-print_name lib.string_to_level lib.level_to_string h.level_back h.level_star n s,
)
