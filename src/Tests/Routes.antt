-- ===== src/Tests/Routes.antt =====
-- Runs of the choice of outputs in src/main.c.
use pmlogdaemon.Base.{
  ℕ, ◌≡◌, ◌↔◌, refl, sym, ap, inl, inr, Bool-cases, ◌≢◌, Bool, true, false, none, some, List, [],
  ◌∷◌, arith, Bytes, codes, length, get_or, str_eq, str_eq_iff, if◌then◌else◌,
}
use pmlogdaemon.Base.Int.{ℤ, pos, eqb_ℤ, eqb_ℤ_iff, minus_one}
use pmlogdaemon.Base.Outcome.{done}
use pmlogdaemon.Conf.{Rule}
use pmlogdaemon.Message.Priority.Names.{PmLogLib, NamesAgree}
use pmlogdaemon.Route.{match_output_rule, want_outputs}
use pmlogdaemon.Route.Match.{Covers, match_output_rule_iff}
use pmlogdaemon.Route.Wanted.{decide_last, want_outputs_last}

-- A logging library with one facility and one level.
abbrev pub lib : PmLogLib
lib = record {
  string_to_facility = λ s. if str_eq s (codes "user") then some (pos 8) else none;
  string_to_level = λ s. if str_eq s (codes "err") then some (pos 3) else none;
  facility_to_string = λ n. if eqb_ℤ n (pos 8) then some (codes "user") else none;
  level_to_string = λ n. if eqb_ℤ n (pos 3) then some (codes "err") else none;
  default_context_name = codes "<global>";
  identifier = codes "PmLog";
  legacy_log = codes "LEGACY_LOG";
  max_context_name_len = 31;
}

-- Everything to output 0, errors of `user` to output 1, and nothing of `cron` to output 0.
abbrev everything : Rule
everything = record {
  facility = minus_one;
  level = minus_one;
  level_invert = false;
  program = none;
  output_index = pos 0;
  omit_output = false;
}

abbrev errors : Rule
errors = record everything { facility = pos 8; level = pos 3; output_index = pos 1 }

abbrev no_cron : Rule
no_cron = record everything { program = some (codes "cron"); omit_output = true }

want_cron :
    want_outputs 2 11 (some (codes "cron")) (everything ∷ errors ∷ no_cron ∷ [])
    ≡ done (false ∷ true ∷ [])
unfolding want_outputs
want_cron = refl

want_outputs_last_example :
    (want : List Bool) × (want_outputs 2 11
        (some (codes "cron"))
        (everything ∷ errors ∷ no_cron ∷ [])
      ≡ done want)
    × (length want ≡ 2)
    × ((i : ℕ)
        → get_or want i false
          ≡ decide_last 11 (some (codes "cron")) i false (everything ∷ errors ∷ no_cron ∷ []))
want_outputs_last_example =
    want_outputs_last 2 11 (some (codes "cron")) (everything ∷ errors ∷ no_cron ∷ [])
      ((0, refl, omega arith), ((1, refl, omega arith), ((0, refl, omega arith), tt)))

match_output_rule_iff_example : (match_output_rule errors 11 none ≡ true) ↔ Covers errors 11 none
match_output_rule_iff_example = match_output_rule_iff errors 11 none

one_name :
    (m n : ℤ) (t s : Bytes)
    → (if eqb_ℤ n m then some t else none) ≡ some s
    → (if str_eq s t then some m else none) ≡ some n
one_name m n t s e = elim (Bool-cases (eqb_ℤ n m)) [
  | inl same ↦
      let is : t ≡ s = ground arith in
      let number : n ≡ m = (eqb_ℤ_iff n m).0 same in
      rw ((str_eq_iff s t).1 (sym is)) (ap some (sym number))
  | inr other ↦ absurd (ground arith)
]

one_name-star :
    (m n : ℤ) (t : Bytes) → t ≢ codes "*" → (if eqb_ℤ n m then some t else none) ≢ some (codes "*")
one_name-star m n t ne = ground arith

lib-NamesAgree : NamesAgree lib
lib-NamesAgree = record {
  facility_back = λ n s e. one_name (pos 8) n (codes "user") s e;
  level_back = λ n s e. one_name (pos 3) n (codes "err") s e;
  facility_star = λ n. one_name-star (pos 8) n (codes "user") (ground arith);
  level_star = λ n. one_name-star (pos 3) n (codes "err") (ground arith);
}
