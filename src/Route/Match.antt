-- ===== src/Route/Match.antt =====
-- What `MatchOutputRule` means.
use pmlogdaemon.Base.{
  ℕ, ◌≡◌, ◌≢◌, ◌⊎◌, ◌↔◌, inl, inr, refl, sym, ap, Bool, true, false, Option, none, some, arith,
  Bytes, str_eq_iff, not, ◌&&◌, zero, suc, if◌then◌else◌,
}
use pmlogdaemon.Base.Int.{ℤ, pos, negsuc, minus_one, ◌≤ℤ◌, eqb_ℤ, eqb_ℤ_iff, leb_ℤ, ltb_ℤ}
use pmlogdaemon.Conf.{Rule}
use pmlogdaemon.Message.Priority.{fac_of, lvl_of}
use pmlogdaemon.Route.{match_program, match_output_rule}

-- A rule covers a message: its facility is all or that of the message; its level is all, or not
-- less urgent than that of the message, or, inverted, more urgent than it; and its program is all
-- or that of the message. An inverted "all" covers nothing.
pub record Covers (rule : Rule) (pri : ℕ) (program : Option Bytes) : Type 0 where
  pub facility_in : (rule.facility ≡ minus_one) ⊎ (rule.facility ≡ pos (fac_of pri))
  pub level_in :
      ((rule.level ≡ minus_one) × (rule.level_invert ≡ false))
      ⊎ ((rule.level ≢ minus_one) × (rule.level_invert ≡ false) × (pos (lvl_of pri) ≤ℤ rule.level))
      ⊎ ((rule.level ≢ minus_one)
          × (rule.level_invert ≡ true)
          × (¬ (pos (lvl_of pri) ≤ℤ rule.level)))
  pub program_in :
      (rule.program ≡ none) ⊎ ((p : Bytes) × (rule.program ≡ some p) × (program ≡ some p))

match_program_iff :
    (p name : Option Bytes)
    → (match_program p name ≡ true) ↔ ((p ≡ none) ⊎ ((q : Bytes) × (p ≡ some q) × (name ≡ some q)))
unfolding match_program
match_program_iff none name = (λ _. inl refl, λ _. refl)
match_program_iff (some p) none = (λ h. cc, λ h. elim h [ inl e ↦ cc | inr (q, e, d) ↦ cc ])
match_program_iff (some p) (some n) = (
  λ h. inr (p, refl, ap some (sym ((str_eq_iff p n).0 h))),
  λ h. elim h [ inl e ↦ cc | inr (q, e, d) ↦ let same : p ≡ n = cc in (str_eq_iff p n).1 same ],
)

-- The tests of the code, each against its part of `Covers`.
facility_iff :
    (f g : ℤ) → ((not (eqb_ℤ f minus_one) && not (eqb_ℤ f g)) ≡ false) ↔ ((f ≡ minus_one) ⊎ (f ≡ g))
facility_iff f g = (
  λ h. ground (arith, eqb_ℤ_iff f minus_one, eqb_ℤ_iff f g),
  λ h. ground (arith, eqb_ℤ_iff f minus_one, eqb_ℤ_iff f g),
)

abbrev LevelIn : ℤ → Bool → ℕ → Type 0
LevelIn level invert lvl =
    ((level ≡ minus_one) × (invert ≡ false))
    ⊎ ((level ≢ minus_one) × (invert ≡ false) × (pos lvl ≤ℤ level))
    ⊎ ((level ≢ minus_one) × (invert ≡ true) × (¬ (pos lvl ≤ℤ level)))

abbrev level_fails : ℤ → Bool → ℕ → Bool
level_fails level invert lvl =
    if eqb_ℤ level minus_one
    then invert
    else if invert
    then leb_ℤ (pos lvl) level
    else ltb_ℤ level (pos lvl)

level_sound :
    (level : ℤ) (invert : Bool) (lvl : ℕ)
    → level_fails level invert lvl ≡ false
    → LevelIn level invert lvl
level_sound (pos n) true lvl h = inr (inr (λ e. cc, refl, ground arith))
level_sound (pos n) false lvl h = inr (inl (λ e. cc, refl, ground arith))
level_sound (negsuc zero) true lvl h = absurd (ground arith)
level_sound (negsuc zero) false lvl h = inl (refl, refl)
level_sound (negsuc (suc n)) true lvl h = inr (inr (λ e. ground arith, refl, ground arith))
level_sound (negsuc (suc n)) false lvl h = absurd (ground arith)

level_complete :
    (level : ℤ) (invert : Bool) (lvl : ℕ)
    → LevelIn level invert lvl
    → level_fails level invert lvl ≡ false
level_complete level invert lvl h = ground (arith, eqb_ℤ_iff level minus_one)

-- `MatchOutputRule` is true exactly of the messages that the rule covers.
pub match_output_rule_iff :
    (rule : Rule) (pri : ℕ) (program : Option Bytes)
    → (match_output_rule rule pri program ≡ true) ↔ Covers rule pri program
unfolding match_output_rule
match_output_rule_iff rule pri program = (sound, complete)
  where
    sound : match_output_rule rule pri program ≡ true → Covers rule pri program
    sound h = record {
      facility_in = (facility_iff rule.facility (pos (fac_of pri))).0 (ground arith);
      level_in = level_sound rule.level rule.level_invert (lvl_of pri) (ground arith);
      program_in = (match_program_iff rule.program program).0 (ground arith);
    }

    complete : Covers rule pri program → match_output_rule rule pri program ≡ true
    complete c =
        let f = (facility_iff rule.facility (pos (fac_of pri))).1 c.facility_in in
        let l = level_complete rule.level rule.level_invert (lvl_of pri) c.level_in in
        let p = (match_program_iff rule.program program).1 c.program_in in rw (f, l) p
