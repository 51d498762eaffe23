-- ===== src/Route/Wanted.antt =====
-- Which outputs the rules of a context choose.
use pmlogdaemon.Base.{
  ℕ, zero, suc, ◌<◌, ◌≡◌, inl, inr, refl, ap, ◌∙◌, Bool, false, not, ◌&&◌, Option, arith, List, [],
  ◌∷◌, Bytes, length, get_or, set, replicate, ◌==◌, if◌then◌else◌, Bool-cases, length-set,
  length-replicate, lt→ltb,
}
use pmlogdaemon.Base.Int.{pos, eqb_ℤ}
use pmlogdaemon.Base.Outcome.{done}
use pmlogdaemon.Conf.{Rule}
use pmlogdaemon.Route.{match_output_rule, output_of, apply_rules, want_outputs}

-- Every rule names one of `n` outputs.
abbrev pub AllNamed : ℕ → List Rule → Type 0
AllNamed n [] = Unit
AllNamed n (r ∷ rules) = ((i : ℕ) × (r.output_index ≡ pos i) × (i < n)) × AllNamed n rules

-- The last rule that covers the message and names output `i` decides: wanted unless it omits the
-- output. With no such rule, what `before` says.
abbrev pub decide_last : ℕ → Option Bytes → ℕ → Bool → List Rule → Bool
decide_last pri program i before [] = before
decide_last pri program i before (r ∷ rules) =
    decide_last pri program i
      (if match_output_rule r pri program && eqb_ℤ r.output_index (pos i)
        then not r.omit_output
        else before)
      rules

get_or-set :
    (xs : List Bool) (i j : ℕ) (v d : Bool)
    → i < length xs
    → get_or (set xs i v) j d ≡ (if i == j then v else get_or xs j d)
get_or-set [] i j v d h = absurd (omega arith)
get_or-set (x ∷ xs) zero zero v d h = refl
get_or-set (x ∷ xs) zero (suc j) v d h = ground arith
get_or-set (x ∷ xs) (suc i) zero v d h = ground arith
get_or-set (x ∷ xs) (suc i) (suc j) v d h = ground (arith, get_or-set xs i j v d)

output_of-named : (n i : ℕ) → i < n → output_of n (pos i) ≡ done i
unfolding output_of
output_of-named n i h = rw (lt→ltb i n h)

-- What the loop over the rules makes of `want`.
record Applied (pri : ℕ) (program : Option Bytes) (rules : List Rule) (want : List Bool)
    : Type 0 where
  after : List Bool
  returns : apply_rules pri program rules want ≡ done after
  size : length after ≡ length want
  decides : (i : ℕ) → get_or after i false ≡ decide_last pri program i (get_or want i false) rules

apply_rules-Applied :
    (pri : ℕ) (program : Option Bytes) (rules : List Rule) (want : List Bool)
    → AllNamed (length want) rules
    → Applied pri program rules want
unfolding apply_rules
apply_rules-Applied pri program [] want h = record {
  after = want;
  returns = refl;
  size = refl;
  decides = λ i. refl;
}
apply_rules-Applied pri program (r ∷ rules) want ((k, named, inside), h) =
    elim (Bool-cases (match_output_rule r pri program)) [
      | inl yes_match ↦
          let want' : List Bool = set want k (not r.omit_output) in
          let same : length want' ≡ length want = length-set want k (not r.omit_output) in
          let a = apply_rules-Applied pri program rules want' (rw same h) in
          record {
            after = a.after;
            returns = rw (yes_match, named, output_of-named (length want) k inside) a.returns;
            size = a.size ∙ same;
            decides = λ i.
                a.decides i
                ∙ ap (λ b. decide_last pri program i b rules)
                    (get_or-set want k i (not r.omit_output) false inside
                      ∙ rw (yes_match, named) (ground arith));
          }
      | inr no_match ↦
          let a = apply_rules-Applied pri program rules want h in
          record {
            after = a.after;
            returns = rw no_match a.returns;
            size = a.size;
            decides = λ i. a.decides i ∙ rw no_match refl;
          }
    ]

get_or-replicate : (n i : ℕ) → get_or (replicate n false) i false ≡ false
get_or-replicate zero i = refl
get_or-replicate (suc n) zero = refl
get_or-replicate (suc n) (suc i) = get_or-replicate n i

-- With rules that name outputs at hand, no assertion fails, and an output is wanted exactly when
-- the last rule that covers the message and names it does not omit it.
pub want_outputs_last :
    (n pri : ℕ) (program : Option Bytes) (rules : List Rule)
    → AllNamed n rules
    → (want : List Bool) × (want_outputs n pri program rules ≡ done want)
      × (length want ≡ n)
      × ((i : ℕ) → get_or want i false ≡ decide_last pri program i false rules)
unfolding want_outputs
want_outputs_last n pri program rules h =
    let size : length {A = Bool} (replicate n false) ≡ n = length-replicate n false in
    let a = apply_rules-Applied pri program rules (replicate n false) (rw size h) in
    (
      a.after,
      a.returns,
      a.size ∙ size,
      λ i. a.decides i ∙ ap (λ b. decide_last pri program i b rules) (get_or-replicate n i),
    )
