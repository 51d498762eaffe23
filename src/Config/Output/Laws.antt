-- ===== src/Config/Output/Laws.antt =====
-- The table of outputs under `MakeOutputConf`.
use pmlogdaemon.Base.{
  ℕ, zero, suc, ◌≤◌, ◌<◌, ◌≡◌, ◌⊎◌, inl, inr, refl, sym, ap, ◌∙◌, true, false, none, some, arith,
  List, [], ◌∷◌, ◌++◌, append-nil, Bytes, length, get_elem?, str_eq, str_eq_iff, str_eq_same,
  str_eq_flip, if◌then◌else◌, Bool-cases, Option-cases, length-append,
}
use pmlogdaemon.Base.Outcome.{done}
use pmlogdaemon.Conf.{LogFile, max_num_outputs}
use pmlogdaemon.Config.Output.{ParseOutput, find_output_by_name, new_entry, make_output_conf}

-- No two outputs have one name.
abbrev pub Distinct : List LogFile → Type 0
Distinct [] = Unit
Distinct (o ∷ outputs) = (find_output_by_name outputs o.output_name ≡ none) × Distinct outputs

-- A table that `MakeOutputConf` has filled.
pub record IsTable (outputs : List LogFile) : Type 0 where
  pub distinct : Distinct outputs
  pub bounded : length outputs ≤ max_num_outputs

-- A name that is found stands in the table at the index found.
find_output_by_name_sound :
    (outputs : List LogFile) (name : Bytes) {i : ℕ}
    → find_output_by_name outputs name ≡ some i
    → (o : LogFile) × (get_elem? outputs i ≡ some o) × (o.output_name ≡ name)
unfolding find_output_by_name
find_output_by_name_sound [] name e = cc
find_output_by_name_sound (o ∷ outputs) name {i = zero} e =
    elim (Bool-cases (str_eq o.output_name name)) [
      | inl same ↦ (o, refl, (str_eq_iff o.output_name name).0 same)
      | inr other ↦ absurd (ground arith)
    ]
find_output_by_name_sound (o ∷ outputs) name {i = suc i} e =
    find_output_by_name_sound outputs name (ground arith)

find-append :
    (outputs : List LogFile) (o : LogFile) (name : Bytes)
    → find_output_by_name outputs name ≡ none
    → find_output_by_name (outputs ++ o ∷ []) name
      ≡ (if str_eq o.output_name name then some (length outputs) else none)
unfolding find_output_by_name
find-append [] o name h = ground arith
find-append (p ∷ outputs) o name h = ground (arith, find-append outputs o name)

Distinct-append :
    (outputs : List LogFile) (o : LogFile)
    → Distinct outputs
    → find_output_by_name outputs o.output_name ≡ none
    → Distinct (outputs ++ o ∷ [])
unfolding find_output_by_name
Distinct-append [] o d h = (refl, tt)
Distinct-append (p ∷ outputs) o d h =
    let apart : str_eq p.output_name o.output_name ≡ false = ground arith in
    let later : find_output_by_name outputs o.output_name ≡ none = ground arith in
    (
      find-append outputs o p.output_name d.0
          ∙ rw (str_eq_flip p.output_name o.output_name apart) refl,
      Distinct-append outputs o d.1 later,
    )

-- What a call that succeeds has done.
pub record Made (p : ParseOutput) (outputs after : List LogFile) : Type 0 where
  pub table : IsTable after
  pub added : List LogFile
  pub keeps : after ≡ outputs ++ added
  pub index : ℕ
  pub found : find_output_by_name after p.name ≡ some index
  pub entry : (added ≡ []) ⊎ ((added ≡ new_entry p ∷ []) × (index ≡ length outputs))

-- A call that succeeds keeps every output at its index, and the name is then found: at its old
-- index, or at a new one with what was parsed. Names stay distinct and outputs at most 128.
pub make_output_conf-Made :
    (p p' : ParseOutput) (outputs after : List LogFile)
    → IsTable outputs
    → make_output_conf p outputs ≡ done (true, after, p')
    → Made p outputs after
unfolding make_output_conf
make_output_conf-Made p p' outputs after t e =
    elim (Option-cases (find_output_by_name outputs p.name)) [
      | inr (i, old) ↦
          let same : outputs ≡ after = ground arith in
          record {
            table = rw (← same) t;
            added = [];
            keeps = sym same ∙ sym (append-nil outputs);
            index = i;
            found = ap (λ t. find_output_by_name t p.name) (sym same) ∙ old;
            entry = inl refl;
          }
      | inl new ↦
          let is : outputs ++ new_entry p ∷ [] ≡ after = ground arith in
          let room : length outputs < max_num_outputs = ground arith in
          record {
            table = rw (← is) (record {
              distinct = Distinct-append outputs (new_entry p) t.distinct new;
              bounded = omega (arith, length-append outputs (new_entry p ∷ []));
            });
            added = new_entry p ∷ [];
            keeps = sym is;
            index = length outputs;
            found =
                ap (λ t. find_output_by_name t p.name) (sym is)
                ∙ find-append outputs (new_entry p) p.name new
                ∙ rw (str_eq_same p.name) refl;
            entry = inr (refl, refl);
          }
    ]

-- A call that fails leaves the table alone, whatever was parsed.
pub make_output_conf-false :
    (p p' : ParseOutput) (outputs after : List LogFile)
    → make_output_conf p outputs ≡ done (false, after, p')
    → (after ≡ outputs) × (p' ≡ p)
unfolding make_output_conf
make_output_conf-false p p' outputs after e =
    elim (Option-cases (find_output_by_name outputs p.name)) [
      | inr (i, old) ↦ ground arith
      | inl new ↦ ground arith
    ]
