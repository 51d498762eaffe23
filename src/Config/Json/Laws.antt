-- ===== src/Config/Json/Laws.antt =====
-- What reading a configuration file makes of the tables.
use pmlogdaemon.Base.{
  ◌+◌, ◌≤◌, ◌≡◌, inl, inr, refl, sym, ap, subst, ◌∙◌, Bool, true, false, not, ◌&&◌, Option, none,
  some, arith, List, [], ◌∷◌, ◌++◌, append-nil, append_assoc, Bytes, codes, length, leb, Bool-cases,
  Option-cases, length-append, length-take, lt→leb_false,
}
use pmlogdaemon.Base.GTree.{GTree}
use pmlogdaemon.Base.Outcome.{done}
use pmlogdaemon.Conf.{LogFile, ContextConf, output_max_name_length, max_num_outputs}
use pmlogdaemon.Config.Context.{Config, set_default_conf}
use pmlogdaemon.Config.Context.Laws.{IsConfig, AllNamed-mono}
use pmlogdaemon.Config.Context.Made.{set_default_conf-IsConfig}
use pmlogdaemon.Config.Json.{Json, Round, is_default_conf}
use pmlogdaemon.Config.Json.Outputs.{
  read_name, read_file, read_rotations, parsed_output, output_round, outputs_loop, read_outputs,
  parse_json_outputs,
}
use pmlogdaemon.Config.Output.{
  ParseOutput, parse_output_init, is_full_path, find_output_by_name, make_output_conf, new_entry,
  limit_parsed,
}
use pmlogdaemon.Config.Output.Laws.{IsTable, make_output_conf-Made, make_output_conf-false}
use pmlogdaemon.Message.Priority.Names.{PmLogLib}

-- A table that extends another: every output keeps its index.
pub record Extends (outputs after : List LogFile) : Type 0 where
  pub table : IsTable after
  pub added : List LogFile
  pub keeps : after ≡ outputs ++ added

Extends-refl : {outputs : List LogFile} → IsTable outputs → Extends outputs outputs
Extends-refl {outputs} t = record { table = t; added = []; keeps = sym (append-nil outputs) }

Extends-trans : {a b c : List LogFile} → Extends a b → Extends b c → Extends a c
Extends-trans {a} x y = record {
  table = y.table;
  added = x.added ++ y.added;
  keeps = y.keeps ∙ ap (λ t. t ++ y.added) x.keeps ∙ append_assoc a x.added y.added;
}

make_output_conf-returns :
    (p : ParseOutput) (outputs : List LogFile)
    → length p.name ≤ output_max_name_length
    → (ok : Bool) × (after : List LogFile) × (p' : ParseOutput) × (make_output_conf p outputs
        ≡ done (ok, after, p'))
unfolding make_output_conf
make_output_conf-returns p outputs short =
    let fits : leb (output_max_name_length + 1) (length p.name) ≡ false =
      lt→leb_false _ _ (omega arith) in
    elim (Bool-cases (is_full_path p.file)) [
      | inr relative ↦ (false, outputs, p, rw relative)
      | inl full ↦ elim (Option-cases (find_output_by_name outputs p.name)) [
        | inr (i, old) ↦ (true, outputs, p, rw (full, fits, old))
        | inl new ↦ elim (Bool-cases (leb max_num_outputs (length outputs))) [
          | inl many ↦ (false, outputs, p, rw (full, fits, new, many))
          | inr few ↦ (true, outputs ++ new_entry p ∷ [], limit_parsed p, rw (full, fits, new, few))
        ]
      ]
    ]

made-Extends :
    (ok : Bool) (p p' : ParseOutput) (outputs after : List LogFile)
    → IsTable outputs
    → make_output_conf p outputs ≡ done (ok, after, p')
    → Extends outputs after
made-Extends true p p' outputs after t e =
    let m = make_output_conf-Made p p' outputs after t e in
    record { table = m.table; added = m.added; keeps = m.keeps }
made-Extends false p p' outputs after t e =
    rw ((make_output_conf-false p p' outputs after e).0) (Extends-refl t)

length-Extends : {a b : List LogFile} → Extends a b → length a ≤ length b
length-Extends {a} x = omega (arith, ap length x.keeps, length-append a x.added)

module _ (j : Json) where
  -- Every name in the entries fits its array.
  abbrev pub ShortNames : List j.Value → Type 0
  ShortNames [] = Unit
  ShortNames (e ∷ es) =
      ((s : Bytes) → read_name j e ≡ some s → length s ≤ output_max_name_length) × ShortNames es

  parsed_output-short :
      (e : j.Value) (outputs : List LogFile) (name file : Bytes)
      → length name ≤ output_max_name_length
      → length (parsed_output j e outputs name file).name ≤ output_max_name_length
  unfolding parsed_output parse_output_init
  parsed_output-short e outputs name file h =
      ground (arith, length-take (output_max_name_length + 1) name)

  output_round-Extends :
      (e : j.Value) (ret : Bool) (outputs : List LogFile)
      → IsTable outputs
      → ((s : Bytes) → read_name j e ≡ some s → length s ≤ output_max_name_length)
      → (r : Round (List LogFile)) × (output_round j e ret outputs ≡ done r)
        × Extends outputs r.state
  unfolding output_round
  output_round-Extends e ret outputs t short = elim (Bool-cases (j.is_null e)) [
    | inl null ↦ (record { on = true; ret = ret; state = outputs }, rw null refl, Extends-refl t)
    | inr here ↦ elim (Option-cases (read_name j e)) [
      | inl nameless ↦ (
        record { on = true; ret = false; state = outputs },
        rw (here, nameless) refl,
        Extends-refl t,
      )
      | inr (name, named) ↦ elim (Option-cases (read_file j e)) [
        | inl fileless ↦ (
          record { on = true; ret = false; state = outputs },
          rw (here, named, fileless) refl,
          Extends-refl t,
        )
        | inr (file, filed) ↦
            let p = parsed_output j e outputs name file in
            let (ok, after, p', made) =
              make_output_conf-returns p outputs
                (parsed_output-short e outputs name file (short name named)) in
            (
              record {
                on = (read_rotations j e).0 && ok;
                ret = (read_rotations j e).0 && ok;
                state = after;
              },
              rw (here, named, filed, made) refl,
              made-Extends ok p p' outputs after t made,
            )
      ]
    ]
  ]

  outputs_loop-Extends :
      (es : List j.Value) (ret : Bool) (outputs : List LogFile)
      → IsTable outputs
      → ShortNames es
      → (ret' : Bool) × (after : List LogFile) × (outputs_loop j es ret outputs
          ≡ done (ret', after))
        × Extends outputs after
  unfolding outputs_loop
  outputs_loop-Extends [] ret outputs t h = (ret, outputs, refl, Extends-refl t)
  outputs_loop-Extends (e ∷ es) ret outputs t h =
      let (r, made, x) = output_round-Extends e ret outputs t h.0 in
      elim (Bool-cases r.on) [
        | inl on ↦
            let (ret', after, e', y) = outputs_loop-Extends es r.ret r.state x.table h.1 in
            (ret', after, rw (made, on) e', Extends-trans x y)
        | inr off ↦ (r.ret, r.state, rw (made, off) refl, x)
      ]

  abbrev pub ArrayFits : Option j.Value → Type 0
  ArrayFits none = Unit
  ArrayFits (some array) = ShortNames (j.elements array)

  -- The names in the array "outputs" of a document fit.
  abbrev pub DocumentFits : Option j.Value → Type 0
  DocumentFits none = Unit
  DocumentFits (some v) = ArrayFits (j.get_exists v (codes "outputs"))

  module _ (g : GTree ContextConf) where
    with_outputs-IsConfig :
        (c : Config g) (after : List LogFile)
        → IsConfig g c
        → Extends c.outputs after
        → IsConfig g (record c { outputs = after })
    with_outputs-IsConfig c after h x = record {
      table = x.table;
      contexts_ok = λ name conf e.
          let old = h.contexts_ok name conf e in
          record {
            named = AllNamed-mono _ _ conf.rules (length-Extends x) old.named;
            few = old.few;
            ring = old.ring;
          };
    }

    read_outputs-IsConfig :
        (parsed : Option j.Value) (c : Config g)
        → IsConfig g c
        → DocumentFits parsed
        → (ret : Bool) × (after : List LogFile) × (read_outputs j g parsed c
            ≡ done (ret, record c { outputs = after }))
          × IsConfig g (record c { outputs = after })
    unfolding read_outputs
    read_outputs-IsConfig none c h fit = (false, c.outputs, refl, h)
    read_outputs-IsConfig (some v) c h fit =
        elim (Option-cases (j.get_exists v (codes "outputs"))) [
          | inl e ↦ (false, c.outputs, rw (read_outputs, e) refl, h)
          | inr (array, e) ↦
              let short : ArrayFits (some array) = subst ArrayFits e fit in
              let (ret, after, run, x) =
                outputs_loop-Extends (j.elements array) true c.outputs h.table short in
              (ret, after, rw (read_outputs, e, run) refl, with_outputs-IsConfig c after h x)
        ]

    -- `ParseJsonOutputs` always returns on a document whose names fit, whatever else the document
    -- holds, and the configuration it leaves is one that the daemon can run with if the
    -- configuration before it was.
    pub parse_json_outputs-IsConfig :
        (lib : PmLogLib) (log_dir file_name : Bytes) (parsed : Option j.Value) (c : Config g)
        → IsConfig g c
        → DocumentFits parsed
        → (ret : Bool) × (c' : Config g) × (parse_json_outputs j g lib log_dir file_name parsed c
            ≡ done (ret, c'))
          × IsConfig g c'
    unfolding parse_json_outputs
    parse_json_outputs-IsConfig lib log_dir file_name parsed c h fit =
        let (ret, after, e, h') = read_outputs-IsConfig parsed c h fit in
        let c₁ = record c { outputs = after } in
        elim (Bool-cases (is_default_conf file_name && not ret)) [
          | inl replaced ↦ (
            ret,
            set_default_conf g lib log_dir c₁,
            rw (e, replaced) refl,
            (set_default_conf-IsConfig g lib log_dir c₁).2,
          )
          | inr kept ↦ (ret, c₁, rw (e, kept) refl, h')
        ]
