-- ===== src/Config/Output.antt =====
-- src/config.c: `FindOutputByName`, `ConfIntValueOrDefault`, `ParseOutputInit` and `MakeOutputConf`.
-- `g_numOutputs` is the length of the table.
pub mod Laws
use pmlogdaemon.Base.{
  ℕ, zero, suc, ◌+◌, ◌-◌, Bool, true, false, not, ◌&&◌, Option, none, some, List, [], ◌∷◌, ◌++◌,
  Bytes, length, take, str_eq, leb, ◌==◌, if◌then◌else◌,
}
use pmlogdaemon.Base.Int.{ℤ, pos, minus_one, eqb_ℤ, ltb_ℤ}
use pmlogdaemon.Base.Outcome.{Outcome, done, overflow}
use pmlogdaemon.Conf.{
  LogFile, stdlog, max_num_outputs, output_max_name_length, default_log_size, min_log_size,
  max_log_size, default_log_rotations, min_num_rotations, max_num_rotations,
}

-- `PmLogParseOutput_t`. The name is what `strncpy` left in its 32 bytes; 32 bytes have no NUL.
pub record ParseOutput : Type 0 where
  pub name : Bytes
  pub file : Bytes
  pub max_size : ℤ
  pub rotations : ℤ

-- `FindOutputByName`, by the index that it stores; none stands for -1 and the null result.
unfoldable pub find_output_by_name : List LogFile → Bytes → Option ℕ
find_output_by_name [] name = none
find_output_by_name (o ∷ outputs) name =
    if str_eq o.output_name name
    then some 0
    else elim (find_output_by_name outputs name) [ none ↦ none | some i ↦ some (suc i) ]

-- `ConfIntValueOrDefault`
unfoldable pub conf_int_value_or_default : ℤ → ℤ → ℤ
conf_int_value_or_default n default_val = if eqb_ℤ n minus_one then default_val else n

abbrev zeroed : ParseOutput
zeroed = record { name = []; file = []; max_size = pos 0; rotations = pos 0 }

-- `ParseOutputInit`: with no output yet, only `stdlog` is accepted.
unfoldable pub parse_output_init : List LogFile → Bytes → Bool × ParseOutput
parse_output_init outputs name =
    if (length outputs == 0) && not (str_eq stdlog name) then (false, zeroed) else (
      true,
      record {
        name = take (output_max_name_length + 1) name;
        file = [];
        max_size = minus_one;
        rotations = minus_one;
      },
    )

abbrev limit : ℤ → ℕ → ℕ → ℕ → ℤ
limit n unset low high =
    if eqb_ℤ n minus_one
    then pos unset
    else if ltb_ℤ n (pos low)
    then pos low
    else if ltb_ℤ (pos high) n
    then pos high
    else n

-- The limits that `MakeOutputConf` puts on what was parsed. Rotations that are not set stay so in
-- the parsed output; the entry of the table gets their default.
unfoldable pub limit_parsed : ParseOutput → ParseOutput
limit_parsed p = record p {
  max_size = limit p.max_size default_log_size min_log_size max_log_size;
  rotations =
      if eqb_ℤ p.rotations minus_one
      then minus_one
      else limit p.rotations default_log_rotations min_num_rotations max_num_rotations;
}

-- The entry that it adds to the table.
unfoldable pub new_entry : ParseOutput → LogFile
new_entry p = record {
  output_name = p.name;
  path = p.file;
  max_size = p.max_size;
  rotations = if eqb_ℤ p.rotations minus_one then pos default_log_rotations else p.rotations;
}

-- `File[0] == '/'`
abbrev pub is_full_path : Bytes → Bool
is_full_path [] = false
is_full_path (c ∷ s) = c == b'/'

-- `MakeOutputConf`: its result, the table and the parsed output behind the call. A name of 32 bytes
-- is read past its array.
unfoldable pub make_output_conf :
    ParseOutput → List LogFile → Outcome (Bool × List LogFile × ParseOutput)
unfolding find_output_by_name limit_parsed new_entry
make_output_conf p outputs =
    if not (is_full_path p.file)
    then done (false, outputs, p)
    else if leb (output_max_name_length + 1) (length p.name)
    then overflow
    else elim (find_output_by_name outputs p.name) [
      | some i ↦ done (true, outputs, p)
      | none ↦
          if leb max_num_outputs (length outputs)
          then done (false, outputs, p)
          else done (true, outputs ++ new_entry p ∷ [], limit_parsed p)
    ]
