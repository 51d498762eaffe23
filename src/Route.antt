-- ===== src/Route.antt =====
-- src/main.c: `MatchOutputRule` and `OutputMessage`, which files a message goes to.
pub mod Match
pub mod Wanted
use pmlogdaemon.Base.{
  ℕ, zero, suc, ◌+◌, Bool, true, false, not, ◌&&◌, Option, none, some, List, [], ◌∷◌, Bytes, length,
  set, replicate, str_eq, ltb, ◌==◌, if◌then◌else◌,
}
use pmlogdaemon.Base.Int.{ℤ, pos, negsuc, minus_one, eqb_ℤ, leb_ℤ, ltb_ℤ}
use pmlogdaemon.Base.Outcome.{Outcome, done, aborted, ◌>>=◌}
use pmlogdaemon.Conf.{Rule, ContextConf}
use pmlogdaemon.Message.Priority.{fac_of, lvl_of}

-- The test on the program of a rule.
unfoldable pub match_program : Option Bytes → Option Bytes → Bool
match_program none name = true
match_program (some program) none = false
match_program (some program) (some name) = str_eq program name

-- `MatchOutputRule`. A smaller number is a higher priority.
unfoldable pub match_output_rule : Rule → ℕ → Option Bytes → Bool
unfolding match_program
match_output_rule rule pri program_name =
    if not (eqb_ℤ rule.facility minus_one) && not (eqb_ℤ rule.facility (pos (fac_of pri)))
    then false
    else if (if eqb_ℤ rule.level minus_one
        then rule.level_invert
        else if rule.level_invert
        then leb_ℤ (pos (lvl_of pri)) rule.level
        else ltb_ℤ rule.level (pos (lvl_of pri)))
    then false
    else match_program rule.program program_name

-- The two assertions on the index of a rule that matches, for `n` outputs.
unfoldable pub output_of : ℕ → ℤ → Outcome ℕ
output_of n (pos i) = if ltb i n then done i else aborted
output_of n (negsuc i) = aborted

-- "determine which outputs to target based on the context rules"
unfoldable pub apply_rules : ℕ → Option Bytes → List Rule → List Bool → Outcome (List Bool)
unfolding match_output_rule output_of
apply_rules pri program [] want = done want
apply_rules pri program (r ∷ rules) want =
    if match_output_rule r pri program
    then (do
      i ← output_of (length want) r.output_index
      apply_rules pri program rules (set want i (not r.omit_output)))
    else apply_rules pri program rules want

unfoldable pub want_outputs : ℕ → ℕ → Option Bytes → List Rule → Outcome (List Bool)
unfolding apply_rules
want_outputs num_outputs pri program rules =
    apply_rules pri program rules (replicate num_outputs false)

-- The files as `OutputMessage` sees them: a write to the file of an output returns 0 or an error
-- number, and a full disk is cleared by a task for the heavy operation thread and at once.
pub record Files (S : Type 0) : Type 0 where
  pub write_to_log_file : ℕ → Bytes → S → ℕ × S
  pub add_free_task : S → S
  pub free_disk_space : S → S

-- `ENOSPC`
abbrev pub enospc : ℕ
enospc = 28

module _ {S : Type 0} (files : Files S) where
  -- "output to the specified targets", from output `i` on
  unfoldable pub write_wanted : Bytes → ℕ → List Bool → S → S
  write_wanted msg i [] s = s
  write_wanted msg i (wanted ∷ want) s =
      let (err, written) = files.write_to_log_file i msg s in
      let cleared = files.free_disk_space (files.add_free_task written) in
      write_wanted msg (i + 1) want
        (if wanted then (if err == enospc then cleared else written) else s)

  -- `OutputMessage`; none stands for the null context.
  unfoldable pub output_message : ℕ → Option ContextConf → ℕ → Option Bytes → Bytes → S → Outcome S
  unfolding want_outputs write_wanted
  output_message num_outputs none pri program msg s = done s
  output_message num_outputs (some conf) pri program msg s = do
    want ← want_outputs num_outputs pri program conf.rules
    done (write_wanted msg 0 want s)
