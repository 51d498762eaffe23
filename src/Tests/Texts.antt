-- ===== src/Tests/Texts.antt =====
-- Runs of the parsers of src/main.c and src/util.c.
use pmlogdaemon.Base.{
  ◌≡◌, ◌≢◌, ◌⊎◌, ◌≤◌, ◌<◌, ◌↔◌, refl, true, some, [], ◌∷◌, ◌++◌, suc, arith, Bytes, codes, length,
  replicate,
}
use pmlogdaemon.Base.Outcome.{done, overflow}
use pmlogdaemon.Base.Strtol.{decimal}
use pmlogdaemon.Message.Escape.{
  escape_line, escaped_all, AllPrintable, escape_line-AllPrintable, escape_line-front,
}
use pmlogdaemon.Message.PidTid.{parse_msg_pid_tid, Prefixed, parse_msg_pid_tid_iff}
use pmlogdaemon.Message.Priority.{
  parse_priority, fac_of, parse_priority_range, parse_priority-decimal, pmlogdaemon_log_kern,
}
use pmlogdaemon.Message.Program.{Program, c_str, parse_msg_program}
use pmlogdaemon.Message.Program.Laws.{parse_msg_program-name, parse_msg_program-overflow}
use pmlogdaemon.Message.Token.{parse_msg_context, parse_msg_context_word}
use pmlogdaemon.Util.KeyValue.{parse_key_value, Lacks, parse_key_value_iff}

abbrev tabbed : Bytes
tabbed = b'a' ∷ 9 ∷ b'b' ∷ 10 ∷ []

escape_tab : escape_line tabbed ≡ codes "a^Ib "
unfolding escape_line
escape_tab = refl

escape_line-AllPrintable_example :
    AllPrintable (escape_line tabbed) × (length (escape_line tabbed) ≤ 1024)
escape_line-AllPrintable_example = escape_line-AllPrintable tabbed

escape_line-front_example :
    (cut : Bytes) × (escape_line tabbed ++ cut ≡ escaped_all tabbed)
    × ((cut ≡ []) ⊎ (1024 ≤ suc (length (escape_line tabbed))))
escape_line-front_example = escape_line-front tabbed

parse_priority-decimal_example : parse_priority (codes "<131>text") ≡ (131, codes "text")
unfolding decimal
parse_priority-decimal_example = parse_priority-decimal 131 (codes "text") (omega arith)

parse_priority_range_example :
    ((parse_priority (codes "<999999>x")).0 < 1024)
    × (fac_of (parse_priority (codes "<999999>x")).0 ≢ pmlogdaemon_log_kern)
parse_priority_range_example = parse_priority_range (codes "<999999>x")

parse_msg_program-name_example :
    (p : Program) × (parse_msg_program (replicate 8 0) (replicate 4 0) (codes "cron: go")
      ≡ done (some p))
    × (p.next ≡ codes "go")
    × (c_str p.full ≡ codes "cron ")
    × (c_str p.name ≡ codes "cro")
    × (p.name_len ≡ 4)
parse_msg_program-name_example =
    parse_msg_program-name (replicate 8 0) (replicate 4 0) (codes "cron") (codes "go")
      (ground arith) (omega arith) (omega arith) (omega arith)

parse_msg_program-overflow_example :
    parse_msg_program (replicate 4 0) (replicate 4 0) (codes "cron: go") ≡ overflow
parse_msg_program-overflow_example =
    parse_msg_program-overflow (replicate 4 0) (replicate 4 0) (codes "cron") (codes "go")
      (ground arith) (omega arith) (omega arith) (omega arith) (omega arith)

parse_msg_pid_tid_iff_example :
    (parse_msg_pid_tid (codes "[12:7] hi") ≡ some (codes "hi"))
    ↔ Prefixed (codes "[12:7] hi") (codes "hi")
parse_msg_pid_tid_iff_example = parse_msg_pid_tid_iff (codes "[12:7] hi") (codes "hi")

parse_msg_context_word_example :
    (parse_msg_context 4 (codes "widget rest") ≡ done (some (codes " rest", codes "wid")))
    × (parse_msg_context 4 (codes "widget") ≡ overflow)
parse_msg_context_word_example =
    parse_msg_context_word 4 (codes "widget") (codes "rest") b' ' (ground arith) (omega arith)
      (omega arith) refl

parse_key_value_iff_example :
    (parse_key_value (codes "ab=c") 3 2
      ≡ record { ok = true; key = some (codes "ab"); value = some (codes "c") })
    ↔ ((codes "ab=c" ≡ codes "ab" ++ (b'=' ∷ codes "c"))
        × Lacks b'=' (codes "ab")
        × (0 < length (codes "ab"))
        × (length (codes "ab") < 3)
        × (length (codes "c") < 2))
parse_key_value_iff_example = parse_key_value_iff (codes "ab=c") 3 2 (codes "ab") (codes "c")
