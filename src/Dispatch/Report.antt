-- ===== src/Dispatch/Report.antt =====
-- src/main.c: the reports that `LogMessage` leaves to the heavy operation thread in a build with
-- RDX_LOG_REPORTING, and the cause that `RdxLogReport` gives.
use pmlogdaemon.Base.{
  ℕ, Bool, true, false, List, [], ◌∷◌, Bytes, codes, leb, str_eq, ◌==◌, if◌then◌else◌,
}
use pmlogdaemon.Message.Priority.{lvl_of}

-- `LOG_CRIT`
abbrev pub log_crit : ℕ
log_crit = 2

-- The programs that are not reported.
abbrev pub black_list : List Bytes
black_list = codes "rdxd" ∷ (codes "uploadd" ∷ (codes "pmsyslogd" ∷ (codes "upstart" ∷ [])))

unfoldable pub is_black_listed : List Bytes → Bytes → Bool
is_black_listed [] program = false
is_black_listed (name ∷ names) program =
    if str_eq name program then true else is_black_listed names program

-- The end of `LogMessage`, with the call that adds the task.
unfoldable pub report_critical {ℓ} :
    {S : Type ℓ} → (ℕ → Bytes → Bytes → S → S) → ℕ → Bytes → Bytes → S → S
unfolding is_black_listed
report_critical add pri program msg s =
    if leb (lvl_of pri) log_crit
    then if is_black_listed black_list program then s else add pri program msg s
    else s

-- The `switch` of `RdxLogReport`.
unfoldable pub level_cause : ℕ → Bytes
level_cause pri =
    let level = lvl_of pri in
    if level == 0
    then codes "LOG_EMERG"
    else if level == 1
    then codes "LOG_ALERT"
    else if level == 2
    then codes "LOG_CRIT"
    else if level == 3
    then codes "LOG_ERR"
    else if level == 4
    then codes "LOG_WARNING"
    else if level == 5
    then codes "LOG_NOTICE"
    else if level == 6
    then codes "LOG_INFO"
    else if level == 7
    then codes "LOG_DEBUG"
    else codes "UNKNOWN"
