-- ===== src/Conf.antt =====
-- src/main.h: the configuration that the daemon routes by, and its limits.
use pmlogdaemon.Base.{ℕ, ◌*◌, Bool, Option, List, Bytes, codes}
use pmlogdaemon.Base.Int.{ℤ}
use pmlogdaemon.Ring.{RingBuffer}

-- `PmLogFile_t`
pub record LogFile : Type 0 where
  pub output_name : Bytes
  pub path : Bytes
  pub max_size : ℤ
  pub rotations : ℤ

-- `PmLogRule_t`: -1 stands for all facilities or all levels, none for all programs.
pub record Rule : Type 0 where
  pub facility : ℤ
  pub level : ℤ
  pub level_invert : Bool
  pub program : Option Bytes
  pub output_index : ℤ
  pub omit_output : Bool

-- `PmLogContextConf_t`: the list holds the first `numRules` rules of the array.
pub record ContextConf : Type 0 where
  pub context_name : Bytes
  pub rb : Option RingBuffer
  pub rules : List Rule

-- `PMLOG_MAX_NUM_OUTPUTS`, `PMLOG_CONTEXT_MAX_NUM_RULES`, `PMLOG_PROGRAM_MAX_NAME_LENGTH`,
-- `PMLOG_OUTPUT_MAX_NAME_LENGTH`
abbrev pub max_num_outputs : ℕ
max_num_outputs = 128

abbrev pub max_num_rules : ℕ
max_num_rules = 16

abbrev pub program_max_name_length : ℕ
program_max_name_length = 31

abbrev pub output_max_name_length : ℕ
output_max_name_length = 31

-- `PMLOG_DEFAULT_LOG_SIZE`, `PMLOG_MIN_LOG_SIZE`, `PMLOG_MAX_LOG_SIZE`
abbrev pub default_log_size : ℕ
default_log_size = 200 * 1024

abbrev pub min_log_size : ℕ
min_log_size = 4 * 1024

abbrev pub max_log_size : ℕ
max_log_size = 64 * 1024 * 1024

-- `PMLOG_DEFAULT_LOG_ROTATIONS`, `PMLOG_MIN_NUM_ROTATIONS`, `PMLOG_MAX_NUM_ROTATIONS`
abbrev pub default_log_rotations : ℕ
default_log_rotations = 1

abbrev pub min_num_rotations : ℕ
min_num_rotations = 1

abbrev pub max_num_rotations : ℕ
max_num_rotations = 20

-- `PMLOG_OUTPUT_STDLOG`
abbrev pub stdlog : Bytes
stdlog = codes "stdlog"
