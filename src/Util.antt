-- ===== src/Util.antt =====
-- src/util.c: numbers and sizes in text, KEY=VALUE arguments, and the process lock.
pub mod Number
pub mod KeyValue
pub mod Lock
pub use Number.{trim_suffix_case_insensitive, parse_int, parse_level, parse_size}
pub use KeyValue.{parse_key_value}
