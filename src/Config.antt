-- ===== src/Config.antt =====
-- src/config.c: the tables that a configuration fills, and their parsers.
pub mod Output
pub mod Token
pub mod Rule
pub mod Context
pub mod Json
pub mod Init
pub mod Show
