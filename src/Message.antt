-- ===== src/Message.antt =====
-- src/main.c: the reading of one datagram, from the bytes received to the parts of the message.
pub mod Priority
pub mod Escape
pub mod Program
pub mod PidTid
pub mod Token
