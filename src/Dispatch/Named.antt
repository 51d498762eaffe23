-- ===== src/Dispatch/Named.antt =====
-- What `LogMessage` in src/main.c makes of a message that names its program and has none of the marks of
-- the logging library.
use pmlogdaemon.Base.GTree.{GTree}
use pmlogdaemon.Base.Outcome.{Outcome}
use pmlogdaemon.Message.Program.{Program}
