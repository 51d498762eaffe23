-- ===== src/Lib.antt =====
-- pmlogdaemon reads log messages from a socket, parses them, routes each by the rules of its
-- context to output files, and keeps the recent messages of a context in a ring buffer that a
-- message of high priority flushes. Log files are rotated and compressed, partly by a second
-- thread. This library models what decides what is logged where, and what happens to the log
-- files.
--
-- The parts, and the files that model them:
-- - src/ring.c, src/ring.h: Ring and its child modules. `RingBuffer` is `PmLogRingBuffer_t`,
--   with pointers into the block as offsets; `rb_new`, `rb_write`, `rb_flush` and the rest are
--   `RBNew`, `RBWrite`, `RBFlush`. Ring/Window is the abstract view, the last `bufferSize`
--   bytes written; Ring/Messages says which messages such a window holds; Ring/History runs
--   many writes and a flush.
-- - src/util.c: Util/Number (`ParseInt`, `ParseLevel`, `ParseSize`,
--   `TrimSuffixCaseInsensitive`), Util/KeyValue (`ParseKeyValue`) and Util/Lock
--   (`LockProcess`, `UnlockProcess`).
-- - src/main.h: Conf (`PmLogFile_t`, `PmLogRule_t`, `PmLogContextConf_t` and the limits).
-- - src/config.c: Config/Output (`FindOutputByName`, `ParseOutputInit`, `MakeOutputConf`),
--   Config/Token (`GetTokenToSep`), Config/Rule (`ParseContextData`), Config/Context
--   (`MakeContextConf`, `CreateContext`, `ClearConf`, `SetDefaultConf`), Config/Json with
--   Outputs and Contexts (`ParseJsonOutputs`, `ParseJsonContexts`).
-- - src/main.c: Message/Priority and Message/Priority/Names (the priority of a datagram, the
--   names of facilities and levels), Message/Escape (the loop of `ProcessMessage` that writes
--   printable text), Message/Program, Message/PidTid and Message/Token (the parsers that
--   `LogMessage` calls), Route (`MatchOutputRule`, `OutputMessage`), Dispatch/Buffered (the
--   form of a buffered message), Dispatch (`FlushMessage`, `FlushNotMe`, `LogMessage` from the
--   ring of a context on), Dispatch/Log (`LogMessage` up to there, `ProcessMessage`,
--   `HandleNewLog`), Dispatch/Report (the reports that `LogMessage` asks for) and
--   Dispatch/Stamp (`MakeMessageTimestamp`). Dispatch/Returns and Dispatch/Serve say which
--   messages are readable, and what a sequence of them does, Dispatch/Named what becomes of a
--   plain one. Whitelist is `LoadWhitelist` and the test that `LogMessage` makes in a
--   production build.
-- - src/main.c, the start: Config/Init (`InitConfig`), Config/Show (`LogConfig`,
--   `LogConfigInfo`), Startup (the loop over the outputs in `RunSysLogD`), Startup/Reader
--   (`InitializeSysLogReader`) and Startup/Thread (`CreateHeavyOperationThread`,
--   `DestroyHeavyOperationThread`).
-- - src/main.c, the log files: Rotation (`WriteToLogFile` with `RotateLogFile`,
--   `DoRotateLogFile`, `CompressFile` and `DoNotifySubscribers`, and `ForceRotateLogFile`),
--   Rotation/Cleanup (`LogFileInit`, `LogFileKillRotations`, `FreeDiskSpace`), with
--   Rotation/Names and Rotation/Shift on the names and the places of rotated files,
--   Rotation/Write on the end of the loops and Rotation/Append on what a write leaves. Disk is
--   the record of the system calls on files.
-- - src/main.c, the two threads: System (`g_logFiles`, the tasks of the heavy operation
--   thread, `force_rotate_ls`, `subscribe_on_rotations_ls`, `sub_cancel_func`,
--   `RdxLogReport`). System/Reachable is the step relation, System/Delivered joins it to
--   Route, and System/Messages with System/Messages/Handled to Dispatch. System/Events puts
--   the datagrams, the calls of the service bus and the tasks in one list.
--
-- How they interact: `ParseJsonOutputs` and `ParseJsonContexts` fill the tables through
-- `MakeOutputConf`, `ParseContextData` and `MakeContextConf`; a context made so holds rules
-- that name outputs of the table, which is what `OutputMessage` asserts, and a ring made by
-- `RBNew`. `LogMessage` finds the context of a message and writes it to the outputs that the
-- rules choose, or to the ring; a message of the flush level first flushes the rings of all
-- other contexts, then its own. A write that finds its file full rotates it and leaves the
-- compression, or the reply to a subscriber, to the heavy operation thread, which also answers
-- the service bus; the steps of the two threads are taken one at a time, in any order.
--
-- Conventions. A C string is the list of its bytes without the NUL (Base/Text). `Outcome` is
-- `done`, `aborted` (a failed `g_assert`) or `overflow` (a read or a write outside an object,
-- which C leaves undefined). An `int` is ℤ, wrapped by `int32` where the code computes with
-- it; `sizeof` results and offsets are natural numbers. Loops are structural recursion on the
-- text, the table or the count that the C loop runs on, so no fuel is chosen for them: the
-- loop of `RBFlush` runs on the `bufferSize` rounds that its `for` statement has. Two others
-- run on fuel: `WriteToLogFile` opens its file twice at most, since the second round does not
-- rotate, and the loop of `CompressFile` reads at least a byte of the file in each round but
-- the last.
--
-- Parameters. GLib's balanced tree (Base/GTree) with the laws of lookup, the accessors of
-- pbnjson (`Json` in Config/Json), the tables of names of the logging library (`PmLogLib`),
-- the system calls on files (`Disk`) and what `FreeDiskSpace` runs (`Reports` in
-- Rotation/Cleanup), the system calls on the lock file (`Locks` in Util/Lock), the strings and
-- the hash table of GLib (`Strings` and `HashSet` in Whitelist), the clock and what the stack
-- holds under the buffer of a time stamp (`Host` in Dispatch, `Clock` in Dispatch/Stamp,
-- `Watch` in System/Messages), the calls on the socket (`Sockets` in Startup/Reader) and those
-- on threads (`Threads` in Startup/Thread). `Files` in Route and `Host` are interfaces, which
-- System and System/Messages fill. `ClockFits` in Dispatch is what keeps a time stamp inside
-- its buffer.
--
-- The main loop is the list of the events until a signal ends it.
--
-- Not modelled: steps of the two threads inside each other; the order of the calls in `main`
-- and around the main loop in `RunSysLogD`, which lock, open, wait and clean up; and
-- `backup_logs_ls`, the registration on the service bus and `ParseParams`, which are calls of
-- libraries.
pub mod Base
pub mod Conf
pub mod Config
pub mod Disk
pub mod Dispatch
pub mod Message
pub mod Route
pub mod Ring
pub mod Rotation
pub mod Startup
pub mod System
pub mod Util
pub mod Whitelist
mod Tests
