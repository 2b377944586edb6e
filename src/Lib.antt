-- ===== src/Lib.antt =====
-- A verification of thesaurus, a RESP2 server for strings, lists and sets in memory, with expiry and
-- an append-only file.
--
-- A client's bytes are decoded to a value, the value is parsed to a command, the executor runs the
-- command on the store and replies, and the handler logs the frame of a write. The file is replayed
-- at the start, once the configuration is read. A daemon evicts keys that have expired.
--
--   Resp2, Resp2/Decode     crates/thesaurus/src/resp2.rs: RespValue, encode, decode
--   Command, Command/...    crates/thesaurus/src/command/: Command, is_write, from_resp2, the parsers
--   Pattern                 crates/thesaurus/src/pattern.rs: string_match
--   Store                   crates/thesaurus/src/store/mod.rs; Store/Strings, Store/Lists and
--                           Store/Sets are string.rs, list.rs and set.rs beside it
--   Executor, Executor/...  crates/thesaurus/src/executor/: execute and the handlers; Keyspace has
--                           those of mod.rs
--   Server/Handler          crates/thesaurus/src/handler.rs: a round of run_handler, and the
--                           conversions of resp2.rs for the log
--   Server/Session          run_handler as a whole, on all bytes that a client sends
--   Server/Aof              crates/thesaurus/src/aof.rs: sync_store_with_aof
--   Server/Writer           crates/thesaurus/src/aof.rs: AofWriter
--   Server/Writer/Handling  a round of handler.rs over that writer, whose appends may fail
--   Server/Start            crates/thesaurus/src/main.rs up to its loop
--   Server/Listen           the loop of main.rs and the shutdown: permits, signals, drain, last sync
--   Server/Races            rounds of handler.rs with other rounds between execution and append
--   Server/Crash            a server and its file over any number of requests and restarts
--   Server/Steps            requests of all clients and deletions of the daemon, as a step relation
--   Config                  crates/thesaurus/src/config.rs
--   Ttl                     crates/thesaurus/src/ttl.rs: evict_expired and the daemon's loop
--   Errors                  crates/thesaurus/src/errors.rs
--   Prelude, Map, HashSet,  what the source takes from the standard library
--   Decimal, Utf8
--
-- The other modules hold proofs about the module above them, and Samples runs of the theorems.
--
-- A `Store` is the two maps behind the lock. An operation that takes the lock once is a function of
-- that state. The daemon's round takes it twice and has what runs between as an argument. A handler
-- of the executor that takes it several times (SET, DEL, EXISTS, the pushes) is modelled as it runs
-- with no other handler between its steps, but for SET in Executor/Races. Each call of
-- `Instant::now()` is an argument, or the next value of a sequence of readings, in nanoseconds. A
-- panic is a value, and a panic under the write guard, which poisons the lock, is another one.
--
-- Texts are lists of bytes, and a `String` one that is UTF-8. A `HashMap` is a list of entries, a
-- `HashSet` a list of members; no theorem depends on their order. Machine integers are natural
-- numbers with the bound or the remainder that the source's type gives them.
--
-- The decoder and the replay recurse on the number of bytes: each nested value, and each round of
-- the replay, comes behind a line of at least one byte. The matcher's loop recurses on the length of
-- the pattern, of which each round takes a byte at least. The loop of a connection recurses on the
-- number of bytes that the client sends.
--
-- A writer of the append-only file has three texts: the buffer of the process, the file as the kernel
-- has it, and what is known to be on the disk, which is no more after a sync has failed. The drop of the
-- writer at the end of `main` writes what is left in the buffer. What a system call answers, a write that stops half-way included,
-- is an argument, and so is what the socket of a connection makes of each reply. In the rounds of
-- Server/Handler, which Server/Session runs, the log takes each entry.
--
-- Arguments of the model, as code of other crates: the random draws of `rand`, the hash of
-- `xxhash-rust`, the clocks, the derived `Debug` of a value, the crate `config`, and the semaphore of
-- `tokio`. What the draws and the semaphore must satisfy stands in Store/Draws and Server/Listen/Limits.
-- A run of the process is a list of events in any order: connections, rounds and ends of handlers,
-- signals, ticks and timeouts. Not modelled: the scheduler and the timers of tokio that choose that
-- order, an abort in the middle of a round, the command line, logging, exhausted memory, and the stack
-- that deeply nested arrays need.
pub mod Command
pub mod Config
pub mod Decimal
pub mod Errors
pub mod Executor
pub mod HashSet
pub mod Map
pub mod Pattern
pub mod Prelude
pub mod Resp2
pub mod Samples
pub mod Server
pub mod Store
pub mod Ttl
pub mod Utf8
