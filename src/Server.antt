-- ===== src/Server.antt =====
-- The path of a command: crates/thesaurus/src/handler.rs and the append-only file of
-- crates/thesaurus/src/aof.rs, with the two conversions of resp2.rs for it, and the start of the
-- process in crates/thesaurus/src/main.rs.
pub mod Handler
pub mod Aof
pub mod Deadlines
pub mod Replay
pub mod Listen
pub mod Races
pub mod Session
pub mod Start
pub mod Steps
pub mod Termination
pub mod Torn
pub mod Wire
pub mod Writer
pub mod Durable
pub mod Crash
pub mod Entries
pub mod Logging
