-- ===== src/Server/Writer.antt =====
-- `AofWriter` of crates/thesaurus/src/aof.rs, with the `BufWriter` and the `File` of the standard
-- library under it. What each system call answers is an argument.
pub mod Durability
pub mod Handling
pub mod Restarts
pub mod Success
use thesaurus.Prelude.{
  ℕ, ◌-◌, Bool, true, false, Option, none, some, [], ◌++◌, Str, ltb, leb, if◌then◌else◌, length,
  take, drop,
}
use thesaurus.Config.{AppendFsyncMode, always, every_sec, never}

-- An `io::Result<()>`; the error is only logged.
pub data IoResult : Type 0 where
  succeeded failed : IoResult

-- What comes of writing some bytes: all are written, or an error after `n` of them.
pub data WriteOutcome : Type 0 where
  completes : WriteOutcome
  stops_after : ℕ → WriteOutcome

-- The bytes in the buffer of the process, in the kernel's view of the file, and those that are known
-- to be on the disk; and whether a sync has failed.
pub record Writer : Type 0 where
  pub buffer : Str
  pub kernel : Str
  pub disk : Str
  pub sync_failed : Bool
  pub fsync_mode : AppendFsyncMode

-- `?`
abbrev pub if_succeeded : IoResult × Writer → (Writer → IoResult × Writer) → IoResult × Writer
if_succeeded (succeeded, w) f = f w
if_succeeded (failed, w) f = (failed, w)

-- the part of `n` bytes that a write gets to the kernel; an error comes before the last byte
abbrev pub reaches : WriteOutcome → ℕ → IoResult × ℕ
reaches completes size = (succeeded, size)
reaches (stops_after n) size = if ltb n size then (failed, n) else (succeeded, size)

-- `BufWriter::flush`: what is written leaves the buffer.
unfoldable pub flush : WriteOutcome → Writer → IoResult × Writer
flush outcome w =
    let (result, n) = reaches outcome (length w.buffer) in
    (result, record w { buffer = drop n w.buffer; kernel = w.kernel ++ take n w.buffer })

abbrev pub capacity : ℕ
capacity = 8192

abbrev pub keep : Str → Writer → Writer
keep s w = record w { buffer = w.buffer ++ s }

-- `File::write_all`
unfoldable pub write_through : WriteOutcome → Str → Writer → IoResult × Writer
write_through outcome s w =
    let (result, n) = reaches outcome (length s) in
    (result, record w { kernel = w.kernel ++ take n s })

-- `BufWriter::write_all`: what has no room in the buffer empties it first, and what is not smaller
-- than the buffer goes past it.
unfoldable pub write_all : WriteOutcome → WriteOutcome → Str → Writer → IoResult × Writer
unfolding flush write_through
write_all spill through s w =
    if ltb (length s) (capacity - length w.buffer)
    then (succeeded, keep s w)
    else if_succeeded
        (if ltb (capacity - length w.buffer) (length s) then flush spill w else (succeeded, w))
        λ v. if leb capacity (length s) then write_through through s v else (succeeded, keep s v)

-- what is known to be on the disk after a sync that succeeds
abbrev pub known : Bool → Str → Str → Str
known true kernel disk = disk
known false kernel disk = kernel

-- `File::sync_data`. A sync that fails may leave pages unwritten that the kernel then counts as clean,
-- and which no later sync writes: from there on, a success tells nothing of the file as a whole.
abbrev pub sync_data : IoResult → Writer → Writer
sync_data succeeded w = record w { disk = known w.sync_failed w.kernel w.disk }
sync_data failed w = record w { sync_failed = true }

abbrev pub is_always : AppendFsyncMode → Bool
is_always always = true
is_always every_sec = false
is_always never = false

abbrev pub is_every_sec : AppendFsyncMode → Bool
is_every_sec always = false
is_every_sec every_sec = true
is_every_sec never = false

-- the answers of the calls of one `append`
pub record Calls : Type 0 where
  pub spill : WriteOutcome
  pub through : WriteOutcome
  pub flushes : WriteOutcome
  pub syncs : IoResult

unfoldable pub append : Calls → Str → Writer → IoResult × Writer
unfolding write_all flush
append calls cmd_bytes w = if_succeeded (write_all calls.spill calls.through cmd_bytes w) λ v.
    if_succeeded (flush calls.flushes v)
      λ u. if is_always u.fsync_mode then (calls.syncs, sync_data calls.syncs u) else (succeeded, u)

-- One `sync_data` of the task that `spawn_fsync_task` starts, at a tick or at the end; no task runs
-- in the other modes.
unfoldable pub task_syncs : IoResult → Writer → Writer
task_syncs answer w = if is_every_sec w.fsync_mode then sync_data answer w else w

-- `AofWriter::new` on a file that could be opened, all of which is on the disk.
abbrev pub new : AppendFsyncMode → Str → Writer
new fsync_mode file = record {
  buffer = [];
  kernel = file;
  disk = file;
  sync_failed = false;
  fsync_mode = fsync_mode;
}

-- The drop of the `BufWriter`: it flushes once more, whatever comes of it, and what is left is lost.
unfoldable pub drop_writer : WriteOutcome → Writer → Writer
unfolding flush
drop_writer outcome w = record (flush outcome w).1 { buffer = [] }

-- `open`: `none` is an error of the file system; `existing` is the file's content, `[]` if it is new.
unfoldable pub open_writer : Bool → AppendFsyncMode → Option Str → Option (Option Writer)
open_writer false fsync_mode existing = some none
open_writer true fsync_mode none = none
open_writer true fsync_mode (some file) = some (some (new fsync_mode file))
