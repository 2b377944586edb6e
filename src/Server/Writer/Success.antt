-- ===== src/Server/Writer/Success.antt =====
-- An append none of whose writes fails.
use thesaurus.Prelude.{ℕ, ◌≡◌, refl, Bool, true, false, ◌||◌, arith, Str, length, if◌then◌else◌}
use thesaurus.Config.{every_sec}
use thesaurus.Server.Writer.{
  IoResult, succeeded, failed, WriteOutcome, completes, stops_after, reaches, flush, write_through,
  write_all, Writer, Calls, append, if_succeeded, is_always, sync_data,
}
use thesaurus.Server.Writer.Durability.{Adds, write_all-Adds}
use thesaurus.Server.Writer.Handling.{}
use thesaurus.Server.Listen.{}

abbrev pub is_failing : WriteOutcome → Bool
is_failing completes = false
is_failing (stops_after n) = true

abbrev pub any_failing : Calls → Bool
any_failing calls = is_failing calls.spill || is_failing calls.through || is_failing calls.flushes

reaches_all :
    (o : WriteOutcome) (size : ℕ) → is_failing o ≡ false → reaches o size ≡ (succeeded, size)
reaches_all completes size h = refl
reaches_all (stops_after n) size h = cc

write_all-succeeds :
    (calls : Calls) (entry : Str) (w : Writer)
    → any_failing calls ≡ false
    → (write_all calls.spill calls.through entry w).0 ≡ succeeded
unfolding write_all flush write_through
write_all-succeeds calls entry w h =
    rw
      (
        reaches_all calls.spill (length w.buffer) (ground arith),
        reaches_all calls.through (length entry) (ground arith),
      )
      (ground arith)

pub append-succeeds :
    (calls : Calls) (entry : Str) (w : Writer)
    → any_failing calls ≡ false
    → w.fsync_mode ≡ every_sec
    → (append calls entry w).0 ≡ succeeded
unfolding append flush
append-succeeds calls entry w h m =
    after_write (write_all calls.spill calls.through entry w) (write_all-succeeds calls entry w h)
      (write_all-Adds calls.spill calls.through entry w)
  where
    after_write :
        (r : IoResult × Writer)
        → r.0 ≡ succeeded
        → Adds entry w r
        → (if_succeeded r λ v. if_succeeded (flush calls.flushes v) λ u.
            if is_always u.fsync_mode
            then (calls.syncs, sync_data calls.syncs u)
            else (succeeded, u)).0
          ≡ succeeded
    after_write (succeeded, v) e (_, _, k, _) =
        rw (reaches_all calls.flushes (length v.buffer) (ground arith), k, m) refl
    after_write (failed, v) e a = cc
