-- ===== src/Server/Writer/Restarts.antt =====
-- What a server finds in the append-only file when it starts again.
use mathlib.Core.List.{append_assoc, append-nil}
use thesaurus.Prelude.{
  ℕ, ◌≡◌, refl, sym, ap, ◌∙◌, Bool, true, false, ◌||◌, [], ◌∷◌, ◌++◌, arith, Str, if◌then◌else◌,
  length, length-append,
}
use thesaurus.Config.{AppendFsyncMode, always, every_sec, never}
use thesaurus.Resp2.{Items, encode_items}
use thesaurus.Resp2.RoundTrip.{AreEncodable}
use thesaurus.Store.{Store}
use thesaurus.Executor.{Env}
use thesaurus.Server.Aof.{sync_store_with_aof}
use thesaurus.Server.Replay.{replay, sync_store_with_aof_lem}
use thesaurus.Server.Writer.{
  IoResult, succeeded, failed, Writer, sync_data, is_always, is_every_sec, Calls, append,
  task_syncs, new,
}
use thesaurus.Server.Writer.Durability.{Appends, append-Appends}

-- What may happen to a writer that was opened on `file`: appends that succeed, whose entries make up
-- the index, syncs of the background task that succeed, and bytes that the kernel writes to the disk by
-- itself.
pub data Runs (fsync_mode : AppendFsyncMode) (file : Str) : Str → Writer → Type 0 where
  opened : Runs fsync_mode file [] (new fsync_mode file)
  appends :
      {entries : Str} {w : Writer}
      → Runs fsync_mode file entries w
      → (calls : Calls) (entry : Str) → (append calls entry w).0 ≡ succeeded
      → Runs fsync_mode file (entries ++ entry) (append calls entry w).1
  task_runs :
      {entries : Str} {w : Writer}
      → Runs fsync_mode file entries w
      → Runs fsync_mode file entries (task_syncs succeeded w)
  writes_back :
      {entries : Str} {w : Writer}
      → Runs fsync_mode file entries w
      → (more rest : Str) → w.kernel ≡ w.disk ++ (more ++ rest)
      → Runs fsync_mode file entries (record w { disk = w.disk ++ more })

-- Nothing waits in the buffer, no sync has failed, the file is what it was and the entries, the disk
-- has its beginning, in mode `always` all of it.
abbrev IsSound : AppendFsyncMode → Str → Str → Writer → Type 0
IsSound fsync_mode file entries w =
    (w.buffer ≡ [])
    × (w.kernel ≡ file ++ entries)
    × (w.fsync_mode ≡ fsync_mode)
    × (w.sync_failed ≡ false)
    × ((rest : Str) × (w.kernel ≡ w.disk ++ rest))
    × ((if is_always fsync_mode then w.disk else w.kernel) ≡ w.kernel)

if_same : (b : Bool) (x y : Str) → x ≡ y → (if b then x else y) ≡ y
if_same true x y e = e
if_same false x y e = refl

synced_to_disk :
    (fsync_mode : AppendFsyncMode) (file entries : Str) (w : Writer)
    → IsSound fsync_mode file entries w
    → IsSound fsync_mode file entries (sync_data succeeded w)
synced_to_disk fsync_mode file entries w (b, k, m, x, p, q) = rw x (
  b,
  k,
  m,
  refl,
  ([], sym (append-nil w.kernel)),
  if_same (is_always fsync_mode) w.kernel w.kernel refl,
)

append-IsSound :
    (fsync_mode : AppendFsyncMode) (file entries entry : Str) (w : Writer) (r : IoResult × Writer)
    → IsSound fsync_mode file entries w
    → r.0 ≡ succeeded
    → Appends entry w r
    → IsSound fsync_mode file (entries ++ entry) r.1
append-IsSound fsync_mode file entries entry w (failed, v) s e a = cc
append-IsSound fsync_mode file entries entry w (succeeded, v) (b, k, m, x, (rest, p), q) e
      (b', k', d', m', x') =
    (
      b',
      behind,
      m' ∙ m,
      x' ∙ x,
      start (is_always w.fsync_mode) on_disk,
      all (is_always fsync_mode) (on_disk ∙ ap (λ m. if is_always m then v.kernel else w.disk) m),
    )
  where
    on_disk : v.disk ≡ (if is_always w.fsync_mode then v.kernel else w.disk)
    on_disk = rw x at d'

    behind : v.kernel ≡ file ++ (entries ++ entry)
    behind = rw (k', b, append-nil, k) (append_assoc file entries entry)

    start :
        (b : Bool)
        → v.disk ≡ (if b then v.kernel else w.disk)
        → (rest : Str) × (v.kernel ≡ v.disk ++ rest)
    start true d = ([], rw (d, append-nil) refl)
    start false d = (rest ++ entry, rw (k', b, append-nil, p, d) (append_assoc w.disk rest entry))

    all :
        (b : Bool)
        → v.disk ≡ (if b then v.kernel else w.disk)
        → (if b then v.disk else v.kernel) ≡ v.kernel
    all true d = d
    all false d = refl

task_runs-IsSound :
    (fsync_mode : AppendFsyncMode) (file entries : Str) (w : Writer) (b : Bool)
    → IsSound fsync_mode file entries w
    → IsSound fsync_mode file entries (if b then sync_data succeeded w else w)
task_runs-IsSound fsync_mode file entries w true h = synced_to_disk fsync_mode file entries w h
task_runs-IsSound fsync_mode file entries w false h = h

no_more : (s : Str) → length s ≡ 0 → s ≡ []
no_more [] e = refl
no_more (c ∷ s) e = absurd (omega arith)

Runs-IsSound :
    {fsync_mode : AppendFsyncMode} {file entries : Str} {w : Writer}
    → Runs fsync_mode file entries w
    → IsSound fsync_mode file entries w
unfolding task_syncs
Runs-IsSound {fsync_mode} {file} opened = (
  refl,
  sym (append-nil file),
  refl,
  refl,
  ([], sym (append-nil file)),
  if_same (is_always fsync_mode) file file refl,
)
Runs-IsSound {fsync_mode} {file} (appends {entries} {w} r calls entry e) =
    append-IsSound fsync_mode file entries entry w (append calls entry w) (Runs-IsSound r) e
      (append-Appends calls entry w)
Runs-IsSound {fsync_mode} {file} (task_runs {entries} {w} r) =
    task_runs-IsSound fsync_mode file entries w (is_every_sec w.fsync_mode) (Runs-IsSound r)
Runs-IsSound {fsync_mode} {file} (writes_back {entries} {w} r more rest e) =
    let (b, k, m, x, p, q) = Runs-IsSound r in
    (b, k, m, x, (rest, rw append_assoc e), still (is_always fsync_mode) q)
  where
    still :
        (b : Bool)
        → (if b then w.disk else w.kernel) ≡ w.kernel
        → (if b then w.disk ++ more else w.kernel) ≡ w.kernel
    still true q =
        rw
          (
            no_more more (
                omega (
                  arith,
                  ap length q,
                  ap length e,
                  length-append w.disk (more ++ rest),
                  length-append more rest,
                )),
            append-nil,
          )
          q
    still false q = refl

-- In mode `always` or `every_sec`, while no sync has failed, once the background task has synced the file, all the entries are
-- on the disk behind what was there.
pub disk_lem :
    (fsync_mode : AppendFsyncMode) (file entries : Str) (w : Writer)
    → Runs fsync_mode file entries w
    → (is_always fsync_mode || is_every_sec fsync_mode) ≡ true
    → (task_syncs succeeded w).disk ≡ file ++ entries
unfolding task_syncs
disk_lem fsync_mode file entries w r b =
    let (_, k, m, x, _, q) = Runs-IsSound r in on_disk fsync_mode b k m x q
  where
    on_disk :
        (fsync_mode : AppendFsyncMode)
        → (is_always fsync_mode || is_every_sec fsync_mode) ≡ true
        → w.kernel ≡ file ++ entries
        → w.fsync_mode ≡ fsync_mode
        → w.sync_failed ≡ false
        → (if is_always fsync_mode then w.disk else w.kernel) ≡ w.kernel
        → (if is_every_sec w.fsync_mode then sync_data succeeded w else w).disk ≡ file ++ entries
    on_disk always b k m x q = simp m (q ∙ k)
    on_disk every_sec b k m x q = rw (m, x) k
    on_disk never b k m x q = cc

-- The writer of a server that starts with an empty file in mode `always` or `every_sec`, whose
-- appends and syncs all succeed: once the background task has synced the file, which takes no call in mode
-- `always`, what is on the disk replays as the entries, which the protocol must be able to carry.
pub restart_lem :
    (fsync_mode : AppendFsyncMode) (vs : Items) (w : Writer) (env : ℕ → Env) (s : Store)
    → Runs fsync_mode [] (encode_items vs) w
    → (is_always fsync_mode || is_every_sec fsync_mode) ≡ true
    → AreEncodable vs
    → sync_store_with_aof env (task_syncs succeeded w).disk s ≡ replay env vs s
restart_lem fsync_mode vs w env s r b h =
    ap (λ disk. sync_store_with_aof env disk s) (disk_lem fsync_mode [] (encode_items vs) w r b)
    ∙ sync_store_with_aof_lem vs env s h
