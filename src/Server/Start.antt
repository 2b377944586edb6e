-- ===== src/Server/Start.antt =====
-- The start of the process: `main` of crates/thesaurus/src/main.rs up to its loop, with `open` and
-- `resolve_aof_path` of aof.rs. What the file system and the network answer is an argument.
pub mod Rebuilding
use thesaurus.Prelude.{
  ℕ, ◌==◌, Bool, true, false, Option, none, some, [], ◌∷◌, ◌++◌, Str, codes, Result, ok, err, leb,
  if◌then◌else◌,
}
use thesaurus.Config.{AppendFsyncMode, ThesaurusConfig, default_config, ConfigCrate, load_config}
use thesaurus.Resp2.{RespValue}
use thesaurus.Store
use thesaurus.Store.{Store}
use thesaurus.Executor.{Env}
use thesaurus.Server.Aof.{Synced, synced, decode_error, crashed, sync_store_with_aof}
use thesaurus.Server.Handler.{Server}
use thesaurus.Server.Writer.{Writer, open_writer}

-- `Path::join` on Unix
abbrev pub ends_with_slash : Str → Bool
ends_with_slash [] = true
ends_with_slash (c ∷ []) = c == b'/'
ends_with_slash (c ∷ d ∷ s) = ends_with_slash (d ∷ s)

abbrev pub push_path : Str → Str → Str
push_path dir name = if ends_with_slash dir then dir ++ name else dir ++ (b'/' ∷ name)

abbrev pub join : Str → Str → Str
join dir [] = push_path dir []
join dir (c ∷ name) = if c == b'/' then c ∷ name else push_path dir (c ∷ name)

unfoldable pub resolve_aof_path : Str → Str → Str
resolve_aof_path dirname filename = join dirname filename

-- What is found at a path: an error, no file, or a file with some bytes.
pub data Found : Type 0 where
  unreadable missing : Found
  holds : Str → Found

-- What the process finds outside: the files, whether a file can be opened for appending, the most
-- permits of a semaphore of tokio, and whether the address can be bound.
pub record Machine : Type 0 where
  pub reads : Str → Found
  pub opens : Str → Bool
  pub max_permits : ℕ
  pub binds : Bool

-- The server accepts connections, `main` returns an error, or it panics.
pub data Startup : Type 0 where
  running : ThesaurusConfig → Server → Option Writer → Startup
  refused : Startup
  panicking : Startup

-- The rest of `main` behind a result.
abbrev pub or_refused : {A : Type 0} → Result Str A → (A → Startup) → Startup
or_refused (ok a) continue = continue a
or_refused (err e) continue = refused

abbrev pub or_panics : {A : Type 0} → Option A → (A → Startup) → Startup
or_panics (some a) continue = continue a
or_panics none continue = panicking

-- the match on `args.config`
unfoldable pub configured : ConfigCrate → Option Str → (ThesaurusConfig → Startup) → Startup
unfolding load_config default_config
configured lib (some path) continue = or_refused (load_config lib path) continue
configured lib none continue = or_panics default_config continue

abbrev pub after_sync : Synced → (Store → Startup) → Startup
after_sync (synced s) continue = continue s
after_sync (decode_error e s) continue = refused
after_sync crashed continue = panicking

-- `sync_store_with_aof`, whose loop is in Server/Aof
unfoldable pub sync_at : Bool → Found → (ℕ → Env) → Store → (Store → Startup) → Startup
unfolding sync_store_with_aof
sync_at false found env s continue = continue s
sync_at true unreadable env s continue = refused
sync_at true missing env s continue = continue s
sync_at true (holds file) env s continue = after_sync (sync_store_with_aof env file s) continue

-- what a file opened for appending has; `none` is an error
abbrev pub existing : Bool → Found → Option Str
existing false found = none
existing true unreadable = none
existing true missing = some []
existing true (holds file) = some file

-- `aof::open(...)?`
abbrev pub or_fails : Option (Option Writer) → (Option Writer → Startup) → Startup
or_fails none continue = refused
or_fails (some writer) continue = continue writer

abbrev pub log_of : Option Writer → Option Str
log_of none = none
log_of (some writer) = some writer.kernel

-- `Semaphore::new` and `TcpListener::bind`
unfoldable pub listen : Machine → ThesaurusConfig → Store → Option Writer → Startup
listen machine cfg s writer =
    if leb cfg.max_connections machine.max_permits
    then if machine.binds
      then running cfg (record { store = s; log = log_of writer }) writer
      else refused
    else panicking

-- The executor has the flag of the configuration.
abbrev pub with_flag : ThesaurusConfig → (ℕ → Env) → ℕ → Env
with_flag cfg env i = record (env i) { lazyfree_lazy_user_flush = cfg.lazyfree_lazy_user_flush }

unfoldable pub main : ConfigCrate → Option Str → Machine → (ℕ → Env) → Startup
unfolding configured resolve_aof_path sync_at open_writer listen Store.new
main lib config machine env = configured lib config λ cfg.
    let found = machine.reads (resolve_aof_path cfg.appenddirname cfg.appendfilename) in
    let opens = machine.opens (resolve_aof_path cfg.appenddirname cfg.appendfilename) in
    sync_at cfg.appendonly found (with_flag cfg env) Store.new λ s.
      or_fails (open_writer cfg.appendonly cfg.appendfsync (existing opens found))
        λ writer. listen machine cfg s writer
