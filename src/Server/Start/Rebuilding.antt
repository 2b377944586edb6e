-- ===== src/Server/Start/Rebuilding.antt =====
-- What a server has when it starts: the store that its append-only file stands for.
use thesaurus.Prelude.{ℕ, ◌≤◌, ◌≡◌, refl, ◌∙◌, true, some, [], ◌∷◌, ◌++◌, arith, Str, ok, leb}
use thesaurus.Config.{ThesaurusConfig, ConfigCrate, load_config}
use thesaurus.Resp2.{Items, encode_items}
use thesaurus.Resp2.RoundTrip.{AreEncodable}
use thesaurus.Store
use thesaurus.Store.{Store}
use thesaurus.Executor.{Env}
use thesaurus.Server.Aof.{synced, sync_store_with_aof}
use thesaurus.Server.Handler.{Server}
use thesaurus.Server.Replay.{replay, sync_store_with_aof_lem}
use thesaurus.Server.Durable.{IsInStep}
use thesaurus.Server.Torn.{cut_after_first_byte}
use thesaurus.Server.Writer.{open_writer, new}
use thesaurus.Server.Start.{
  holds, Machine, running, refused, configured, after_sync, sync_at, existing, or_fails, listen,
  with_flag, resolve_aof_path, main,
}

-- the settings were read, and the append-only file is on
module _ (lib : ConfigCrate) (path : Str) (machine : Machine) (env : ℕ → Env)
    (cfg : ThesaurusConfig) (loaded : load_config lib path ≡ ok cfg)
    (appendonly : cfg.appendonly ≡ true) where
  with_file :
      (file : Str)
      → machine.reads (resolve_aof_path cfg.appenddirname cfg.appendfilename) ≡ holds file
      → main lib (some path) machine env
        ≡ after_sync (sync_store_with_aof (with_flag cfg env) file Store.new) λ s.
          or_fails
            (open_writer true cfg.appendfsync (
              existing
                (machine.opens (resolve_aof_path cfg.appenddirname cfg.appendfilename))
                (holds file)))
            λ writer. listen machine cfg s writer
  unfolding main configured sync_at
  with_file file found = rw (loaded, found, appendonly) refl

  -- A server whose settings could be read, with the append-only file on, that finds in it the encodings
  -- of some values, which the protocol can carry and which replay without a panic, that can open the
  -- file for appending and bind its address, and whose `max_connections` is no more than a semaphore can
  -- have, starts with the store that the values rebuild and goes on with that file: log and store are
  -- in step.
  pub main-IsInStep :
      (vs : Items) (s : Store)
      → machine.reads (resolve_aof_path cfg.appenddirname cfg.appendfilename)
        ≡ holds (encode_items vs)
      → machine.opens (resolve_aof_path cfg.appenddirname cfg.appendfilename) ≡ true
      → machine.binds ≡ true
      → cfg.max_connections ≤ machine.max_permits
      → AreEncodable vs
      → replay (with_flag cfg env) vs Store.new ≡ synced s
      → (server : Server) × (main lib (some path) machine env
          ≡ running cfg server (some (new cfg.appendfsync (encode_items vs))))
        × (server.store ≡ s)
        × IsInStep Store.new server
  main-IsInStep vs s found opens binds permits h r = (
    record { store = s; log = some (encode_items vs) },
    with_file (encode_items vs) found
        ∙ rw (replayed, opens) (unfold open_writer listen in rw (permitted, binds) refl),
    refl,
    (vs, with_flag cfg env, refl, h, replayed),
  )
    where
      replayed : sync_store_with_aof (with_flag cfg env) (encode_items vs) Store.new ≡ synced s
      replayed = sync_store_with_aof_lem vs (with_flag cfg env) Store.new h ∙ r

      permitted : leb cfg.max_connections machine.max_permits ≡ true
      permitted = ground arith

  -- A server whose file ends behind the first byte of an entry, after entries that replay well, does
  -- not start.
  pub main-refused :
      (vs : Items) (s : Store)
      → machine.reads (resolve_aof_path cfg.appenddirname cfg.appendfilename)
        ≡ holds (encode_items vs ++ (b'*' ∷ []))
      → AreEncodable vs
      → replay (with_flag cfg env) vs Store.new ≡ synced s
      → main lib (some path) machine env ≡ refused
  main-refused vs s found h r =
      with_file (encode_items vs ++ (b'*' ∷ [])) found
      ∙ rw (cut_after_first_byte vs (with_flag cfg env) Store.new h, r) refl
