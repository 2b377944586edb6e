-- ===== src/Samples/Restarted.antt =====
-- The configuration, the append-only file on the disk, and the start of a server.
use thesaurus.Prelude.{
  ◌≡◌, refl, ap, ◌∙◌, true, false, Option, none, some, List, [], ◌∷◌, ◌++◌, arith, Str, codes,
  str_eq, Result, ok, err, map,
}
use thesaurus.HashSet.{contains}
use thesaurus.Utf8.{is_utf8}
use thesaurus.Config.{always, ConfigCrate, ThesaurusConfig, find_default, load_config}
use thesaurus.Config.Missing.{FindsNoOther, IsErr, load_config-IsErr}
use thesaurus.Resp2.{RespValue, array, bulk_strings, Items, nil, cons, encode_items}
use thesaurus.Command.{unexpected_type, a_bulk_string}
use thesaurus.Command.Parse.{from_resp2}
use thesaurus.Store
use thesaurus.Store.{Store}
use thesaurus.Executor.{Env}
use thesaurus.Server.Aof.{synced, sync_store_with_aof}
use thesaurus.Server.Durable.{IsInStep}
use thesaurus.Server.Handler.{Server}
use thesaurus.Server.Replay.{replay}
use thesaurus.Server.Start.{holds, Machine, running, refused, with_flag, main}
use thesaurus.Server.Start.Rebuilding.{main-IsInStep, main-refused}
use thesaurus.Server.Torn.{cut_before_last, torn_entry}
use thesaurus.Server.Writer.{succeeded, completes, stops_after, Calls, new}
use thesaurus.Server.Handler.{handle}
use thesaurus.Server.Writer.Handling.{
  Serving, Agrees, respond_view, view, handle_with, handle_with-Agrees,
}
use thesaurus.Samples.{env, shop, debug}
use thesaurus.Samples.Served.{frames, frames-AreEncodable, del_frame, del_frame-IsEncodable}

-- A crate `config` whose sources are lists of settings, the last one in front.
abbrev or_missing : Option Str → Result Str Str
or_missing none = err (codes "missing")
or_missing (some v) = ok v

abbrev reader : List (Str × Str) → ConfigCrate
reader file = record {
  Builder = List (Str × Str);
  Config = List (Str × Str);
  builder = [];
  set_default = λ k v b. ok ((k, v) ∷ b);
  add_file = λ path b. file ++ b;
  add_environment = λ prefix b. b;
  build = λ b. ok b;
  get_string = λ k c. or_missing (find_default k c);
  get_usize = λ k c. ok 100;
  get_u64 = λ k c. ok 100;
}

abbrev first_of : Str × Str → Str
first_of (k, v) = k

find_default-none :
    (k : Str) (l : List (Str × Str)) → contains k (map first_of l) ≡ false → find_default k l ≡ none
unfolding contains find_default
find_default-none k [] h = refl
find_default-none k ((j, v) ∷ l) h = ground (arith, find_default-none k l)

abbrev file_keys : List Str
file_keys = codes "hz" ∷ []

abbrev given : List (Str × Str) → Result Str (List (Str × Str))
given l = ok l

same_list : (c b : List (Str × Str)) → given b ≡ given c → c ≡ b
same_list c b e = cc

reader-FindsNoOther : FindsNoOther (reader ((codes "hz", codes "10") ∷ [])) file_keys []
reader-FindsNoOther = record {
  keys_of = map first_of;
  none_at_first = refl;
  of_default = λ k v b c e. ap (map first_of) (same_list c ((k, v) ∷ b) e);
  of_file = λ path b. refl;
  of_environment = λ prefix b. refl;
  not_found = λ k b c e h. (
    codes "missing",
    ap or_missing (ap (find_default k) (same_list c b e) ∙ find_default-none k b h),
  );
}

not_given : contains (codes "lazyfree-lazy-user-flush") file_keys ≡ false
unfolding contains str_eq
not_given = refl

load_config-IsErr_example :
    IsErr (load_config (reader ((codes "hz", codes "10") ∷ [])) (codes "a.ini"))
load_config-IsErr_example =
    load_config-IsErr (reader ((codes "hz", codes "10") ∷ [])) file_keys [] reader-FindsNoOther
      (codes "a.ini") not_given (unfold contains in refl)

-- what the system calls answer if nothing fails, and if the disk is full after three bytes
abbrev all_well : Calls
all_well = record { spill = completes; through = completes; flushes = completes; syncs = succeeded }

abbrev disk_full : Calls
disk_full = record {
  spill = completes;
  through = completes;
  flushes = stops_after 3;
  syncs = succeeded;
}

-- a server whose file has an entry already
abbrev writing : Serving
writing = record { store = shop; writer = some (new always (encode_items frames)) }

handle_with-Agrees_example :
    Agrees
      (some (encode_items frames ++ []))
      (handle debug env 0 del_frame (view writing))
      (respond_view (handle_with disk_full debug env 0 del_frame writing))
handle_with-Agrees_example = handle_with-Agrees disk_full debug env 0 del_frame writing

-- SET whose value was not written, and DEL behind it
abbrev cut_set : Items
cut_set = bulk_strings (codes "SET" ∷ codes "k" ∷ [])

cut_set-AreEncodable : thesaurus.Resp2.RoundTrip.AreEncodable cut_set
unfolding is_utf8
cut_set-AreEncodable = ((omega arith, refl), ((omega arith, refl), tt))

torn_entry_example :
    (sync_store_with_aof (λ i. env) (encode_items frames ++ cut_before_last cut_set) shop
      ≡ replay (λ i. env) frames shop)
    × (sync_store_with_aof
          (λ i. env)
          (encode_items frames ++ (cut_before_last cut_set ++ thesaurus.Resp2.encode del_frame))
          shop
        ≡ replay (λ i. env) frames shop)
torn_entry_example =
    torn_entry frames cut_set del_frame (unexpected_type a_bulk_string del_frame) (λ i. env) shop
      frames-AreEncodable cut_set-AreEncodable del_frame-IsEncodable (omega arith)
      (unfold from_resp2 in refl)

abbrev settings : List (Str × Str)
settings =
    (codes "appendonly", codes "yes")
    ∷ (codes "appendfsync", codes "always")
    ∷ (codes "lazyfree-lazy-user-flush", codes "no")
    ∷ []

abbrev cfg : ThesaurusConfig
cfg = record {
  max_connections = 100;
  hz = 100;
  appendonly = true;
  appendfilename = codes "appendonly.aof";
  appenddirname = codes "appendonlydir";
  appendfsync = always;
  lazyfree_lazy_user_flush = false;
}

loaded : load_config (reader settings) (codes "a.ini") ≡ ok cfg
unfolding load_config find_default str_eq
loaded = refl

abbrev machine : Str → Machine
machine file = record {
  reads = λ path. holds file;
  opens = λ path. true;
  max_permits = 1000;
  binds = true;
}

replayed : replay (with_flag cfg (λ i. env)) frames Store.new ≡ synced Store.new
unfolding replay from_resp2 Store.new thesaurus.Executor.Keyspace.delete thesaurus.Map.empty
    thesaurus.Map.remove
replayed = refl

main-IsInStep_example :
    (server : Server) × (main
        (reader settings)
        (some (codes "a.ini"))
        (machine (encode_items frames))
        (λ i. env)
      ≡ running cfg server (some (new always (encode_items frames))))
    × (server.store ≡ Store.new)
    × IsInStep Store.new server
main-IsInStep_example =
    main-IsInStep (reader settings) (codes "a.ini") (machine (encode_items frames)) (λ i. env) cfg
      loaded refl frames Store.new refl refl refl (omega arith) frames-AreEncodable replayed

main-refused_example :
    main
      (reader settings)
      (some (codes "a.ini"))
      (machine (encode_items frames ++ (b'*' ∷ [])))
      (λ i. env)
    ≡ refused
main-refused_example =
    main-refused (reader settings) (codes "a.ini") (machine (encode_items frames ++ (b'*' ∷ [])))
      (λ i. env) cfg loaded refl frames Store.new refl frames-AreEncodable replayed
