-- ===== src/Samples/Served.antt =====
-- The executor and the handler, on the sample server.
use thesaurus.Resp2.RoundTrip.{IsEncodable}
use thesaurus.Command.{is_write}
use thesaurus.Store.{set as set_value}
use thesaurus.Samples.{members}
use thesaurus.Executor.{Env}
use thesaurus.Executor.Keyspace.{expire, ttl, persist}
use thesaurus.Executor.Expiry.{expire_lem}
use thesaurus.Prelude.{
  ℕ, ◌≡◌, refl, true, none, some, [], ◌∷◌, ◌++◌, arith, Str, codes, str_eq, if◌then◌else◌, ok, done,
  pos, negsuc,
}
use thesaurus.Map
use thesaurus.Utf8.{is_utf8}
use thesaurus.Resp2.{RespValue, integer, array, bulk_strings, Items, nil, cons, encode_items}
use thesaurus.Resp2.Decode.{decode}
use thesaurus.Resp2.RoundTrip.{AreEncodable}
use thesaurus.Command
use thesaurus.Command.{ex, px_at, keep_ttl}
use thesaurus.Command.Parse.{from_resp2}
use thesaurus.Command.Arguments.{}
use thesaurus.Store.{str, peek, has_passed}
use thesaurus.Store.Strings.{get_string}
use thesaurus.Errors.{wrong_type}
use thesaurus.Executor.{reply, store_error, unix_ms_to_instant}
use thesaurus.Executor.WrongType.{execute_mismatched}
use thesaurus.Executor.Strings.{set, condition_met, set_reply}
use thesaurus.Executor.Lists
use thesaurus.Executor.Execute.{execute}
use thesaurus.Executor.Setting.{set_lem}
use thesaurus.Server.Handler.{handle, convert_expire_to_pexpireat, convert_pexpire_to_pexpireat}
use thesaurus.Server.Logging.{handle-lset, handle-expire_at}
use thesaurus.Server.Deadlines.{convert_expire_lem}
use thesaurus.Server.Aof.{sync_store_with_aof}
use thesaurus.Server.Replay.{sync_store_with_aof_lem, replay}
use thesaurus.Samples.{env, shop, server, debug}

t_found : get_string (codes "t") 5 shop ≡ ok (some (codes "text"))
unfolding get_string Map.get str_eq
t_found = refl

set_lem_example :
    ((set env (codes "t") (codes "new") none (some (px_at 8_000)) true shop).0
      ≡ reply (set_reply true (some (codes "text"))))
    × ((j : Str) (now : ℕ)
        → peek j now (set env (codes "t") (codes "new") none (some (px_at 8_000)) true shop).1 ≡ (
            if str_eq (codes "t") j
            then if has_passed now (some 1_000_000_005) then none else some (str (codes "new"))
            else peek j now shop))
unfolding condition_met unix_ms_to_instant
set_lem_example =
    set_lem env (codes "t") (codes "new") (some (codes "text")) none true shop t_found
      (some (px_at 8_000))

execute_mismatched_example :
    execute env (Command.smove (codes "a") (codes "q") (codes "m")) shop
    ≡ (reply (store_error wrong_type), shop)
execute_mismatched_example =
    execute_mismatched env (Command.smove (codes "a") (codes "q") (codes "m")) shop
      (unfold peek Map.get str_eq in refl)

abbrev lset_frame : RespValue
lset_frame = array (bulk_strings (codes "LSET" ∷ codes "q" ∷ codes "-1" ∷ codes "w" ∷ []))

handle-lset_example :
    (handle debug env 0 lset_frame server).1
    ≡ record { store = (Lists.lset env (codes "q") (negsuc 0) (codes "w") shop).1; log = some [] }
unfolding from_resp2 thesaurus.Decimal.parse_i64
handle-lset_example =
    handle-lset debug env 0 lset_frame server (codes "q") (negsuc 0) (codes "w") refl

abbrev expireat_frame : RespValue
expireat_frame = array (bulk_strings (codes "EXPIREAT" ∷ codes "t" ∷ codes "3" ∷ []))

handle-expire_at_example :
    ((handle debug env 0 expireat_frame server).0 ≡ reply (integer (pos 0)))
    × ((handle debug env 0 expireat_frame server).1.log ≡ some [])
    × ((j : Str) (t : ℕ)
        → peek j t (handle debug env 0 expireat_frame server).1.store
          ≡ (if str_eq (codes "t") j then none else peek j t shop))
unfolding from_resp2 thesaurus.Decimal.parse_unsigned
handle-expire_at_example =
    handle-expire_at debug env 0 expireat_frame server (codes "t") 3 refl (omega arith)

convert_expire_lem_example :
    ((frame : RespValue) × (decode
          (convert_expire_to_pexpireat 7_000_000_000 (codes "t") 5 ++ codes "rest")
        ≡ done (ok (frame, codes "rest")))
      × (from_resp2 frame ≡ done (ok (Command.pexpire_at (codes "t") 12_000))))
    × ((frame : RespValue) × (decode
            (convert_pexpire_to_pexpireat 7_000_000_000 (codes "t") 5 ++ codes "rest")
          ≡ done (ok (frame, codes "rest")))
        × (from_resp2 frame ≡ done (ok (Command.pexpire_at (codes "t") 7_005))))
unfolding is_utf8
convert_expire_lem_example =
    convert_expire_lem 7_000_000_000 (codes "t") (codes "rest") 5 refl (omega arith)

abbrev pub frames : Items
frames =
    cons (array (bulk_strings (codes "DEL" ∷ codes "t" ∷ [])))
      (cons (array (bulk_strings (codes "NONE" ∷ []))) nil)

pub frames-AreEncodable : AreEncodable frames
unfolding is_utf8
frames-AreEncodable = (
  (omega arith, ((omega arith, refl), ((omega arith, refl), tt))),
  ((omega arith, ((omega arith, refl), tt)), tt),
)

sync_store_with_aof_lem_example :
    sync_store_with_aof (λ i. env) (encode_items frames) shop ≡ replay (λ i. env) frames shop
sync_store_with_aof_lem_example = sync_store_with_aof_lem frames (λ i. env) shop frames-AreEncodable

abbrev later : Env
later = record env { instant = λ i. 1_000_000_000 }

expire_lem_example :
    ((expire env (codes "a") 2 shop).0 ≡ integer (pos 1))
    × (ttl later (codes "a") (expire env (codes "a") 2 shop).1 ≡ integer (pos 1))
    × (peek (codes "a") 1_000_000_000 (expire env (codes "a") 2 shop).1 ≡ some (set_value members))
    × ((persist (codes "a") (expire env (codes "a") 2 shop).1).0 ≡ integer (pos 1))
    × (ttl later (codes "a") (persist (codes "a") (expire env (codes "a") 2 shop).1).1
        ≡ integer (negsuc 0))
    × (peek (codes "a") 1_000_000_000 (persist (codes "a") (expire env (codes "a") 2 shop).1).1
        ≡ some (set_value members))
unfolding str_eq
expire_lem_example =
    expire_lem env later (codes "a") (set_value members) 2 2_000_000_005 shop
      (unfold Map.get in refl) refl

abbrev pub del_frame : RespValue
del_frame = array (bulk_strings (codes "DEL" ∷ codes "t" ∷ []))

pub del_frame-IsEncodable : IsEncodable del_frame
unfolding is_utf8
del_frame-IsEncodable = (omega arith, ((omega arith, refl), ((omega arith, refl), tt)))
