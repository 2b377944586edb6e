-- ===== src/Command/Requests.antt =====
-- The request that a client sends for each command.
use thesaurus.Prelude.{
  ◌≤◌, ◌≡◌, Bool, true, false, Option, none, some, List, [], ◌∷◌, ◌++◌, Str, codes, length, leb,
}
use thesaurus.Decimal.{print, print_ℤ, print_hex, max_u64}
use thesaurus.Decimal.RoundTrip.{IsI64}
use thesaurus.Command.{
  Command, sync, async, SetCondition, nx, xx, if_eq, if_ne, if_deq, if_dne, SetExpiry, ex, px,
  ex_at, px_at, keep_ttl,
}
use thesaurus.Command.Arguments.{}

abbrev pub unpaired : List (Str × Str) → List Str
unpaired [] = []
unpaired ((k, v) ∷ items) = k ∷ v ∷ unpaired items

-- A digest is sent as DIGEST replies with it.
abbrev pub condition_args : Option SetCondition → List Str
condition_args none = []
condition_args (some nx) = codes "NX" ∷ []
condition_args (some xx) = codes "XX" ∷ []
condition_args (some (if_eq s)) = codes "IFEQ" ∷ s ∷ []
condition_args (some (if_ne s)) = codes "IFNE" ∷ s ∷ []
condition_args (some (if_deq n)) = codes "IFDEQ" ∷ print_hex 16 n [] ∷ []
condition_args (some (if_dne n)) = codes "IFDNE" ∷ print_hex 16 n [] ∷ []

abbrev pub expiry_args : Option SetExpiry → List Str
expiry_args none = []
expiry_args (some (ex n)) = codes "EX" ∷ print n ∷ []
expiry_args (some (px n)) = codes "PX" ∷ print n ∷ []
expiry_args (some (ex_at n)) = codes "EXAT" ∷ print n ∷ []
expiry_args (some (px_at n)) = codes "PXAT" ∷ print n ∷ []
expiry_args (some keep_ttl) = codes "KEEPTTL" ∷ []

abbrev pub get_args : Bool → List Str
get_args true = codes "GET" ∷ []
get_args false = []

-- the texts of a request: the command's name, and the arguments
abbrev pub request_name : Command → Str
request_name (Command.get key) = codes "GET"
request_name (Command.get_del key) = codes "GETDEL"
request_name (Command.strlen key) = codes "STRLEN"
request_name (Command.llen key) = codes "LLEN"
request_name (Command.smembers key) = codes "SMEMBERS"
request_name (Command.scard key) = codes "SCARD"
request_name (Command.ttl key) = codes "TTL"
request_name (Command.pttl key) = codes "PTTL"
request_name (Command.expire_time key) = codes "EXPIRETIME"
request_name (Command.pexpire_time key) = codes "PEXPIRETIME"
request_name (Command.persist key) = codes "PERSIST"
request_name (Command.keys key) = codes "KEYS"
request_name (Command.digest key) = codes "DIGEST"
request_name (Command.delete keys) = codes "DEL"
request_name (Command.exists keys) = codes "EXISTS"
request_name (Command.mget keys) = codes "MGET"
request_name (Command.lpush key elements) = codes "LPUSH"
request_name (Command.rpush key elements) = codes "RPUSH"
request_name (Command.lpushx key elements) = codes "LPUSHX"
request_name (Command.rpushx key elements) = codes "RPUSHX"
request_name (Command.sadd key elements) = codes "SADD"
request_name (Command.smismember key elements) = codes "SMISMEMBER"
request_name (Command.srem key elements) = codes "SREM"
request_name (Command.lpop key none) = codes "LPOP"
request_name (Command.lpop key (some count)) = codes "LPOP"
request_name (Command.rpop key none) = codes "RPOP"
request_name (Command.rpop key (some count)) = codes "RPOP"
request_name (Command.spop key none) = codes "SPOP"
request_name (Command.spop key (some count)) = codes "SPOP"
request_name (Command.srandmember key none) = codes "SRANDMEMBER"
request_name (Command.srandmember key (some count)) = codes "SRANDMEMBER"
request_name (Command.ping none) = codes "PING"
request_name (Command.ping (some message)) = codes "PING"
request_name (Command.lset key index element) = codes "LSET"
request_name (Command.lindex key index) = codes "LINDEX"
request_name (Command.lrange key start stop) = codes "LRANGE"
request_name (Command.sismember key member) = codes "SISMEMBER"
request_name (Command.smove source destination member) = codes "SMOVE"
request_name (Command.expire key n) = codes "EXPIRE"
request_name (Command.pexpire key n) = codes "PEXPIRE"
request_name (Command.expire_at key n) = codes "EXPIREAT"
request_name (Command.pexpire_at key n) = codes "PEXPIREAT"
request_name (Command.select index) = codes "SELECT"
request_name Command.db_size = codes "DBSIZE"
request_name (Command.flush_db none) = codes "FLUSHDB"
request_name (Command.flush_db (some sync)) = codes "FLUSHDB"
request_name (Command.flush_db (some async)) = codes "FLUSHDB"
request_name (Command.mset items) = codes "MSET"
request_name (Command.set key value condition expiry get) = codes "SET"

abbrev pub request_args : Command → List Str
request_args (Command.get key) = key ∷ []
request_args (Command.get_del key) = key ∷ []
request_args (Command.strlen key) = key ∷ []
request_args (Command.llen key) = key ∷ []
request_args (Command.smembers key) = key ∷ []
request_args (Command.scard key) = key ∷ []
request_args (Command.ttl key) = key ∷ []
request_args (Command.pttl key) = key ∷ []
request_args (Command.expire_time key) = key ∷ []
request_args (Command.pexpire_time key) = key ∷ []
request_args (Command.persist key) = key ∷ []
request_args (Command.keys key) = key ∷ []
request_args (Command.digest key) = key ∷ []
request_args (Command.delete keys) = keys
request_args (Command.exists keys) = keys
request_args (Command.mget keys) = keys
request_args (Command.lpush key elements) = key ∷ elements
request_args (Command.rpush key elements) = key ∷ elements
request_args (Command.lpushx key elements) = key ∷ elements
request_args (Command.rpushx key elements) = key ∷ elements
request_args (Command.sadd key elements) = key ∷ elements
request_args (Command.smismember key elements) = key ∷ elements
request_args (Command.srem key elements) = key ∷ elements
request_args (Command.lpop key none) = key ∷ []
request_args (Command.lpop key (some count)) = key ∷ print count ∷ []
request_args (Command.rpop key none) = key ∷ []
request_args (Command.rpop key (some count)) = key ∷ print count ∷ []
request_args (Command.spop key none) = key ∷ []
request_args (Command.spop key (some count)) = key ∷ print count ∷ []
request_args (Command.srandmember key none) = key ∷ []
request_args (Command.srandmember key (some count)) = key ∷ print_ℤ count ∷ []
request_args (Command.ping none) = []
request_args (Command.ping (some message)) = message ∷ []
request_args (Command.lset key index element) = key ∷ print_ℤ index ∷ element ∷ []
request_args (Command.lindex key index) = key ∷ print_ℤ index ∷ []
request_args (Command.lrange key start stop) = key ∷ print_ℤ start ∷ print_ℤ stop ∷ []
request_args (Command.sismember key member) = key ∷ member ∷ []
request_args (Command.smove source destination member) = source ∷ destination ∷ member ∷ []
request_args (Command.expire key n) = key ∷ print n ∷ []
request_args (Command.pexpire key n) = key ∷ print n ∷ []
request_args (Command.expire_at key n) = key ∷ print n ∷ []
request_args (Command.pexpire_at key n) = key ∷ print n ∷ []
request_args (Command.select index) = print index ∷ []
request_args Command.db_size = []
request_args (Command.flush_db none) = []
request_args (Command.flush_db (some sync)) = codes "SYNC" ∷ []
request_args (Command.flush_db (some async)) = codes "ASYNC" ∷ []
request_args (Command.mset items) = unpaired items
request_args (Command.set key value condition expiry get) =
    key ∷ value ∷ condition_args condition ++ (get_args get ++ expiry_args expiry)

abbrev pub condition_fits : Option SetCondition → Bool
condition_fits (some (if_deq n)) = leb n max_u64
condition_fits (some (if_dne n)) = leb n max_u64
condition_fits _ = true

abbrev pub fits : Option SetExpiry → Bool
fits none = true
fits (some keep_ttl) = true
fits (some (ex n)) = leb n max_u64
fits (some (px n)) = leb n max_u64
fits (some (ex_at n)) = leb n max_u64
fits (some (px_at n)) = leb n max_u64

-- What a client can send: numbers in the range of their type, and no empty list of arguments.
abbrev pub IsSendable : Command → Type 0
IsSendable (Command.get key) = Unit
IsSendable (Command.get_del key) = Unit
IsSendable (Command.strlen key) = Unit
IsSendable (Command.llen key) = Unit
IsSendable (Command.smembers key) = Unit
IsSendable (Command.scard key) = Unit
IsSendable (Command.ttl key) = Unit
IsSendable (Command.pttl key) = Unit
IsSendable (Command.expire_time key) = Unit
IsSendable (Command.pexpire_time key) = Unit
IsSendable (Command.persist key) = Unit
IsSendable (Command.keys key) = Unit
IsSendable (Command.digest key) = Unit
IsSendable (Command.delete keys) = 1 ≤ length keys
IsSendable (Command.exists keys) = 1 ≤ length keys
IsSendable (Command.mget keys) = 1 ≤ length keys
IsSendable (Command.lpush key elements) = 1 ≤ length elements
IsSendable (Command.rpush key elements) = 1 ≤ length elements
IsSendable (Command.lpushx key elements) = 1 ≤ length elements
IsSendable (Command.rpushx key elements) = 1 ≤ length elements
IsSendable (Command.sadd key elements) = 1 ≤ length elements
IsSendable (Command.smismember key elements) = 1 ≤ length elements
IsSendable (Command.srem key elements) = 1 ≤ length elements
IsSendable (Command.lpop key none) = Unit
IsSendable (Command.lpop key (some count)) = count ≤ max_u64
IsSendable (Command.rpop key none) = Unit
IsSendable (Command.rpop key (some count)) = count ≤ max_u64
IsSendable (Command.spop key none) = Unit
IsSendable (Command.spop key (some count)) = count ≤ max_u64
IsSendable (Command.srandmember key none) = Unit
IsSendable (Command.srandmember key (some count)) = IsI64 count
IsSendable (Command.ping none) = Unit
IsSendable (Command.ping (some message)) = Unit
IsSendable (Command.lset key index element) = IsI64 index
IsSendable (Command.lindex key index) = IsI64 index
IsSendable (Command.lrange key start stop) = IsI64 start × IsI64 stop
IsSendable (Command.sismember key member) = Unit
IsSendable (Command.smove source destination member) = Unit
IsSendable (Command.expire key n) = n ≤ max_u64
IsSendable (Command.pexpire key n) = n ≤ max_u64
IsSendable (Command.expire_at key n) = n ≤ max_u64
IsSendable (Command.pexpire_at key n) = n ≤ max_u64
IsSendable (Command.select index) = index ≤ 255
IsSendable Command.db_size = Unit
IsSendable (Command.flush_db none) = Unit
IsSendable (Command.flush_db (some sync)) = Unit
IsSendable (Command.flush_db (some async)) = Unit
IsSendable (Command.mset items) = 1 ≤ length items
IsSendable (Command.set key value condition expiry get) =
    (condition_fits condition ≡ true) × (fits expiry ≡ true)
