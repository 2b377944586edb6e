-- ===== src/Errors.antt =====
-- crates/thesaurus/src/errors.rs: the error types, and the texts that clients are sent.
use thesaurus.Prelude.{ℕ, Str, codes}

pub data StoreError : Type 0 where
  wrong_type out_of_index no_such_key : StoreError

-- `impl fmt::Display for StoreError`
unfoldable pub display : StoreError → Str
display wrong_type = codes "WRONGTYPE Operation against a key holding the wrong kind of value"
display out_of_index = codes "ERR index out of range"
display no_such_key = codes "ERR No such key"

pub data RespError : Type 0 where
  unknown_prefix : ℕ → RespError
  invalid_integer : Str → RespError
  invalid_utf8 : RespError
  unexpected_eof : RespError
