-- ===== src/Server/Deadlines.antt =====
-- EXPIRE and PEXPIRE in the append-only file: the frames of `convert_expire_to_pexpireat` and
-- `convert_pexpire_to_pexpireat` in resp2.rs, read back.
use thesaurus.Prelude.{
  ℕ, ◌+◌, ◌≤◌, ◌≡◌, refl, ◌%◌, ◌^◌, true, some, [], ◌∷◌, ◌++◌, arith, Str, codes, ok, done, length,
}
use thesaurus.Decimal.{print, max_u64}
use thesaurus.Decimal.RoundTrip.{parse_unsigned-print}
use thesaurus.Decimal.Size.{length-print}
use thesaurus.Utf8.{is_utf8}
use thesaurus.Resp2.{RespValue, array, bulk_string, bulk_strings}
use thesaurus.Resp2.Decode.{decode, isize_max}
use thesaurus.Resp2.Lines.{print-IsHeader}
use thesaurus.Resp2.RoundTrip.{IsEncodable, decode-encode}
use thesaurus.Command.{Command}
use thesaurus.Command.Parse.{from_resp2, texts, parse_texts, parse_by_name}
use thesaurus.Command.Arguments.{parse_expire_commands, check_arity}
use thesaurus.Server.Handler.{
  pexpireat_frame, convert_expire_to_pexpireat, convert_pexpire_to_pexpireat, now_ms,
  saturating_mul,
}

-- the value that the frame encodes
abbrev pub pexpireat : Str → ℕ → RespValue
pexpireat key deadline_ms = array (bulk_strings (codes "PEXPIREAT" ∷ key ∷ print deadline_ms ∷ []))

pub from_resp2-pexpireat :
    (key : Str) (d : ℕ)
    → d ≤ max_u64
    → from_resp2 (pexpireat key d) ≡ done (ok (Command.pexpire_at key d))
from_resp2-pexpireat key d h =
    unfold from_resp2 texts parse_texts parse_by_name parse_expire_commands check_arity in
    rw (parse_unsigned-print max_u64 d h)

pub pexpireat-IsEncodable :
    (key : Str) (d : ℕ)
    → d ≤ max_u64
    → IsEncodable (bulk_string (some key))
    → IsEncodable (pexpireat key d)
pexpireat-IsEncodable key d h k = (omega arith, (name, (k, (deadline, tt))))
  where
    name : IsEncodable (bulk_string (some (codes "PEXPIREAT")))
    name = (omega arith, unfold is_utf8 in refl)

    deadline : IsEncodable (bulk_string (some (print d)))
    deadline = (omega (arith, length-print d h), (print-IsHeader d).1)

-- The frame that the log gets for EXPIRE, and the one for PEXPIRE, decodes, whatever comes behind
-- it, to the command PEXPIREAT of the key, with the deadline in milliseconds since the Unix epoch:
-- the time now and the seconds (their thousandfold at most the largest `u64`) or the milliseconds
-- together, modulo 2 ^ 64.
pub convert_expire_lem :
    (system : ℕ) (key rest : Str) (n : ℕ)
    → is_utf8 key ≡ true
    → length key + 2 ≤ isize_max
    → ((frame : RespValue) × (decode (convert_expire_to_pexpireat system key n ++ rest)
          ≡ done (ok (frame, rest)))
        × (from_resp2 frame
            ≡ done
                (ok (Command.pexpire_at key ((now_ms system + saturating_mul n 1000) % 2 ^ 64)))))
      × ((frame : RespValue) × (decode (convert_pexpire_to_pexpireat system key n ++ rest)
            ≡ done (ok (frame, rest)))
          × (from_resp2 frame ≡ done (ok (Command.pexpire_at key ((now_ms system + n) % 2 ^ 64)))))
convert_expire_lem system key rest n u l = (
  readable (now_ms system + saturating_mul n 1000) (unfold convert_expire_to_pexpireat in refl),
  readable (now_ms system + n) (unfold convert_pexpire_to_pexpireat in refl),
)
  where
    readable :
        (d : ℕ) {bytes : Str}
        → bytes ≡ pexpireat_frame key (d % 2 ^ 64)
        → (frame : RespValue) × (decode (bytes ++ rest) ≡ done (ok (frame, rest)))
          × (from_resp2 frame ≡ done (ok (Command.pexpire_at key (d % 2 ^ 64))))
    readable d e = (
      pexpireat key (d % 2 ^ 64),
      rw e (
          decode-encode (pexpireat key (d % 2 ^ 64)) rest
            (pexpireat-IsEncodable key (d % 2 ^ 64) (omega arith) (l, u))),
      from_resp2-pexpireat key (d % 2 ^ 64) (omega arith),
    )
