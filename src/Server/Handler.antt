-- ===== src/Server/Handler.antt =====
-- One round of the loop in `Handler::run_handler`, from the decoded value to the response. The log
-- is the bytes of the append-only file, which takes each entry here.
use thesaurus.Prelude.{
  ℕ, zero, ◌+◌, ◌*◌, ◌/◌, ◌%◌, ◌^◌, Bool, true, false, ◌&&◌, Option, none, some, [], ◌∷◌, ◌++◌, Str,
  codes, Result, ok, err, Outcome, done, panicked, poisoned, ltb, if◌then◌else◌, pos,
}
use thesaurus.Decimal.{print, max_u64}
use thesaurus.Resp2.{RespValue, simple_error, integer, array, bulk_strings, encode}
use thesaurus.Command.{
  HandlerError, unknown_command, unexpected_type, wrong_arity, not_an_integer,
  db_index_out_of_range, syntax_error, Command, is_write, an_array, a_bulk_string,
}
use thesaurus.Command.Parse.{from_resp2}
use thesaurus.Store.{Store}
use thesaurus.Executor.{Env, Response, reply, panic, poison, nanos_per_milli}
use thesaurus.Executor.Execute.{execute}

-- The frame `PEXPIREAT key deadline_ms`.
abbrev pub pexpireat_frame : Str → ℕ → Str
pexpireat_frame key deadline_ms =
    encode (array (bulk_strings (codes "PEXPIREAT" ∷ key ∷ print deadline_ms ∷ [])))

-- `convert_expire_to_pexpireat` and `convert_pexpire_to_pexpireat`, at the time `system` since the
-- Unix epoch. The sums of `u64`s wrap, as they do in a release build.
abbrev pub now_ms : ℕ → ℕ
now_ms system = system / nanos_per_milli % 2 ^ 64

abbrev pub saturating_mul : ℕ → ℕ → ℕ
saturating_mul a b = if ltb max_u64 (a * b) then max_u64 else a * b

unfoldable pub convert_expire_to_pexpireat : ℕ → Str → ℕ → Str
unfolding encode print
convert_expire_to_pexpireat system key seconds =
    pexpireat_frame key ((now_ms system + saturating_mul seconds 1000) % 2 ^ 64)

unfoldable pub convert_pexpire_to_pexpireat : ℕ → Str → ℕ → Str
unfolding encode print
convert_pexpire_to_pexpireat system key milliseconds =
    pexpireat_frame key ((now_ms system + milliseconds) % 2 ^ 64)

-- `Debug` of a value, which is derived, is an argument.
unfoldable pub display_handler_error : (RespValue → Str) → HandlerError → Str
display_handler_error debug (unexpected_type an_array got) =
    codes "unexpected type: expected 'Array', got '" ++ (debug got ++ codes "'")
display_handler_error debug (unexpected_type a_bulk_string got) =
    codes "unexpected type: expected 'BulkString', got '" ++ (debug got ++ codes "'")
display_handler_error debug (unknown_command s) = codes "unknown command: '" ++ (s ++ codes "'")
display_handler_error debug (wrong_arity expected got) =
    codes "wrong number of arguments: expected "
    ++ (print expected ++ (codes ", got " ++ print got))
display_handler_error debug (not_an_integer s) = codes "not an integer: '" ++ (s ++ codes "'")
display_handler_error debug db_index_out_of_range = codes "ERR DB index is out of range"
display_handler_error debug syntax_error = codes "ERR syntax error"

-- the response to a command that was not parsed
unfoldable pub parse_error : (RespValue → Str) → HandlerError → RespValue
unfolding display_handler_error
parse_error debug (unknown_command s) =
    simple_error (codes "ERR unknown command '" ++ (s ++ codes "'"))
parse_error debug e = simple_error (display_handler_error debug e)

-- neither a `SimpleError` nor `Integer(0)`
unfoldable pub is_logged_reply : RespValue → Bool
is_logged_reply (simple_error _) = false
is_logged_reply (integer (pos zero)) = false
is_logged_reply _ = true

-- What goes to the log: the frame received, but for the two commands with a relative expiry.
unfoldable pub log_entry : ℕ → Command → RespValue → Str
unfolding convert_expire_to_pexpireat convert_pexpire_to_pexpireat
log_entry system (Command.expire key seconds) frame = convert_expire_to_pexpireat system key seconds
log_entry system (Command.pexpire key milliseconds) frame =
    convert_pexpire_to_pexpireat system key milliseconds
log_entry system _ frame = encode frame

-- The log after a command's response. `none` is a server without an append-only file.
unfoldable pub append_if : ℕ → Command → RespValue → RespValue → Option Str → Option Str
unfolding is_write is_logged_reply log_entry
append_if system cmd frame response none = none
append_if system cmd frame response (some log) =
    if is_write cmd && is_logged_reply response
    then some (log ++ log_entry system cmd frame)
    else some log

pub record Server : Type 0 where
  pub store : Store
  pub log : Option Str

-- The clock is read once more for the log, at `logged_at`.
abbrev pub respond : ℕ → Command → RespValue → Option Str → Response × Store → Response × Server
respond logged_at cmd frame log (reply response, s) =
    (reply response, record { store = s; log = append_if logged_at cmd frame response log })
respond logged_at cmd frame log (panic, s) = (panic, record { store = s; log = log })
respond logged_at cmd frame log (poison, s) = (poison, record { store = s; log = log })

abbrev pub handle_parsed :
    (RespValue → Str)
    → Env
    → ℕ
    → RespValue
    → Outcome (Result HandlerError Command)
    → Server
    → Response × Server
handle_parsed debug env logged_at frame (done (ok cmd)) server =
    respond logged_at cmd frame server.log (execute env cmd server.store)
handle_parsed debug env logged_at frame (done (err e)) server =
    (reply (parse_error debug e), server)
handle_parsed debug env logged_at frame panicked server = (panic, server)
handle_parsed debug env logged_at frame poisoned server = (poison, server)

unfoldable pub handle : (RespValue → Str) → Env → ℕ → RespValue → Server → Response × Server
unfolding from_resp2 execute append_if parse_error
handle debug env logged_at frame server =
    handle_parsed debug env logged_at frame (from_resp2 frame) server
