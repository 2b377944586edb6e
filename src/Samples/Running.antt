-- ===== src/Samples/Running.antt =====
-- Sessions, steps and states of a server.
use thesaurus.Server.Writer.{WriteOutcome, completes, stops_after}
use thesaurus.Prelude.{
  ℕ, zero, suc, ◌≡◌, refl, none, some, [], ◌∷◌, ◌++◌, arith, Str, codes, ok, done, pos,
}
use thesaurus.Utf8.{is_utf8}
use thesaurus.Resp2.{
  RespValue, simple_error, integer, bulk_string, array, bulk_strings, nil, cons, encode,
  encode_items,
}
use thesaurus.Resp2.Decode.{decode, decode_fuel}
use thesaurus.Resp2.Carried.{IsInRange, decode-IsInRange}
use thesaurus.Resp2.Termination.{TakesSome}
use thesaurus.Command
use thesaurus.Command.{ex}
use thesaurus.Command.Parse.{from_resp2}
use thesaurus.Store
use thesaurus.Store.{Store, delete_bulk}
use thesaurus.Store.Edits.{IsWellFormed}
use thesaurus.Executor.{reply}
use thesaurus.Server.Aof.{sync_loop, sync_store_with_aof}
use thesaurus.Server.Handler.{Server, handle}
use thesaurus.Server.Session.{run_handler, rounds}
use thesaurus.Server.Session.Answers.{IsAnswered, answer_all, run_handler-IsAnswered}
use thesaurus.Server.Session.Splitting.{prefix, injected, handle-splits}
use thesaurus.Server.Steps.{start, then_by, requests, evicts, Reach-IsWellFormed}
use thesaurus.Server.Termination.{loops_end}
use thesaurus.Server.Wire.{decode-encode_decoded}
use thesaurus.Samples.{env, shop, server, debug}
use thesaurus.Samples.Served.{frames, frames-AreEncodable}

abbrev empty_server : Server
empty_server = record { store = Store.new; log = some [] }

-- a socket that fails in the second reply
abbrev socket : ℕ → WriteOutcome
socket zero = completes
socket (suc i) = stops_after 2

abbrev rpush_frame : RespValue
rpush_frame = array (bulk_strings (codes "RPUSH" ∷ codes "q" ∷ codes "x" ∷ []))

abbrev pushed : Server
pushed = (handle debug env 0 rpush_frame empty_server).1

Reach-IsWellFormed_example : IsWellFormed (delete_bulk (codes "q" ∷ []) pushed.store)
Reach-IsWellFormed_example =
    Reach-IsWellFormed debug (some [])
      (record pushed { store = delete_bulk (codes "q" ∷ []) pushed.store })
      (then_by (then_by start (requests env 0 rpush_frame)) (evicts (codes "q" ∷ [])))

run_handler-IsAnswered_example :
    (run_handler socket debug (λ i. env) (λ i. 0) (encode_items frames) server
      ≡ answer_all socket debug (λ i. env) (λ i. 0) frames server)
    × IsAnswered 2 (run_handler socket debug (λ i. env) (λ i. 0) (encode_items frames) server)
run_handler-IsAnswered_example =
    run_handler-IsAnswered frames socket debug (λ i. env) (λ i. 0) server frames-AreEncodable

handle-splits_example :
    (r : RespValue) × ((handle debug env 0
        (array (bulk_strings (injected (codes "x") (integer (pos 1)) ∷ [])))
        server).0
      ≡ reply r)
    × (after_one : Str) × (after_two : Str) × (decode (encode r)
        ≡ done (ok (simple_error (prefix ++ codes "x"), after_one)))
    × (decode after_one ≡ done (ok (integer (pos 1), after_two)))
    × (decode after_two ≡ done (ok (simple_error (codes "'"), [])))
unfolding is_utf8
handle-splits_example =
    handle-splits debug env 0 server (codes "x") (integer (pos 1)) [] ((omega arith, tt), refl)
      (omega arith)

abbrev two_values : Str
two_values = codes ":5\r\n*1\r\n:6\r\n"

loops_end_example :
    (decode_fuel 50 two_values ≡ decode two_values)
    × TakesSome two_values (decode two_values)
    × (sync_loop 50 (λ i. env) two_values shop ≡ sync_store_with_aof (λ i. env) two_values shop)
    × (rounds 50 socket debug (λ i. env) (λ i. 0) two_values server
        ≡ run_handler socket debug (λ i. env) (λ i. 0) two_values server)
loops_end_example =
    loops_end debug socket (λ i. env) (λ i. 0) 50 two_values shop server (omega arith)

abbrev pair : RespValue
pair = array (cons (integer (pos 6)) (cons (bulk_string (some (codes "hi"))) nil))

decode-IsInRange_example : IsInRange pair
decode-IsInRange_example =
    decode-IsInRange (codes "*2\r\n:6\r\n$2\r\nhi\r\nrest") (codes "rest") pair decoded
  where
    decoded : decode (codes "*2\r\n:6\r\n$2\r\nhi\r\nrest") ≡ done (ok (pair, codes "rest"))
    decoded = unfold decode is_utf8 thesaurus.Decimal.parse_i64 in refl

abbrev ping : Str
ping = codes "*1\r\n$4\r\nPING\r\n"

abbrev ping_frame : RespValue
ping_frame = array (bulk_strings (codes "PING" ∷ []))

decode-encode_decoded_example :
    decode (encode ping_frame ++ codes "log") ≡ done (ok (ping_frame, codes "log"))
decode-encode_decoded_example =
    decode-encode_decoded ping [] (codes "log") ping_frame (Command.ping none) decoded parsed
  where
    decoded : decode ping ≡ done (ok (ping_frame, []))
    decoded = unfold decode is_utf8 thesaurus.Decimal.parse_i64 in refl

    parsed : from_resp2 ping_frame ≡ done (ok (Command.ping none))
    parsed = unfold from_resp2 in refl
