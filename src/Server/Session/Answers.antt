-- ===== src/Server/Session/Answers.antt =====
-- Every request of a client is answered, in order.
use mathlib.Core.List.{append_assoc}
use thesaurus.Server.Writer.{WriteOutcome, completes, stops_after}
use thesaurus.Prelude.{
  take, sym, ◌∙◌, ℕ, zero, suc, ◌≤◌, ◌<◌, ◌≡◌, refl, ap, ◌⊎◌, inl, inr, [], ◌++◌, arith, Str,
  length, length-append,
}
use thesaurus.Resp2.{RespValue, Items, nil, cons, count, encode, encode_items}
use thesaurus.Resp2.Decode.{decode}
use thesaurus.Resp2.RoundTrip.{AreEncodable, decode-encode}
use thesaurus.Executor.{Env, Response, reply, panic, poison}
use thesaurus.Server.Handler.{Server, handle}
use thesaurus.Server.Replay.{encode_size}
use thesaurus.Server.Session.{
  Ended, Session, disconnected, broken, died, send_response, send_or_die, rounds, run_handler,
}

-- How a session of `n` requests ends after `replied` whole replies and `rest` of one more: all are
-- answered and the client closed the connection, the task died, or the socket failed in a reply.
abbrev pub Finish : ℕ → ℕ → Str → Ended → Type 0
Finish n replied rest ended =
    ((ended ≡ disconnected) × (replied ≡ n) × (rest ≡ []))
    ⊎ (((ended ≡ died) × (replied < n) × (rest ≡ []))
        ⊎ ((ended ≡ broken)
            × (replied < n)
            × ((v : RespValue) × (k : ℕ) × (rest ≡ take k (encode v)))))

abbrev pub IsAnswered : ℕ → Session → Type 0
IsAnswered n session =
    (replies : Items) × (rest : Str) × (session.sent ≡ encode_items replies ++ rest)
    × Finish n (count replies) rest session.ended

one_later :
    (n replied : ℕ) (rest : Str) (ended : Ended)
    → Finish n replied rest ended
    → Finish (suc n) (suc replied) rest ended
one_later n replied rest ended (inl (d, c, r)) = inl (d, omega arith, r)
one_later n replied rest ended (inr (inl (d, c, r))) = inr (inl (d, omega arith, r))
one_later n replied rest ended (inr (inr (d, c, r))) = inr (inr (d, omega arith, r))

one_more :
    (n : ℕ) (v : RespValue) (continue : Server → Session) (server : Server)
    → IsAnswered n (continue server)
    → IsAnswered (suc n) (send_response completes v continue server)
unfolding encode_items
one_more n v continue server (replies, rest, e, end) = (
  cons v replies,
  rest,
  ap (λ s. encode v ++ s) e ∙ sym (append_assoc (encode v) (encode_items replies) rest),
  one_later n (count replies) rest (continue server).ended end,
)

send_or_die-IsAnswered :
    (n : ℕ) (socket : WriteOutcome) (r : Response × Server) (continue : Server → Session)
    → ((server : Server) → IsAnswered n (continue server))
    → IsAnswered (suc n) (send_or_die socket r continue)
unfolding encode_items
send_or_die-IsAnswered n completes (reply v, server) continue h =
    one_more n v continue server (h server)
send_or_die-IsAnswered n (stops_after k) (reply v, server) continue h =
    (nil, take k (encode v), refl, inr (inr (refl, omega arith, (v, k, refl))))
send_or_die-IsAnswered n socket (panic, server) continue h =
    (nil, [], refl, inr (inl (refl, omega arith, refl)))
send_or_die-IsAnswered n socket (poison, server) continue h =
    (nil, [], refl, inr (inl (refl, omega arith, refl)))

-- the requests handled one after the other
unfoldable pub answer_all :
    (ℕ → WriteOutcome) → (RespValue → Str) → (ℕ → Env) → (ℕ → ℕ) → Items → Server → Session
unfolding handle
answer_all socket debug env at nil server = record {
  ended = disconnected;
  sent = [];
  server = server;
}
answer_all socket debug env at (cons frame frames) server =
    send_or_die (socket 0) (handle debug (env 0) (at 0) frame server)
      (answer_all (λ i. socket (suc i)) debug (λ i. env (suc i)) (λ i. at (suc i)) frames)

answer_all-IsAnswered :
    (frames : Items) (socket : ℕ → WriteOutcome) (debug : RespValue → Str) (env : ℕ → Env)
    (at : ℕ → ℕ) (server : Server)
    → IsAnswered (count frames) (answer_all socket debug env at frames server)
unfolding answer_all encode_items
answer_all-IsAnswered nil socket debug env at server = (nil, [], refl, inl (refl, refl, refl))
answer_all-IsAnswered (cons v frames) socket debug env at server =
    send_or_die-IsAnswered (count frames) (socket 0) (handle debug (env 0) (at 0) v server) _ λ s.
      answer_all-IsAnswered frames (λ i. socket (suc i)) debug (λ i. env (suc i)) (λ i. at (suc i))
        s

abbrev sent_before : RespValue → Session → Session
sent_before v session = record session { sent = encode v ++ session.sent }

pub send_or_die_lem :
    (socket : WriteOutcome) (r : Response × Server) (f g : Server → Session)
    → ((server : Server) → f server ≡ g server)
    → send_or_die socket r f ≡ send_or_die socket r g
send_or_die_lem completes (reply v, server) f g h = ap (sent_before v) (h server)
send_or_die_lem (stops_after n) (reply v, server) f g h = refl
send_or_die_lem socket (panic, server) f g h = refl
send_or_die_lem socket (poison, server) f g h = refl

rounds-encode_items :
    (frames : Items) (fuel : ℕ) (socket : ℕ → WriteOutcome) (debug : RespValue → Str)
    (env : ℕ → Env) (at : ℕ → ℕ) (server : Server)
    → AreEncodable frames
    → length (encode_items frames) ≤ fuel
    → rounds fuel socket debug env at (encode_items frames) server
      ≡ answer_all socket debug env at frames server
unfolding rounds encode_items answer_all
rounds-encode_items nil zero socket debug env at server h l = refl
rounds-encode_items nil (suc fuel) socket debug env at server h l = unfold decode in refl
rounds-encode_items (cons v frames) zero socket debug env at server h l =
    absurd (omega (arith, length-append {0} (encode v) (encode_items frames), encode_size v))
rounds-encode_items (cons v frames) (suc fuel) socket debug env at server h l =
    rw (decode-encode v (encode_items frames) h.0) (
      send_or_die_lem (socket 0) (handle debug (env 0) (at 0) v server) _ _ λ s.
        rounds-encode_items frames fuel (λ i. socket (suc i)) debug (λ i. env (suc i))
          (λ i. at (suc i)) s h.1
          (omega (arith, length-append {0} (encode v) (encode_items frames), encode_size v)))

-- A client that sends requests that the protocol can carry, one after the other without waiting, and
-- closes the connection: the requests are handled in that order, each on the server that the one
-- before left, up to one at which the task panics or the socket fails; and the client is sent the
-- encodings of replies, one for each request if neither happens, and otherwise fewer, with a part of
-- one more if the socket fails.
pub run_handler-IsAnswered :
    (frames : Items) (socket : ℕ → WriteOutcome) (debug : RespValue → Str) (env : ℕ → Env)
    (at : ℕ → ℕ) (server : Server)
    → AreEncodable frames
    → (run_handler socket debug env at (encode_items frames) server
        ≡ answer_all socket debug env at frames server)
      × IsAnswered (count frames) (run_handler socket debug env at (encode_items frames) server)
run_handler-IsAnswered frames socket debug env at server h =
    (same, rw same (answer_all-IsAnswered frames socket debug env at server))
  where
    same :
        run_handler socket debug env at (encode_items frames) server
        ≡ answer_all socket debug env at frames server
    same =
        unfold run_handler in
        rounds-encode_items frames (length (encode_items frames)) socket debug env at server h
          (omega arith)
