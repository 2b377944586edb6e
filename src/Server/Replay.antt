-- ===== src/Server/Replay.antt =====
-- The append-only file read back: the loop of `sync_store_with_aof` on a file of whole frames.
use thesaurus.Prelude.{
  ℕ, zero, suc, ◌≤◌, ◌≡◌, refl, Option, none, some, arith, length, length-append,
}
use thesaurus.Resp2.{
  RespValue, encode, encode_items, Items, nil, cons, simple_string, simple_error, integer,
  bulk_string, null_array, array,
}
use thesaurus.Resp2.Decode.{decode}
use thesaurus.Resp2.RoundTrip.{AreEncodable, decode-encode}
use thesaurus.Command.Parse.{from_resp2}
use thesaurus.Store.{Store}
use thesaurus.Executor.{Env}
use thesaurus.Server.Aof.{
  Synced, synced, apply_frame, unless_crashed, sync_loop, sync_store_with_aof,
}

-- the frames executed in turn
unfoldable pub replay : (ℕ → Env) → Items → Store → Synced
unfolding from_resp2 apply_frame
replay env nil s = synced s
replay env (cons v vs) s =
    unless_crashed (apply_frame (env 0) (from_resp2 v) s) (replay (λ i. env (suc i)) vs)

pub encode_size : (v : RespValue) → 1 ≤ length (encode v)
unfolding encode
encode_size (simple_string s) = omega arith
encode_size (simple_error s) = omega arith
encode_size (integer z) = omega arith
encode_size (bulk_string none) = omega arith
encode_size (bulk_string (some s)) = omega arith
encode_size null_array = omega arith
encode_size (array nil) = omega arith
encode_size (array (cons v vs)) = omega arith

pub unless_crashed_lem :
    (o : Option Store) (f g : Store → Synced)
    → ((s : Store) → f s ≡ g s)
    → unless_crashed o f ≡ unless_crashed o g
unless_crashed_lem none f g h = refl
unless_crashed_lem (some s) f g h = h s

sync_loop-encode_items :
    (vs : Items) (fuel : ℕ) (env : ℕ → Env) (s : Store)
    → AreEncodable vs
    → length (encode_items vs) ≤ fuel
    → sync_loop fuel env (encode_items vs) s ≡ replay env vs s
unfolding sync_loop encode_items replay
sync_loop-encode_items nil zero env s h l = refl
sync_loop-encode_items nil (suc fuel) env s h l = unfold decode in refl
sync_loop-encode_items (cons v vs) zero env s h l =
    absurd (omega (arith, length-append {0} (encode v) (encode_items vs), encode_size v))
sync_loop-encode_items (cons v vs) (suc fuel) env s h l =
    rw (decode-encode v (encode_items vs) h.0) (
      unless_crashed_lem (apply_frame (env 0) (from_resp2 v) s) _ _ λ s'.
        sync_loop-encode_items vs fuel (λ i. env (suc i)) s' h.1
          (omega (arith, length-append {0} (encode v) (encode_items vs), encode_size v)))

-- The replay of a file that is the encodings of values one after the other, of values that the
-- protocol can carry, is their execution one after the other, each a command, passed over if it is
-- none, up to the first that panics; it reads to the end of the file.
pub sync_store_with_aof_lem :
    (vs : Items) (env : ℕ → Env) (s : Store)
    → AreEncodable vs
    → sync_store_with_aof env (encode_items vs) s ≡ replay env vs s
unfolding sync_store_with_aof
sync_store_with_aof_lem vs env s h =
    sync_loop-encode_items vs (length (encode_items vs)) env s h (omega arith)
