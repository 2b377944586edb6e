-- ===== src/Server/Termination.antt =====
-- The loops over the frames of a file and of a connection end: each round takes a byte at least.
use thesaurus.Prelude.{
  ℕ, zero, suc, ◌≤◌, ◌≡◌, refl, [], ◌∷◌, arith, Str, ok, err, done, panicked, poisoned, length,
}
use thesaurus.Errors.{unknown_prefix, invalid_integer, invalid_utf8, unexpected_eof}
use thesaurus.Resp2.{RespValue}
use thesaurus.Resp2.Decode.{Decoded, decode_fuel, decode}
use thesaurus.Resp2.Termination.{LeavesAtMost, decode-LeavesAtMost, TakesSome, decode_fuel_lem}
use thesaurus.Command.Parse.{from_resp2}
use thesaurus.Store.{Store}
use thesaurus.Executor.{Env, Response}
use thesaurus.Server.Aof.{Synced, apply_frame, sync_step, sync_loop, sync_store_with_aof}
use thesaurus.Server.Handler.{Server, handle}
use thesaurus.Server.Writer.{WriteOutcome}
use thesaurus.Server.Replay.{unless_crashed_lem}
use thesaurus.Server.Session.Answers.{send_or_die_lem}
use thesaurus.Server.Session.{Session, serve, rounds, run_handler}

sync_step_congruent :
    (n : ℕ) (env : Env) (r : Decoded RespValue) (s : Store) (f g : Str → Store → Synced)
    → LeavesAtMost n r
    → ((t : Str) (s' : Store) → length t ≤ n → f t s' ≡ g t s')
    → sync_step env r s f ≡ sync_step env r s g
sync_step_congruent n env (done (ok (v, rest))) s f g l h =
    unless_crashed_lem (apply_frame env (from_resp2 v) s) (f rest) (g rest) λ s'. h rest s' l
sync_step_congruent n env (done (err unexpected_eof)) s f g l h = refl
sync_step_congruent n env (done (err (unknown_prefix c))) s f g l h = refl
sync_step_congruent n env (done (err (invalid_integer t))) s f g l h = refl
sync_step_congruent n env (done (err invalid_utf8)) s f g l h = refl
sync_step_congruent n env panicked s f g l h = refl
sync_step_congruent n env poisoned s f g l h = refl

pub sync_loop_congruent :
    (f g : ℕ) (env : ℕ → Env) (file : Str) (s : Store)
    → length file ≤ f
    → length file ≤ g
    → sync_loop f env file s ≡ sync_loop g env file s
unfolding sync_loop
sync_loop_congruent zero zero env [] s h k = refl
sync_loop_congruent zero (suc g) env [] s h k = unfold decode in refl
sync_loop_congruent (suc f) zero env [] s h k = unfold decode in refl
sync_loop_congruent (suc f) (suc g) env [] s h k = unfold decode in refl
sync_loop_congruent zero g env (c ∷ file) s h k = absurd (omega arith)
sync_loop_congruent f zero env (c ∷ file) s h k = absurd (omega arith)
sync_loop_congruent (suc f) (suc g) env (c ∷ file) s h k =
    sync_step_congruent (length file) (env 0) (decode (c ∷ file)) s _ _ (decode-LeavesAtMost c file)
      λ t s' l. sync_loop_congruent f g (λ i. env (suc i)) t s' (omega arith) (omega arith)

serve_congruent :
    (n : ℕ) (socket : WriteOutcome) (one : RespValue → Response × Server) (r : Decoded RespValue)
    (s : Server) (f g : Str → Server → Session)
    → LeavesAtMost n r
    → ((t : Str) (s' : Server) → length t ≤ n → f t s' ≡ g t s')
    → serve socket one r s f ≡ serve socket one r s g
serve_congruent n socket one (done (ok (v, rest))) s f g l h =
    send_or_die_lem socket (one v) (f rest) (g rest) λ s'. h rest s' l
serve_congruent n socket one (done (err unexpected_eof)) s f g l h = refl
serve_congruent n socket one (done (err (unknown_prefix c))) s f g l h = refl
serve_congruent n socket one (done (err (invalid_integer t))) s f g l h = refl
serve_congruent n socket one (done (err invalid_utf8)) s f g l h = refl
serve_congruent n socket one panicked s f g l h = refl
serve_congruent n socket one poisoned s f g l h = refl

module _ (debug : RespValue → Str) where
  rounds_congruent :
      (f g : ℕ) (socket : ℕ → WriteOutcome) (env : ℕ → Env) (at : ℕ → ℕ) (stream : Str) (s : Server)
      → length stream ≤ f
      → length stream ≤ g
      → rounds f socket debug env at stream s ≡ rounds g socket debug env at stream s
  unfolding rounds
  rounds_congruent zero zero socket env at [] s h k = refl
  rounds_congruent zero (suc g) socket env at [] s h k = unfold decode in refl
  rounds_congruent (suc f) zero socket env at [] s h k = unfold decode in refl
  rounds_congruent (suc f) (suc g) socket env at [] s h k = unfold decode in refl
  rounds_congruent zero g socket env at (c ∷ stream) s h k = absurd (omega arith)
  rounds_congruent f zero socket env at (c ∷ stream) s h k = absurd (omega arith)
  rounds_congruent (suc f) (suc g) socket env at (c ∷ stream) s h k =
      serve_congruent (length stream) (socket 0) (λ frame. handle debug (env 0) (at 0) frame s)
        (decode (c ∷ stream)) s _ _ (decode-LeavesAtMost c stream)
        λ t s' l.
          rounds_congruent f g (λ i. socket (suc i)) (λ i. env (suc i)) (λ i. at (suc i)) t s'
            (omega arith) (omega arith)

-- Whatever the bytes are, the recursion of the decoder ends, and so do the loops that decode frames:
-- the one that replays a file and the one that serves a connection. With as much fuel as there are
-- bytes, or more, the result of each is the same, so none runs out of it; and a value that is decoded
-- has taken a byte at least.
pub loops_end :
    (debug : RespValue → Str) (socket : ℕ → WriteOutcome) (env : ℕ → Env) (at : ℕ → ℕ) (fuel : ℕ)
    (bytes : Str) (s : Store) (server : Server)
    → length bytes ≤ fuel
    → (decode_fuel fuel bytes ≡ decode bytes)
      × TakesSome bytes (decode bytes)
      × (sync_loop fuel env bytes s ≡ sync_store_with_aof env bytes s)
      × (rounds fuel socket debug env at bytes server
          ≡ run_handler socket debug env at bytes server)
unfolding sync_store_with_aof run_handler
loops_end debug socket env at fuel bytes s server h = (
  (decode_fuel_lem fuel bytes h).0,
  (decode_fuel_lem fuel bytes h).1,
  sync_loop_congruent fuel (length bytes) env bytes s h (omega arith),
  rounds_congruent debug fuel (length bytes) socket env at bytes server h (omega arith),
)
