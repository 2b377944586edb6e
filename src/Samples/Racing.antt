-- ===== src/Samples/Racing.antt =====
-- Two clients at once, and a server that is started again.
use thesaurus.Prelude.{ℕ, ◌≡◌, refl, sym, ◌∙◌, false, str_eq, none, some, [], arith, codes, ok}
use thesaurus.Map
use thesaurus.Utf8.{is_utf8}
use thesaurus.Config.{always}
use thesaurus.Resp2.{simple_string, encode, nil, encode_items}
use thesaurus.Resp2.RoundTrip.{IsEncodable}
use thesaurus.Command.{nx, is_write}
use thesaurus.Store
use thesaurus.Store.{Store, str, peek}
use thesaurus.Store.Strings.{get_string, set_string}
use thesaurus.Executor.{Env, reply}
use thesaurus.Executor.Strings.{set, set_after}
use thesaurus.Executor.Execute.{execute}
use thesaurus.Executor.Races.{set_nx_race}
use thesaurus.Server.Aof.{sync_store_with_aof, synced}
use thesaurus.Server.Crash.{Serves, serving, starts, writes, writes_lem}
use thesaurus.Server.Crash.Recovery.{restart-Serves}
use thesaurus.Server.Handler.{is_logged_reply, log_entry}
use thesaurus.Server.Races.{
  Shared, Reach, fresh, set_frame, set_command, set_frame_lem, execute-set, missing_at_first,
  log_order, begin_round, end_round,
}
use thesaurus.Server.Durable.{IsInStep}
use thesaurus.Server.Races.Ordered
use thesaurus.Server.Races.Ordered.{appends, to_come, Orderly-IsInStep}
use thesaurus.Server.Writer.{succeeded, completes, Writer, Calls, append, task_syncs, new}
use thesaurus.Server.Writer.Handling.{handle_with}
use thesaurus.Samples.{env, shop, debug}

no_k : get_string (codes "k") 5 shop ≡ ok none
unfolding get_string Map.get str_eq
no_k = refl

set_nx_race_example :
    let (first, t) = set env (codes "k") (codes "w") (some nx) none false shop in
    let (second, u) =
      set_after env
        (get_string (codes "k") 5 shop)
        (codes "k")
        (codes "v")
        (some nx)
        none
        false
        t in
    (first ≡ reply (simple_string (codes "OK")))
    × (second ≡ reply (simple_string (codes "OK")))
    × (peek (codes "k") 9 u ≡ some (str (codes "v")))
set_nx_race_example = set_nx_race env env (codes "k") (codes "v") (codes "w") 9 shop no_k no_k

v_frame-IsEncodable : IsEncodable (set_frame (codes "k") (codes "v"))
unfolding is_utf8
v_frame-IsEncodable =
    (omega arith, ((omega arith, refl), ((omega arith, refl), ((omega arith, refl), tt))))

w_frame-IsEncodable : IsEncodable (set_frame (codes "k") (codes "w"))
unfolding is_utf8
w_frame-IsEncodable =
    (omega arith, ((omega arith, refl), ((omega arith, refl), ((omega arith, refl), tt))))

log_order_example :
    (t : Shared) × Reach debug fresh t
    × (t.pending ≡ [])
    × (peek (codes "k") 9 t.store ≡ some (str (codes "w")))
    × ((u : Store) × (sync_store_with_aof (λ i. env) t.log Store.new ≡ synced u)
        × (peek (codes "k") 9 u ≡ some (str (codes "v"))))
log_order_example =
    log_order debug env 0 9 (codes "k") (codes "v") (codes "w") v_frame-IsEncodable
      w_frame-IsEncodable

abbrev all_well : Calls
all_well = record { spill = completes; through = completes; flushes = completes; syncs = succeeded }

abbrev empty_file : Writer
empty_file = new always []

abbrev after_set : Writer
after_set = (append all_well (encode (set_frame (codes "k") (codes "v"))) empty_file).1

no_failure : (append all_well (encode (set_frame (codes "k") (codes "v"))) empty_file).0 ≡ succeeded
unfolding append encode thesaurus.Decimal.print
no_failure = refl

replied_ok :
    execute env (set_command (codes "k") (codes "v")) Store.new
    ≡ (reply (simple_string (codes "OK")), set_string (codes "k") (codes "v") Store.new)
replied_ok = execute-set env (codes "k") (codes "v") none Store.new (missing_at_first (codes "k") 5)

first_round :
    (handle_with all_well debug env 0
      (set_frame (codes "k") (codes "v"))
      (serving Store.new empty_file)).1
    ≡ serving (set_string (codes "k") (codes "v") Store.new) after_set
first_round =
    writes_lem all_well debug env 0 (set_frame (codes "k") (codes "v")) (simple_string (codes "OK"))
      (set_command (codes "k") (codes "v")) Store.new (set_string (codes "k") (codes "v") Store.new)
      empty_file (set_frame_lem (codes "k") (codes "v")) (unfold is_write in refl) replied_ok
      (unfold is_logged_reply in refl)
    ∙ (unfold log_entry in refl)

one_set : Serves debug always (serving (set_string (codes "k") (codes "v") Store.new) after_set)
unfolding encode_items
one_set = rw (sym first_round) (
    writes (starts nil (λ i. env) Store.new tt (unfold sync_store_with_aof encode_items in refl))
      all_well env 0 (set_frame (codes "k") (codes "v")) (simple_string (codes "OK"))
      (set_command (codes "k") (codes "v")) v_frame-IsEncodable
      (set_frame_lem (codes "k") (codes "v")) (unfold is_write in refl) tt replied_ok
      (unfold is_logged_reply in refl) (unfold log_entry in no_failure))

restart-Serves_example :
    (readings : ℕ → Env) × (sync_store_with_aof readings
        (task_syncs succeeded after_set).disk
        Store.new
      ≡ synced (set_string (codes "k") (codes "v") Store.new))
restart-Serves_example =
    restart-Serves debug always (set_string (codes "k") (codes "v") Store.new) after_set one_set
      refl

Orderly-IsInStep_example :
    IsInStep Store.new
      (to_come (end_round 0 (begin_round debug env 0 (set_frame (codes "k") (codes "v")) fresh)))
unfolding encode_items
Orderly-IsInStep_example = Orderly-IsInStep {debug = debug} (
    appends (
      Ordered.writes
        (Ordered.starts nil (λ i. env) Store.new tt (unfold sync_store_with_aof in refl)) env 0
        (set_frame (codes "k") (codes "v")) (simple_string (codes "OK"))
        (set_command (codes "k") (codes "v")) (set_string (codes "k") (codes "v") Store.new)
        v_frame-IsEncodable (set_frame_lem (codes "k") (codes "v")) (unfold is_write in refl) tt
        replied_ok (unfold is_logged_reply in refl)))
