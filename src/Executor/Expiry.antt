-- ===== src/Executor/Expiry.antt =====
-- The expiry commands of executor/mod.rs against the commands that read the time to live.
use thesaurus.Prelude.{
  ℕ, ◌-◌, ◌*◌, ◌/◌, ◌≡◌, refl, none, some, arith, Str, if◌then◌else◌, leb, ltb, pos, negsuc,
}
use thesaurus.Map
use thesaurus.Resp2.{integer}
use thesaurus.Store
use thesaurus.Store.{Store, StoreValue, peek}
use thesaurus.Executor.{Env, checked_add, as_i64, nanos_per_sec}
use thesaurus.Executor.Keyspace.{expire, ttl, resolve_expiry, persist}

ttl_until :
    (env : Env) (k : Str) (deadline : ℕ) (s : Store)
    → Map.get k s.expiry_index ≡ some deadline
    → ttl env k s
      ≡ integer (
          if leb (env.instant 0) deadline
          then as_i64 ((deadline - env.instant 0) / nanos_per_sec)
          else negsuc 1)
unfolding ttl Store.get_ttl
ttl_until env k deadline s h = rw (h, resolve_expiry) (ground arith)

ttl_forever :
    (env : Env) (k : Str) (v : StoreValue) (s : Store)
    → Map.get k s.expiry_index ≡ none
    → Map.get k s.values ≡ some v
    → ttl env k s ≡ integer (negsuc 0)
unfolding ttl Store.get_ttl Store.exists
ttl_forever env k v s h e = rw (h, e, resolve_expiry) (ground arith)

-- EXPIRE, and PERSIST after it, on a key that has a value, where the deadline can be represented:
-- EXPIRE replies 1; from then on TTL replies the whole seconds that are left, as an `i64`, up to
-- the deadline, and -2 later; a reader finds the value before the deadline and nothing from it on;
-- PERSIST replies 1, after which TTL replies -1 and the reader always finds the value.
pub expire_lem :
    (env env' : Env) (k : Str) (v : StoreValue) (secs deadline : ℕ) (s : Store)
    → Map.get k s.values ≡ some v
    → checked_add env (env.instant 0) (secs * nanos_per_sec) ≡ some deadline
    → ((expire env k secs s).0 ≡ integer (pos 1))
      × (ttl env' k (expire env k secs s).1
          ≡ integer (
              if leb (env'.instant 0) deadline
              then as_i64 ((deadline - env'.instant 0) / nanos_per_sec)
              else negsuc 1))
      × (peek k (env'.instant 0) (expire env k secs s).1
          ≡ (if ltb (env'.instant 0) deadline then some v else none))
      × ((persist k (expire env k secs s).1).0 ≡ integer (pos 1))
      × (ttl env' k (persist k (expire env k secs s).1).1 ≡ integer (negsuc 0))
      × (peek k (env'.instant 0) (persist k (expire env k secs s).1).1 ≡ some v)
expire_lem env env' k v secs deadline s h d = rw done_at (refl, left, found, kept, gone, back)
  where
    after : Store
    after = record s { expiry_index = Map.insert k deadline s.expiry_index }

    done_at : expire env k secs s ≡ (integer (pos 1), after)
    done_at = unfold expire Store.set_ttl in rw (d, h)

    left :
        ttl env' k after
        ≡ integer (
            if leb (env'.instant 0) deadline
            then as_i64 ((deadline - env'.instant 0) / nanos_per_sec)
            else negsuc 1)
    left = ttl_until env' k deadline after (Map.get-insert_self k deadline s.expiry_index)

    found : peek k (env'.instant 0) after ≡ (if ltb (env'.instant 0) deadline then some v else none)
    found = unfold peek in ground (arith, Map.get-insert_self k deadline s.expiry_index)

    kept : (persist k after).0 ≡ integer (pos 1)
    kept = unfold persist Store.persist in rw (Map.get-insert_self k deadline s.expiry_index)

    gone : ttl env' k (persist k after).1 ≡ integer (negsuc 0)
    gone =
        unfold persist Store.persist in
        ttl_forever env' k v _ (Map.get-remove_self k (Map.insert k deadline s.expiry_index)) h

    back : peek k (env'.instant 0) (persist k after).1 ≡ some v
    back =
        unfold peek persist Store.persist in
        ground (arith, Map.get-remove_self k (Map.insert k deadline s.expiry_index))
