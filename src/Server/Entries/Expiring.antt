-- ===== src/Server/Entries/Expiring.antt =====
-- EXPIRE and PEXPIRE in the log, whose entry is PEXPIREAT, and the entries of all commands.
use thesaurus.Prelude.{
  inl, inr, ℕ, ◌+◌, ◌-◌, ◌*◌, ◌%◌, ◌^◌, leb, true, false, ◌≤◌, ◌≡◌, refl, ap, ◌∙◌, Option, none,
  some, arith, Str, ok, done,
}
use thesaurus.Decimal.{max_u64}
use thesaurus.Resp2.{RespValue}
use thesaurus.Resp2.RoundTrip.{IsEncodable}
use thesaurus.Command.{Command}
use thesaurus.Command.Parse.{from_resp2}
use thesaurus.Store.{Store}
use thesaurus.Executor.{Env, Response, reply, checked_add, nanos_per_milli, unix_ms_to_instant}
use thesaurus.Executor.Execute.{execute, writes}
use thesaurus.Executor.Keyspace.{expire, pexpire, pexpire_at, set_ttl_or_error, set_ttl_or_panic}
use thesaurus.Server.Aof.{apply_frame, survives}
use thesaurus.Server.Deadlines.{pexpireat, pexpireat-IsEncodable, from_resp2-pexpireat}
use thesaurus.Server.Handler.{
  is_logged_reply, pexpireat_frame, log_entry, convert_expire_to_pexpireat,
  convert_pexpire_to_pexpireat, now_ms, saturating_mul,
}
use thesaurus.Server.Entries.{IsLoggable, IsReplayed, plain_lem, relative-cases}

-- the readings with the clock of the log for the time since the Unix epoch
abbrev pub at_time : ℕ → Env → Env
at_time at env = record env { system = λ i. at }

-- PEXPIREAT with a deadline that lies `ms` milliseconds behind the time
pexpire_at_lem :
    (env : Env) (at : ℕ) (key : Str) (ms deadline : ℕ) (s : Store)
    → 1 ≤ ms
    → checked_add env (env.instant 0) (ms * nanos_per_milli) ≡ some deadline
    → pexpire_at (at_time at env) key (now_ms at + ms) s ≡ set_ttl_or_panic key (some deadline) s
unfolding pexpire_at unix_ms_to_instant
pexpire_at_lem env at key ms deadline s h d = rw (future, left, d) refl
  where
    future : leb (now_ms at + ms) (now_ms at) ≡ false
    future = ground arith

    left : now_ms at + ms - now_ms at ≡ ms
    left = omega arith

-- A relative expiry whose reply is logged had a deadline that could be represented, and the entry
-- sets that one.
relative_lem :
    (env : Env) (at : ℕ) (key : Str) (ms : ℕ) (o : Option ℕ) (r : RespValue) (s s' : Store)
    → 1 ≤ ms
    → now_ms at + ms ≤ max_u64
    → checked_add env (env.instant 0) (ms * nanos_per_milli) ≡ o
    → set_ttl_or_error key o s ≡ (r, s')
    → is_logged_reply r ≡ true
    → apply_frame (at_time at env) (from_resp2 (pexpireat key (now_ms at + ms))) s ≡ some s'
unfolding is_logged_reply apply_frame execute
relative_lem env at key ms none r s s' h l d x g = cc
relative_lem env at key ms (some deadline) r s s' h l d x g =
    ap (λ p. apply_frame (at_time at env) p s) (from_resp2-pexpireat key (now_ms at + ms) l)
    ∙ ap survives (pexpire_at_lem env at key ms deadline s h d)
    ∙ ap (λ p. some p.1) x

replied :
    (p : RespValue × Store) (r : RespValue) (s' : Store)
    → ◌≡◌ {A = Response × Store} (reply p.0, p.1) (reply r, s')
    → p ≡ (r, s')
replied p r s' h = cc

expire_lem :
    (env : Env) (at : ℕ) (key : Str) (seconds : ℕ) (frame r : RespValue) (s s' : Store)
    → IsLoggable at (Command.expire key seconds)
    → execute env (Command.expire key seconds) s ≡ (reply r, s')
    → is_logged_reply r ≡ true
    → IsReplayed (log_entry at (Command.expire key seconds) frame) s s'
unfolding execute
expire_lem env at key seconds frame r s s' (l, d, k) x g = (
  pexpireat key (now_ms at + seconds * 1000),
  at_time at env,
  unfold log_entry convert_expire_to_pexpireat in ap (pexpireat_frame key) exact,
  pexpireat-IsEncodable key (now_ms at + seconds * 1000) d k,
  relative_lem env at key (seconds * 1000) _ r s s' (omega arith) d refl
      (replied _ r s' (at_millis ∙ x)) g,
)
  where
    exact : (now_ms at + saturating_mul seconds 1000) % 2 ^ 64 ≡ now_ms at + seconds * 1000
    exact = ground arith

    at_millis :
        writes
          (λ u.
            set_ttl_or_error key
              (checked_add env (env.instant 0) (seconds * 1000 * nanos_per_milli))
              u)
          s
        ≡ execute env (Command.expire key seconds) s
    at_millis =
        unfold execute expire in
        ap (λ n. writes (set_ttl_or_error key (checked_add env (env.instant 0) n)) s) (omega arith)

pexpire_lem :
    (env : Env) (at : ℕ) (key : Str) (milliseconds : ℕ) (frame r : RespValue) (s s' : Store)
    → IsLoggable at (Command.pexpire key milliseconds)
    → execute env (Command.pexpire key milliseconds) s ≡ (reply r, s')
    → is_logged_reply r ≡ true
    → IsReplayed (log_entry at (Command.pexpire key milliseconds) frame) s s'
unfolding execute
pexpire_lem env at key milliseconds frame r s s' (l, d, k) x g = (
  pexpireat key (now_ms at + milliseconds),
  at_time at env,
  unfold log_entry convert_pexpire_to_pexpireat in ap (pexpireat_frame key) exact,
  pexpireat-IsEncodable key (now_ms at + milliseconds) d k,
  relative_lem env at key milliseconds _ r s s' l d refl (replied _ r s' (unfold pexpire in x)) g,
)
  where
    exact : (now_ms at + milliseconds) % 2 ^ 64 ≡ now_ms at + milliseconds
    exact = omega arith

-- A write that executes with a reply that is logged gets an entry that the replay applies as it was
-- executed, EXPIRE and PEXPIRE with the clock of the log for the time.
pub log_entry-IsReplayed :
    (env : Env) (at : ℕ) (frame r : RespValue) (cmd : Command) (s s' : Store)
    → IsEncodable frame
    → from_resp2 frame ≡ done (ok cmd)
    → IsLoggable at cmd
    → execute env cmd s ≡ (reply r, s')
    → is_logged_reply r ≡ true
    → IsReplayed (log_entry at cmd frame) s s'
log_entry-IsReplayed env at frame r cmd s s' k f l x g = elim (relative-cases cmd) [
  | inl plain ↦ plain_lem env at frame cmd r s s' plain k f x
  | inr (key, n, inl e) ↦ rw e (expire_lem env at key n frame r s s' (rw e at l) (rw e at x) g)
  | inr (key, n, inr e) ↦ rw e (pexpire_lem env at key n frame r s s' (rw e at l) (rw e at x) g)
]
