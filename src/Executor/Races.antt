-- ===== src/Executor/Races.antt =====
-- SET of executor/string.rs takes the lock once to read the previous value and again to write: what
-- another client may do in between.
use thesaurus.Prelude.{ℕ, ◌≡◌, refl, false, none, some, arith, Str, codes, str_eq_refl, ok}
use thesaurus.Resp2.{simple_string}
use thesaurus.Command.{nx}
use thesaurus.Store.{Store, str, peek}
use thesaurus.Store.Visible.{peek-put}
use thesaurus.Store.Strings.{get_string, set_string}
use thesaurus.Executor.{Env, reply}
use thesaurus.Executor.Strings.{set, set_after, set_over, apply_expiry, condition_met}

nx_missing :
    (e : Env) (k v : Str) (s : Store)
    → set_after e (ok none) k v (some nx) none false s
      ≡ (reply (simple_string (codes "OK")), set_string k v s)
unfolding set_after set_over apply_expiry condition_met
nx_missing e k v s = refl

-- Two clients send SET NX for a key where both find nothing, one of them after the other has read and
-- before it writes: both get the reply OK, and the value of the one that read last is lost.
pub set_nx_race :
    (a b : Env) (k v w : Str) (now : ℕ) (s : Store)
    → get_string k (a.instant 0) s ≡ ok none
    → get_string k (b.instant 0) s ≡ ok none
    → let (first, t) = set b k w (some nx) none false s in
      let (second, u) = set_after a (get_string k (a.instant 0) s) k v (some nx) none false t in
      (first ≡ reply (simple_string (codes "OK")))
      × (second ≡ reply (simple_string (codes "OK")))
      × (peek k now u ≡ some (str v))
set_nx_race a b k v w now s f g =
    rw (f, first, nx_missing)
      (
        refl,
        refl,
        unfold set_string in
            ground (arith, peek-put k k (str v) now (set_string k w s), str_eq_refl k),
      )
  where
    first :
        set b k w (some nx) none false s ≡ (reply (simple_string (codes "OK")), set_string k w s)
    first = unfold set in rw g (nx_missing b k w s)
