-- ===== src/Samples.antt =====
-- Runs of the theorems on small servers: the data, and a module for each part.
pub mod Protocol
pub mod Stored
pub mod Served
pub mod Running
pub mod Restarted
pub mod Shutdown
pub mod Racing
pub mod Drawn
use thesaurus.Prelude.{ℕ, false, Option, none, some, List, [], ◌∷◌, Str, codes}
use thesaurus.Map.{Map}
use thesaurus.Resp2.{RespValue}
use thesaurus.Store.{Store, StoreValue, str, list, set}
use thesaurus.Store.Sets.{Rng}
use thesaurus.Executor.{Env}
use thesaurus.Server.Handler.{Server}

-- a list under `q`, sets under `a` and `b`, a text under `t`; `t` and `q` have a deadline
abbrev pub elements : List Str
elements = codes "x" ∷ codes "y" ∷ codes "z" ∷ []

abbrev pub members : List Str
members = codes "m" ∷ codes "n" ∷ []

abbrev pub shop : Store
shop = record {
  values = record {
    entries =
        (codes "q", list elements)
        ∷ (codes "a", set members)
        ∷ (codes "b", set (codes "o" ∷ []))
        ∷ (codes "t", str (codes "text"))
        ∷ [];
  };
  expiry_index = record { entries = (codes "t", 10) ∷ (codes "q", 100) ∷ [] };
}

-- a clock that stands still, draws that take the front, a hash that is no good
abbrev pub env : Env
env = record {
  instant = λ i. 5;
  system = λ i. 7_000_000_000;
  max_instant = 1_000_000_000_000;
  xxh3_64 = λ s. 0;
  rng = record { sample = λ l n. some l; random_range = λ i n. 0 };
  lazyfree_lazy_user_flush = false;
}

abbrev pub server : Server
server = record { store = shop; log = some [] }

-- no text for a value
abbrev pub debug : RespValue → Str
debug v = []
