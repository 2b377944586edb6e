-- ===== src/Config.antt =====
-- crates/thesaurus/src/config.rs. The crate `config`, which reads the file and the environment, is an
-- argument.
pub mod Missing
use thesaurus.Prelude.{
  ℕ, ◌==◌, Bool, true, false, Option, none, some, List, [], ◌∷◌, ◌++◌, Str, codes, str_eq, Result,
  ok, err, ◌>>=◌, ◌>>◌, if◌then◌else◌, reverse,
}
use thesaurus.Decimal.{parse_unsigned, max_u64}

-- `AppendFSyncMode` of aof.rs
pub data AppendFsyncMode : Type 0 where
  always every_sec never : AppendFsyncMode

pub record ThesaurusConfig : Type 0 where
  pub max_connections : ℕ
  pub hz : ℕ
  pub appendonly : Bool
  pub appendfilename : Str
  pub appenddirname : Str
  pub appendfsync : AppendFsyncMode
  pub lazyfree_lazy_user_flush : Bool

-- `DEFAULTS`
abbrev pub defaults : List (Str × Str)
defaults =
    (codes "max_connections", codes "100")
    ∷ (codes "hz", codes "100")
    ∷ (codes "appendonly", codes "no")
    ∷ (codes "appendfilename", codes "appendonly.aof")
    ∷ (codes "appenddirname", codes "appendonlydir")
    ∷ (codes "appendfsync", codes "everysec")
    ∷ (codes "lazyfree_lazy_user_flush", codes "no")
    ∷ []

-- `DEFAULTS.iter().find(...)`; `default_val` panics at `none`.
unfoldable pub find_default : Str → List (Str × Str) → Option Str
find_default key [] = none
find_default key ((k, v) ∷ l) = if str_eq k key then some v else find_default key l

unfoldable pub default_val : Str → Option Str
unfolding find_default
default_val key = find_default key defaults

unfoldable pub yes_no_from_str : Str → Result Str Bool
yes_no_from_str s =
    if str_eq s (codes "yes")
    then ok true
    else if str_eq s (codes "no")
    then ok false
    else err (codes "expected 'yes' or 'no', got '" ++ (s ++ codes "'"))

unfoldable pub appendfsync_from_str : Str → Result Str AppendFsyncMode
appendfsync_from_str s =
    if str_eq s (codes "always")
    then ok always
    else if str_eq s (codes "everysec")
    then ok every_sec
    else if str_eq s (codes "no")
    then ok never
    else err (s ++ codes " is not a valid appendfsync mode")

-- `.unwrap()` of a result: `none` is a panic.
abbrev pub unwrap {ℓ} : {A E : Type ℓ} → Result E A → Option A
unwrap (ok a) = some a
unwrap (err e) = none

abbrev pub then_some {ℓ} : {A B : Type ℓ} → Option A → (A → Option B) → Option B
then_some none f = none
then_some (some a) f = f a

-- `ThesaurusConfig::default`; `usize` has 64 bits.
unfoldable pub default_config : Option ThesaurusConfig
unfolding default_val yes_no_from_str appendfsync_from_str
default_config =
    then_some (then_some (default_val (codes "max_connections")) (parse_unsigned 10 max_u64))
      λ max_connections.
        then_some (then_some (default_val (codes "hz")) (parse_unsigned 10 max_u64)) λ hz.
          then_some (then_some (default_val (codes "appendonly")) (λ s. unwrap (yes_no_from_str s)))
            λ appendonly. then_some (default_val (codes "appendfilename")) λ appendfilename.
              then_some (default_val (codes "appenddirname")) λ appenddirname.
                then_some
                  (then_some (default_val (codes "appendfsync"))
                    (λ s. unwrap (appendfsync_from_str s)))
                  λ appendfsync.
                    then_some
                      (then_some (default_val (codes "lazyfree_lazy_user_flush"))
                        (λ s. unwrap (yes_no_from_str s)))
                      λ lazyfree_lazy_user_flush. some (record {
                        max_connections = max_connections;
                        hz = hz;
                        appendonly = appendonly;
                        appendfilename = appendfilename;
                        appenddirname = appenddirname;
                        appendfsync = appendfsync;
                        lazyfree_lazy_user_flush = lazyfree_lazy_user_flush;
                      })

-- What the source calls of the crate `config`; its errors are the texts that `to_string` gives.
pub record ConfigCrate : Type 1 where
  pub Builder : Type 0
  pub Config : Type 0
  pub builder : Builder
  pub set_default : Str → Str → Builder → Result Str Builder
  pub add_file : Str → Builder → Builder
  pub add_environment : Str → Builder → Builder
  pub build : Builder → Result Str Config
  pub get_string : Str → Config → Result Str Str
  pub get_usize : Str → Config → Result Str ℕ
  pub get_u64 : Str → Config → Result Str ℕ

-- the loop over `DEFAULTS`
unfoldable pub set_defaults :
    (lib : ConfigCrate) → List (Str × Str) → lib.Builder → Result Str lib.Builder
set_defaults lib [] b = ok b
set_defaults lib ((key, value) ∷ l) b = lib.set_default key value b >>= set_defaults lib l

unfoldable pub get_bool : (lib : ConfigCrate) → lib.Config → Str → Result Str Bool
unfolding yes_no_from_str
get_bool lib config key = lib.get_string key config >>= yes_no_from_str

unfoldable pub map_config_to_appendfsync_mode :
    (lib : ConfigCrate) → lib.Config → Result Str AppendFsyncMode
unfolding appendfsync_from_str
map_config_to_appendfsync_mode lib config =
    lib.get_string (codes "appendfsync") config >>= appendfsync_from_str

-- `path.ends_with(".ini")`
abbrev pub starts_with : Str → Str → Bool
starts_with [] s = true
starts_with (c ∷ p) [] = false
starts_with (c ∷ p) (d ∷ s) = if c == d then starts_with p s else false

abbrev pub ends_with_ini : Str → Bool
ends_with_ini path = starts_with (reverse (codes ".ini")) (reverse path)

-- the settings read from what was built
unfoldable pub read_settings : (lib : ConfigCrate) → lib.Config → Result Str ThesaurusConfig
unfolding get_bool map_config_to_appendfsync_mode
read_settings lib config = do
  max_connections ← lib.get_usize (codes "max_connections") config
  hz ← lib.get_u64 (codes "hz") config
  appendonly ← get_bool lib config (codes "appendonly")
  appendfilename ← lib.get_string (codes "appendfilename") config
  appenddirname ← lib.get_string (codes "appenddirname") config
  appendfsync ← map_config_to_appendfsync_mode lib config
  lazyfree_lazy_user_flush ← get_bool lib config (codes "lazyfree-lazy-user-flush")
  ok (record {
    max_connections = max_connections;
    hz = hz;
    appendonly = appendonly;
    appendfilename = appendfilename;
    appenddirname = appenddirname;
    appendfsync = appendfsync;
    lazyfree_lazy_user_flush = lazyfree_lazy_user_flush;
  })

unfoldable pub load_config : (lib : ConfigCrate) → Str → Result Str ThesaurusConfig
unfolding set_defaults read_settings
load_config lib path =
    if ends_with_ini path
    then (do
      b ← set_defaults lib defaults lib.builder
      config ← lib.build (lib.add_environment (codes "THESAURUS_") (lib.add_file path b))
      read_settings lib config)
    else err (codes "Expected an .ini file, got: " ++ path)
