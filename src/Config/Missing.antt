-- ===== src/Config/Missing.antt =====
-- Which settings a file must give: the defaults of config.rs against the keys that it reads.
use thesaurus.Prelude.{
  ◌≡◌, refl, Bool, false, ◌||◌, List, [], ◌∷◌, ◌++◌, arith, Str, codes, str_eq, Result, ok, err,
  ◌>>=◌, Bool-cases, inl, inr,
}
use thesaurus.HashSet.{contains}
use thesaurus.Config.{
  ConfigCrate, defaults, set_defaults, get_bool, read_settings, load_config, ends_with_ini,
  map_config_to_appendfsync_mode,
}

-- What the crate documents of a key that no source has: it is not found. `keys_of` are the keys that
-- the sources added so far have.
pub record FindsNoOther (lib : ConfigCrate) (file_keys environment_keys : List Str) : Type 0 where
  pub keys_of : lib.Builder → List Str
  pub none_at_first : keys_of lib.builder ≡ []
  pub of_default :
      (k v : Str) (b c : lib.Builder) → lib.set_default k v b ≡ ok c → keys_of c ≡ k ∷ keys_of b
  pub of_file :
      (path : Str) (b : lib.Builder) → keys_of (lib.add_file path b) ≡ file_keys ++ keys_of b
  pub of_environment :
      (prefix : Str) (b : lib.Builder)
      → keys_of (lib.add_environment prefix b) ≡ environment_keys ++ keys_of b
  pub not_found :
      (k : Str) (b : lib.Builder) (c : lib.Config)
      → lib.build b ≡ ok c
      → contains k (keys_of b) ≡ false
      → (e : Str) × (lib.get_string k c ≡ err e)

abbrev pub IsErr : {A : Type 0} → Result Str A → Type 0
IsErr r = (e : Str) × (r ≡ err e)

bind-IsErr :
    {A B : Type 0} (r : Result Str A) (f : A → Result Str B)
    → ((a : A) → r ≡ ok a → IsErr (f a))
    → IsErr (r >>= f)
bind-IsErr (ok a) f h = h a refl
bind-IsErr (err e) f h = (e, refl)

-- An error of the first step is one of the whole.
first_fails : {A B : Type 0} (r : Result Str A) (f : A → Result Str B) → IsErr r → IsErr (r >>= f)
first_fails r f (e, h) = (e, rw h)

contains-append : (k : Str) (l m : List Str) → contains k (l ++ m) ≡ (contains k l || contains k m)
unfolding contains
contains-append k [] m = refl
contains-append k (x ∷ l) m = ground (arith, contains-append k l m)

abbrev pub lazy_key : Str
lazy_key = codes "lazyfree-lazy-user-flush"

abbrev gives : Str → List (Str × Str) → Bool
gives key [] = false
gives key ((k, v) ∷ l) = str_eq k key || gives key l

module _ (lib : ConfigCrate) (file_keys environment_keys : List Str)
    (doc : FindsNoOther lib file_keys environment_keys) where
  -- the keys after the loop over the defaults
  set_defaults-lacks :
      (l : List (Str × Str)) (b c : lib.Builder)
      → set_defaults lib l b ≡ ok c
      → gives lazy_key l ≡ false
      → contains lazy_key (doc.keys_of b) ≡ false
      → contains lazy_key (doc.keys_of c) ≡ false
  unfolding set_defaults contains
  set_defaults-lacks [] b c e d h = let same : b ≡ c = cc in rw (← same) h
  set_defaults-lacks ((k, v) ∷ l) b c e d h =
      at (lib.set_default k v b) refl e λ b' x y. set_defaults-lacks l b' c x (ground arith) y
    where
      at :
          (r : Result Str lib.Builder)
          → lib.set_default k v b ≡ r
          → (r >>= set_defaults lib l) ≡ ok c
          → ((b' : lib.Builder)
              → set_defaults lib l b' ≡ ok c
              → contains lazy_key (doc.keys_of b') ≡ false
              → contains lazy_key (doc.keys_of c) ≡ false)
          → contains lazy_key (doc.keys_of c) ≡ false
      at (ok b') e' e'' ih = ih b' e'' (rw (doc.of_default k v b b' e') (ground (arith, h)))
      at (err x) e' e'' ih = cc

  read_settings-IsErr :
      (c : lib.Config) → IsErr (lib.get_string lazy_key c) → IsErr (read_settings lib c)
  unfolding read_settings
  read_settings-IsErr c h =
      bind-IsErr (lib.get_usize (codes "max_connections") c) _ λ max_connections _.
        bind-IsErr (lib.get_u64 (codes "hz") c) _ λ hz _.
          bind-IsErr (get_bool lib c (codes "appendonly")) _ λ appendonly _.
            bind-IsErr (lib.get_string (codes "appendfilename") c) _ λ appendfilename _.
              bind-IsErr (lib.get_string (codes "appenddirname") c) _ λ appenddirname _.
                bind-IsErr (map_config_to_appendfsync_mode lib c) _ λ appendfsync _.
                  first_fails (get_bool lib c lazy_key) _
                    (unfold get_bool in first_fails (lib.get_string lazy_key c) _ h)

  -- A file is refused if neither it nor the environment gives `lazyfree-lazy-user-flush`: the default
  -- stands under another key, with underscores. This takes the crate `config` to answer with an error
  -- for a key that no source has.
  pub load_config-IsErr :
      (path : Str)
      → contains lazy_key file_keys ≡ false
      → contains lazy_key environment_keys ≡ false
      → IsErr (load_config lib path)
  unfolding load_config
  load_config-IsErr path f e = elim (Bool-cases (ends_with_ini path)) [
    | inr other ↦ (codes "Expected an .ini file, got: " ++ path, rw other refl)
    | inl ini ↦ rw ini (
        bind-IsErr (set_defaults lib defaults lib.builder) _ λ b built.
          bind-IsErr (lib.build (sources b)) _ λ c made.
            read_settings-IsErr c (doc.not_found lazy_key (sources b) c made (lacks b built)))
  ]
    where
      sources : lib.Builder → lib.Builder
      sources b = lib.add_environment (codes "THESAURUS_") (lib.add_file path b)

      lacks :
          (b : lib.Builder)
          → set_defaults lib defaults lib.builder ≡ ok b
          → contains lazy_key (doc.keys_of (sources b)) ≡ false
      lacks b built =
          rw
            (
              doc.of_environment (codes "THESAURUS_") (lib.add_file path b),
              contains-append,
              doc.of_file path b,
              contains-append,
              e,
              f,
            )
            (set_defaults-lacks defaults lib.builder b built (unfold str_eq in refl)
              (rw doc.none_at_first (unfold contains in refl)))
