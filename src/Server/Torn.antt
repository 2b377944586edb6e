-- ===== src/Server/Torn.antt =====
-- An append-only file whose last entry was cut short, and what `sync_store_with_aof` makes of it.
use mathlib.Core.List.{append_assoc}
use thesaurus.Prelude.{
  ℕ, zero, suc, ◌≤◌, ◌≡◌, refl, sym, ap, ◌∙◌, Option, none, some, [], ◌∷◌, ◌++◌, arith, Str, err,
  done, length, length-append,
}
use thesaurus.Utf8.{is_utf8}
use thesaurus.Decimal.{max_i64, print, parse_i64}
use thesaurus.Errors.{invalid_integer, unexpected_eof}
use thesaurus.Resp2.{RespValue, array, Items, nil, cons, count, crlf, encode, encode_items}
use thesaurus.Resp2.Decode.{decode_items, parse_array, dispatch, decode_fuel, decode}
use thesaurus.Resp2.Lines.{print-IsHeader, decode_fuel-header}
use thesaurus.Resp2.RoundTrip.{
  IsEncodable, AreEncodable, decode-encode, decode_fuel-encode, parse_length-print, encode-array,
}
use thesaurus.Command.{HandlerError}
use thesaurus.Command.Parse.{from_resp2}
use thesaurus.Store.{Store}
use thesaurus.Executor.{Env}
use thesaurus.Server.Aof.{
  Synced, synced, decode_error, crashed, apply_frame, unless_crashed, sync_loop,
  sync_store_with_aof,
}
use thesaurus.Server.Replay.{replay, unless_crashed_lem, encode_size, sync_store_with_aof_lem}
use thesaurus.Server.Termination.{sync_loop_congruent}
use thesaurus.Server.Durable.{snoc, encode_items-snoc, snoc-AreEncodable}

-- the replay goes on with `f` where it ended well
abbrev pub and_goes_on : Synced → (Store → Synced) → Synced
and_goes_on (synced s) f = f s
and_goes_on (decode_error e s) f = decode_error e s
and_goes_on crashed f = crashed

-- the readings that the first `n` rounds leave
abbrev from_round : ℕ → (ℕ → Env) → ℕ → Env
from_round zero env i = env i
from_round (suc n) env i = from_round n (λ j. env (suc j)) i

unless_crashed-and_goes_on :
    (o : Option Store) (f g : Store → Synced) (k : Store → Synced)
    → ((s : Store) → f s ≡ and_goes_on (g s) k)
    → unless_crashed o f ≡ and_goes_on (unless_crashed o g) k
unless_crashed-and_goes_on none f g k h = refl
unless_crashed-and_goes_on (some s) f g k h = h s

sync_loop-append :
    (vs : Items) (tail : Str) (fuel : ℕ) (env : ℕ → Env) (s : Store)
    → AreEncodable vs
    → length (encode_items vs ++ tail) ≤ fuel
    → sync_loop fuel env (encode_items vs ++ tail) s
      ≡ and_goes_on (replay env vs s) (sync_store_with_aof (from_round (count vs) env) tail)
unfolding encode_items replay sync_store_with_aof
sync_loop-append nil tail fuel env s h l =
    sync_loop_congruent fuel (length tail) env tail s l (omega arith)
sync_loop-append (cons v vs) tail zero env s h l = absurd (
    omega (
      arith,
      length-append {0} (encode v ++ encode_items vs) tail,
      length-append {0} (encode v) (encode_items vs),
      encode_size v,
    ))
sync_loop-append (cons v vs) tail (suc fuel) env s h l =
    unfold sync_loop in
    let both = ap {A = Str} length (append_assoc (encode v) (encode_items vs) tail) in
    rw (append_assoc, decode-encode v (encode_items vs ++ tail) h.0)
      (unless_crashed-and_goes_on (apply_frame (env 0) (from_resp2 v) s) _ _ _ λ s'.
        sync_loop-append vs tail fuel (λ i. env (suc i)) s' h.1
          (omega
            (arith, length-append {0} (encode v) (encode_items vs ++ tail), encode_size v, both)))

-- The array that follows is cut behind its items `vs`, of one more.
abbrev pub cut_before_last : Items → Str
cut_before_last vs = b'*' ∷ (print (suc (count vs)) ++ (crlf ++ encode_items vs))

decode_items-cut :
    (vs : Items) (fuel : ℕ)
    → AreEncodable vs
    → length (encode_items vs) ≤ fuel
    → decode_items (suc (count vs)) (decode_fuel fuel) (encode_items vs) ≡ done (err unexpected_eof)
unfolding decode_items encode_items
decode_items-cut nil zero h l = unfold decode_fuel in refl
decode_items-cut nil (suc fuel) h l = unfold decode_fuel in refl
decode_items-cut (cons v vs) fuel h l =
    let both = length-append {0} (encode v) (encode_items vs) in
    rw
      (
        decode_fuel-encode v fuel (encode_items vs) h.0 (omega (arith, both)),
        decode_items-cut vs fuel h.1 (omega (arith, both)),
      )
      refl

decode-cut :
    (vs : Items)
    → AreEncodable vs
    → suc (count vs) ≤ max_i64
    → decode (cut_before_last vs) ≡ done (err unexpected_eof)
unfolding decode dispatch
decode-cut vs h l =
    decode_fuel-header _ b'*' (print (suc (count vs))) (encode_items vs) (omega arith) (omega arith)
      (print-IsHeader (suc (count vs)))
    ∙ rw
        (
          parse_length-print (suc (count vs)) l,
          parse_array,
          decode_items-cut vs (length (print (suc (count vs)) ++ (crlf ++ encode_items vs))) h
              enough,
        )
        refl
  where
    enough : length (encode_items vs) ≤ length (print (suc (count vs)) ++ (crlf ++ encode_items vs))
    enough = omega (arith, length-append {0} (print (suc (count vs))) (crlf ++ encode_items vs))

count-snoc : (vs : Items) (v : RespValue) → count (snoc vs v) ≡ suc (count vs)
count-snoc nil v = refl
count-snoc (cons w vs) v = ap suc (count-snoc vs v)

replay-snoc_err :
    (vs : Items) (v : RespValue) (e : HandlerError) (env : ℕ → Env) (s : Store)
    → from_resp2 v ≡ done (err e)
    → replay env (snoc vs v) s ≡ replay env vs s
unfolding replay
replay-snoc_err nil v e env s h = rw (h, apply_frame) refl
replay-snoc_err (cons w vs) v e env s h =
    unless_crashed_lem (apply_frame (env 0) (from_resp2 w) s) _ _
      λ s'. replay-snoc_err vs v e (λ i. env (suc i)) s' h

and_goes_on_congruent :
    (r : Synced) (f g : Store → Synced)
    → ((s : Store) → f s ≡ g s)
    → and_goes_on r f ≡ and_goes_on r g
and_goes_on_congruent (synced s) f g h = h s
and_goes_on_congruent (decode_error e s) f g h = refl
and_goes_on_congruent crashed f g h = refl

and_goes_on-synced : (r : Synced) → and_goes_on r synced ≡ r
and_goes_on-synced (synced s) = refl
and_goes_on-synced (decode_error e s) = refl
and_goes_on-synced crashed = refl

-- An entry that was cut before its last item is passed over, and the server starts. When it has
-- appended its first entry, that one is behind the cut one, and the two are read as one value: if this
-- value is no command, both are lost at the next start.
pub torn_entry :
    (vs us : Items) (v : RespValue) (e : HandlerError) (env : ℕ → Env) (s : Store)
    → AreEncodable vs
    → AreEncodable us
    → IsEncodable v
    → suc (count us) ≤ max_i64
    → from_resp2 (array (snoc us v)) ≡ done (err e)
    → (sync_store_with_aof env (encode_items vs ++ cut_before_last us) s ≡ replay env vs s)
      × (sync_store_with_aof env (encode_items vs ++ (cut_before_last us ++ encode v)) s
          ≡ replay env vs s)
torn_entry vs us v e env s h k i l f = (passed_over, swallowed)
  where
    both : RespValue
    both = array (snoc us v)

    one_value : encode_items (snoc vs both) ≡ encode_items vs ++ (cut_before_last us ++ encode v)
    one_value =
        rw (encode_items-snoc, encode-array, count-snoc, encode_items-snoc) (simp append_assoc)

    passed_over :
        sync_store_with_aof env (encode_items vs ++ cut_before_last us) s ≡ replay env vs s
    passed_over =
        unfold sync_store_with_aof in
        sync_loop-append vs (cut_before_last us) _ env s h (omega arith)
        ∙ and_goes_on_congruent (replay env vs s) _ _
            (λ t. unfold sync_store_with_aof sync_loop in rw (decode-cut us k l) refl)
        ∙ and_goes_on-synced (replay env vs s)

    swallowed :
        sync_store_with_aof env (encode_items vs ++ (cut_before_last us ++ encode v)) s
        ≡ replay env vs s
    swallowed =
        ap (λ file. sync_store_with_aof env file s) (sym one_value)
        ∙ sync_store_with_aof_lem (snoc vs both) env s
            (snoc-AreEncodable vs both h (rw count-snoc l, snoc-AreEncodable us v k i))
        ∙ replay-snoc_err vs both e env s f

lone_star :
    (env : ℕ → Env) (s : Store)
    → sync_store_with_aof env (b'*' ∷ []) s ≡ decode_error (invalid_integer []) s
unfolding sync_store_with_aof sync_loop decode is_utf8 parse_i64
lone_star env s = refl

-- An entry that was cut behind its first byte keeps the server from starting: the replay of the
-- entries before it, if it ends well, ends with an error of the decoder.
pub cut_after_first_byte :
    (vs : Items) (env : ℕ → Env) (s : Store)
    → AreEncodable vs
    → sync_store_with_aof env (encode_items vs ++ (b'*' ∷ [])) s
      ≡ and_goes_on (replay env vs s) (decode_error (invalid_integer []))
unfolding sync_store_with_aof
cut_after_first_byte vs env s h =
    sync_loop-append vs (b'*' ∷ []) (length (encode_items vs ++ (b'*' ∷ []))) env s h (omega arith)
    ∙ and_goes_on_congruent (replay env vs s) _ _ λ t. lone_star (from_round (count vs) env) t
