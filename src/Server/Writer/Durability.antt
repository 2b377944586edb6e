-- ===== src/Server/Writer/Durability.antt =====
-- What the append-only file holds after some appends, and what of it is on the disk.
use mathlib.Core.List.{append_assoc, append-nil}
use thesaurus.Prelude.{
  take_all, drop_all, take-drop, ℕ, ◌-◌, ◌≤◌, ◌≡◌, ◌⊎◌, refl, sym, ap, ◌∙◌, Bool, true, false,
  Bool-cases, inl, inr, [], ◌∷◌, ◌++◌, arith, Str, ltb, leb, if◌then◌else◌, length, take, drop,
}
use thesaurus.Server.Writer.{
  IoResult, succeeded, failed, WriteOutcome, completes, stops_after, Writer, if_succeeded, reaches,
  flush, capacity, keep, write_through, write_all, sync_data, is_always, known, Calls, append,
}

reaches-cases :
    (o : WriteOutcome) (size : ℕ)
    → (reaches o size ≡ (succeeded, size)) ⊎ ((n : ℕ) × (reaches o size ≡ (failed, n)))
reaches-cases completes size = inl refl
reaches-cases (stops_after n) size = elim (Bool-cases (ltb n size)) [
  | inl less ↦ inr (n, rw less refl)
  | inr not_less ↦ inl (rw not_less refl)
]

-- what the process has written, the bytes that wait in the buffer last
abbrev pub content : Writer → Str
content w = w.kernel ++ w.buffer

-- `v` has the text `t` behind what `w` has, in the file or in the buffer, and no more on the disk
abbrev pub Extends : Str → Writer → Writer → Type 0
Extends t w v =
    (content v ≡ content w ++ t)
    × (v.disk ≡ w.disk)
    × (v.fsync_mode ≡ w.fsync_mode)
    × (v.sync_failed ≡ w.sync_failed)

-- a part of `s`, and perhaps a sync that has failed
abbrev pub ExtendsPartly : Str → Writer → Writer → Type 0
ExtendsPartly s w v =
    (n : ℕ) × (content v ≡ content w ++ take n s)
    × (v.disk ≡ w.disk)
    × (v.fsync_mode ≡ w.fsync_mode)

abbrev Flushed : Writer → IoResult × Writer → Type 0
Flushed w (succeeded, v) = (v.buffer ≡ []) × Extends [] w v
Flushed w (failed, v) = Extends [] w v

abbrev pub Adds : Str → Writer → IoResult × Writer → Type 0
Adds s w (succeeded, v) = Extends s w v
Adds s w (failed, v) = ExtendsPartly s w v

Extends-trans : (s t : Str) (u v w : Writer) → Extends s u v → Extends t v w → Extends (s ++ t) u w
Extends-trans s t u v w (a, b, c, x) (d, e, f, y) =
    (rw (d, a) (append_assoc (content u) s t), e ∙ b, f ∙ c, y ∙ x)

flush-Flushed : (o : WriteOutcome) (w : Writer) → Flushed w (flush o w)
unfolding flush
flush-Flushed o w = elim (reaches-cases o (length w.buffer)) [
  | inl whole ↦
      rw
        (
          whole,
          take_all (length w.buffer) w.buffer (omega arith),
          drop_all (length w.buffer) w.buffer (omega arith),
        )
        (refl, (refl, refl, refl, refl))
  | inr (n, part) ↦ rw part (moved n, refl, refl, refl)
]
  where
    moved :
        (n : ℕ) → (w.kernel ++ take n w.buffer) ++ drop n w.buffer ≡ (w.kernel ++ w.buffer) ++ []
    moved n = rw (append-nil (w.kernel ++ w.buffer), append_assoc, take-drop n w.buffer) refl

write_through-Adds :
    (o : WriteOutcome) (s : Str) (w : Writer) → w.buffer ≡ [] → Adds s w (write_through o s w)
unfolding write_through
write_through-Adds o s w h = elim (reaches-cases o (length s)) [
  | inl whole ↦ rw (whole, take_all (length s) s (omega arith)) (behind s, refl, refl, refl)
  | inr (n, part) ↦ rw part (n, behind (take n s), refl, refl)
]
  where
    behind : (t : Str) → (w.kernel ++ t) ++ w.buffer ≡ (w.kernel ++ w.buffer) ++ t
    behind t = rw h (simp append-nil)

keep-Extends : (s : Str) (w : Writer) → Extends s w (keep s w)
keep-Extends s w = (sym (append_assoc w.kernel w.buffer s), refl, refl, refl)

Adds-after :
    (s : Str) (u v : Writer) (r : IoResult × Writer) → Extends [] u v → Adds s v r → Adds s u r
Adds-after s u v (succeeded, w) a b = Extends-trans [] s u v w a b
Adds-after s u v (failed, w) (a, b, c, _) (n, d, e, f) =
    (n, rw (d, a) (append_assoc (content u) [] (take n s)), e ∙ b, f ∙ c)

if_succeeded-Adds :
    (s : Str) (w : Writer) (r : IoResult × Writer) (f : Writer → IoResult × Writer)
    → Flushed w r
    → ((v : Writer) → v.buffer ≡ [] → Adds s v (f v))
    → Adds s w (if_succeeded r f)
if_succeeded-Adds s w (succeeded, v) f (e, h) k = Adds-after s w v (f v) h (k v e)
if_succeeded-Adds s w (failed, v) f (a, b, c, _) k = (0, a, b, c)

past_buffer-Adds :
    (through : WriteOutcome) (s : Str) (w : Writer)
    → length s ≤ capacity - length w.buffer ⊎ (w.buffer ≡ [])
    → Adds s w
        (if leb capacity (length s) then write_through through s w else (succeeded, keep s w))
past_buffer-Adds through s w h = elim (Bool-cases (leb capacity (length s))) [
  | inl large ↦ rw large (write_through-Adds through s w (no_buffer h (ground arith)))
  | inr small ↦ rw small (keep-Extends s w)
]
  where
    nothing : (l : Str) → length l ≡ 0 → l ≡ []
    nothing [] e = refl
    nothing (c ∷ l) e = absurd (omega arith)

    no_buffer :
        length s ≤ capacity - length w.buffer ⊎ (w.buffer ≡ [])
        → capacity ≤ length s
        → w.buffer ≡ []
    no_buffer (inl room) large = nothing w.buffer (omega arith)
    no_buffer (inr e) large = e

pub write_all-Adds :
    (spill through : WriteOutcome) (s : Str) (w : Writer) → Adds s w (write_all spill through s w)
unfolding write_all
write_all-Adds spill through s w = elim (Bool-cases (ltb (length s) (capacity - length w.buffer))) [
  | inl room ↦ rw room (keep-Extends s w)
  | inr full ↦ rw full (elim (Bool-cases (ltb (capacity - length w.buffer) (length s))) [
    | inl spills ↦ rw spills (
        if_succeeded-Adds s w (flush spill w) _ (flush-Flushed spill w)
          λ v e. past_buffer-Adds through s v (inr e))
    | inr fits ↦ rw fits (past_buffer-Adds through s w (inl (ground arith)))
  ])
]

-- What an append makes of the entry `s`: behind all that was there, whole, or a part of it if a
-- call fails.
abbrev pub Appends : Str → Writer → IoResult × Writer → Type 0
Appends s w (succeeded, v) =
    (v.buffer ≡ [])
    × (v.kernel ≡ content w ++ s)
    × (v.disk ≡ (if is_always w.fsync_mode then known w.sync_failed v.kernel w.disk else w.disk))
    × (v.fsync_mode ≡ w.fsync_mode)
    × (v.sync_failed ≡ w.sync_failed)
Appends s w (failed, v) = ExtendsPartly s w v

whole : (s : Str) (w v : Writer) → Extends s w v → ExtendsPartly s w v
whole s w v (a, b, c, _) = (length s, rw (take_all (length s) s (omega arith)) a, b, c)

syncs-Appends :
    (answer : IoResult) (s : Str) (w u : Writer)
    → u.buffer ≡ []
    → Extends s w u
    → Appends s w (if is_always u.fsync_mode then (answer, sync_data answer u) else (succeeded, u))
syncs-Appends answer s w u e (c, d, m, x) =
    by_mode answer (is_always u.fsync_mode) (ap is_always (sym m))
  where
    in_file : u.kernel ≡ content w ++ s
    in_file = rw (← c, e, append-nil) refl

    by_mode :
        (answer : IoResult) (always : Bool)
        → is_always w.fsync_mode ≡ always
        → Appends s w (if always then (answer, sync_data answer u) else (succeeded, u))
    by_mode succeeded true k = (e, in_file, rw (k, x, d) refl, m, x)
    by_mode failed true k = whole s w u (c, d, m, x)
    by_mode answer false k = (e, in_file, rw (k, d) refl, m, x)

-- Whatever the system calls answer: an append that succeeds leaves nothing in the buffer, puts the
-- entry whole behind all that the earlier ones left, and in mode `always`, if no sync has failed
-- before, has the file on the disk; one that fails leaves a part of the entry, perhaps all of it or nothing, behind all that was there,
-- and nothing more on the disk.
pub append-Appends : (calls : Calls) (s : Str) (w : Writer) → Appends s w (append calls s w)
unfolding append
append-Appends calls s w =
    after_write (write_all calls.spill calls.through s w)
      (write_all-Adds calls.spill calls.through s w)
  where
    after_flush :
        (v : Writer) (r : IoResult × Writer)
        → Extends s w v
        → Flushed v r
        → Appends s w (
            if_succeeded r λ u.
              if is_always u.fsync_mode
              then (calls.syncs, sync_data calls.syncs u)
              else (succeeded, u))
    after_flush v (succeeded, u) a (e, b) =
        syncs-Appends calls.syncs s w u e (rw (sym (append-nil s)) (Extends-trans s [] w v u a b))
    after_flush v (failed, u) a b =
        whole s w u (rw (sym (append-nil s)) (Extends-trans s [] w v u a b))

    after_write :
        (r : IoResult × Writer)
        → Adds s w r
        → Appends s w (
            if_succeeded r λ v. if_succeeded (flush calls.flushes v) λ u.
              if is_always u.fsync_mode
              then (calls.syncs, sync_data calls.syncs u)
              else (succeeded, u))
    after_write (succeeded, v) a =
        after_flush v (flush calls.flushes v) a (flush-Flushed calls.flushes v)
    after_write (failed, v) a = a
