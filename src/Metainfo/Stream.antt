-- ===== src/Metainfo/Stream.antt =====
-- internal/protocol/metainfo/metainforequester/requester.go: reading a message takes bytes off the stream
-- and does not panic.
use hexmagnet.Prelude.{
  ℕ, zero, suc, ◌≤◌, ◌<◌, ◌≡◌, Bool, true, false, ltb, ◌==◌, if◌then◌else◌, Bool-cases, inl, inr,
  length, length-drop, arith,
}
use hexmagnet.Metainfo.{
  Bytes, Read, got, fails, panics, stuck, ◌>>=◌, max_metadata_size, read_full, big_endian,
  read_message, byte_at, is_extended, read_ex_loop, read_ex_message, read_um_loop, read_um_message,
}

-- A read ends, takes something off, and does not panic.
abbrev pub Shrinks : {A : Type 0} → Bytes → Read A → Type 0
Shrinks s (got a rest) = length rest < length s
Shrinks s fails = Unit
Shrinks s panics = ⊥
Shrinks s stuck = ⊥

>>=-Shrinks :
    {A B : Type 0} (s : Bytes) (m : Read A) (k : A → Bytes → Read B)
    → Shrinks s m
    → ((a : A) (rest : Bytes) → length rest < length s → Shrinks s (k a rest))
    → Shrinks s (m >>= k)
>>=-Shrinks s (got a rest) k h g = g a rest h
>>=-Shrinks s fails k h g = tt
>>=-Shrinks s panics k h g = absurd h
>>=-Shrinks s stuck k h g = absurd h

Shrinks-mono :
    {A : Type 0} (s rest : Bytes) (m : Read A)
    → length rest < length s
    → Shrinks rest m
    → Shrinks s m
Shrinks-mono s rest (got a left) l h = omega arith
Shrinks-mono s rest fails l h = tt
Shrinks-mono s rest panics l h = absurd h
Shrinks-mono s rest stuck l h = absurd h

if-Shrinks :
    {A : Type 0} (b : Bool) (s : Bytes) (m n : Read A)
    → Shrinks s m
    → Shrinks s n
    → Shrinks s (if b then m else n)
if-Shrinks true s m n h k = h
if-Shrinks false s m n h k = k

-- Of the rest of a stream any number of bytes can be read, none included.
read_full-Shrinks : (n : ℕ) (s rest : Bytes) → length rest < length s → Shrinks s (read_full n rest)
unfolding read_full
read_full-Shrinks n s rest l = elim (Bool-cases (ltb (length rest) n)) [
  | inl h ↦ rw h tt
  | inr h ↦ rw h (omega (arith, length-drop n rest, l))
]

four-Shrinks : (s : Bytes) → Shrinks s (read_full 4 s)
unfolding read_full
four-Shrinks s = elim (Bool-cases (ltb (length s) 4)) [
  | inl h ↦ rw h tt
  | inr h ↦ rw h (omega (arith, length-drop 4 s, at_least h))
]
  where
    at_least : ltb (length s) 4 ≡ false → 4 ≤ length s
    at_least h = ground arith

read_message-Shrinks : (s : Bytes) → Shrinks s (read_message s)
unfolding read_message
read_message-Shrinks s = >>=-Shrinks s (read_full 4 s) _ (four-Shrinks s) (λ head rest l.
    if-Shrinks (ltb max_metadata_size (big_endian 0 head)) s fails
      (read_full (big_endian 0 head) rest) tt (read_full-Shrinks (big_endian 0 head) s rest l))

read_ex_loop-Shrinks : (f : ℕ) (s : Bytes) → length s < f → Shrinks s (read_ex_loop f s)
unfolding read_ex_loop
read_ex_loop-Shrinks zero s l = elim l [ ]
read_ex_loop-Shrinks (suc f) s l =
    >>=-Shrinks s (read_message s) _ (read_message-Shrinks s) (λ m rest k.
      if-Shrinks (is_extended m) s (got m rest) (read_ex_loop f rest) k (
        Shrinks-mono s rest (read_ex_loop f rest) k
          (read_ex_loop-Shrinks f rest (omega (arith, k, l)))))

read_ex_message-Shrinks : (s : Bytes) → Shrinks s (read_ex_message s)
unfolding read_ex_message
read_ex_message-Shrinks s = read_ex_loop-Shrinks (suc (length s)) s (omega arith)

read_um_loop-Shrinks : (f : ℕ) (s : Bytes) → length s < f → Shrinks s (read_um_loop f s)
unfolding read_um_loop
read_um_loop-Shrinks zero s l = elim l [ ]
read_um_loop-Shrinks (suc f) s l =
    >>=-Shrinks s (read_ex_message s) _ (read_ex_message-Shrinks s) (λ m rest k.
      if-Shrinks (byte_at 1 m == 1) s (got m rest) (read_um_loop f rest) k (
        Shrinks-mono s rest (read_um_loop f rest) k
          (read_um_loop-Shrinks f rest (omega (arith, k, l)))))

pub read_um_message-Shrinks : (s : Bytes) → Shrinks s (read_um_message s)
unfolding read_um_message
read_um_message-Shrinks s = read_um_loop-Shrinks (suc (length s)) s (omega arith)
