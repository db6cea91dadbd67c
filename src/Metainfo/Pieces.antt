-- ===== src/Metainfo/Pieces.antt =====
-- internal/protocol/metainfo/metainforequester/requester.go: reading the pieces comes to an end, with
-- metadata of the size that was asked for.
use hexmagnet.Prelude.{
  ℤ, ℕ, zero, suc, ◌+◌, ◌^◌, ◌≤◌, ◌<◌, ◌≡◌, refl, ap, subst, Bool, true, false, not, ◌&&◌, ltb, leb,
  leb→le, ◌==◌, if◌then◌else◌, Bool-cases, inl, inr, ◌++◌, length, length-append, length-take,
  length-drop, take, drop, Option, none, some, arith,
}
use hexmagnet.Metainfo.{
  Bytes, Read, got, fails, panics, stuck, ◌>>=◌, piece_size, read_um_message, ExtDict, is_int,
  place, write, Step, goes_on, gives_up, breaks, put_at, take_piece, step_with, after_step,
  read_loop, zeros, read_all_pieces, times_piece,
}
use hexmagnet.Metainfo.Stream.{Shrinks, read_um_message-Shrinks}

-- The metadata keeps its size.
place-le : (piece : ℤ) (n size at : ℕ) → place piece n size ≡ some at → at + n ≤ size
unfolding place
place-le piece n size at h =
    elim (Bool-cases (ltb (times_piece piece) (2 ^ 63) && leb (times_piece piece + n) size)) [
      | inl e ↦ omega (
        arith,
        leb→le (times_piece piece + n) size
            (second (ltb (times_piece piece) (2 ^ 63)) (leb (times_piece piece + n) size) e),
        same (rw e at h),
      )
      | inr e ↦ absurd (clash (rw e at h))
    ]
  where
    second : (a b : Bool) → (a && b) ≡ true → b ≡ true
    second true b q = q
    second false b q = cc

    same : some (times_piece piece) ≡ some at → times_piece piece ≡ at
    same q = cc

    clash : none ≡ some at → ⊥
    clash q = cc

length-write :
    (at : ℕ) (piece metadata : Bytes)
    → at + length piece ≤ length metadata
    → length (write at piece metadata) ≡ length metadata
unfolding write
length-write at piece metadata h = omega (
  arith,
  length-append (take at metadata) (piece ++ drop (at + length piece) metadata),
  length-append piece (drop (at + length piece) metadata),
  length-take at metadata,
  length-drop (at + length piece) metadata,
)

abbrev Keeps : ℕ → Step → Type 0
Keeps size (goes_on metadata received) = length metadata ≡ size
Keeps size gives_up = Unit
Keeps size breaks = Unit

if-Keeps :
    (b : Bool) (size : ℕ) (s t : Step)
    → Keeps size s
    → Keeps size t
    → Keeps size (if b then s else t)
if-Keeps true size s t h k = h
if-Keeps false size s t h k = k

put_at-Keeps :
    (o : Option ℕ) (piece metadata : Bytes) (received : ℕ)
    → ((at : ℕ) → o ≡ some at → at + length piece ≤ length metadata)
    → Keeps (length metadata) (put_at o piece metadata received)
unfolding put_at
put_at-Keeps none piece metadata received h = tt
put_at-Keeps (some at) piece metadata received h = length-write at piece metadata (h at refl)

take_piece-Keeps :
    (d : ExtDict) (piece metadata : Bytes) (received : ℕ)
    → Keeps (length metadata) (take_piece d piece metadata received)
unfolding take_piece
take_piece-Keeps d piece metadata received =
    if-Keeps (ltb piece_size (length piece)) (length metadata) gives_up _ tt (
      if-Keeps (ltb (length piece) piece_size && not (received == length metadata))
        (length metadata) gives_up _ tt
        (if-Keeps (ltb (length metadata) received) (length metadata) gives_up _ tt (
          put_at-Keeps (place d.piece (length piece) (length metadata)) piece metadata received
            (λ at h. place-le d.piece (length piece) (length metadata) at h))))

-- Metadata of the size, or an error, or a panic.
abbrev pub HasEnded : ℕ → Read Bytes → Type 0
HasEnded size (got metadata rest) = length metadata ≡ size
HasEnded size fails = Unit
HasEnded size panics = Unit
HasEnded size stuck = ⊥

>>=-HasEnded :
    (s : Bytes) (n : ℕ) (m : Read Bytes) (k : Bytes → Bytes → Read Bytes)
    → Shrinks s m
    → ((a rest : Bytes) → length rest < length s → HasEnded n (k a rest))
    → HasEnded n (m >>= k)
>>=-HasEnded s n (got a rest) k h g = g a rest h
>>=-HasEnded s n fails k h g = tt
>>=-HasEnded s n panics k h g = tt
>>=-HasEnded s n stuck k h g = absurd h

after_step-HasEnded :
    (n : ℕ) (t : Step) (k : Bytes → ℕ → Read Bytes)
    → Keeps n t
    → ((metadata : Bytes) (received : ℕ) → length metadata ≡ n → HasEnded n (k metadata received))
    → HasEnded n (after_step t k)
after_step-HasEnded n (goes_on metadata received) k h g = g metadata received h
after_step-HasEnded n gives_up k h g = tt
after_step-HasEnded n breaks k h g = tt

pub length-zeros : (n : ℕ) → length (zeros n) ≡ n
length-zeros zero = refl
length-zeros (suc n) = ap suc (length-zeros n)

module _ (decode : Bytes → Option (ExtDict × Bytes)) where
  step_with-Keeps :
      (o : Option (ExtDict × Bytes)) (metadata : Bytes) (received : ℕ)
      → Keeps (length metadata) (step_with decode o metadata received)
  unfolding step_with
  step_with-Keeps none metadata received = tt
  step_with-Keeps (some (d, piece)) metadata received =
      if-Keeps (is_int d.msg_type 2) (length metadata) gives_up _ tt (
        if-Keeps (is_int d.msg_type 1) (length metadata)
          (take_piece d piece metadata (received + length piece)) (goes_on metadata received)
          (take_piece-Keeps d piece metadata (received + length piece)) refl)

  read_loop-HasEnded :
      (f : ℕ) (s metadata : Bytes) (received : ℕ)
      → length s < f
      → HasEnded (length metadata) (read_loop decode f s metadata received)
  unfolding read_loop
  read_loop-HasEnded zero s metadata received l = elim l [ ]
  read_loop-HasEnded (suc f) s metadata received l =
      elim (Bool-cases (ltb received (length metadata))) [
        | inr h ↦ rw h refl
        | inl h ↦ rw h (
            >>=-HasEnded s (length metadata) (read_um_message s) _ (read_um_message-Shrinks s)
              (λ m rest k.
                after_step-HasEnded (length metadata)
                  (step_with decode (decode (drop 2 m)) metadata received) (read_loop decode f rest)
                  (step_with-Keeps (decode (drop 2 m)) metadata received)
                  (λ metadata' received' same.
                    subst (λ (n : ℕ). HasEnded n (read_loop decode f rest metadata' received')) same
                      (read_loop-HasEnded f rest metadata' received' (omega (arith, k, l))))))
      ]

  -- Reading the pieces from any bytes comes to an end within a round for each byte and one: with
  -- metadata of the size that was asked for, with an error, or with a panic.
  pub read_all_pieces-HasEnded :
      (s : Bytes) (size : ℕ) → HasEnded size (read_all_pieces decode s size)
  unfolding read_all_pieces
  read_all_pieces-HasEnded s size =
      subst (λ (n : ℕ). HasEnded n (read_loop decode (suc (length s)) s (zeros size) 0))
        (length-zeros size) (read_loop-HasEnded (suc (length s)) s (zeros size) 0 (omega arith))
