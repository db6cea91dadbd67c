-- ===== src/Metainfo/Placing.antt =====
-- internal/protocol/metainfo/metainforequester/requester.go: where a piece is put, and the panic if it
-- is not within the metadata.
use hexmagnet.Prelude.{
  ℤ, pos, negsuc, ℕ, ◌+◌, ◌*◌, ◌^◌, ◌≤◌, ◌<◌, ◌≡◌, refl, ap, subst, ◌∙◌, Bool, true, false, ◌&&◌,
  ltb, leb, leb→le, lt→ltb, ◌⊎◌, Bool-cases, inl, inr, length, drop, Option, none, some, min, arith,
}
use hexmagnet.Metainfo.{
  Bytes, got, panics, piece_size, read_um_message, ExtDict, is_int, place, write, Step, goes_on,
  breaks, put_at, take_piece, step_with, after_step, read_loop, zeros, read_all_pieces, times_piece,
}
use hexmagnet.Metainfo.Pieces.{length-zeros}

-- The numbers of pieces whose product with the size of a piece is an int64.
abbrev pub IsNear : ℤ → Type 0
IsNear (pos k) = k < 2 ^ 49
IsNear (negsuc k) = k < 2 ^ 49

-- A piece of `n` bytes with this number is not within `size` bytes: it ends after them, or its
-- number is negative.
abbrev pub IsOutside : ℤ → ℕ → ℕ → Type 0
IsOutside (pos k) n size = size < k * piece_size + n
IsOutside (negsuc k) n size = Unit

leb_within : (a b : ℕ) → a ≤ b → leb a b ≡ true
leb_within a b h = ground (arith, h)

leb_over : (a b : ℕ) → b < a → leb a b ≡ false
leb_over a b h = ground (arith, h)

ltb_over : (a b : ℕ) → b ≤ a → ltb a b ≡ false
ltb_over a b h = ground (arith, h)

place-none :
    (piece : ℤ) (n size : ℕ) → IsNear piece → IsOutside piece n size → place piece n size ≡ none
unfolding place
place-none (pos k) n size small out =
    rw
      (not_both (ltb (times_piece (pos k)) (2 ^ 63))
        (leb_over (times_piece (pos k) + n) size (omega (arith, small, out))))
      refl
  where
    not_both : (a : Bool) {b : Bool} → b ≡ false → (a && b) ≡ false
    not_both true h = h
    not_both false h = refl
place-none (negsuc k) n size small out =
    rw (ltb_over (times_piece (negsuc k)) (2 ^ 63) (omega (arith, small))) refl

pub place-some :
    (k n size : ℕ)
    → IsNear (pos k)
    → k * piece_size + n ≤ size
    → place (pos k) n size ≡ some (k * piece_size)
unfolding place
place-some k n size small fits =
    rw
      (
        times,
        lt→ltb (k * piece_size) (2 ^ 63) (omega (arith, small)),
        leb_within (k * piece_size + n) size fits,
      )
      refl
  where
    times : times_piece (pos k) ≡ k * piece_size
    times = omega (arith, small)

-- A full piece, or all that there is, that would not fit where it belongs.
take_piece-breaks :
    (d : ExtDict) (piece metadata : Bytes)
    → length piece ≡ min piece_size (length metadata)
    → place d.piece (length piece) (length metadata) ≡ none
    → take_piece d piece metadata (0 + length piece) ≡ breaks
unfolding take_piece put_at
take_piece-breaks d piece metadata full p = rw p (ground (arith, full))

-- One that does.
take_piece-goes_on :
    (d : ExtDict) (piece metadata : Bytes) (at : ℕ)
    → length piece ≡ min piece_size (length metadata)
    → place d.piece (length piece) (length metadata) ≡ some at
    → take_piece d piece metadata (0 + length piece)
      ≡ goes_on (write at piece metadata) (0 + length piece)
unfolding take_piece put_at
take_piece-goes_on d piece metadata at full p = rw p (ground (arith, full))

place-cases :
    (piece : ℤ) (n size : ℕ)
    → IsOutside piece n size ⊎ ((k : ℕ) × (piece ≡ pos k) × (k * piece_size + n ≤ size))
place-cases (negsuc k) n size = inl tt
place-cases (pos k) n size = elim (Bool-cases (leb (k * piece_size + n) size)) [
  | inl e ↦ inr (k, refl, leb→le (k * piece_size + n) size e)
  | inr e ↦ inl (ground (arith, e))
]

not_reject : (i : ℤ) → is_int i 1 ≡ true → is_int i 2 ≡ false
not_reject (pos n) h = ground (arith, h)
not_reject (negsuc n) h = cc

module _ (decode : Bytes → Option (ExtDict × Bytes)) where
  -- What becomes of reading at a first piece: a panic if it is outside, and otherwise it is put where
  -- it belongs and reading goes on.
  pub data Placed (s rest piece : Bytes) (d : ExtDict) (size : ℕ) : Type 0 where
    outside :
        IsOutside d.piece (length piece) size
        → read_all_pieces decode s size ≡ panics
        → Placed s rest piece d size
    inside :
        (k : ℕ)
        → d.piece ≡ pos k
        → k * piece_size + length piece ≤ size
        → read_all_pieces decode s size
          ≡ read_loop decode
              (length s)
              rest
              (write (k * piece_size) piece (zeros size))
              (0 + length piece)
        → Placed s rest piece d size

  module _ (s rest m piece : Bytes) (d : ExtDict) (size : ℕ) (um : read_um_message s ≡ got m rest)
      (e : decode (drop 2 m) ≡ some (d, piece)) (t : is_int d.msg_type 1 ≡ true) (h : 0 < size)
      (full : length piece ≡ min piece_size size) where
    full_zeros : length piece ≡ min piece_size (length (zeros size))
    full_zeros = omega (arith, length-zeros size, full)

    -- The first message is read and the step for its piece taken.
    first_step :
        (st : Step)
        → take_piece d piece (zeros size) (0 + length piece) ≡ st
        → read_all_pieces decode s size ≡ after_step st (read_loop decode (length s) rest)
    unfolding read_all_pieces read_loop step_with
    first_step st p = rw (lt→ltb 0 (length (zeros size)) (omega (arith, length-zeros size))) (
        rw um (
          rw e (
            rw (not_reject d.msg_type t, t)
              (ap (λ st. after_step st (read_loop decode (length s) rest)) p))))

    place-zeros :
        (o : Option ℕ)
        → place d.piece (length piece) size ≡ o
        → place d.piece (length piece) (length (zeros size)) ≡ o
    place-zeros o p = ap (λ (n : ℕ). place d.piece (length piece) n) (length-zeros size) ∙ p

    -- Where there is metadata to read and the first metadata message of a peer is a piece of data,
    -- either full or all of the metadata, with a number between -2^49 and 2^49, there are two
    -- cases: the number is negative or the piece would end after the metadata, and reading panics;
    -- or neither is so, and the piece is put at its number times the size of a piece and reading
    -- goes on with what follows.
    pub read_all_pieces-Placed : IsNear d.piece → Placed s rest piece d size
    read_all_pieces-Placed near = elim (place-cases d.piece (length piece) size) [
      | inl out ↦ outside out (
          first_step breaks (
            take_piece-breaks d piece (zeros size) full_zeros
              (place-zeros none (place-none d.piece (length piece) size near out))))
      | inr (k, q, fits) ↦ inside k q fits (
          first_step (goes_on (write (k * piece_size) piece (zeros size)) (0 + length piece)) (
            take_piece-goes_on d piece (zeros size) (k * piece_size) full_zeros (
              place-zeros (some (k * piece_size)) (
                ap (λ i. place i (length piece) size) q
                ∙ place-some k (length piece) size (subst IsNear q near) fits))))
    ]
