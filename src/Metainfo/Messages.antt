-- ===== src/Metainfo/Messages.antt =====
-- internal/protocol/metainfo/metainforequester/requester.go: one message of a peer that sends what it should.
use mathlib.Core.List.{append_assoc}
use native.Mathlib.Nat.{zero-add}
use hexmagnet.Prelude.{
  pos, ℕ, suc, ◌+◌, ◌*◌, ◌^◌, ◌≤◌, ◌<◌, ◌≡◌, refl, sym, ap, ◌∙◌, true, false, not, ◌&&◌, ltb, ◌==◌,
  [], ◌∷◌, ◌++◌, length, length-append, take-append, drop-append, take, drop, some, arith,
}
use hexmagnet.Metainfo.{
  Bytes, got, max_metadata_size, piece_size, read_full, big_endian, read_message, is_extended,
  read_ex_loop, read_ex_message, read_um_loop, read_um_message, write, goes_on, put_at, take_piece,
  uint_to_big_endian4,
}
use hexmagnet.Metainfo.Placing.{place-some}

read_full-append : (n : ℕ) (b tail : Bytes) → length b ≡ n → read_full n (b ++ tail) ≡ got b tail
unfolding read_full
read_full-append n b tail h = rw (enough) (
    ap (λ (k : ℕ). got (take k (b ++ tail)) (drop k (b ++ tail))) (sym h)
    ∙ (ap (λ x. got x (drop (length b) (b ++ tail))) (take-append b tail)
        ∙ ap (λ x. got b x) (drop-append b tail)))
  where
    enough : ltb (length (b ++ tail)) n ≡ false
    enough = ground (arith, length-append b tail, h)

big_endian-uint : (n : ℕ) → n < 2 ^ 32 → big_endian 0 (uint_to_big_endian4 n) ≡ n
unfolding uint_to_big_endian4
big_endian-uint n h = omega arith

-- A message, with its length before it.
abbrev pub message : Bytes → Bytes
message b = uint_to_big_endian4 (length b) ++ b

pub length-uint : (n : ℕ) → length (uint_to_big_endian4 n) ≡ 4
unfolding uint_to_big_endian4
length-uint n = refl

read_message-message :
    (b tail : Bytes) → length b ≤ max_metadata_size → read_message (message b ++ tail) ≡ got b tail
unfolding read_message
read_message-message b tail h =
    ap read_message (append_assoc (uint_to_big_endian4 (length b)) b tail)
    ∙ rw (read_full-append 4 (uint_to_big_endian4 (length b)) (b ++ tail) (length-uint (length b)))
        (rw (big_endian-uint (length b) (omega (arith, h)), small)
          (read_full-append (length b) b tail refl))
  where
    small : ltb max_metadata_size (length b) ≡ false
    small = ground (arith, h)

-- A piece as it is sent: a dictionary, and the piece's bytes.
pub record Part : Type 0 where
  pub header : Bytes
  pub payload : Bytes

abbrev pub body : Part → Bytes
body p = 20 ∷ 1 ∷ (p.header ++ p.payload)

is_extended-body : (p : Part) → is_extended (body p) ≡ true
is_extended-body p = ground arith

pub read_um_message-message :
    (p : Part) (tail : Bytes)
    → length (body p) ≤ max_metadata_size
    → read_um_message (message (body p) ++ tail) ≡ got (body p) tail
unfolding read_um_message read_um_loop read_ex_message read_ex_loop
read_um_message-message p tail h =
    rw (read_message-message (body p) tail h) (rw (is_extended-body p) refl)

suc-add : (n m : ℕ) → suc n + m ≡ suc (n + m)
suc-add n m = omega arith

drop-add-append : (b pad : Bytes) (n : ℕ) → drop (length b + n) (b ++ pad) ≡ drop n pad
drop-add-append [] pad n = ap (λ (k : ℕ). drop k pad) (zero-add n)
drop-add-append (x ∷ b) pad n =
    ap (λ (k : ℕ). drop k (x ∷ b ++ pad)) (suc-add (length b) n) ∙ drop-add-append b pad n

write-append :
    (b pad piece : Bytes)
    → write (length b) piece (b ++ pad) ≡ (b ++ piece) ++ drop (length piece) pad
unfolding write
write-append b pad piece =
    ap (λ x. x ++ (piece ++ drop (length b + length piece) (b ++ pad))) (take-append b pad)
    ∙ (ap (λ x. b ++ (piece ++ x)) (drop-add-append b pad (length piece))
        ∙ sym (append_assoc b piece (drop (length piece) pad)))

-- Piece `k` comes when those before it are there.
pub take_piece-next :
    (k : ℕ) (b pad piece : Bytes)
    → length b ≡ k * piece_size
    → length piece ≤ piece_size
    → length piece ≤ length pad
    → (length piece < piece_size → length piece ≡ length pad)
    → length (b ++ pad) ≤ max_metadata_size
    → take_piece
        (record { msg_type = pos 1; piece = pos k })
        piece
        (b ++ pad)
        (length b + length piece)
      ≡ goes_on ((b ++ piece) ++ drop (length piece) pad) (length b + length piece)
unfolding take_piece put_at
take_piece-next k b pad piece here size room last small =
    rw (not_long, complete, not_more)
      (ap (λ o. put_at o piece (b ++ pad) (length b + length piece))
          (place-some k (length piece) (length (b ++ pad))
              (omega (arith, length-append b pad, here, small))
              (omega (arith, length-append b pad, here, room))
            ∙ ap some (sym here))
        ∙ ap (λ m. goes_on m (length b + length piece)) (write-append b pad piece))
  where
    not_long : ltb piece_size (length piece) ≡ false
    not_long = ground (arith, size)

    not_more : ltb (length (b ++ pad)) (length b + length piece) ≡ false
    not_more = ground (arith, length-append b pad, room)

    complete :
        (ltb (length piece) piece_size && not (length b + length piece == length (b ++ pad)))
        ≡ false
    complete = ground (arith, length-append b pad, last)
