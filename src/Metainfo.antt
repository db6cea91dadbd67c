-- ===== src/Metainfo.antt =====
-- internal/protocol/metainfo/metainforequester/requester.go: the messages that are read from a peer, and
-- the pieces of the metadata. What the peer sends is the list of its bytes, after which reading fails.
-- The bencode decoder is a parameter: it gives the dictionary and the bytes that it leaves unread. An
-- int has 64 bits, with an overflow that wraps.
pub mod Stream
pub mod Pieces
pub mod Placing
pub mod Messages
pub mod Honest
mod Examples
use hexmagnet.Prelude.{
  ℤ, pos, negsuc, ℕ, zero, suc, ◌+◌, ◌-◌, ◌*◌, ◌/◌, ◌%◌, ◌^◌, Bool, true, false, not, ◌&&◌, ltb,
  leb, ◌==◌, if◌then◌else◌, List, [], ◌∷◌, ◌++◌, length, take, drop, Option, none, some,
}

abbrev pub Bytes : Type 0
Bytes = List ℕ

-- What is read, and what the peer has still to send; `stuck` is a loop that is out of fuel.
pub data Read (A : Type 0) : Type 0 where
  got : A → Bytes → Read A
  fails : Read A
  panics : Read A
  stuck : Read A

infixl 5 ◌>>=◌
abbrev pub ◌>>=◌ : {A B : Type 0} → Read A → (A → Bytes → Read B) → Read B
got a r >>= f = f a r
fails >>= f = fails
panics >>= f = panics
stuck >>= f = stuck

abbrev pub max_metadata_size : ℕ
max_metadata_size = 10 * 1024 * 1024

abbrev pub piece_size : ℕ
piece_size = 16 * 1024

-- `io.ReadFull`.
pub read_full : ℕ → Bytes → Read Bytes
read_full n s = if ltb (length s) n then fails else got (take n s) (drop n s)

abbrev pub big_endian : ℕ → Bytes → ℕ
big_endian n [] = n
big_endian n (x ∷ b) = big_endian (n * 256 + x) b

pub read_message : Bytes → Read Bytes
unfolding read_full
read_message s = read_full 4 s >>= λ head rest.
    let size : ℕ = big_endian 0 head in
    if ltb max_metadata_size size then fails else read_full size rest

-- `b[i]`, where the messages that are passed on are long enough.
abbrev pub byte_at : ℕ → Bytes → ℕ
byte_at i [] = 0
byte_at zero (x ∷ b) = x
byte_at (suc i) (x ∷ b) = byte_at i b

abbrev pub is_extended : Bytes → Bool
is_extended m = leb 2 (length m) && (byte_at 0 m == 20)

-- A round reads four bytes at least.
pub read_ex_loop : ℕ → Bytes → Read Bytes
read_ex_loop zero s = stuck
read_ex_loop (suc f) s =
    read_message s
    >>= (λ m rest. let again = read_ex_loop f rest in if is_extended m then got m rest else again)

pub read_ex_message : Bytes → Read Bytes
unfolding read_ex_loop
read_ex_message s = read_ex_loop (suc (length s)) s

pub read_um_loop : ℕ → Bytes → Read Bytes
read_um_loop zero s = stuck
read_um_loop (suc f) s = read_ex_message s >>= (λ m rest.
    let again = read_um_loop f rest in if byte_at 1 m == 1 then got m rest else again)

pub read_um_message : Bytes → Read Bytes
unfolding read_um_loop
read_um_message s = read_um_loop (suc (length s)) s

pub record ExtDict : Type 0 where
  pub msg_type : ℤ
  pub piece : ℤ

-- `i == n` for an int.
abbrev pub is_int : ℤ → ℕ → Bool
is_int (pos i) n = i == n
is_int (negsuc i) n = false

-- `int * 2^14` as the unsigned number with the same 64 bits.
abbrev pub times_piece : ℤ → ℕ
times_piece (pos n) = n * piece_size % 2 ^ 64
times_piece (negsuc n) = (2 ^ 64 - suc n * piece_size % 2 ^ 64) % 2 ^ 64

-- The place of a piece of `n` bytes, if the slice of the metadata that it is copied to is in range.
unfoldable pub place : ℤ → ℕ → ℕ → Option ℕ
place piece n size =
    if ltb (times_piece piece) (2 ^ 63) && leb (times_piece piece + n) size
    then some (times_piece piece)
    else none

pub write : ℕ → Bytes → Bytes → Bytes
write at piece metadata = take at metadata ++ (piece ++ drop (at + length piece) metadata)

-- What a message does: the metadata and the size received.
pub data Step : Type 0 where
  goes_on : Bytes → ℕ → Step
  gives_up breaks : Step

pub put_at : Option ℕ → Bytes → Bytes → ℕ → Step
put_at none piece metadata received = breaks
put_at (some at) piece metadata received = goes_on (write at piece metadata) received

-- `received` counts the piece.
pub take_piece : ExtDict → Bytes → Bytes → ℕ → Step
unfolding write put_at place
take_piece d piece metadata received =
    if ltb piece_size (length piece)
    then gives_up
    else if ltb (length piece) piece_size && not (received == length metadata)
    then gives_up
    else if ltb (length metadata) received
    then gives_up
    else put_at (place d.piece (length piece) (length metadata)) piece metadata received

-- A message after which the loop goes on.
abbrev pub after_step : Step → (Bytes → ℕ → Read Bytes) → Read Bytes
after_step (goes_on metadata received) k = k metadata received
after_step gives_up k = fails
after_step breaks k = panics

abbrev pub zeros : ℕ → Bytes
zeros zero = []
zeros (suc n) = 0 ∷ zeros n

pub uint_to_big_endian4 : ℕ → Bytes
uint_to_big_endian4 i = i / 2 ^ 24 % 256 ∷ i / 2 ^ 16 % 256 ∷ i / 2 ^ 8 % 256 ∷ i % 256 ∷ []

module _ (decode : Bytes → Option (ExtDict × Bytes)) where
  pub step_with : Option (ExtDict × Bytes) → Bytes → ℕ → Step
  unfolding take_piece
  step_with none metadata received = gives_up
  step_with (some (d, piece)) metadata received =
      if is_int d.msg_type 2
      then gives_up
      else if is_int d.msg_type 1
      then take_piece d piece metadata (received + length piece)
      else goes_on metadata received

  pub read_loop : ℕ → Bytes → Bytes → ℕ → Read Bytes
  unfolding step_with
  read_loop zero s metadata received = stuck
  read_loop (suc f) s metadata received =
      let next = read_um_message s >>= (λ m rest.
        after_step (step_with (decode (drop 2 m)) metadata received) (read_loop f rest)) in
      if ltb received (length metadata) then next else got metadata s

  pub read_all_pieces : Bytes → ℕ → Read Bytes
  unfolding read_loop
  read_all_pieces s size = read_loop (suc (length s)) s (zeros size) 0
