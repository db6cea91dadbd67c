-- ===== src/Btree/Bits.antt =====
-- internal/protocol/dht/ktable/btree/btree.go: identifiers as byte strings, their bits, and the
-- result of a put. An index or a slice out of range is a panic, `none`.
pub mod Index
pub mod Masks
use hexmagnet.Prelude.{
  ℕ, zero, suc, ◌+◌, ◌-◌, ◌*◌, ◌/◌, ◌%◌, ◌^◌, bit_xor, Bool, true, false, Option, none, some, List,
  [], ◌∷◌, ◌++◌, ltb, leb, ◌==◌, if◌then◌else◌, ◌>>=◌, length, get_elem?, drop,
}

abbrev pub Bit : Type 0
Bit = Bool

abbrev pub Bits : Type 0
Bits = List Bit

-- The bytes, each below 256.
abbrev pub NodeId : Type 0
NodeId = List ℕ

pub data PutResult : Type 0 where
  rejected accepted already_exists : PutResult

-- `b[n:]`
abbrev pub slice_from {ℓ} : {A : Type ℓ} → List A → ℕ → Option (List A)
slice_from b n = if leb n (length b) then some (drop n b) else none

unfoldable pub leading_zeros : Bits → ℕ
leading_zeros [] = 0
leading_zeros (bit ∷ b) = if bit then 0 else suc (leading_zeros b)

-- The three results of a comparison.
pub data Order : Type 0 where
  less same greater : Order

-- `Bits.Cmp`, on fuel.
unfoldable pub cmp : ℕ → Bits → Bits → Option Order
cmp zero b other = none
cmp (suc fuel) b other =
    let this_pos = leading_zeros b + 1 in
    let other_pos = leading_zeros other + 1 in
    let rest =
      slice_from b this_pos >>= λ b'. slice_from other this_pos >>= λ other'. cmp fuel b' other' in
    if ltb this_pos other_pos
    then some greater
    else if ltb other_pos this_pos
    then some less
    else if this_pos == length b
    then some same
    else rest

-- `id[n/8] >> (7-n%8) & 1 == 1`
unfoldable pub get_bit : NodeId → ℕ → Option Bit
get_bit id n = get_elem? id (n / 8) >>= λ byte. some (byte / 2 ^ (7 - n % 8) % 2 == 1)

xor_bytes : NodeId → NodeId → NodeId
xor_bytes [] other = []
xor_bytes (a ∷ id) [] = []
xor_bytes (a ∷ id) (b ∷ other) = bit_xor a b ∷ xor_bytes id other

-- `Xor`: an error on a length mismatch.
unfoldable pub xor : NodeId → NodeId → Option NodeId
unfolding xor_bytes
xor id other = if length id == length other then some (xor_bytes id other) else none

-- `MustXor` turns the error into a panic.
unfoldable pub must_xor : NodeId → NodeId → Option NodeId
unfolding xor
must_xor id other = xor id other >>= λ ret. some ret

equal_bytes : NodeId → NodeId → Bool
equal_bytes [] id = true
equal_bytes (b ∷ other) [] = false
equal_bytes (b ∷ other) (a ∷ id) = if b == a then equal_bytes other id else false

unfoldable pub equals : NodeId → NodeId → Bool
unfolding equal_bytes
equals id other = if length other == length id then equal_bytes other id else false

-- The loop of `Bits`, from index `i` for the rounds left.
bits_loop : NodeId → ℕ → ℕ → Option Bits
bits_loop id i zero = some []
bits_loop id i (suc rounds) =
    get_bit id i >>= λ bit. bits_loop id (i + 1) rounds >>= λ path. some (bit ∷ path)

unfoldable pub bits : NodeId → Option Bits
unfolding bits_loop get_bit
bits id = bits_loop id 0 (length id * 8)

unfoldable pub append_to_path : Bits → Bit → Bits
append_to_path path bit = path ++ bit ∷ []
