-- ===== src/Btree/Bits/Index.antt =====
-- The bits of an identifier as one list, and how `get_bit` and `bits` read it.
use hexmagnet.Prelude.{
  ℕ, zero, suc, ◌+◌, ◌*◌, ◌/◌, ◌%◌, ◌^◌, ◌<◌, ◌≡◌, refl, sym, ap, ◌∙◌, some, List, [], ◌∷◌, arith,
  ◌==◌, length, get_elem?, drop,
}
use hexmagnet.Btree.Bits.{Bit, Bits, NodeId, get_bit, bits, bits_loop}

abbrev pub bit_of : ℕ → ℕ → Bit
bit_of v k = v / 2 ^ k % 2 == 1

-- The bits in order, the highest of each byte first.
unfoldable pub bit_list : NodeId → Bits
bit_list [] = []
bit_list (a ∷ id) =
    bit_of a 7
    ∷ bit_of a 6
    ∷ bit_of a 5
    ∷ bit_of a 4
    ∷ bit_of a 3
    ∷ bit_of a 2
    ∷ bit_of a 1
    ∷ bit_of a 0
    ∷ bit_list id

pub length-bit_list : (id : NodeId) → length (bit_list id) ≡ length id * 8
unfolding bit_list
length-bit_list [] = refl
length-bit_list (a ∷ id) = omega (arith, length-bit_list id)

get_bit_next :
    (a : ℕ) (id : NodeId) (j : ℕ)
    → get_bit (a ∷ id) (suc (suc (suc (suc (suc (suc (suc (suc j)))))))) ≡ get_bit id j
unfolding get_bit
get_bit_next a id j =
    let quotient : suc (suc (suc (suc (suc (suc (suc (suc j))))))) / 8 ≡ suc (j / 8) =
      omega arith in
    let remainder : suc (suc (suc (suc (suc (suc (suc (suc j))))))) % 8 ≡ j % 8 = omega arith in
    rw (quotient, remainder)

-- `get_bit` reads the list of bits, and panics exactly where that list ends.
pub get_bit-bit_list : (id : NodeId) (i : ℕ) → get_bit id i ≡ get_elem? (bit_list id) i
unfolding get_bit bit_list
get_bit-bit_list [] i = refl
get_bit-bit_list (a ∷ id) zero = refl
get_bit-bit_list (a ∷ id) (suc zero) = refl
get_bit-bit_list (a ∷ id) (suc (suc zero)) = refl
get_bit-bit_list (a ∷ id) (suc (suc (suc zero))) = refl
get_bit-bit_list (a ∷ id) (suc (suc (suc (suc zero)))) = refl
get_bit-bit_list (a ∷ id) (suc (suc (suc (suc (suc zero))))) = refl
get_bit-bit_list (a ∷ id) (suc (suc (suc (suc (suc (suc zero)))))) = refl
get_bit-bit_list (a ∷ id) (suc (suc (suc (suc (suc (suc (suc zero))))))) = refl
get_bit-bit_list (a ∷ id) (suc (suc (suc (suc (suc (suc (suc (suc j)))))))) =
    get_bit_next a id j ∙ get_bit-bit_list id j

drop_step {ℓ} :
    {A : Type ℓ} (xs : List A) (i : ℕ)
    → i < length xs
    → (a : A) × (get_elem? xs i ≡ some a) × (drop i xs ≡ a ∷ drop (i + 1) xs)
drop_step [] i h = absurd (omega arith)
drop_step (x ∷ xs) zero h = (x, refl, refl)
drop_step (x ∷ xs) (suc i) h =
    let (a, e, f) = drop_step xs i (omega arith) in
    let next : suc i + 1 ≡ suc (i + 1) = omega arith in (a, e, rw next f)

drop_all {ℓ} : {A : Type ℓ} (xs : List A) (i : ℕ) → i ≡ length xs → drop i xs ≡ []
drop_all [] zero e = refl
drop_all [] (suc i) e = refl
drop_all (x ∷ xs) zero e = absurd (omega arith)
drop_all (x ∷ xs) (suc i) e = drop_all xs i (omega arith)

bits_loop_lem :
    (id : NodeId) (rounds i : ℕ)
    → i + rounds ≡ length id * 8
    → bits_loop id i rounds ≡ some (drop i (bit_list id))
unfolding bits_loop
bits_loop_lem id zero i e =
    ap some (sym (drop_all (bit_list id) i (omega (arith, length-bit_list id))))
bits_loop_lem id (suc rounds) i e =
    let (a, at, rest) = drop_step (bit_list id) i (omega (arith, length-bit_list id)) in
    rw (get_bit-bit_list id i, at, bits_loop_lem id rounds (i + 1) (omega arith), rest)

-- `bits` never panics: it returns the list of bits.
pub bits_lem : (id : NodeId) → bits id ≡ some (bit_list id)
unfolding bits
bits_lem id = bits_loop_lem id (length id * 8) 0 (omega arith)
