-- ===== src/Btree/Bits/Masks.antt =====
-- Identifiers of one width: what `equals` and `must_xor` compute on them, and that the bits of an
-- identifier determine it.
use hexmagnet.Prelude.{
  ℕ, suc, ◌/◌, ◌%◌, ◌^◌, ◌<◌, ◌≡◌, refl, sym, ap, ◌∙◌, ◌↔◌, true, some, List, [], ◌∷◌, arith, ◌==◌,
  ==_iff, length, All, bit_xor_involutive, bit_xor-lt, Bool-cases, inl, inr,
}
use hexmagnet.Btree.Bits.{NodeId, xor_bytes, must_xor, equal_bytes, equals}
use hexmagnet.Btree.Bits.Index.{bit_of, bit_list}

-- `w` bytes.
pub record IsId (w : ℕ) (id : NodeId) : Type 0 where
  pub width : length id ≡ w
  pub bytes : All (λ v. v < 256) id

equal_bytes_iff : (x y : NodeId) → length x ≡ length y → (equal_bytes x y ≡ true) ↔ (x ≡ y)
unfolding equal_bytes
equal_bytes_iff [] [] e = ((λ _. refl), (λ _. refl))
equal_bytes_iff [] (b ∷ y) e = absurd (omega arith)
equal_bytes_iff (a ∷ x) [] e = absurd (omega arith)
equal_bytes_iff (a ∷ x) (b ∷ y) e =
    let ih = equal_bytes_iff x y (omega arith) in
    ((λ h. ground (arith, ih)), (λ h. ground (arith, ih)))

-- `equals` decides equality.
pub equals_iff : (x y : NodeId) → (equals x y ≡ true) ↔ (x ≡ y)
unfolding equals
equals_iff x y = elim (Bool-cases (length y == length x)) [
  | inl e ↦
      let ih = equal_bytes_iff y x ((==_iff _ _).0 e) in
      rw e ((λ h. sym (ih.0 h)), (λ p. ih.1 (sym p)))
  | inr e ↦ rw e ((λ h. cc), (λ p. cc (e, (==_iff (length y) (length x)).1 (ap length (sym p)))))
]

pub equals_self : (x : NodeId) → equals x x ≡ true
equals_self x = (equals_iff x x).1 refl

length-xor_bytes : (x o : NodeId) → length x ≡ length o → length (xor_bytes x o) ≡ length x
unfolding xor_bytes
length-xor_bytes [] o e = refl
length-xor_bytes (a ∷ x) [] e = absurd (omega arith)
length-xor_bytes (a ∷ x) (b ∷ o) e = ap suc (length-xor_bytes x o (omega arith))

bytes-xor_bytes :
    (x o : NodeId)
    → All (λ v. v < 256) x
    → All (λ v. v < 256) o
    → All (λ v. v < 256) (xor_bytes x o)
unfolding xor_bytes
bytes-xor_bytes [] o hx ho = tt
bytes-xor_bytes (a ∷ x) [] hx ho = tt
bytes-xor_bytes (a ∷ x) (b ∷ o) hx ho = (bit_xor-lt 8 a b hx.0 ho.0, bytes-xor_bytes x o hx.1 ho.1)

xor_bytes_involutive : (x o : NodeId) → length x ≡ length o → xor_bytes (xor_bytes x o) o ≡ x
unfolding xor_bytes
xor_bytes_involutive [] o e = refl
xor_bytes_involutive (a ∷ x) [] e = absurd (omega arith)
xor_bytes_involutive (a ∷ x) (b ∷ o) e =
    cc (bit_xor_involutive a b, xor_bytes_involutive x o (omega arith))

-- The distance of two identifiers, where they have the same width.
pub mask : NodeId → NodeId → NodeId
unfolding xor_bytes
mask x o = xor_bytes x o

module _ (w : ℕ) (x o : NodeId) (hx : IsId w x) (ho : IsId w o) where
  pub must_xor_lem : must_xor x o ≡ some (mask x o)
  unfolding must_xor mask
  must_xor_lem = rw ((==_iff (length x) (length o)).1 (hx.width ∙ sym ho.width))

  pub mask-IsId : IsId w (mask x o)
  unfolding mask
  mask-IsId = record {
    width = length-xor_bytes x o (hx.width ∙ sym ho.width) ∙ hx.width;
    bytes = bytes-xor_bytes x o hx.bytes ho.bytes;
  }

  pub mask-mask : mask (mask x o) o ≡ x
  unfolding mask
  mask-mask = xor_bytes_involutive x o (hx.width ∙ sym ho.width)

bit-digit : (m n : ℕ) → (m % 2 == 1) ≡ (n % 2 == 1) → m % 2 ≡ n % 2
bit-digit m n h = ground arith

byte_of_bits :
    (a b : ℕ)
    → a < 256
    → b < 256
    → bit_of a 7 ≡ bit_of b 7
    → bit_of a 6 ≡ bit_of b 6
    → bit_of a 5 ≡ bit_of b 5
    → bit_of a 4 ≡ bit_of b 4
    → bit_of a 3 ≡ bit_of b 3
    → bit_of a 2 ≡ bit_of b 2
    → bit_of a 1 ≡ bit_of b 1
    → bit_of a 0 ≡ bit_of b 0
    → a ≡ b
byte_of_bits a b ha hb h7 h6 h5 h4 h3 h2 h1 h0 = omega (
  arith,
  bit-digit (a / 2 ^ 7) (b / 2 ^ 7) h7,
  bit-digit (a / 2 ^ 6) (b / 2 ^ 6) h6,
  bit-digit (a / 2 ^ 5) (b / 2 ^ 5) h5,
  bit-digit (a / 2 ^ 4) (b / 2 ^ 4) h4,
  bit-digit (a / 2 ^ 3) (b / 2 ^ 3) h3,
  bit-digit (a / 2 ^ 2) (b / 2 ^ 2) h2,
  bit-digit (a / 2 ^ 1) (b / 2 ^ 1) h1,
  bit-digit (a / 2 ^ 0) (b / 2 ^ 0) h0,
)

-- The first element, and the rest, of equal lists.
head_eq {ℓ} : {A : Type ℓ} {a b : A} {xs ys : List A} → a ∷ xs ≡ b ∷ ys → a ≡ b
head_eq e = cc

tail_eq {ℓ} : {A : Type ℓ} {a b : A} {xs ys : List A} → a ∷ xs ≡ b ∷ ys → xs ≡ ys
tail_eq e = cc

bit_list_injective_bytes :
    (x y : NodeId) → All (λ v. v < 256) x → All (λ v. v < 256) y → bit_list x ≡ bit_list y → x ≡ y
unfolding bit_list
bit_list_injective_bytes [] [] hx hy e = refl
bit_list_injective_bytes [] (b ∷ y) hx hy e = cc
bit_list_injective_bytes (a ∷ x) [] hx hy e = cc
bit_list_injective_bytes (a ∷ x) (b ∷ y) hx hy e0 =
    let e1 = tail_eq e0 in
    let e2 = tail_eq e1 in
    let e3 = tail_eq e2 in
    let e4 = tail_eq e3 in
    let e5 = tail_eq e4 in
    let e6 = tail_eq e5 in
    let e7 = tail_eq e6 in
    let byte =
      byte_of_bits a b hx.0 hy.0 (head_eq e0) (head_eq e1) (head_eq e2) (head_eq e3) (head_eq e4)
        (head_eq e5) (head_eq e6) (head_eq e7) in
    cc (byte, bit_list_injective_bytes x y hx.1 hy.1 (tail_eq e7))

pub bit_list_injective :
    (w : ℕ) (x y : NodeId) → IsId w x → IsId w y → bit_list x ≡ bit_list y → x ≡ y
bit_list_injective w x y hx hy = bit_list_injective_bytes x y hx.bytes hy.bytes
