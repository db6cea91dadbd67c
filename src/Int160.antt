-- ===== src/Int160.antt =====
-- internal/protocol/int160.go: identifiers of twenty bytes with their order and their distance. The
-- byte arrays of the source are lists of twenty bytes.
use hexmagnet.Prelude.{
  ℕ, ◌≡◌, refl, sym, ◌∙◌, ap, subst, ◌↔◌, Bool, true, false, ◌==◌, ltb, if◌then◌else◌, Bool-cases,
  inl, inr, List, [], ◌∷◌, length, bit_xor, bit_xor_self, bit_xor_involutive, zero-bit_xor, ==_iff,
  arith,
}
use hexmagnet.Btree.Bits.{Order, less, same, greater}

abbrev pub Int160 : Type 0
Int160 = List ℕ

pub cmp : Int160 → Int160 → Order
cmp [] r = same
cmp (x ∷ i) [] = same
cmp (x ∷ i) (y ∷ r) =
    let rest = cmp i r in if ltb x y then less else if ltb y x then greater else rest

pub with_max : Int160 → Int160
with_max [] = []
with_max (x ∷ i) = 255 ∷ with_max i

-- Every byte of the receiver is overwritten.
pub xor : Int160 → Int160 → Int160
xor [] b2 = []
xor (x ∷ b1) [] = []
xor (x ∷ b1) (y ∷ b2) = bit_xor x y ∷ xor b1 b2

pub is_zero : Int160 → Bool
is_zero [] = true
is_zero (x ∷ i) = let rest = is_zero i in if x == 0 then rest else false

pub distance : Int160 → Int160 → Int160
unfolding xor
distance i b = xor i b

abbrev pub reversed : Order → Order
reversed less = greater
reversed same = same
reversed greater = less

-- Comparing two identifiers of the same length the other way round gives the opposite answer.
pub cmp-reversed : (a b : Int160) → length a ≡ length b → cmp b a ≡ reversed (cmp a b)
unfolding cmp
cmp-reversed [] [] h = refl
cmp-reversed [] (y ∷ b) h = refl
cmp-reversed (x ∷ a) [] h = refl
cmp-reversed (x ∷ a) (y ∷ b) h = elim (Bool-cases (ltb x y)) [
  | inl e ↦ rw (e, after e) refl
  | inr e ↦ elim (Bool-cases (ltb y x)) [
    | inl f ↦ rw (e, f) refl
    | inr f ↦ rw (e, f) (cmp-reversed a b (omega (arith, h)))
  ]
]
  where
    after : ltb x y ≡ true → ltb y x ≡ false
    after e = ground (arith, e)

xor-zero : (x y : ℕ) → bit_xor x y ≡ 0 → x ≡ y
xor-zero x y h = sym (bit_xor_involutive x y) ∙ (ap (λ (k : ℕ). bit_xor k y) h ∙ zero-bit_xor y)

-- The distance of two identifiers of the same length is zero exactly if they are the same.
pub is_zero-distance :
    (a b : Int160) → length a ≡ length b → (is_zero (distance a b) ≡ true) ↔ (a ≡ b)
unfolding is_zero distance xor
is_zero-distance a b h = (to a b h, λ e. subst (λ k. is_zero (xor a k) ≡ true) e (self a))
  where
    clash : false ≡ true → ⊥
    clash e = cc

    to : (a b : Int160) → length a ≡ length b → is_zero (xor a b) ≡ true → a ≡ b
    to [] [] h e = refl
    to [] (y ∷ b) h e = absurd (omega (arith, h))
    to (x ∷ a) [] h e = absurd (omega (arith, h))
    to (x ∷ a) (y ∷ b) h e = elim (Bool-cases (bit_xor x y == 0)) [
      | inr f ↦ absurd (clash (rw f at e))
      | inl f ↦
          ap (λ k. k ∷ a) (xor-zero x y ((==_iff (bit_xor x y) 0).0 f))
          ∙ ap (λ t. y ∷ t) (to a b (omega (arith, h)) (rw f at e))
    ]

    self : (a : Int160) → is_zero (xor a a) ≡ true
    self [] = refl
    self (x ∷ a) = rw (bit_xor_self x) (self a)
