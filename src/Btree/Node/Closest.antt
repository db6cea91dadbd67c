-- ===== src/Btree/Node/Closest.antt =====
-- `xors_closest_to_subpath` against the prefixes that identifiers share with the path.
use hexmagnet.Prelude.{
  ℕ, ◌+◌, ◌-◌, ◌≤◌, min, ◌≡◌, refl, sym, ap, ◌∙◌, Bool, true, false, not, List, [], ◌∷◌, ◌++◌,
  arith, ltb, bool_eq, ◌&&◌, length, Bool-cases, inl, inr, All, All-append, length-append,
}
use mathlib.Core.List.{append_assoc, append-nil}
use hexmagnet.Btree.Bits.{Bit, Bits, NodeId}
use hexmagnet.Btree.Bits.Index.{bit_list}
use hexmagnet.Btree.Node.{Node, empty, leaf, branch, all_xors, xors_closest_to_subpath, with_rest}
use hexmagnet.Btree.Node.Shape.{IsTree, Fits, Starts, tally, tally-append, all_xors-Fits}

-- Whether `p` is a prefix.
unfoldable pub starts : Bits → Bits → Bool
starts [] ys = true
starts (b ∷ p) [] = false
starts (b ∷ p) (c ∷ ys) = bool_eq b c && starts p ys

-- The test for the identifiers whose bits begin with `p`.
abbrev pub shares : Bits → NodeId → Bool
shares p id = starts p (bit_list id)

Starts-starts : (p ys : Bits) → Starts p ys → starts p ys ≡ true
unfolding starts
Starts-starts [] ys h = refl
Starts-starts (b ∷ p) [] h = absurd h
Starts-starts (true ∷ p) (true ∷ ys) h = Starts-starts p ys h.1
Starts-starts (false ∷ p) (false ∷ ys) h = Starts-starts p ys h.1
Starts-starts (true ∷ p) (false ∷ ys) h = cc (h.0)
Starts-starts (false ∷ p) (true ∷ ys) h = cc (h.0)

-- Below the other bit no identifier shares the longer prefix.
Starts-starts_ne :
    (p q ys : Bits) (b : Bit) → Starts (p ++ not b ∷ []) ys → starts (p ++ b ∷ q) ys ≡ false
unfolding starts
Starts-starts_ne [] q [] b h = absurd h
Starts-starts_ne [] q (true ∷ ys) true h = cc (h.0)
Starts-starts_ne [] q (false ∷ ys) true h = refl
Starts-starts_ne [] q (true ∷ ys) false h = refl
Starts-starts_ne [] q (false ∷ ys) false h = cc (h.0)
Starts-starts_ne (a ∷ p) q [] b h = absurd h
Starts-starts_ne (true ∷ p) q (true ∷ ys) b h = Starts-starts_ne p q ys b h.1
Starts-starts_ne (true ∷ p) q (false ∷ ys) b h = refl
Starts-starts_ne (false ∷ p) q (true ∷ ys) b h = refl
Starts-starts_ne (false ∷ p) q (false ∷ ys) b h = Starts-starts_ne p q ys b h.1

tally-shares :
    (w : ℕ) (p : Bits) (xs : List NodeId) → All (Fits w p) xs → tally (shares p) xs ≡ length xs
unfolding tally
tally-shares w p [] h = refl
tally-shares w p (x ∷ xs) h =
    rw (Starts-starts p (bit_list x) h.0.starts) (omega (arith, tally-shares w p xs h.1))

tally-shares_ne :
    (w : ℕ) (p q : Bits) (b : Bit) (xs : List NodeId)
    → All (Fits w (p ++ not b ∷ [])) xs
    → tally (shares (p ++ b ∷ q)) xs ≡ 0
unfolding tally
tally-shares_ne w p q b [] h = refl
tally-shares_ne w p q b (x ∷ xs) h =
    rw (Starts-starts_ne p q (bit_list x) b h.0.starts)
      (omega (arith, tally-shares_ne w p q b xs h.1))

rest_le :
    (near : List NodeId) (far : ℕ → List NodeId) (k : ℕ) (test : NodeId → Bool)
    (xs ys all : List NodeId)
    → tally test near ≤ tally test xs
    → ((m : ℕ) → tally test (far m) ≤ tally test ys)
    → tally test all ≡ tally test xs + tally test ys
    → tally test (with_rest near k far) ≤ tally test all
rest_le near far k test xs ys all h g e = elim (Bool-cases (ltb (length near) k)) [
  | inl few ↦
      rw few (omega (arith, tally-append test near (far (k - length near)), g (k - length near)))
  | inr enough ↦ rw enough (omega arith)
]

-- A result only has identifiers of the tree, each as often.
pub closest-le :
    (n : Node) (path : Bits) (k : ℕ) (test : NodeId → Bool)
    → tally test (xors_closest_to_subpath n path k) ≤ tally test (all_xors n)
unfolding xors_closest_to_subpath all_xors tally
closest-le (empty b) path k test = omega arith
closest-le (leaf b id) path k test = ground arith
closest-le (branch b n0 n1 c0 c1) [] k test =
    let near = xors_closest_to_subpath n0 [] k in
    rest_le near (λ m. xors_closest_to_subpath n1 [] m) k test (all_xors n0) (all_xors n1)
      (all_xors n0 ++ all_xors n1) (closest-le n0 [] k test) (λ m. closest-le n1 [] m test)
      (tally-append test (all_xors n0) (all_xors n1))
closest-le (branch b n0 n1 c0 c1) (false ∷ path) k test =
    let near = xors_closest_to_subpath n0 path k in
    rest_le near (λ m. xors_closest_to_subpath n1 [] m) k test (all_xors n0) (all_xors n1)
      (all_xors n0 ++ all_xors n1) (closest-le n0 path k test) (λ m. closest-le n1 [] m test)
      (tally-append test (all_xors n0) (all_xors n1))
closest-le (branch b n0 n1 c0 c1) (true ∷ path) k test =
    let near = xors_closest_to_subpath n1 path k in
    rest_le near (λ m. xors_closest_to_subpath n0 [] m) k test (all_xors n1) (all_xors n0)
      (all_xors n0 ++ all_xors n1) (closest-le n1 path k test) (λ m. closest-le n0 [] m test)
      (omega (arith, tally-append test (all_xors n0) (all_xors n1)))

rest_length :
    (near : List NodeId) (far : ℕ → List NodeId) (k a b : ℕ)
    → length near ≡ min k a
    → ((m : ℕ) → length (far m) ≡ min m b)
    → length (with_rest near k far) ≡ min k (a + b)
rest_length near far k a b h g = elim (Bool-cases (ltb (length near) k)) [
  | inl few ↦
      rw few (ground (arith, length-append near (far (k - length near)), g (k - length near)))
  | inr enough ↦ rw enough (ground arith)
]

-- A result has as many identifiers as were asked for, or all of them.
pub length-closest :
    (n : Node) (path : Bits) (k : ℕ)
    → length (xors_closest_to_subpath n path k) ≡ min k (length (all_xors n))
unfolding xors_closest_to_subpath all_xors
length-closest (empty b) path k = omega arith
length-closest (leaf b id) path k = ground arith
length-closest (branch b n0 n1 c0 c1) [] k =
    rest_length _ (λ m. xors_closest_to_subpath n1 [] m) k (length (all_xors n0))
      (length (all_xors n1)) (length-closest n0 [] k) (λ m. length-closest n1 [] m)
    ∙ ap (min k) (sym (length-append (all_xors n0) (all_xors n1)))
length-closest (branch b n0 n1 c0 c1) (false ∷ path) k =
    rest_length _ (λ m. xors_closest_to_subpath n1 [] m) k (length (all_xors n0))
      (length (all_xors n1)) (length-closest n0 path k) (λ m. length-closest n1 [] m)
    ∙ ap (min k) (sym (length-append (all_xors n0) (all_xors n1)))
length-closest (branch b n0 n1 c0 c1) (true ∷ path) k =
    rest_length _ (λ m. xors_closest_to_subpath n0 [] m) k (length (all_xors n1))
      (length (all_xors n0)) (length-closest n1 path k) (λ m. length-closest n0 [] m)
    ∙ ap (min k) (omega (arith, length-append (all_xors n0) (all_xors n1)))

tally-not :
    (test : NodeId → Bool) (xs : List NodeId)
    → tally test xs + tally (λ x. not (test x)) xs ≡ length xs
unfolding tally
tally-not test [] = omega arith
tally-not test (x ∷ xs) = ground (arith, tally-not test xs)

-- Every identifier of a tree, and so of a result, shares the tree's own path.
shares_own :
    (w : ℕ) (p : Bits) (n : Node) (path : Bits) (k : ℕ)
    → IsTree w p n
    → tally (shares p) (xors_closest_to_subpath n path k) ≡ min k (tally (shares p) (all_xors n))
shares_own w p n path k h = omega (
  arith,
  length-closest n path k,
  tally-shares w p (all_xors n) (all_xors-Fits w p n h),
  tally-not (shares p) (all_xors n),
  tally-not (shares p) (xors_closest_to_subpath n path k),
  closest-le n path k (λ x. not (shares p x)),
)

rest_none :
    (test : NodeId → Bool) (near : List NodeId) (far : ℕ → List NodeId) (k : ℕ)
    → ((m : ℕ) → tally test (far m) ≤ 0)
    → tally test (with_rest near k far) ≡ tally test near
rest_none test near far k g = elim (Bool-cases (ltb (length near) k)) [
  | inl few ↦
      rw few (omega (arith, tally-append test near (far (k - length near)), g (k - length near)))
  | inr enough ↦ rw enough
]

-- For a prefix of the path, the result has all the identifiers that share it, or `k` of them.
pub closest_shares :
    (w : ℕ) (p : Bits) (n : Node) (q r : Bits) (k : ℕ)
    → IsTree w p n
    → tally (shares (p ++ q)) (xors_closest_to_subpath n (q ++ r) k)
      ≡ min k (tally (shares (p ++ q)) (all_xors n))
unfolding xors_closest_to_subpath all_xors
closest_shares w p n [] r k h = rw append-nil (shares_own w p n r k h)
closest_shares w p (empty b) (bit ∷ q) r k h = unfold tally in omega arith
closest_shares w p (leaf b id) (bit ∷ q) r k h = unfold tally in ground arith
closest_shares w p (branch b n0 n1 c0 c1) (false ∷ q) r k h =
    let test = shares (p ++ false ∷ q) in
    let none_far =
      tally-shares_ne w p q false (all_xors n1) (all_xors-Fits w (p ++ true ∷ []) n1 h.3) in
    let near = rw append_assoc at (closest_shares w (p ++ false ∷ []) n0 q r k h.2) in
    omega (
      arith,
      tally-append test (all_xors n0) (all_xors n1),
      none_far,
      near,
      rest_none test (xors_closest_to_subpath n0 (q ++ r) k) (λ m. xors_closest_to_subpath n1 [] m)
          k (λ m. omega (arith, closest-le n1 [] m test, none_far)),
    )
closest_shares w p (branch b n0 n1 c0 c1) (true ∷ q) r k h =
    let test = shares (p ++ true ∷ q) in
    let none_far =
      tally-shares_ne w p q true (all_xors n0) (all_xors-Fits w (p ++ false ∷ []) n0 h.2) in
    let near = rw append_assoc at (closest_shares w (p ++ true ∷ []) n1 q r k h.3) in
    omega (
      arith,
      tally-append test (all_xors n0) (all_xors n1),
      none_far,
      near,
      rest_none test (xors_closest_to_subpath n1 (q ++ r) k) (λ m. xors_closest_to_subpath n0 [] m)
          k (λ m. omega (arith, closest-le n0 [] m test, none_far)),
    )

All-split {ℓ} : (P : NodeId → Type ℓ) (xs ys : List NodeId) → All P (xs ++ ys) → All P xs × All P ys
All-split P [] ys h = (tt, h)
All-split P (x ∷ xs) ys h = let r = All-split P xs ys h.1 in ((h.0, r.0), r.1)

rest-All {ℓ} :
    (P : NodeId → Type ℓ) (near : List NodeId) (far : ℕ → List NodeId) (k : ℕ)
    → All P near
    → ((m : ℕ) → All P (far m))
    → All P (with_rest near k far)
rest-All P near far k h g = elim (Bool-cases (ltb (length near) k)) [
  | inl few ↦ rw few (All-append P near (far (k - length near)) h (g (k - length near)))
  | inr enough ↦ rw enough h
]

-- What holds of every identifier of the tree holds of the result's.
pub closest-All {ℓ} :
    (P : NodeId → Type ℓ) (n : Node) (path : Bits) (k : ℕ)
    → All P (all_xors n)
    → All P (xors_closest_to_subpath n path k)
unfolding xors_closest_to_subpath all_xors
closest-All P (empty b) path k h = tt
closest-All P (leaf b id) path k h = elim (Bool-cases (ltb k 1)) [
  | inl e ↦ rw e tt
  | inr e ↦ rw e h
]
closest-All P (branch b n0 n1 c0 c1) [] k h =
    let (h0, h1) = All-split P (all_xors n0) (all_xors n1) h in
    rest-All P _ _ k (closest-All P n0 [] k h0) (λ m. closest-All P n1 [] m h1)
closest-All P (branch b n0 n1 c0 c1) (false ∷ path) k h =
    let (h0, h1) = All-split P (all_xors n0) (all_xors n1) h in
    rest-All P _ _ k (closest-All P n0 path k h0) (λ m. closest-All P n1 [] m h1)
closest-All P (branch b n0 n1 c0 c1) (true ∷ path) k h =
    let (h0, h1) = All-split P (all_xors n0) (all_xors n1) h in
    rest-All P _ _ k (closest-All P n1 path k h1) (λ m. closest-All P n0 [] m h0)
