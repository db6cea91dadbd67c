-- ===== src/Btree/Node/Shape.antt =====
-- The shape that the operations keep: every identifier stands below the path of its own bits, and
-- the counts are right.
use hexmagnet.Prelude.{
  ℕ, zero, suc, ◌+◌, ◌*◌, ◌≤◌, ◌<◌, ◌≡◌, refl, sym, ap, ◌∙◌, Bool, true, false, not, some, List, [],
  ◌∷◌, ◌++◌, arith, if◌then◌else◌, length, length-append, get_elem?, All, All-append, All-mono,
  Bool-cases, inl, inr,
}
use hexmagnet.Btree.Bits.{Bit, Bits, NodeId, equals, get_bit}
use hexmagnet.Btree.Bits.Index.{bit_list, get_bit-bit_list, length-bit_list}
use hexmagnet.Btree.Bits.Masks.{IsId, equals_iff, bit_list_injective}
use hexmagnet.Btree.Node.{BaseNode, Node, empty, leaf, branch, count, all_xors}

-- `p` is a prefix.
abbrev pub Starts : Bits → Bits → Type 0
Starts [] ys = Unit
Starts (b ∷ p) [] = ⊥
Starts (b ∷ p) (c ∷ ys) = (b ≡ c) × Starts p ys

Starts-snoc :
    (p ys : Bits) (b : Bit)
    → Starts p ys
    → get_elem? ys (length p) ≡ some b
    → Starts (p ++ b ∷ []) ys
Starts-snoc [] [] b h e = cc
Starts-snoc [] (c ∷ ys) b h e = ground arith
Starts-snoc (a ∷ p) [] b h e = absurd h
Starts-snoc (a ∷ p) (c ∷ ys) b h e = (h.0, Starts-snoc p ys b h.1 e)

Starts-init :
    (p ys : Bits) (b : Bit)
    → Starts (p ++ b ∷ []) ys
    → Starts p ys × (get_elem? ys (length p) ≡ some b)
Starts-init [] [] b h = absurd h
Starts-init [] (c ∷ ys) b h = (tt, ap some (sym h.0))
Starts-init (a ∷ p) [] b h = absurd h
Starts-init (a ∷ p) (c ∷ ys) b h = let r = Starts-init p ys b h.1 in ((h.0, r.0), r.1)

Starts_eq :
    (p xs ys : Bits)
    → Starts p xs
    → Starts p ys
    → length xs ≤ length p
    → length ys ≡ length xs
    → xs ≡ ys
Starts_eq [] [] [] h k l e = refl
Starts_eq [] [] (y ∷ ys) h k l e = absurd (omega arith)
Starts_eq [] (x ∷ xs) ys h k l e = absurd (omega arith)
Starts_eq (b ∷ p) [] ys h k l e = absurd h
Starts_eq (b ∷ p) (x ∷ xs) [] h k l e = absurd k
Starts_eq (b ∷ p) (x ∷ xs) (y ∷ ys) h k l e =
    cc (sym h.0 ∙ k.0, Starts_eq p xs ys h.1 k.1 (omega arith) (omega arith))

-- An identifier of `w` bytes below the path `p`.
pub record Fits (w : ℕ) (p : Bits) (id : NodeId) : Type 0 where
  pub is_id : IsId w id
  pub starts : Starts p (bit_list id)

Starts-length : (p ys : Bits) → Starts p ys → length p ≤ length ys
Starts-length [] ys h = omega arith
Starts-length (b ∷ p) [] h = absurd h
Starts-length (b ∷ p) (c ∷ ys) h = omega (arith, Starts-length p ys h.1)

pub Fits-length : (w : ℕ) (p : Bits) (id : NodeId) → Fits w p id → length p ≤ w * 8
Fits-length w p id h = omega (
  arith,
  Starts-length p (bit_list id) h.starts,
  length-bit_list id,
  ap (λ (t : ℕ). t * 8) h.is_id.width,
)

pub Fits-root : (w : ℕ) (id : NodeId) → IsId w id → Fits w [] id
Fits-root w id h = record { is_id = h; starts = tt }

module _ (w : ℕ) (p : Bits) (id : NodeId) (b : Bit) where
  pub Fits-snoc :
      Fits w p id → get_elem? (bit_list id) (length p) ≡ some b → Fits w (p ++ b ∷ []) id
  Fits-snoc h e = record { is_id = h.is_id; starts = Starts-snoc p (bit_list id) b h.starts e }

  pub Fits-init : Fits w (p ++ b ∷ []) id → Fits w p id
  Fits-init h = record { is_id = h.is_id; starts = (Starts-init p (bit_list id) b h.starts).0 }

  pub Fits-bit : Fits w (p ++ b ∷ []) id → get_elem? (bit_list id) (length p) ≡ some b
  Fits-bit h = (Starts-init p (bit_list id) b h.starts).1

pub some_bit : (xs : Bits) (i : ℕ) → i < length xs → (b : Bit) × (get_elem? xs i ≡ some b)
some_bit [] i h = absurd (omega arith)
some_bit (x ∷ xs) zero h = (x, refl)
some_bit (x ∷ xs) (suc i) h = some_bit xs i (omega arith)

-- Above the last level an identifier has a next bit.
pub next_bit :
    (w : ℕ) (p : Bits) (id : NodeId)
    → Fits w p id
    → length p < w * 8
    → (b : Bit) × (get_elem? (bit_list id) (length p) ≡ some b)
next_bit w p id h l =
    some_bit (bit_list id) (length p)
      (omega (arith, length-bit_list id, ap (λ (t : ℕ). t * 8) h.is_id.width))

-- Two identifiers below one path of full length are the same.
pub Fits-eq : (w : ℕ) (p : Bits) (x y : NodeId) → Fits w p x → Fits w p y → w * 8 ≤ length p → x ≡ y
Fits-eq w p x y hx hy l =
    let lx = length-bit_list x ∙ ap (λ (t : ℕ). t * 8) hx.is_id.width in
    let ly = length-bit_list y ∙ ap (λ (t : ℕ). t * 8) hy.is_id.width in
    bit_list_injective w x y hx.is_id hy.is_id
      (Starts_eq p (bit_list x) (bit_list y) hx.starts hy.starts (omega arith) (omega arith))

-- How many members of a list pass a test.
unfoldable pub tally : (NodeId → Bool) → List NodeId → ℕ
tally test [] = 0
tally test (x ∷ xs) = (if test x then 1 else 0) + tally test xs

pub tally-append :
    (test : NodeId → Bool) (xs ys : List NodeId)
    → tally test (xs ++ ys) ≡ tally test xs + tally test ys
unfolding tally
tally-append test [] ys = omega arith
tally-append test (x ∷ xs) ys = omega (arith, tally-append test xs ys)

pub tally-true : (xs : List NodeId) → tally (λ _. true) xs ≡ length xs
unfolding tally
tally-true [] = refl
tally-true (x ∷ xs) = omega (arith, tally-true xs)

-- The well-formed trees at the path `p`, for identifiers of `w` bytes.
abbrev pub IsTree : ℕ → Bits → Node → Type 0
IsTree w p (empty b) = b.path ≡ p
IsTree w p (leaf b id) = (b.path ≡ p) × Fits w p id
IsTree w p (branch b n0 n1 c0 c1) =
    (b.path ≡ p)
    × (length p < w * 8)
    × IsTree w (p ++ false ∷ []) n0
    × IsTree w (p ++ true ∷ []) n1
    × (c0 ≡ count n0)
    × (c1 ≡ count n1)

-- `count` is the number of identifiers.
pub count-all_xors : (w : ℕ) (p : Bits) (n : Node) → IsTree w p n → count n ≡ length (all_xors n)
unfolding count all_xors
count-all_xors w p (empty b) h = refl
count-all_xors w p (leaf b id) h = refl
count-all_xors w p (branch b n0 n1 c0 c1) h = omega (
  arith,
  length-append (all_xors n0) (all_xors n1),
  count-all_xors w (p ++ false ∷ []) n0 h.2,
  count-all_xors w (p ++ true ∷ []) n1 h.3,
)

-- Every identifier of a tree stands below its path.
pub all_xors-Fits : (w : ℕ) (p : Bits) (n : Node) → IsTree w p n → All (Fits w p) (all_xors n)
unfolding all_xors
all_xors-Fits w p (empty b) h = tt
all_xors-Fits w p (leaf b id) h = (h.1, tt)
all_xors-Fits w p (branch b n0 n1 c0 c1) h =
    All-append (Fits w p) (all_xors n0) (all_xors n1)
      (All-mono (Fits w (p ++ false ∷ [])) (Fits w p) (all_xors n0) (λ id. Fits-init w p id false)
        (all_xors-Fits w (p ++ false ∷ []) n0 h.2))
      (All-mono (Fits w (p ++ true ∷ [])) (Fits w p) (all_xors n1) (λ id. Fits-init w p id true)
        (all_xors-Fits w (p ++ true ∷ []) n1 h.3))

-- The test for one identifier.
abbrev pub is : NodeId → NodeId → Bool
is x y = equals y x

tally_absent :
    (w : ℕ) (p : Bits) (b : Bit) (x : NodeId) (xs : List NodeId)
    → All (Fits w (p ++ b ∷ [])) xs
    → get_elem? (bit_list x) (length p) ≡ some (not b)
    → tally (is x) xs ≡ 0
unfolding tally
tally_absent w p b x [] h e = refl
tally_absent w p b x (y ∷ xs) h e = elim (Bool-cases (equals y x)) [
  | inl same ↦ absurd (
      clash b (
        sym e
        ∙ (ap (λ t. get_elem? (bit_list t) (length p)) (sym ((equals_iff y x).0 same)))
        ∙ Fits-bit w p y b h.0))
  | inr other ↦ rw other (omega (arith, tally_absent w p b x xs h.1 e))
]
  where
    clash : (b : Bit) → some (not b) ≡ some b → ⊥
    clash true q = cc
    clash false q = cc

-- Below the other bit of its path there is none.
pub absent :
    (w : ℕ) (p : Bits) (b : Bit) (x : NodeId) (n : Node)
    → IsTree w (p ++ b ∷ []) n
    → get_elem? (bit_list x) (length p) ≡ some (not b)
    → tally (is x) (all_xors n) ≡ 0
absent w p b x n h = tally_absent w p b x (all_xors n) (all_xors-Fits w (p ++ b ∷ []) n h)

-- The bit that a branch reads.
pub bit_at_path :
    (w : ℕ) (p : Bits) (b : BaseNode) (n0 n1 : Node) (c0 c1 : ℕ) (x : NodeId) (bit : Bit)
    → IsTree w p (branch b n0 n1 c0 c1)
    → get_elem? (bit_list x) (length p) ≡ some bit
    → get_bit x (length b.path) ≡ some bit
bit_at_path w p b n0 n1 c0 c1 x bit h at =
    ap (λ (t : Bits). get_bit x (length t)) h.0 ∙ get_bit-bit_list x (length p) ∙ at
