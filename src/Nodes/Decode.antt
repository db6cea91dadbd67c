-- ===== src/Nodes/Decode.antt =====
-- internal/protocol/dht/nodeinfo.go: what is decoded from any bytes.
use mathlib.Core.List.{append_assoc, append-nil}
use hexmagnet.Prelude.{
  ℤ, pos, negsuc, ℕ, zero, suc, ◌+◌, ◌-◌, ◌*◌, ◌/◌, ◌%◌, ◌^◌, ◌≤◌, ◌<◌, ◌≡◌, refl, sym, ap, ◌∙◌,
  false, ltb, ltb→lt, ◌==◌, if◌then◌else◌, Bool-cases, inl, inr, All, List, [], ◌∷◌, ◌++◌, length,
  length-take, length-drop, take-drop, take-add, take, drop, none, some, arith,
}
use hexmagnet.Nodes.{
  Bytes, NodeInfo, uint16, put_uint16, get_uint16, unmarshal_addr, marshal_info, unmarshal_info,
  elem_size, to4, with_ip4, marshal_slice, marshal_nodes, Decoded, unmarshal_loop, unmarshal_nodes,
}

abbrev pub IsByte : ℕ → Type 0
IsByte x = x < 256

All-take : (n : ℕ) (xs : Bytes) → All IsByte xs → All IsByte (take n xs)
All-take zero xs h = tt
All-take (suc n) [] h = tt
All-take (suc n) (x ∷ xs) h = (h.0, All-take n xs h.1)

All-drop : (n : ℕ) (xs : Bytes) → All IsByte xs → All IsByte (drop n xs)
All-drop zero xs h = h
All-drop (suc n) [] h = tt
All-drop (suc n) (x ∷ xs) h = All-drop n xs h.1

uint16-lt : (i : ℤ) → uint16 i < 2 ^ 16
uint16-lt (pos n) = omega arith
uint16-lt (negsuc n) = omega arith

pub get-put_uint16 : (n : ℕ) → get_uint16 (put_uint16 n) ≡ n
get-put_uint16 n = omega arith

put-get_uint16 :
    (b : Bytes) → length b ≡ 2 → All IsByte b → put_uint16 (uint16 (pos (get_uint16 b))) ≡ b
put-get_uint16 [] h k = absurd (omega (arith, h))
put-get_uint16 (x ∷ []) h k = absurd (omega (arith, h))
put-get_uint16 (x ∷ y ∷ z ∷ r) h k = absurd (omega (arith, h))
put-get_uint16 (x ∷ y ∷ []) h k = ground (arith, k)

-- What is read from 26 bytes.
abbrev pub node_at : Bytes → ℕ → Bytes → NodeInfo
node_at id k b = record {
  id = id;
  addr = record { ip = take k b; port = pos (get_uint16 (drop k b)) };
}

abbrev pub node_of : Bytes → NodeInfo
node_of c = node_at (take 20 c) (length (drop 20 c) - 2) (drop 20 c)

module _ (c : Bytes) (size : length c ≡ 26) where
  pub unmarshal_info-some : unmarshal_info c ≡ some (node_of c)
  unfolding unmarshal_info unmarshal_addr
  unmarshal_info-some = ground (arith, length-drop 20 c, size)

  length-ip : length (node_of c).addr.ip ≡ 4
  length-ip =
      omega (arith, length-take (length (drop 20 c) - 2) (drop 20 c), length-drop 20 c, size)

  with_ip4-node_of : with_ip4 (node_of c) ≡ node_of c
  unfolding to4
  with_ip4-node_of = rw (length-ip) refl

  marshal-node_of : All IsByte c → marshal_info (node_of c) ≡ c
  unfolding marshal_info
  marshal-node_of bytes =
      ap (λ l. take 20 c ++ (take (length (drop 20 c) - 2) (drop 20 c) ++ l))
        (put-get_uint16 (drop (length (drop 20 c) - 2) (drop 20 c))
          (omega (arith, length-drop (length (drop 20 c) - 2) (drop 20 c), length-drop 20 c, size))
          (All-drop (length (drop 20 c) - 2) (drop 20 c) (All-drop 20 c bytes)))
      ∙ (ap (λ l. take 20 c ++ l) (take-drop (length (drop 20 c) - 2) (drop 20 c)) ∙ take-drop 20 c)

-- What is decoded, after what was in the slice before.
pub record Decodes (before : List NodeInfo) (b : Bytes) (d : Decoded) : Type 0 where
  pub nodes : List NodeInfo
  pub decoded : d.0 ≡ before ++ nodes
  pub number : length nodes ≡ length b / 26
  pub trailing : d.1 ≡ (if length b % 26 == 0 then none else some (length b % 26))
  pub encoded : marshal_nodes nodes ≡ some (take (26 * (length b / 26)) b)

marshal_step :
    (c : Bytes) (nodes : List NodeInfo) (rest : Bytes)
    → length c ≡ 26
    → All IsByte c
    → marshal_nodes nodes ≡ some rest
    → marshal_nodes (node_of c ∷ nodes) ≡ some (c ++ rest)
unfolding marshal_nodes marshal_slice
marshal_step c nodes rest size bytes h =
    rw (with_ip4-node_of c size) (rw (marshal-node_of c size bytes) (rw size (rw h refl)))

-- Fewer bytes than a node has are left.
short-Decodes :
    (b : Bytes) (before : List NodeInfo)
    → length b < 26
    → Decodes before b (before, if length b == 0 then none else some (length b))
unfolding marshal_nodes marshal_slice
short-Decodes b before h = record {
  nodes = [];
  decoded = sym (append-nil before);
  number = omega arith;
  trailing = ap (λ (k : ℕ). if k == 0 then none else some k) whole;
  encoded = ap (λ (k : ℕ). some (take k b)) nothing;
}
  where
    whole : length b ≡ length b % 26
    whole = omega arith

    nothing : 0 ≡ 26 * (length b / 26)
    nothing = omega arith

-- A node's bytes stand before those that the rest is decoded from.
step-Decodes :
    (b : Bytes) (before : List NodeInfo) (d : Decoded)
    → 26 ≤ length b
    → All IsByte b
    → Decodes (before ++ node_of (take 26 b) ∷ []) (drop 26 b) d
    → Decodes before b d
step-Decodes b before d h bytes s = record {
  nodes = node_of (take 26 b) ∷ s.nodes;
  decoded = s.decoded ∙ append_assoc before (node_of (take 26 b) ∷ []) s.nodes;
  number = omega (arith, s.number, fewer);
  trailing = s.trailing ∙ ap (λ (k : ℕ). if k == 0 then none else some k) same;
  encoded =
      marshal_step (take 26 b) s.nodes (take (26 * (length (drop 26 b) / 26)) (drop 26 b))
        (omega (arith, length-take 26 b)) (All-take 26 b bytes) s.encoded
      ∙ ap some
          (sym (take-add 26 (26 * (length (drop 26 b) / 26)) b) ∙ ap (λ (k : ℕ). take k b) more);
}
  where
    fewer : length (drop 26 b) ≡ length b - 26
    fewer = length-drop 26 b

    same : length (drop 26 b) % 26 ≡ length b % 26
    same = omega (arith, length-drop 26 b)

    more : 26 + 26 * (length (drop 26 b) / 26) ≡ 26 * (length b / 26)
    more = omega (arith, length-drop 26 b)

loop-Decodes :
    (f : ℕ) (b : Bytes) (before : List NodeInfo)
    → length b ≤ f
    → All IsByte b
    → (d : Decoded) × (unmarshal_loop f b before ≡ some d) × Decodes before b d
unfolding unmarshal_loop
loop-Decodes zero b before h bytes = (
  (before, if length b == 0 then none else some (length b)),
  ground arith,
  short-Decodes b before (omega arith),
)
loop-Decodes (suc f) b before h bytes = elim (Bool-cases (ltb (length b) elem_size)) [
  | inl short ↦ (
    (before, if length b == 0 then none else some (length b)),
    ground arith,
    short-Decodes b before (ltb→lt _ _ short),
  )
  | inr long ↦
      let d =
        loop-Decodes f (drop 26 b) (before ++ node_of (take 26 b) ∷ [])
          (omega (arith, length-drop 26 b, big long)) (All-drop 26 b bytes) in
      (
        d.0,
        rw (some_left long) (
            rw long (
              rw (unmarshal_info-some (take 26 b) (omega (arith, length-take 26 b, big long)))
                d.1)),
        step-Decodes b before d.0 (big long) bytes d.2,
      )
]
  where
    big : ltb (length b) elem_size ≡ false → 26 ≤ length b
    big long = ground arith

    some_left : ltb (length b) elem_size ≡ false → (length b == 0) ≡ false
    some_left long = ground arith

-- Decoding any bytes returns: it puts a node for each whole 26 of them after those that are in the
-- slice, with an error exactly if bytes are left over, which names their number, and encoding the
-- new nodes gives back the bytes that were read.
pub unmarshal_nodes-Decodes :
    (before : List NodeInfo) (b : Bytes)
    → All IsByte b
    → (d : Decoded) × (unmarshal_nodes before b ≡ some d) × Decodes before b d
unfolding unmarshal_nodes
unmarshal_nodes-Decodes before b bytes = loop-Decodes (length b) b before (omega arith) bytes
