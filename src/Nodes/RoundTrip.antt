-- ===== src/Nodes/RoundTrip.antt =====
-- internal/protocol/dht/nodeinfo.go: what is decoded from the compact encoding of nodes, and encoded
-- again.
use mathlib.Core.List.{append_assoc, append-nil}
use hexmagnet.Prelude.{
  pos, ℕ, zero, suc, ◌-◌, ◌≤◌, ◌≡◌, refl, sym, ap, ◌∙◌, false, ltb, ◌==◌, All, List, [], ◌∷◌, ◌++◌,
  length, length-append, take-append, drop-append, take, drop, map, none, some, arith,
}
use hexmagnet.Nodes.{
  Bytes, NodeInfo, uint16, put_uint16, get_uint16, marshal_info, elem_size, to4, with_ip4,
  marshal_slice, marshal_nodes, unmarshal_loop, unmarshal_nodes,
}
use hexmagnet.Nodes.Decode.{get-put_uint16, node_at, node_of, unmarshal_info-some}

-- A node that has a compact encoding, and what is left of it there.
pub record IsCompact (e : NodeInfo) : Type 0 where
  pub id : length e.id ≡ 20
  pub ip : length (to4 e.addr.ip) ≡ 4

abbrev pub compact : NodeInfo → NodeInfo
compact e = record {
  id = e.id;
  addr = record { ip = to4 e.addr.ip; port = pos (uint16 e.addr.port) };
}

module _ (e : NodeInfo) (c : IsCompact e) where
  length-marshal : length (marshal_info (with_ip4 e)) ≡ 26
  unfolding marshal_info
  length-marshal = omega (
    arith,
    length-append e.id (to4 e.addr.ip ++ put_uint16 (uint16 e.addr.port)),
    length-append (to4 e.addr.ip) (put_uint16 (uint16 e.addr.port)),
    c.id,
    c.ip,
  )

  node_of-marshal : node_of (marshal_info (with_ip4 e)) ≡ compact e
  unfolding marshal_info
  node_of-marshal =
      ap (λ i. node_at i (length (drop 20 m) - 2) (drop 20 m)) head
      ∙ (ap (λ r. node_at e.id (length r - 2) r) tail
          ∙ (ap (λ (k : ℕ). node_at e.id k (ip ++ port)) size
              ∙ (ap
                    (λ i. record {
                      id = e.id;
                      addr = record {
                        ip = i;
                        port = pos (get_uint16 (drop (length ip) (ip ++ port)));
                      };
                    })
                    (take-append ip port)
                  ∙ (ap
                        (λ p. record {
                          id = e.id;
                          addr = record { ip = ip; port = pos (get_uint16 p) };
                        })
                        (drop-append ip port)
                      ∙ ap
                          (λ (n : ℕ). record { id = e.id; addr = record { ip = ip; port = pos n } })
                          (get-put_uint16 (uint16 e.addr.port))))))
    where
      ip : Bytes
      ip = to4 e.addr.ip

      port : Bytes
      port = put_uint16 (uint16 e.addr.port)

      m : Bytes
      m = e.id ++ (ip ++ port)

      head : take 20 m ≡ e.id
      head = ap (λ (k : ℕ). take k m) (sym c.id) ∙ take-append e.id (ip ++ port)

      tail : drop 20 m ≡ ip ++ port
      tail = ap (λ (k : ℕ). drop k m) (sym c.id) ∙ drop-append e.id (ip ++ port)

      size : length (ip ++ port) - 2 ≡ length ip
      size = omega (arith, length-append ip port)

-- A round on the bytes of one node.
loop_step :
    (c rest : Bytes) (f : ℕ) (before : List NodeInfo)
    → length c ≡ 26
    → length (c ++ rest) ≤ f
    → unmarshal_loop f (c ++ rest) before ≡ unmarshal_loop (f - 1) rest (before ++ node_of c ∷ [])
unfolding unmarshal_loop
loop_step c rest zero before size h = absurd (omega (arith, length-append c rest))
loop_step c rest (suc f) before size h =
    rw (some_left, long)
      (rw (first, unmarshal_info-some c size)
        (ap (λ r. unmarshal_loop f r (before ++ node_of c ∷ [])) next
          ∙ ap (λ (k : ℕ). unmarshal_loop k rest (before ++ node_of c ∷ [])) pred))
  where
    some_left : (length (c ++ rest) == 0) ≡ false
    some_left = ground (arith, length-append c rest, size)

    long : ltb (length (c ++ rest)) elem_size ≡ false
    long = ground (arith, length-append c rest, size)

    first : take elem_size (c ++ rest) ≡ c
    first = ap (λ (k : ℕ). take k (c ++ rest)) (sym size) ∙ take-append c rest

    next : drop elem_size (c ++ rest) ≡ rest
    next = ap (λ (k : ℕ). drop k (c ++ rest)) (sym size) ∙ drop-append c rest

    pred : f ≡ suc f - 1
    pred = omega arith

-- The bytes of a slice, and what they are decoded to.
record Encodes (nodes : List NodeInfo) : Type 0 where
  bytes : Bytes
  encoded : marshal_nodes nodes ≡ some bytes
  decoded :
      (f : ℕ) (before : List NodeInfo)
      → length bytes ≤ f
      → unmarshal_loop f bytes before ≡ some (before ++ map compact nodes, none)

nodes-Encodes : (nodes : List NodeInfo) → All IsCompact nodes → Encodes nodes
unfolding marshal_nodes marshal_slice unmarshal_loop
nodes-Encodes [] h = record { bytes = []; encoded = refl; decoded = λ f before g. stop f before }
  where
    stop : (f : ℕ) (before : List NodeInfo) → unmarshal_loop f [] before ≡ some (before ++ [], none)
    stop zero before = ap (λ l. some (l, none)) (sym (append-nil before))
    stop (suc f) before = ap (λ l. some (l, none)) (sym (append-nil before))
nodes-Encodes (e ∷ nodes) h =
    let rest = nodes-Encodes nodes h.1 in
    record {
      bytes = marshal_info (with_ip4 e) ++ rest.bytes;
      encoded = rw (length-marshal e h.0) (rw (rest.encoded) refl);
      decoded = λ f before g.
          loop_step (marshal_info (with_ip4 e)) rest.bytes f before (length-marshal e h.0) g
          ∙ (ap (λ n. unmarshal_loop (f - 1) rest.bytes (before ++ n ∷ [])) (node_of-marshal e h.0)
              ∙ (rest.decoded (f - 1) (before ++ compact e ∷ []) (
                    omega (
                      arith,
                      length-append (marshal_info (with_ip4 e)) rest.bytes,
                      length-marshal e h.0,
                      g,
                    ))
                  ∙ ap (λ l. some (l, none))
                      (append_assoc before (compact e ∷ []) (map compact nodes))));
    }

-- Nodes with identifiers of 20 bytes and IPv4 addresses, in either of their two forms, are encoded
-- without a panic, and decoding gives the nodes back, with each address in its form of four bytes
-- and each port cut to 16 bits.
pub unmarshal-marshal_nodes :
    (nodes : List NodeInfo)
    → All IsCompact nodes
    → (b : Bytes) × (marshal_nodes nodes ≡ some b)
      × (unmarshal_nodes [] b ≡ some (map compact nodes, none))
unfolding unmarshal_nodes
unmarshal-marshal_nodes nodes h =
    let e = nodes-Encodes nodes h in
    (e.bytes, e.encoded, e.decoded (length e.bytes) [] (omega arith))
