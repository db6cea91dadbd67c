-- ===== src/Nodes/Examples.antt =====
-- The theorems on compact encodings at concrete nodes.
use hexmagnet.Prelude.{pos, negsuc, ◌≡◌, refl, All, List, [], ◌∷◌, ◌++◌, map, some, none, arith}
use hexmagnet.Nodes.{Bytes, NodeInfo, Decoded, to4, marshal_nodes, unmarshal_nodes}
use hexmagnet.Nodes.RoundTrip.{IsCompact, compact, unmarshal-marshal_nodes}
use hexmagnet.Nodes.Decode.{Decodes, unmarshal_nodes-Decodes}

abbrev four : Bytes
four = 1 ∷ 2 ∷ 3 ∷ 4 ∷ []

abbrev twenty : Bytes
twenty = four ++ (four ++ (four ++ (four ++ four)))

-- One address of four bytes, and one of sixteen with a port out of range.
abbrev two_nodes : List NodeInfo
two_nodes =
    record { id = twenty; addr = record { ip = four; port = pos 6881 } }
    ∷ record {
      id = twenty;
      addr = record {
        ip = 0 ∷ 0 ∷ 0 ∷ 0 ∷ 0 ∷ 0 ∷ 0 ∷ 0 ∷ 0 ∷ 0 ∷ 255 ∷ 255 ∷ four;
        port = negsuc 0;
      };
    }
    ∷ []

two_nodes-IsCompact : All IsCompact two_nodes
unfolding to4
two_nodes-IsCompact = (record { id = refl; ip = refl }, (record { id = refl; ip = refl }, tt))

unmarshal-marshal_nodes_example :
    (b : Bytes) × (marshal_nodes two_nodes ≡ some b)
    × (unmarshal_nodes [] b ≡ some (map compact two_nodes, none))
unmarshal-marshal_nodes_example = unmarshal-marshal_nodes two_nodes two_nodes-IsCompact

-- A node, and four bytes more.
unmarshal_nodes-Decodes_example :
    (d : Decoded) × (unmarshal_nodes two_nodes (twenty ++ (four ++ (four ++ (5 ∷ 6 ∷ []))))
      ≡ some d)
    × Decodes two_nodes (twenty ++ (four ++ (four ++ (5 ∷ 6 ∷ [])))) d
unmarshal_nodes-Decodes_example =
    unmarshal_nodes-Decodes two_nodes (twenty ++ (four ++ (four ++ (5 ∷ 6 ∷ [])))) (omega arith)
