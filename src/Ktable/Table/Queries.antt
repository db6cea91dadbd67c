-- ===== src/Ktable/Table/Queries.antt =====
-- The queries of the table.
use hexmagnet.Prelude.{
  ℕ, ◌+◌, ◌-◌, ◌≤◌, ◌<◌, min, ◌≡◌, refl, ◌∙◌, Bool, true, false, List, [], ◌∷◌, map, take, arith,
  length, length-map, length-take, leb, ◌==◌, All, Bool-cases, inl, inr, if◌then◌else◌,
}
use hexmagnet.Btree.Bits.{NodeId}
use hexmagnet.Ktable.Node.{Node, is_sample_info_hashes_candidate, candidates_loop}
use hexmagnet.Ktable.Hash.{Hash}
use hexmagnet.Ktable.Keyspace.{get_random, count}
use hexmagnet.Ktable.Table.{Table, up_to, get_nodes_for_sample_info_hashes, sample_hashes_and_nodes}

-- If an iteration over a map visits as many entries as the map has, a sample has twenty hashes, or
-- all if there are fewer, enough nodes for forty in all, or all nodes if there are fewer, and the
-- number of all hashes.
pub sample_sizes :
    (visit_hashes : List (NodeId × Hash) → List (NodeId × Hash))
    (visit_nodes : List (NodeId × Node) → List (NodeId × Node)) (t : Table)
    → ((m : List (NodeId × Hash)) → length (visit_hashes m) ≡ length m)
    → ((m : List (NodeId × Node)) → length (visit_nodes m) ≡ length m)
    → let r = sample_hashes_and_nodes visit_hashes visit_nodes t in
      (length r.hashes ≡ min 20 (count t.hashes))
      × (length r.nodes ≡ min (40 - length r.hashes) (count t.nodes))
      × (r.total_hashes ≡ count t.hashes)
unfolding sample_hashes_and_nodes get_random count
sample_sizes visit_hashes visit_nodes t vh vn =
    let n_hashes : length (
          map (λ (e : NodeId × Hash). e.1)
            (take (min 20 (length t.hashes.items)) (visit_hashes t.hashes.items)))
        ≡ min 20 (length t.hashes.items) =
      length-map _ (take (min 20 (length t.hashes.items)) (visit_hashes t.hashes.items))
      ∙ length-take (min 20 (length t.hashes.items)) (visit_hashes t.hashes.items)
      ∙ omega (arith, vh t.hashes.items) in
    (
      n_hashes,
      length-map _ (take (min _ (length t.nodes.items)) (visit_nodes t.nodes.items))
          ∙ length-take _ (visit_nodes t.nodes.items)
          ∙ omega (arith, vn t.nodes.items, n_hashes),
      refl,
    )

-- What a sampled node satisfies.
abbrev pub IsCandidate : ℕ → Node → Type 0
IsCandidate now p = is_sample_info_hashes_candidate now p ≡ true

candidates-All :
    (now n so_far : ℕ) (items : List Node)
    → All (IsCandidate now) (candidates_loop now n so_far items)
unfolding candidates_loop
candidates-All now n so_far [] = tt
candidates-All now n so_far (it ∷ items) =
    elim (Bool-cases (is_sample_info_hashes_candidate now it)) [
      | inr e ↦ rw e (candidates-All now n so_far items)
      | inl e ↦ rw e (e, rest (so_far + 1 == n) (candidates-All now n (so_far + 1) items))
    ]
  where
    rest :
        (b : Bool)
        → All (IsCandidate now) (candidates_loop now n (so_far + 1) items)
        → All (IsCandidate now) (if b then [] else candidates_loop now n (so_far + 1) items)
    rest true h = tt
    rest false h = h

up_to-All :
    (now n so_far : ℕ) (peers : List Node)
    → All (IsCandidate now) peers
    → All (IsCandidate now) (up_to n so_far peers)
unfolding up_to
up_to-All now n so_far [] h = tt
up_to-All now n so_far (p ∷ peers) h =
    (h.0, rest (leb n (so_far + 1)) (up_to-All now n (so_far + 1) peers h.1))
  where
    rest :
        (b : Bool)
        → All (IsCandidate now) (up_to n (so_far + 1) peers)
        → All (IsCandidate now) (if b then [] else up_to n (so_far + 1) peers)
    rest true h = tt
    rest false h = h

length-up_to :
    (n so_far : ℕ) (peers : List Node) → so_far < n → so_far + length (up_to n so_far peers) ≤ n
unfolding up_to
length-up_to n so_far [] h = omega arith
length-up_to n so_far (p ∷ peers) h = elim (Bool-cases (leb n (so_far + 1))) [
  | inl e ↦ rw e (omega arith)
  | inr e ↦ rw e (omega (arith, length-up_to n (so_far + 1) peers (ground arith)))
]

-- A query for a positive number of nodes to sample returns at most that many, and each is a
-- candidate at the time of the query.
pub sample_candidates :
    (visit : List (NodeId × Node) → List (NodeId × Node)) (now : ℕ) (t : Table) (n : ℕ)
    → 0 < n
    → All (IsCandidate now) (get_nodes_for_sample_info_hashes visit now t n)
      × (length (get_nodes_for_sample_info_hashes visit now t n) ≤ n)
unfolding get_nodes_for_sample_info_hashes
sample_candidates visit now t n h =
    let found = candidates_loop now n 0 (map (λ (e : NodeId × Node). e.1) (visit t.nodes.items)) in
    (
      up_to-All now n 0 found
          (candidates-All now n 0 (map (λ (e : NodeId × Node). e.1) (visit t.nodes.items))),
      omega (arith, length-up_to n 0 found h),
    )
