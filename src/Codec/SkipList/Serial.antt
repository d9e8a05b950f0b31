-- ===== src/Codec/SkipList/Serial.antt =====
-- `deserialize` after `serialize`.
use piggy_engine.Prelude.{
  ℕ, ◌*◌, ◌≤◌, ◌<◌, List, [], ◌∷◌, ◌++◌, ◌≡◌, refl, arith, ap, ap₂, ◌∙◌, some,
}
use piggy_engine.Prelude.{
  length, drop, ltb, false, All, append_assoc, length-append, drop-append_length,
}
use piggy_engine.Prelude.Words.{u32, u64, IsU32, read_u32_bytes, read_u64_bytes, u32_bytes}
use piggy_engine.Core.{SkipNode}
use piggy_engine.Codec.SkipList.{
  SkipList, node_size, node_bytes, nodes_bytes, serialize, serialized_size, read_node, read_nodes,
  deserialize,
}

-- The fields hold what their C++ types hold.
pub record IsNode (n : SkipNode) : Type 0 where
  pub doc : IsU32 n.max_doc_id
  pub offset : n.byte_offset < u64
  pub score : IsU32 n.max_score
  pub count : IsU32 n.doc_count

deserialize-parts :
    (c0 c1 : ℕ) (p : List ℕ) (len : ℕ)
    → c0 < u32
    → c1 < u32
    → 8 ≤ len
    → deserialize (u32_bytes c0 ++ (u32_bytes c1 ++ p)) len
      ≡ some (record { level0 = read_nodes c0 p; level1 = read_nodes c1 (drop (c0 * node_size) p) })
unfolding deserialize
deserialize-parts c0 c1 p len h0 h1 h =
    let long : ltb len 8 ≡ false = ground arith in
    rw (long, read_u32_bytes c0 [] h0, read_u32_bytes c1 [] h1)

module _ (p0 p1 p2 p3 : ℕ) where
  abbrev pad : List ℕ
  pad = p0 ∷ p1 ∷ p2 ∷ p3 ∷ []

  read_node-node_bytes :
      (n : SkipNode) (rest : List ℕ) → IsNode n → read_node (node_bytes pad n ++ rest) ≡ n
  unfolding read_node
  read_node-node_bytes n rest h = λ i. record {
    max_doc_id = read_u32_bytes n.max_doc_id [] h.doc i;
    byte_offset = read_u64_bytes n.byte_offset [] h.offset i;
    max_score = read_u32_bytes n.max_score [] h.score i;
    doc_count = read_u32_bytes n.doc_count rest h.count i;
  }

  pub length-nodes_bytes :
      (ns : List SkipNode) → length (nodes_bytes pad ns) ≡ length ns * node_size
  unfolding nodes_bytes
  length-nodes_bytes [] = refl
  length-nodes_bytes (n ∷ ns) = omega (arith, length-nodes_bytes ns)

  read_nodes-nodes_bytes :
      (ns : List SkipNode) (rest : List ℕ)
      → All IsNode ns
      → read_nodes (length ns) (nodes_bytes pad ns ++ rest) ≡ ns
  unfolding read_nodes nodes_bytes
  read_nodes-nodes_bytes [] rest h = refl
  read_nodes-nodes_bytes (n ∷ ns) rest h =
      ap₂ (λ (x : SkipNode) (xs : List SkipNode). x ∷ xs)
        (read_node-node_bytes n (nodes_bytes pad ns ++ rest) h.0)
        (read_nodes-nodes_bytes ns rest h.1)

  -- `serializedSize` is the number of bytes that `serialize` writes.
  pub length-serialize : (sl : SkipList) → length (serialize pad sl) ≡ serialized_size sl
  unfolding serialize serialized_size
  length-serialize sl = omega (
    arith,
    length-append (nodes_bytes pad sl.level0) (nodes_bytes pad sl.level1),
    length-nodes_bytes sl.level0,
    length-nodes_bytes sl.level1,
  )

  serialized_size-ge : (sl : SkipList) → 8 ≤ serialized_size sl
  unfolding serialized_size
  serialized_size-ge sl = omega arith

  serialize-parts :
      (sl : SkipList) (rest : List ℕ)
      → serialize pad sl ++ rest
        ≡ u32_bytes (length sl.level0)
          ++ (u32_bytes (length sl.level1)
              ++ ((nodes_bytes pad sl.level0 ++ nodes_bytes pad sl.level1) ++ rest))
  unfolding serialize
  serialize-parts sl rest = refl

  -- `deserialize` reads back both levels that `serialize` wrote, whatever stands in the padding and
  -- behind the bytes, where the levels have fewer than 2 ^ 32 nodes and the fields fit their types.
  pub deserialize-serialize :
      (sl : SkipList) (rest : List ℕ)
      → length sl.level0 < u32
      → length sl.level1 < u32
      → All IsNode sl.level0
      → All IsNode sl.level1
      → deserialize (serialize pad sl ++ rest) (length (serialize pad sl ++ rest)) ≡ some sl
  deserialize-serialize sl rest h0 h1 n0 n1 =
      let first = nodes_bytes pad sl.level0 in
      let second = nodes_bytes pad sl.level1 in
      let len = length (serialize pad sl ++ rest) in
      let shape : (first ++ second) ++ rest ≡ first ++ (second ++ rest) =
        append_assoc first second rest in
      let past : drop (length sl.level0 * node_size) (first ++ (second ++ rest)) ≡ second ++ rest =
        rw (← length-nodes_bytes sl.level0) (drop-append_length first (second ++ rest)) in
      let long : 8 ≤ len = omega (
        arith,
        length-append (serialize pad sl) rest,
        serialized_size-ge sl,
        length-serialize sl,
      ) in
      ap (λ (t : List ℕ). deserialize t len) (serialize-parts sl rest)
      ∙ deserialize-parts (length sl.level0) (length sl.level1) ((first ++ second) ++ rest) len h0
          h1 long
      ∙ rw (
        shape,
        past,
        read_nodes-nodes_bytes sl.level0 (second ++ rest) n0,
        read_nodes-nodes_bytes sl.level1 rest n1,
      )
