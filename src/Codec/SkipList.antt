-- ===== src/Codec/SkipList.antt =====
-- modules/codec/src/skiplist.cpp: two levels of skip nodes over the blocks of a posting list.
pub mod Find
pub mod Serial
use piggy_engine.Prelude.{ℕ, zero, suc, ◌+◌, ◌-◌, ◌*◌, List, [], ◌∷◌, ◌++◌, Option, some, none}
use piggy_engine.Prelude.{length, take, drop, if◌then◌else◌, leb, ltb}
use piggy_engine.Prelude.Words.{u64, u32_bytes, u64_bytes, read_u32, read_u64}
use piggy_engine.Core.{SkipNode}

abbrev pub skip_interval : ℕ
skip_interval = 128

pub record SkipList : Type 0 where
  pub level0 : List SkipNode
  pub level1 : List SkipNode

unfoldable pub last_node : SkipNode → List SkipNode → SkipNode
last_node n [] = n
last_node n (m ∷ ms) = last_node m ms

-- `fmax` is `std::max` on the bit patterns of two floats.
module _ (fmax : ℕ → ℕ → ℕ) where
  -- the loop over `j`; it starts at the pattern of `0.0f`
  unfoldable pub best_score : ℕ → List SkipNode → ℕ
  best_score best [] = best
  best_score best (n ∷ ns) = best_score (fmax best n.max_score) ns

  -- the node over `n` and the nodes `ns` behind it
  unfoldable pub summary : SkipNode → List SkipNode → SkipNode
  unfolding best_score last_node
  summary n ns = record {
    max_doc_id = (last_node n ns).max_doc_id;
    byte_offset = n.byte_offset;
    max_score = best_score 0 (n ∷ ns);
    doc_count = 0;
  }

  -- The loop over `i`. The list is what `i` has not reached, and as many rounds as nodes are enough.
  unfoldable pub level1_loop : ℕ → List SkipNode → List SkipNode
  unfolding summary
  level1_loop fuel [] = []
  level1_loop zero (n ∷ ns) = []
  level1_loop (suc fuel) (n ∷ ns) =
      summary n (take (skip_interval - 1) ns) ∷ level1_loop fuel (drop (skip_interval - 1) ns)

  unfoldable pub build_level1 : List SkipNode → List SkipNode
  unfolding level1_loop
  build_level1 level0 =
      if leb (length level0) skip_interval then [] else level1_loop (length level0) level0

  -- the constructor
  unfoldable pub new : List SkipNode → SkipList
  new nodes = record { level0 = nodes; level1 = build_level1 nodes }

pub record FindResult : Type 0 where
  pub byte_offset : ℕ
  pub block_index : ℕ
  pub block_first_doc : ℕ

-- `{UINT64_MAX, SIZE_MAX, 0}`
abbrev pub not_found : FindResult
not_found = record { byte_offset = u64 - 1; block_index = u64 - 1; block_first_doc = 0 }

-- Step 1 from node `i` of level 1 on: `l0_start`, or `none` for the early return.
unfoldable pub start_loop : ℕ → List SkipNode → ℕ → Option ℕ
start_loop target [] i = some 0
start_loop target (n ∷ []) i = if leb target n.max_doc_id then some (i * skip_interval) else none
start_loop target (n ∷ m ∷ ms) i =
    let rest = start_loop target (m ∷ ms) (i + 1) in
    if leb target n.max_doc_id then some (i * skip_interval) else rest

-- Step 2, over the nodes from index `i` on.
unfoldable pub scan_loop : ℕ → List SkipNode → ℕ → FindResult
scan_loop target [] i = not_found
scan_loop target (n ∷ ns) i =
    let rest = scan_loop target ns (i + 1) in
    if leb target n.max_doc_id
    then record { byte_offset = n.byte_offset; block_index = i; block_first_doc = 0 }
    else rest

unfoldable pub scan_from : ℕ → List SkipNode → Option ℕ → FindResult
scan_from target level0 none = not_found
scan_from target level0 (some l0_start) = scan_loop target (drop l0_start level0) l0_start

unfoldable pub find_in : ℕ → List SkipNode → List SkipNode → FindResult
find_in target [] level1 = not_found
find_in target (n ∷ ns) level1 = scan_from target (n ∷ ns) (start_loop target level1 0)

unfoldable pub find : SkipList → ℕ → FindResult
unfolding find_in
find sl target = find_in target sl.level0 sl.level1

abbrev pub node_size : ℕ
node_size = 24

unfoldable pub serialized_size : SkipList → ℕ
serialized_size sl = 8 + length sl.level0 * node_size + length sl.level1 * node_size

-- A node in memory: the compiler leaves four bytes, `pad`, before the 64-bit field.
abbrev pub node_bytes : List ℕ → SkipNode → List ℕ
node_bytes pad n =
    u32_bytes n.max_doc_id
    ++ (pad ++ (u64_bytes n.byte_offset ++ (u32_bytes n.max_score ++ u32_bytes n.doc_count)))

unfoldable pub nodes_bytes : List ℕ → List SkipNode → List ℕ
nodes_bytes pad [] = []
nodes_bytes pad (n ∷ ns) = node_bytes pad n ++ nodes_bytes pad ns

unfoldable pub serialize : List ℕ → SkipList → List ℕ
serialize pad sl =
    u32_bytes (length sl.level0)
    ++ (u32_bytes (length sl.level1) ++ (nodes_bytes pad sl.level0 ++ nodes_bytes pad sl.level1))

unfoldable pub read_node : List ℕ → SkipNode
read_node p = record {
  max_doc_id = read_u32 p;
  byte_offset = read_u64 (drop 8 p);
  max_score = read_u32 (drop 16 p);
  doc_count = read_u32 (drop 20 p);
}

unfoldable pub read_nodes : ℕ → List ℕ → List SkipNode
unfolding read_node
read_nodes zero p = []
read_nodes (suc count) p = read_node p ∷ read_nodes count (drop node_size p)

-- `none` is the exception "SkipList data too short".
unfoldable pub deserialize : List ℕ → ℕ → Option SkipList
deserialize bytes len =
    let l0_count = read_u32 bytes in
    let l1_count = read_u32 (drop 4 bytes) in
    let p = drop 8 bytes in
    if ltb len 8
    then none
    else some (record {
      level0 = read_nodes l0_count p;
      level1 = read_nodes l1_count (drop (l0_count * node_size) p);
    })
