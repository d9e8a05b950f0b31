-- ===== src/Examples.antt =====
-- The theorems at concrete inputs, and runs of the definitions.
mod Search
mod Terms
mod Text
mod Memory
mod Disk
mod Store
mod Query
mod Realtime
mod Wand
use piggy_engine.Prelude.{
  ℕ, suc, ◌+◌, ◌*◌, ◌/◌, ◌-◌, ◌^◌, ◌%◌, ◌≤◌, ◌<◌, List, [], ◌∷◌, ◌++◌, map, Bool, true, false, not,
  Option, none, some, ◌≡◌, refl, arith,
}
use piggy_engine.Prelude.{length, drop, All, ltb, ◌==◌, if◌then◌else◌, max}
use piggy_engine.Prelude.Words.{IsU32}
use piggy_engine.Core.{invalid_doc, SkipNode}
use piggy_engine.Codec.PForDelta.Pack.{pack_bits, unpack_bits}
use piggy_engine.Codec.PForDelta.Pack.RoundTrip.{unpack_bits-pack_bits}
use piggy_engine.Codec.PForDelta.Width.{choose_bit_width, max_value, count_covered, width_loop}
use piggy_engine.Codec.PForDelta.Width.Laws.{IsLeastWidth, choose_bit_width-IsLeastWidth}
use piggy_engine.Codec.PForDelta.Block.{compress_block, decompress_block}
use piggy_engine.Codec.PForDelta.Block.RoundTrip.{decompress_block-compress_block}
use piggy_engine.Codec.PForDelta.Stream.{compress, decompress}
use piggy_engine.Codec.PForDelta.Stream.RoundTrip.{Located, decompress-compress, compress-Located}
use piggy_engine.Codec.SkipList.{
  SkipList, new as new_skip_list, find, serialize, serialized_size, deserialize,
}
use piggy_engine.Codec.SkipList.Find.{IsSorted, IsFirstAtOrAfter, find-IsFirstAtOrAfter}
use piggy_engine.Codec.SkipList.Serial.{IsNode, deserialize-serialize, length-serialize}

abbrev docs : List ℕ
docs = 3 ∷ 9 ∷ 10 ∷ 4000000000 ∷ []

docs-IsU32 : All IsU32 docs
docs-IsU32 = (omega arith, (omega arith, (omega arith, (omega arith, tt))))

decompress-compress_example :
    let bytes = (compress docs []).0 in decompress bytes (length bytes) (length docs) ≡ docs
decompress-compress_example = decompress-compress docs [] docs-IsU32

compress-Located_example : let r = compress docs [] in Located r.0 r.1 docs
compress-Located_example = compress-Located docs [] docs-IsU32

choose_bit_width-IsLeastWidth_example : IsLeastWidth docs (choose_bit_width docs)
choose_bit_width-IsLeastWidth_example = choose_bit_width-IsLeastWidth docs docs-IsU32

abbrev nodes : List SkipNode
nodes =
    record { max_doc_id = 40; byte_offset = 0; max_score = 7; doc_count = 128 }
    ∷ record { max_doc_id = 90; byte_offset = 200; max_score = 5; doc_count = 128 }
    ∷ []

nodes-IsSorted : IsSorted nodes
nodes-IsSorted = ((omega arith, tt), (tt, tt))

find-IsFirstAtOrAfter_example : IsFirstAtOrAfter nodes 0 41 (find (new_skip_list max nodes) 41)
find-IsFirstAtOrAfter_example = find-IsFirstAtOrAfter max nodes 41 nodes-IsSorted

abbrev two_levels : SkipList
two_levels = record { level0 = nodes; level1 = [] }

nodes-All : All IsNode nodes
nodes-All = (
  record { doc = omega arith; offset = omega arith; score = omega arith; count = omega arith },
  (
    record { doc = omega arith; offset = omega arith; score = omega arith; count = omega arith },
    tt,
  ),
)

deserialize-serialize_example :
    let bytes = serialize (1 ∷ 2 ∷ 3 ∷ 4 ∷ []) two_levels ++ 9 ∷ [] in
    deserialize bytes (length bytes) ≡ some two_levels
deserialize-serialize_example =
    deserialize-serialize 1 2 3 4 two_levels (9 ∷ []) (omega arith) (omega arith) nodes-All tt

unpack_bits-pack_bits_example :
    unpack_bits (drop 1 (pack_bits (5 ∷ 12 ∷ 3 ∷ []) 3 (255 ∷ [])) ++ 8 ∷ []) 3 3
    ≡ map (λ v. v % 2 ^ 3) (5 ∷ 12 ∷ 3 ∷ [])
unpack_bits-pack_bits_example = unpack_bits-pack_bits (5 ∷ 12 ∷ 3 ∷ []) 3 (255 ∷ []) (8 ∷ [])
