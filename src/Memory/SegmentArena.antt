-- ===== src/Memory/SegmentArena.antt =====
-- modules/memory/src/segment_arena.cpp: `SegmentArena`, which hands out aligned pieces of one block.
-- The bytes of the block are not looked at; `size_t` has 64 bits.
pub mod Laws
use piggy_engine.Prelude.{ℕ, ◌+◌, ◌-◌, ◌%◌, bit_and, Bool, Option, none, some}
use piggy_engine.Prelude.{if◌then◌else◌, ltb}
use piggy_engine.Prelude.Words.{u32, u64}

pub record SegmentArena : Type 0 where
  pub capacity : ℕ
  pub offset : ℕ

unfoldable pub new : ℕ → SegmentArena
new capacity_bytes = record { capacity = capacity_bytes; offset = 0 }

-- `(offset_ + align - 1) & ~(align - 1)`
unfoldable pub round_up : ℕ → ℕ → ℕ
round_up offset align = bit_and ((offset + align - 1) % u64) (u64 - align)

-- `none` is the exception `bad_alloc`.
unfoldable pub alloc : ℕ → ℕ → SegmentArena → Option (ℕ × SegmentArena)
unfolding round_up
alloc size align a =
    let aligned = round_up a.offset align in
    if ltb a.capacity (aligned + size)
    then none
    else some (aligned % u32, record a { offset = aligned + size })

unfoldable pub reset : SegmentArena → SegmentArena
reset a = record a { offset = 0 }

unfoldable pub used : SegmentArena → ℕ
used a = a.offset

unfoldable pub full : ℕ → SegmentArena → Bool
full needed a = ltb a.capacity (a.offset + needed)
