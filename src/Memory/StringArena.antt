-- ===== src/Memory/StringArena.antt =====
-- modules/memory/src/segment_arena.cpp: `StringArena`, a block of bytes that strings are appended to.
-- `base` are the bytes of the block; what `malloc` leaves in them is a parameter.
pub mod Laws
use piggy_engine.Prelude.{ℕ, ◌+◌, ◌%◌, List, [], ◌++◌, Option, none, some}
use piggy_engine.Prelude.{if◌then◌else◌, ltb, length, take, drop}
use piggy_engine.Prelude.Words.{u32}

pub record StringArena : Type 0 where
  pub base : List ℕ
  pub capacity : ℕ
  pub offset : ℕ

unfoldable pub new : List ℕ → StringArena
new base = record { base = base; capacity = length base; offset = 0 }

-- `memcpy` to `base + at`
unfoldable pub write_at : ℕ → List ℕ → List ℕ → List ℕ
write_at at s base = take at base ++ (s ++ drop (at + length s) base)

unfoldable pub appended : List ℕ → StringArena → StringArena
unfolding write_at
appended s a = record a { base = write_at a.offset s a.base; offset = a.offset + length s }

-- `none` is the exception `bad_alloc`.
unfoldable pub store : List ℕ → StringArena → Option (ℕ × StringArena)
unfolding appended
store s a =
    if ltb a.capacity (a.offset + length s) then none else some (a.offset % u32, appended s a)

unfoldable pub get : ℕ → ℕ → StringArena → List ℕ
get offset len a = take len (drop offset a.base)

unfoldable pub reset : StringArena → StringArena
reset a = record a { offset = 0 }

unfoldable pub used : StringArena → ℕ
used a = a.offset
