-- ===== src/Memory/SegmentArena/Laws.antt =====
-- Where `alloc` puts a piece.
use native.Mathlib.Nat.{mod-eq_of_lt, one-le-pow, div-add-mod', mod-lt}
use piggy_engine.Prelude.{
  ℕ, ◌+◌, ◌-◌, ◌*◌, ◌/◌, ◌%◌, ◌^◌, ◌≤◌, ◌<◌, bit_and, some, ◌≡◌, refl, sym, ap, ◌∙◌, arith, false,
}
use piggy_engine.Prelude.{ltb}
use piggy_engine.Prelude.Words.{u32, u64}
use piggy_engine.Prelude.Bits.{bit_and_high}
use piggy_engine.Memory.SegmentArena.{SegmentArena, round_up, alloc}

-- The start is a multiple of `align`.
round_up-div :
    (offset k w : ℕ)
    → k + w ≡ 64
    → offset + 2 ^ k ≤ u64
    → round_up offset (2 ^ k) ≡ (offset + 2 ^ k - 1) / 2 ^ k * 2 ^ k
unfolding round_up
round_up-div offset k w e fits =
    let one : 1 ≤ 2 ^ k = one-le-pow k 2 (omega arith) in
    let x = offset + 2 ^ k - 1 in
    let small : x < 2 ^ (k + w) = rw e (omega arith) in
    let same : x % u64 ≡ x = mod-eq_of_lt (omega arith) in
    let top : 2 ^ (k + w) ≡ u64 = ap (λ (n : ℕ). 2 ^ n) e in
    ap (λ (t : ℕ). bit_and t (u64 - 2 ^ k)) same
    ∙ ap (λ (t : ℕ). bit_and x (t - 2 ^ k)) (sym top)
    ∙ bit_and_high k w x small

round_up-bounds :
    (offset m : ℕ)
    → 1 ≤ m
    → (offset ≤ (offset + m - 1) / m * m) × ((offset + m - 1) / m * m < offset + m)
round_up-bounds offset m pos =
    let x = offset + m - 1 in
    let split = div-add-mod' x m in
    let low : x % m < m = mod-lt x pos in
    (omega (arith, split, low, pos), omega (arith, split, low, pos))

-- A piece of `size` bytes for the alignment `2 ^ k`, handed out of the arena `a`.
pub record IsPiece (size k : ℕ) (a : SegmentArena) (r : ℕ × SegmentArena) : Type 0 where
  pub quotient : ℕ
  pub aligned : r.0 ≡ quotient * 2 ^ k
  pub behind : a.offset ≤ r.0
  pub near : r.0 < a.offset + 2 ^ k
  pub ends : r.1.offset ≡ r.0 + size
  pub inside : r.1.offset ≤ r.1.capacity
  pub same_block : r.1.capacity ≡ a.capacity

-- In an arena of fewer than 2 ^ 32 bytes with room for a piece and the gap before it, `alloc` returns,
-- for an alignment that is a power of two: the piece starts at a multiple of the alignment, behind all
-- earlier pieces and as near to them as that allows, lies within the block, and later pieces will start
-- behind its end.
pub alloc-IsPiece :
    (size k w : ℕ) (a : SegmentArena)
    → k + w ≡ 64
    → a.capacity < u32
    → a.offset + 2 ^ k - 1 + size ≤ a.capacity
    → (r : ℕ × SegmentArena) × (alloc size (2 ^ k) a ≡ some r) × IsPiece size k a r
unfolding alloc
alloc-IsPiece size k w a e small room =
    let one : 1 ≤ 2 ^ k = one-le-pow k 2 (omega arith) in
    let m = 2 ^ k in
    let q = (a.offset + m - 1) / m in
    let p = q * m in
    let bounds = round_up-bounds a.offset m one in
    let at : round_up a.offset m ≡ p =
      round_up-div a.offset k w e (omega (arith, one, room, small)) in
    let fits : ltb a.capacity (p + size) ≡ false = ground (arith, bounds.1, room, one) in
    let short : p % u32 ≡ p = mod-eq_of_lt (omega (arith, bounds.1, room, small, one)) in
    (
      (p, record { capacity = a.capacity; offset = p + size }),
      rw (at, fits, short),
      record {
        quotient = q;
        aligned = refl;
        behind = bounds.0;
        near = bounds.1;
        ends = refl;
        inside = omega (arith, bounds.1, room, one);
        same_block = refl;
      },
    )
