-- ===== src/Codec/PForDelta/Width.antt =====
-- `chooseBitWidth`: the least width that holds nine deltas in ten.
pub mod Laws
use piggy_engine.Prelude.{ℕ, zero, suc, ◌+◌, ◌-◌, ◌*◌, ◌/◌, ◌^◌, List, [], ◌∷◌}
use piggy_engine.Prelude.{length, if◌then◌else◌, leb, ◌==◌}

-- `(b == 32) ? 0xFFFFFFFFu : ((1u << b) - 1u)`
unfoldable pub max_value : ℕ → ℕ
max_value b = if b == 32 then 0xFFFF_FFFF else 2 ^ b - 1

-- the loop that counts in `covered`
unfoldable pub count_covered : ℕ → List ℕ → ℕ → ℕ
count_covered max_val [] covered = covered
count_covered max_val (d ∷ ds) covered =
    count_covered max_val ds (if leb d max_val then covered + 1 else covered)

-- The loop over `b`, `rounds` before 33.
unfoldable pub width_loop : List ℕ → ℕ → ℕ → ℕ → ℕ
width_loop deltas threshold zero b = 32
width_loop deltas threshold (suc rounds) b =
    let rest = width_loop deltas threshold rounds (b + 1) in
    if leb threshold (count_covered (max_value b) deltas 0) then b else rest

unfoldable pub choose_bit_width : List ℕ → ℕ
choose_bit_width [] = 1
choose_bit_width (d ∷ ds) = let n = length (d ∷ ds) in width_loop (d ∷ ds) ((n * 9 + 9) / 10) 32 1
