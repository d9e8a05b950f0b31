-- ===== src/Codec/PForDelta/Pack.antt =====
-- `packBits` and `unpackBits`.
pub mod Laws
pub mod RoundTrip
use piggy_engine.Prelude.{
  ℕ, zero, suc, ◌+◌, ◌*◌, ◌/◌, ◌%◌, ◌^◌, bit_and, bit_or, List, [], ◌∷◌, ◌++◌,
}
use piggy_engine.Prelude.{
  get_or, set, length, replicate, if◌then◌else◌, ◌==◌, ◌||◌, Bool, true, false,
}

-- `out[base + n / 8] |= 1u << n % 8`
unfoldable pub or_bit : ℕ → List ℕ → ℕ → List ℕ
or_bit base out n =
    let byte_idx = base + n / 8 in
    let bit_idx = n % 8 in set out byte_idx (bit_or (get_or out byte_idx 0) (2 ^ bit_idx))

-- One round of the inner loop: `if ((v >> i) & 1u)`.
unfoldable pub put_bit : ℕ → ℕ → ℕ → ℕ → List ℕ → List ℕ
put_bit base bit_pos v i out =
    if bit_and (v / 2 ^ i) 1 == 0 then out else or_bit base out (bit_pos + i)

-- The inner loop, `rounds` before the end at bit `i` of `v`.
unfoldable pub pack_value : ℕ → ℕ → ℕ → ℕ → ℕ → List ℕ → List ℕ
pack_value base bit_pos v zero i out = out
pack_value base bit_pos v (suc rounds) i out =
    pack_value base bit_pos v rounds (i + 1) (put_bit base bit_pos v i out)

unfoldable pub pack_loop : ℕ → ℕ → ℕ → List ℕ → List ℕ → List ℕ
pack_loop base b bit_pos [] out = out
pack_loop base b bit_pos (v ∷ vs) out =
    pack_loop base b (bit_pos + b) vs (pack_value base bit_pos v b 0 out)

unfoldable pub bytes_for : ℕ → ℕ → ℕ
bytes_for count b = (count * b + 7) / 8

is_empty {ℓ} : {A : Type ℓ} → List A → Bool
is_empty [] = true
is_empty (x ∷ xs) = false

unfoldable pub pack_bits : List ℕ → ℕ → List ℕ → List ℕ
unfolding is_empty
pack_bits values b out =
    if b == 0 || is_empty values
    then out
    else pack_loop (length out) b 0 values (out ++ replicate (bytes_for (length values) b) 0)

-- One round of the inner loop of `unpackBits`: `v |= 1u << j` where the bit is set.
unfoldable pub take_bit : List ℕ → ℕ → ℕ → ℕ → ℕ
take_bit bytes bit_pos j v =
    let n = bit_pos + j in
    if bit_and (get_or bytes (n / 8) 0 / 2 ^ (n % 8)) 1 == 0 then v else bit_or v (2 ^ j)

unfoldable pub unpack_value : List ℕ → ℕ → ℕ → ℕ → ℕ → ℕ
unpack_value bytes bit_pos zero j v = v
unpack_value bytes bit_pos (suc rounds) j v =
    unpack_value bytes bit_pos rounds (j + 1) (take_bit bytes bit_pos j v)

unfoldable pub unpack_loop : List ℕ → ℕ → ℕ → ℕ → List ℕ
unpack_loop bytes b bit_pos zero = []
unpack_loop bytes b bit_pos (suc count) =
    unpack_value bytes bit_pos b 0 0 ∷ unpack_loop bytes b (bit_pos + b) count

unfoldable pub unpack_bits : List ℕ → ℕ → ℕ → List ℕ
unpack_bits bytes b count = if b == 0 then replicate count 0 else unpack_loop bytes b 0 count
