-- ===== src/Codec/PForDelta/Pack/RoundTrip.antt =====
-- `unpackBits` after `packBits`.
use native.Mathlib.Nat.{zero-div, add-zero, two-pow-succ, mul-zero}
use native.Mathlib.Numerals.{add-one}
use piggy_engine.Prelude.{ℕ, zero, suc, ◌+◌, ◌*◌, ◌/◌, ◌%◌, ◌^◌, ◌≤◌, ◌<◌, List, [], ◌∷◌, ◌++◌}
use piggy_engine.Prelude.{get_or, length, replicate, map, arith, ◌≡◌, refl, ◌∙◌, ap, ap₂, sym}
use piggy_engine.Prelude.{
  get_or-append_left, get_or-append_right, get_or-replicate, get_or-drop, take-set,
  take-append_length, take-length, length-append, length-replicate, length-drop,
}
use piggy_engine.Prelude.{Bool-cases, inl, inr, take, drop, ◌==◌, ◌||◌, ◌≢◌, true, false, bit_and}
use piggy_engine.Prelude.Bits.{bit, bit_or_pow_above, bit_and-one, mod_pow-suc}
use piggy_engine.Codec.PForDelta.Pack.{or_bit, put_bit, pack_value, pack_loop, pack_bits, is_empty}
use piggy_engine.Codec.PForDelta.Pack.{take_bit, unpack_value, unpack_loop, unpack_bits, bytes_for}
use piggy_engine.Codec.PForDelta.Pack.Laws.{
  bit_of, length-pack_value, bit_of-pack_value_out, bit_of-pack_value,
}

-- bit `n` of the bytes that a pointer is at
abbrev bit_at : List ℕ → ℕ → ℕ
bit_at bytes n = bit (get_or bytes (n / 8) 0) (n % 8)

-- the number with the lowest `b` bits `f 0`, `f 1`, …
digit_sum : (ℕ → ℕ) → ℕ → ℕ
digit_sum f zero = 0
digit_sum f (suc b) = digit_sum f b + f b * 2 ^ b

digit_sum_congr :
    (f g : ℕ → ℕ) (b : ℕ) → ((j : ℕ) → j < b → f j ≡ g j) → digit_sum f b ≡ digit_sum g b
unfolding digit_sum
digit_sum_congr f g zero h = refl
digit_sum_congr f g (suc b) h =
    ap₂ (λ (s d : ℕ). s + d * 2 ^ b) (digit_sum_congr f g b (λ j p. h j (omega arith)))
      (h b (omega arith))

digit_sum-bit : (v b : ℕ) → digit_sum (bit v) b ≡ v % 2 ^ b
unfolding digit_sum
digit_sum-bit v zero = omega arith
digit_sum-bit v (suc b) = rw (digit_sum-bit v b) (sym (mod_pow-suc v b))

digit_sum-lt : (f : ℕ → ℕ) (b : ℕ) → ((j : ℕ) → f j < 2) → digit_sum f b < 2 ^ b
unfolding digit_sum
digit_sum-lt f zero h = omega arith
digit_sum-lt f (suc b) h =
    let digit : f b ≤ 1 = omega (arith, h b) in grind (arith, digit_sum-lt f b h, two-pow-succ b)

module _ (bytes : List ℕ) (pos : ℕ) where
  abbrev source_bit : ℕ → ℕ
  source_bit k = bit_at bytes (pos + k)

  source_bit-lt : (k : ℕ) → source_bit k < 2
  source_bit-lt k = omega arith

  take_bit-digit_sum :
      (j v : ℕ) → v ≡ digit_sum source_bit j → take_bit bytes pos j v ≡ digit_sum source_bit (suc j)
  unfolding take_bit digit_sum
  take_bit-digit_sum j v e =
      let n = pos + j in
      ground (
        arith,
        bit_and-one (get_or bytes (n / 8) 0 / 2 ^ (n % 8)),
        bit_or_pow_above j v,
        digit_sum-lt source_bit j source_bit-lt,
      )

  unpack_value-digit_sum :
      (rounds j v : ℕ)
      → v ≡ digit_sum source_bit j
      → unpack_value bytes pos rounds j v ≡ digit_sum source_bit (j + rounds)
  unfolding unpack_value
  unpack_value-digit_sum zero j v e = rw add-zero e
  unpack_value-digit_sum (suc rounds) j v e =
      unpack_value-digit_sum rounds (j + 1) (take_bit bytes pos j v)
        (rw add-one (take_bit-digit_sum j v e))
      ∙ ap (digit_sum source_bit) (omega arith)

  -- A value that is read has the bits that stand at `pos`.
  unpack_value-mod :
      (b v : ℕ)
      → ((j : ℕ) → j < b → source_bit j ≡ bit v j)
      → unpack_value bytes pos b 0 0 ≡ v % 2 ^ b
  unfolding digit_sum
  unpack_value-mod b v h =
      unpack_value-digit_sum b 0 0 refl
      ∙ ap (digit_sum source_bit) (omega arith)
      ∙ digit_sum_congr source_bit (bit v) b h
      ∙ digit_sum-bit v b

-- Bytes behind those that are read do not matter.
unpack_value-append :
    (bytes rest : List ℕ) (pos rounds j v : ℕ)
    → pos + j + rounds ≤ 8 * length bytes
    → unpack_value (bytes ++ rest) pos rounds j v ≡ unpack_value bytes pos rounds j v
unfolding unpack_value take_bit
unpack_value-append bytes rest pos zero j v h = refl
unpack_value-append bytes rest pos (suc rounds) j v h =
    rw (get_or-append_left bytes rest ((pos + j) / 8) 0 (omega arith))
      (unpack_value-append bytes rest pos rounds (j + 1) _ (omega arith))

unpack_loop-append :
    (bytes rest : List ℕ) (b pos count : ℕ)
    → pos + count * b ≤ 8 * length bytes
    → unpack_loop (bytes ++ rest) b pos count ≡ unpack_loop bytes b pos count
unfolding unpack_loop
unpack_loop-append bytes rest b pos zero h = refl
unpack_loop-append bytes rest b pos (suc count) h =
    ap₂ (λ (x : ℕ) (xs : List ℕ). x ∷ xs) (unpack_value-append bytes rest pos b 0 0 (omega arith))
      (unpack_loop-append bytes rest b (pos + b) count (omega arith))

module _ (base b : ℕ) where
  length-pack_loop : (pos : ℕ) (vs out : List ℕ) → length (pack_loop base b pos vs out) ≡ length out
  unfolding pack_loop
  length-pack_loop pos [] out = refl
  length-pack_loop pos (v ∷ vs) out =
      length-pack_loop (pos + b) vs _ ∙ length-pack_value base pos v b 0 out

  bit_of-pack_loop :
      (pos m : ℕ) (vs out : List ℕ)
      → 8 * base + pos + length vs * b ≤ 8 * length out
      → m < pos
      → bit_of base (pack_loop base b pos vs out) m ≡ bit_of base out m
  unfolding pack_loop
  bit_of-pack_loop pos m [] out h low = refl
  bit_of-pack_loop pos m (v ∷ vs) out h low =
      bit_of-pack_loop (pos + b) m vs _ (omega (arith, length-pack_value base pos v b 0 out))
        (omega arith)
      ∙ bit_of-pack_value_out base pos v b 0 m out (omega arith) (inl (omega arith))

  take-pack_value :
      (pos v rounds i : ℕ) (out : List ℕ)
      → take base (pack_value base pos v rounds i out) ≡ take base out
  unfolding pack_value put_bit or_bit
  take-pack_value pos v zero i out = refl
  take-pack_value pos v (suc rounds) i out =
      take-pack_value pos v rounds (i + 1) _ ∙ elim (Bool-cases (bit_and (v / 2 ^ i) 1 == 0)) [
        | inl e ↦ rw e
        | inr e ↦ rw e (take-set base ((pos + i) / 8) out _)
      ]

  take-pack_loop :
      (pos : ℕ) (vs out : List ℕ) → take base (pack_loop base b pos vs out) ≡ take base out
  unfolding pack_loop
  take-pack_loop pos [] out = refl
  take-pack_loop pos (v ∷ vs) out = take-pack_loop (pos + b) vs _ ∙ take-pack_value pos v b 0 out

  -- Packed over zeros, the values come back cut to `b` bits.
  unpack_loop-pack_loop :
      (pos : ℕ) (vs out : List ℕ)
      → 8 * base + pos + length vs * b ≤ 8 * length out
      → ((m : ℕ) → pos ≤ m → bit_of base out m ≡ 0)
      → unpack_loop (drop base (pack_loop base b pos vs out)) b pos (length vs)
        ≡ map (λ v. v % 2 ^ b) vs
  unfolding pack_loop unpack_loop
  unpack_loop-pack_loop pos [] out h clear = refl
  unpack_loop-pack_loop pos (v ∷ vs) out h clear =
      let out' = pack_value base pos v b 0 out in
      let final = pack_loop base b (pos + b) vs out' in
      let size = length-pack_value base pos v b 0 out in
      ap₂ (λ (x : ℕ) (xs : List ℕ). x ∷ xs)
        (unpack_value-mod (drop base final) pos b v (λ j p.
          ap (λ (t : ℕ). bit t ((pos + j) % 8)) (get_or-drop base ((pos + j) / 8) final 0)
          ∙ bit_of-pack_loop (pos + b) (pos + j) vs out' (omega (arith, size)) (omega arith)
          ∙ bit_of-pack_value base pos v b 0 j out (omega arith) (omega arith) (omega arith)
              (clear (pos + j) (omega arith))))
        (unpack_loop-pack_loop (pos + b) vs out' (omega (arith, size)) (λ m p.
          bit_of-pack_value_out base pos v b 0 m out (omega arith) (inr (omega arith))
          ∙ clear m (omega arith)))

zero_bit : (k : ℕ) → bit 0 k ≡ 0
zero_bit k = rw zero-div (omega arith)

bit_of-zeros : (out : List ℕ) (n m : ℕ) → bit_of (length out) (out ++ replicate n 0) m ≡ 0
bit_of-zeros out n m =
    rw (get_or-append_right out (replicate n 0) (m / 8) 0, get_or-replicate {A = ℕ} n (m / 8) 0)
      (zero_bit (m % 8))

replicate-mod : (values : List ℕ) → replicate (length values) 0 ≡ map (λ v. v % 2 ^ 0) values
replicate-mod [] = refl
replicate-mod (v ∷ vs) = ap₂ (λ (x : ℕ) (xs : List ℕ). x ∷ xs) (omega arith) (replicate-mod vs)

abbrev zeros_for : List ℕ → ℕ → List ℕ
zeros_for values b = replicate (bytes_for (length values) b) 0

-- The two ways through `packBits`.
pack_bits-skip :
    (values : List ℕ) (b : ℕ) (out : List ℕ)
    → (b == 0 || is_empty values) ≡ true
    → pack_bits values b out ≡ out
unfolding pack_bits
pack_bits-skip values b out e = rw e

bytes_for-skip :
    (values : List ℕ) (b : ℕ) → (b == 0 || is_empty values) ≡ true → bytes_for (length values) b ≡ 0
unfolding bytes_for is_empty
bytes_for-skip [] b e = omega arith
bytes_for-skip (v ∷ vs) b e =
    let none_wide : b ≡ 0 = ground arith in rw (none_wide, mul-zero) (omega arith)

pack_bits-go :
    (values : List ℕ) (b : ℕ) (out : List ℕ)
    → (b == 0 || is_empty values) ≡ false
    → pack_bits values b out ≡ pack_loop (length out) b 0 values (out ++ zeros_for values b)
unfolding pack_bits
pack_bits-go values b out e = rw e

module _ (values : List ℕ) (b : ℕ) (out : List ℕ) where
  -- `packBits` appends the bytes that the values need.
  pub length-pack_bits : length (pack_bits values b out) ≡ length out + bytes_for (length values) b
  length-pack_bits = elim (Bool-cases (b == 0 || is_empty values)) [
    | inl e ↦ rw (pack_bits-skip values b out e, bytes_for-skip values b e) (omega arith)
    | inr e ↦ rw (pack_bits-go values b out e) (
        length-pack_loop (length out) b 0 values _
        ∙ length-append out (zeros_for values b)
        ∙ ap (λ (t : ℕ). length out + t) (length-replicate {A = ℕ} _ 0))
  ]

  -- What stood in the vector stays in front.
  pub take-pack_bits : take (length out) (pack_bits values b out) ≡ out
  take-pack_bits = elim (Bool-cases (b == 0 || is_empty values)) [
    | inl e ↦ rw (pack_bits-skip values b out e) (take-length out)
    | inr e ↦
        rw (pack_bits-go values b out e)
          (take-pack_loop (length out) b 0 values _ ∙ take-append_length out _)
  ]

unpack_zero_width :
    (bytes values : List ℕ) → unpack_bits bytes 0 (length values) ≡ map (λ v. v % 2 ^ 0) values
unfolding unpack_bits
unpack_zero_width bytes values = replicate-mod values

unpack_bits-loop :
    (bytes : List ℕ) (b count : ℕ) → b ≢ 0 → unpack_bits bytes b count ≡ unpack_loop bytes b 0 count
unfolding unpack_bits
unpack_bits-loop bytes b count wide = ground arith

-- `unpackBits` reads back what `packBits` appended, each value cut to `b` bits, whatever stands
-- before and behind it.
pub unpack_bits-pack_bits :
    (values : List ℕ) (b : ℕ) (out rest : List ℕ)
    → unpack_bits (drop (length out) (pack_bits values b out) ++ rest) b (length values)
      ≡ map (λ v. v % 2 ^ b) values
unpack_bits-pack_bits values zero out rest = unpack_zero_width _ values
unpack_bits-pack_bits [] (suc b) out rest =
    unpack_bits-loop _ (suc b) 0 (omega arith) ∙ unfold unpack_loop in refl
unpack_bits-pack_bits (v ∷ vs) (suc b) out rest =
    let values = v ∷ vs in
    let w = suc b in
    let packed = pack_bits values w out in
    let size = length-pack_bits values w out in
    let room : length vs * w + w ≤ 8 * bytes_for (length values) w =
      unfold bytes_for in omega arith in
    unpack_bits-loop _ w (length values) (omega arith)
    ∙ unpack_loop-append (drop (length out) packed) rest w 0 (length values)
        (omega (arith, length-drop (length out) packed))
    ∙ rw (pack_bits-go values w out (unfold is_empty in ground arith)) (
        unpack_loop-pack_loop (length out) w 0 values (out ++ zeros_for values w)
          (omega (
            arith,
            length-append out (zeros_for values w),
            length-replicate {A = ℕ} (bytes_for (length values) w) 0,
          ))
          (λ m p. bit_of-zeros out _ m))
