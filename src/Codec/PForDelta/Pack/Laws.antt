-- ===== src/Codec/PForDelta/Pack/Laws.antt =====
-- Packing and unpacking, bit by bit.
use native.Mathlib.Decide.{ℕ_discrete}
use piggy_engine.Prelude.{ℕ, zero, suc, ◌+◌, ◌*◌, ◌/◌, ◌%◌, ◌^◌, ◌≤◌, ◌<◌, bit_and, List}
use piggy_engine.Prelude.{get_or, length, ◌==◌, arith, ◌≡◌, refl, ◌∙◌, ap, ◌≢◌, sym, ◌⊎◌}
use piggy_engine.Prelude.{length-set, get_or-set_self, get_or-set_ne}
use piggy_engine.Prelude.{Bool-cases, inl, inr, ==_iff}
use piggy_engine.Prelude.Bits.{bit, bit-bit_or_pow, bit_and-one}
use piggy_engine.Codec.PForDelta.Pack.{or_bit, put_bit, pack_value}

-- bit `n` of the bytes from `base` on
abbrev pub bit_of : ℕ → List ℕ → ℕ → ℕ
bit_of base bytes n = bit (get_or bytes (base + n / 8) 0) (n % 8)

module _ (base : ℕ) where
  length-or_bit : (out : List ℕ) (n : ℕ) → length (or_bit base out n) ≡ length out
  unfolding or_bit
  length-or_bit out n = length-set out _ _

  bit_of-or_bit_self :
      (out : List ℕ) (n : ℕ) → 8 * base + n < 8 * length out → bit_of base (or_bit base out n) n ≡ 1
  unfolding or_bit
  bit_of-or_bit_self out n h =
      rw (get_or-set_self out (base + n / 8) _ 0 (omega arith))
        (bit-bit_or_pow (n % 8) (n % 8) (get_or out (base + n / 8) 0) ∙ ground arith)

  bit_of-or_bit_ne :
      (out : List ℕ) (n m : ℕ)
      → 8 * base + n < 8 * length out
      → n ≢ m
      → bit_of base (or_bit base out n) m ≡ bit_of base out m
  unfolding or_bit
  bit_of-or_bit_ne out n m h apart = elim (ℕ_discrete (n / 8) (m / 8)) [
    | yes e ↦
        rw (← e, get_or-set_self out (base + n / 8) _ 0 (omega arith))
          (bit-bit_or_pow (n % 8) (m % 8) (get_or out (base + n / 8) 0) ∙ ground arith)
    | no d ↦
        ap (λ (t : ℕ). bit t (m % 8))
          (get_or-set_ne out (base + n / 8) (base + m / 8) _ 0 (λ e. d (omega arith)))
  ]

  length-put_bit : (pos v i : ℕ) (out : List ℕ) → length (put_bit base pos v i out) ≡ length out
  unfolding put_bit
  length-put_bit pos v i out = ground (arith, length-or_bit out (pos + i))

  bit_of-put_bit_ne :
      (pos v i m : ℕ) (out : List ℕ)
      → 8 * base + pos + i < 8 * length out
      → pos + i ≢ m
      → bit_of base (put_bit base pos v i out) m ≡ bit_of base out m
  unfolding put_bit
  bit_of-put_bit_ne pos v i m out h apart = elim (Bool-cases (bit_and (v / 2 ^ i) 1 == 0)) [
    | inl e ↦ rw e
    | inr e ↦ rw e (bit_of-or_bit_ne out (pos + i) m (omega arith) apart)
  ]

  bit_of-put_bit_self :
      (pos v i : ℕ) (out : List ℕ)
      → 8 * base + pos + i < 8 * length out
      → bit_of base out (pos + i) ≡ 0
      → bit_of base (put_bit base pos v i out) (pos + i) ≡ bit v i
  unfolding put_bit
  bit_of-put_bit_self pos v i out h clear = elim (Bool-cases (bit_and (v / 2 ^ i) 1 == 0)) [
    | inl e ↦ rw e (clear ∙ sym (sym (bit_and-one (v / 2 ^ i)) ∙ (==_iff _ 0).0 e))
    | inr e ↦
        rw e
          (bit_of-or_bit_self out (pos + i) (omega arith) ∙ ground (arith, bit_and-one (v / 2 ^ i)))
  ]

  pub length-pack_value :
      (pos v rounds i : ℕ) (out : List ℕ) → length (pack_value base pos v rounds i out) ≡ length out
  unfolding pack_value
  length-pack_value pos v zero i out = refl
  length-pack_value pos v (suc rounds) i out =
      length-pack_value pos v rounds (i + 1) _ ∙ length-put_bit pos v i out

  -- Bits that the loop does not reach stay.
  pub bit_of-pack_value_out :
      (pos v rounds i m : ℕ) (out : List ℕ)
      → 8 * base + pos + i + rounds ≤ 8 * length out
      → (m < pos + i) ⊎ (pos + i + rounds ≤ m)
      → bit_of base (pack_value base pos v rounds i out) m ≡ bit_of base out m
  unfolding pack_value
  bit_of-pack_value_out pos v zero i m out h far = refl
  bit_of-pack_value_out pos v (suc rounds) i m out h far =
      let size = length-put_bit pos v i out in
      bit_of-pack_value_out pos v rounds (i + 1) m _ (omega (arith, size)) (omega arith)
      ∙ bit_of-put_bit_ne pos v i m out (omega arith) (omega arith)

  -- Over zeros the loop writes the bits of `v`.
  pub bit_of-pack_value :
      (pos v rounds i j : ℕ) (out : List ℕ)
      → 8 * base + pos + i + rounds ≤ 8 * length out
      → i ≤ j
      → j < i + rounds
      → bit_of base out (pos + j) ≡ 0
      → bit_of base (pack_value base pos v rounds i out) (pos + j) ≡ bit v j
  unfolding pack_value
  bit_of-pack_value pos v zero i j out h lo hi clear = absurd (omega arith)
  bit_of-pack_value pos v (suc rounds) i j out h lo hi clear = elim (ℕ_discrete i j) [
    | yes same ↦
        bit_of-pack_value_out pos v rounds (i + 1) (pos + j) (put_bit base pos v i out)
          (omega (arith, length-put_bit pos v i out)) (omega arith)
        ∙ rw (← same) (
            bit_of-put_bit_self pos v i out (omega arith) (rw (ap (λ (t : ℕ). pos + t) same) clear))
    | no d ↦
        bit_of-pack_value pos v rounds (i + 1) j (put_bit base pos v i out)
          (omega (arith, length-put_bit pos v i out)) (omega arith) (omega arith)
          (bit_of-put_bit_ne pos v i (pos + j) out (omega arith) (omega arith) ∙ clear)
  ]
