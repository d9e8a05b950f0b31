-- ===== src/Codec/PForDelta/Width/Laws.antt =====
-- What `chooseBitWidth` returns.
use native.Mathlib.Decide.{ℕ_discrete}
use native.Mathlib.Nat.{one-le-pow}
use piggy_engine.Prelude.{
  ℕ, zero, suc, ◌+◌, ◌*◌, ◌/◌, ◌^◌, ◌≤◌, ◌<◌, List, [], ◌∷◌, ◌≡◌, refl, ap, arith, All, ◌∙◌,
}
use piggy_engine.Prelude.Counts.{count}
use piggy_engine.Prelude.{length, ltb, leb, Bool-cases, inl, inr, leb→le, leb→lt}
use piggy_engine.Prelude.Words.{IsU32}
use piggy_engine.Codec.PForDelta.Width.{max_value, count_covered, width_loop, choose_bit_width}

-- how many of the deltas are numbers of `b` bits
abbrev pub fitting : ℕ → List ℕ → ℕ
fitting b deltas = count (λ d. ltb d (2 ^ b)) deltas

leb-max_value : (d b : ℕ) → leb d (max_value b) ≡ ltb d (2 ^ b)
unfolding max_value
leb-max_value d b = elim (ℕ_discrete b 32) [
  | yes e ↦ rw e (ground arith)
  | no n ↦ ground (arith, one-le-pow b 2)
]

count_covered-fitting :
    (b : ℕ) (deltas : List ℕ) (covered : ℕ)
    → count_covered (max_value b) deltas covered ≡ covered + fitting b deltas
unfolding count_covered count
count_covered-fitting b [] covered = omega arith
count_covered-fitting b (d ∷ ds) covered = elim (Bool-cases (ltb d (2 ^ b))) [
  | inl fits ↦
      rw (leb-max_value d b, fits) (omega (arith, count_covered-fitting b ds (covered + 1)))
  | inr big ↦ rw (leb-max_value d b, big) (omega (arith, count_covered-fitting b ds covered))
]

abbrev threshold_of : List ℕ → ℕ
threshold_of deltas = (length deltas * 9 + 9) / 10

fitting-All : (deltas : List ℕ) → All IsU32 deltas → fitting 32 deltas ≡ length deltas
unfolding count
fitting-All [] h = refl
fitting-All (d ∷ ds) h = ground (arith, h.0, fitting-All ds h.1)

pub record IsLeastWidth (deltas : List ℕ) (b : ℕ) : Type 0 where
  pub pos : 1 ≤ b
  pub le : b ≤ 32
  pub enough : length deltas * 9 ≤ fitting b deltas * 10
  pub least : (c : ℕ) → 1 ≤ c → c < b → fitting c deltas * 10 < length deltas * 9

-- All deltas fit 32 bits, so the loop cannot miss at its last width.
rounds_left :
    (deltas : List ℕ) (rounds b : ℕ)
    → All IsU32 deltas
    → suc rounds + b ≡ 33
    → fitting b deltas < threshold_of deltas
    → 1 ≤ rounds
rounds_left deltas zero b small e short =
    let last : b ≡ 32 = omega arith in
    let all = fitting-All deltas small in absurd (omega (arith, rw last at short))
rounds_left deltas (suc rounds) b small e short = omega arith

width_loop-IsLeastWidth :
    (deltas : List ℕ) (rounds b : ℕ)
    → All IsU32 deltas
    → rounds + b ≡ 33
    → 1 ≤ b
    → ((c : ℕ) → 1 ≤ c → c < b → fitting c deltas * 10 < length deltas * 9)
    → 1 ≤ rounds
    → IsLeastWidth deltas (width_loop deltas (threshold_of deltas) rounds b)
unfolding width_loop
width_loop-IsLeastWidth deltas zero b small e pos below more = absurd (omega arith)
width_loop-IsLeastWidth deltas (suc rounds) b small e pos below more =
    let test : leb (threshold_of deltas) (count_covered (max_value b) deltas 0)
        ≡ leb (threshold_of deltas) (fitting b deltas) =
      ap (λ (k : ℕ). leb (threshold_of deltas) k)
        (count_covered-fitting b deltas 0 ∙ omega arith) in
    elim (Bool-cases (leb (threshold_of deltas) (fitting b deltas))) [
      | inl found ↦
          rw (test, found)
            (record {
              pos = pos;
              le = omega arith;
              enough = omega (arith, leb→le (threshold_of deltas) (fitting b deltas) found);
              least = below;
            })
      | inr missing ↦
          let short = leb→lt (threshold_of deltas) (fitting b deltas) missing in
          rw (test, missing)
            (width_loop-IsLeastWidth deltas rounds (b + 1) small (omega arith) (omega arith)
              (λ c lo hi. elim (ℕ_discrete c b) [
                | yes same ↦ rw same (omega (arith, short))
                | no other ↦ below c lo (omega arith)
              ])
              (rounds_left deltas rounds b small e short))
    ]

-- `chooseBitWidth` returns the least width from 1 to 32 such that at least nine deltas in ten are
-- below 2 to its power.
pub choose_bit_width-IsLeastWidth :
    (deltas : List ℕ) → All IsU32 deltas → IsLeastWidth deltas (choose_bit_width deltas)
unfolding choose_bit_width
choose_bit_width-IsLeastWidth [] h = record {
  pos = omega arith;
  le = omega arith;
  enough = omega arith;
  least = λ c lo hi. absurd (omega arith);
}
choose_bit_width-IsLeastWidth (d ∷ ds) h =
    width_loop-IsLeastWidth (d ∷ ds) 32 1 h refl (omega arith) (λ c lo hi. absurd (omega arith))
      (omega arith)

-- `max_val` is the largest number of `b` bits.
pub max_value-lt : (b : ℕ) → max_value b < 2 ^ b
unfolding max_value
max_value-lt b = elim (ℕ_discrete b 32) [
  | yes e ↦ rw e (omega arith)
  | no d ↦ ground (arith, one-le-pow b 2)
]
