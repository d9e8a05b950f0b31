-- ===== src/Query/Floats.antt =====
-- What the scorers use of `float`. The type and its operations are the compiler's, so the scorers
-- take them as a parameter and ask no law of them.
use piggy_engine.Prelude.{ℕ, Bool}

pub record Float32 (F : Type 0) : Type 0 where
  pub zero_f : F
  pub one_f : F
  pub add_f : F → F → F
  pub sub_f : F → F → F
  pub mul_f : F → F → F
  pub div_f : F → F → F
  -- `a < b` and `a == b`
  pub lt_f : F → F → Bool
  pub eq_f : F → F → Bool
  -- `static_cast<float>` of a `uint32_t`
  pub of_u32 : ℕ → F
  -- the literals `1.2f` and `0.75f`
  pub k1 : F
  pub b : F
