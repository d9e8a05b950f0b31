-- ===== src/Analysis/Analyzer/Stem.antt =====
-- `stem` only cuts off an ending, and leaves enough of the word.
use piggy_engine.Prelude.{ℕ, ◌+◌, ◌-◌, ◌≤◌, ◌<◌, min, List, ◌≡◌, refl, sym, ap, arith}
use piggy_engine.Prelude.{
  if◌then◌else◌, leb, ltb, ltb→lt, ◌==◌, length, take, length-take, take-length, Bool-cases, inl,
  inr,
}
use piggy_engine.Analysis.Analyzer.{stem, ends_in, cut, cut_or}

-- `r` is the word `s` without at most its last four characters; two are left where there were two.
pub record IsStem (s r : List ℕ) : Type 0 where
  pub kept : ℕ
  pub prefix : r ≡ take kept s
  pub least : min 2 (length s) ≤ kept
  pub most : length s ≤ kept + 4
  pub fits : kept ≤ length s

itself : (s : List ℕ) → IsStem s s
itself s = record {
  kept = length s;
  prefix = sym (take-length s);
  least = omega arith;
  most = omega arith;
  fits = omega arith;
}

cut-IsStem : (n : ℕ) (s : List ℕ) → n + 2 ≤ length s → n ≤ 4 → IsStem s (cut n s)
unfolding cut
cut-IsStem n s long le = record {
  kept = length s - n;
  prefix = refl;
  least = omega arith;
  most = omega arith;
  fits = omega arith;
}

cut_or-IsStem : (n : ℕ) (s : List ℕ) → n + 2 ≤ length s → n ≤ 4 → IsStem s (cut_or n s)
unfolding cut_or
cut_or-IsStem n s long le = elim (Bool-cases (length (cut n s) == 0)) [
  | inl e ↦ rw e (itself s)
  | inr e ↦ rw e (cut-IsStem n s long le)
]

-- One rule for a suffix, before the others.
rule :
    (least : ℕ) (suffix s x y : List ℕ)
    → (least < length s → IsStem s x)
    → IsStem s y
    → IsStem s (if ends_in least suffix s then x else y)
unfolding ends_in
rule least suffix s x y hx hy = elim (Bool-cases (ltb least (length s))) [
  | inl long ↦ elim (Bool-cases (ends_in least suffix s)) [
    | inl e ↦ rw e (hx (ltb→lt least (length s) long))
    | inr e ↦ rw e hy
  ]
  | inr short ↦ rw short hy
]

-- `stem` returns its word without at most the last four characters, and keeps at least two of them,
-- or all where there are fewer.
pub stem-IsStem : (s : List ℕ) → IsStem s (stem s)
unfolding stem
stem-IsStem s = elim (Bool-cases (leb (length s) 3)) [
  | inl short ↦ rw short (itself s)
  | inr long ↦ rw long (
      rule 4 _ s _ _ (λ h. cut_or-IsStem 3 s (omega arith) (omega arith))
        (rule 5 _ s _ _ (λ h. cut_or-IsStem 4 s (omega arith) (omega arith))
          (rule 5 _ s _ _ (λ h. cut_or-IsStem 4 s (omega arith) (omega arith))
            (rule 5 _ s _ _ (λ h. cut_or-IsStem 4 s (omega arith) (omega arith))
              (rule 4 _ s _ _ (λ h. cut-IsStem 3 s (omega arith) (omega arith))
                (rule 3 _ s _ _ (λ h. cut-IsStem 2 s (omega arith) (omega arith))
                  (rule 3 _ s _ _ (λ h. cut-IsStem 2 s (omega arith) (omega arith))
                    (rule 3 _ s _ _ (λ h. cut-IsStem 2 s (omega arith) (omega arith))
                      (rule 3 _ s _ _ (λ h. cut-IsStem 2 s (omega arith) (omega arith))
                        (rule 3 _ s _ _ (λ h. cut-IsStem 1 s (omega arith) (omega arith))
                          (itself s)))))))))))
]

pub stem_nonempty : (s : List ℕ) → 0 < length s → 0 < length (stem s)
stem_nonempty s h =
    let v = stem-IsStem s in
    omega (arith, v.least, v.fits, ap length v.prefix, length-take v.kept s)
