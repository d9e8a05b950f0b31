-- ===== src/Memory/TermHashTable/Probe.antt =====
-- Probing: a change to one bucket leaves the way to it as it was.
use piggy_engine.Prelude.{
  ℕ, zero, suc, ◌+◌, ◌-◌, ◌%◌, ◌≢◌, bit_and, List, [], ◌∷◌, true, false, ◌&&◌, some, ◌≡◌, refl, ap,
  ◌∙◌, arith,
}
use piggy_engine.Prelude.{◌==◌, ==_iff, length, Bool-cases, inl, inr}
use piggy_engine.Prelude.Words.{u32}
use piggy_engine.Analysis.Analyzer.{same_word}
use piggy_engine.Memory.TermHashTable.{
  Bucket, TermHashTable, compute_hash, start_slot, bucket_at, is_term, find_loop, find_slot,
  lookup_at, lookup, term_string,
}

-- The hash of a term is not 0, which marks an empty bucket.
pub compute_hash-pos : (s : List ℕ) → (compute_hash s == 0) ≡ false
unfolding compute_hash
compute_hash-pos s = ground arith

pub same_word_refl : (w : List ℕ) → same_word w w ≡ true
unfolding same_word
same_word_refl [] = refl
same_word_refl (c ∷ cs) = ground (arith, same_word_refl cs)

-- `t'` differs from `t` at `idx` only, where it has the term.
pub record Replaces (term : List ℕ) (h : ℕ) (idx : ℕ) (t t' : TermHashTable) : Type 0 where
  pub capacity : t'.capacity ≡ t.capacity
  pub others : (j : ℕ) → j ≢ idx → bucket_at j t' ≡ bucket_at j t
  pub strings :
      (j : ℕ)
      → (bucket_at j t).term_hash ≢ 0
      → term_string (bucket_at j t) t' ≡ term_string (bucket_at j t) t
  pub filled : ((bucket_at idx t').term_hash == 0) ≡ false
  pub matches : is_term term h (bucket_at idx t') t' ≡ true

pub some_injective : {A : Type 0} → {a b : A} → some a ≡ some b → a ≡ b
some_injective e = cc

is_term-same :
    (term : List ℕ) (h : ℕ) (b : Bucket) (t t' : TermHashTable)
    → term_string b t' ≡ term_string b t
    → is_term term h b t' ≡ is_term term h b t
unfolding is_term term_string
is_term-same term h b t t' e =
    ap (λ (w : List ℕ). b.term_hash == h && (b.str_len == length term % u32 && same_word w term)) e

-- The probes that led to `idx` lead there again.
find_loop-Replaces :
    (term : List ℕ) (h idx : ℕ) (t t' : TermHashTable)
    → Replaces term h idx t t'
    → (probes j : ℕ) → find_loop term h t probes j ≡ some idx
    → find_loop term h t' probes j ≡ some idx
unfolding find_loop
find_loop-Replaces term h idx t t' r zero j e = cc
find_loop-Replaces term h idx t t' r (suc probes) j e = elim (Bool-cases (j == idx)) [
  | inl here ↦ let same : j ≡ idx = (==_iff j idx).0 here in rw (same, r.filled, r.matches)
  | inr away ↦
      let other : j ≢ idx = λ q. ground (arith, q) in
      let b : bucket_at j t' ≡ bucket_at j t = r.others j other in
      elim (Bool-cases ((bucket_at j t).term_hash == 0)) [
        | inl free ↦
            let stop : some j ≡ some idx = rw free at e in absurd (other (some_injective stop))
        | inr taken ↦ elim (Bool-cases (is_term term h (bucket_at j t) t)) [
          | inl hit ↦
              let stop : some j ≡ some idx = rw (taken, hit) at e in
              absurd (other (some_injective stop))
          | inr miss ↦
              let e' : find_loop term h t probes (bit_and (j + 1) (t.capacity - 1)) ≡ some idx =
                rw (taken, miss) at e in
              let taken' : ((bucket_at j t').term_hash == 0) ≡ false =
                ap (λ (x : Bucket). x.term_hash == 0) b ∙ taken in
              let used : (bucket_at j t).term_hash ≢ 0 = λ q. ground (arith, q, taken) in
              let miss' : is_term term h (bucket_at j t') t' ≡ false =
                ap (λ (x : Bucket). is_term term h x t') b
                ∙ is_term-same term h (bucket_at j t) t t' (r.strings j used)
                ∙ miss in
              let later : find_loop term h t' probes (bit_and (j + 1) (t'.capacity - 1))
                  ≡ some idx =
                ap (λ (n : ℕ). find_loop term h t' probes (bit_and (j + 1) (n - 1))) r.capacity
                ∙ find_loop-Replaces term h idx t t' r probes _ e' in
              rw (taken', miss') later
        ]
      ]
]

pub lookup-Replaces :
    (term : List ℕ) (idx : ℕ) (t t' : TermHashTable)
    → Replaces term (compute_hash term) idx t t'
    → find_slot term (compute_hash term) t ≡ some idx
    → lookup term t' ≡ some (some (bucket_at idx t'))
unfolding lookup find_slot start_slot
lookup-Replaces term idx t t' r e =
    let h = compute_hash term in
    let again : find_loop term h t' t'.capacity (bit_and h (t'.capacity - 1)) ≡ some idx =
      ap (λ (n : ℕ). find_loop term h t' n (bit_and h (n - 1))) r.capacity
      ∙ find_loop-Replaces term h idx t t' r t.capacity _ e in
    ap (lookup_at t') again ∙ unfold lookup_at in rw r.filled
