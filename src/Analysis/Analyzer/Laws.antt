-- ===== src/Analysis/Analyzer/Laws.antt =====
-- `analyze`, which indexes a text, against `analyzeQuery`, which reads a query.
use piggy_engine.Prelude.{
  ℕ, zero, suc, ◌+◌, ◌%◌, ◌≤◌, List, [], ◌∷◌, map, true, false, ◌≡◌, refl, ap, ◌∙◌, arith,
}
use piggy_engine.Prelude.{ltb, ◌==◌, length, Bool-cases, inl, inr}
use piggy_engine.Prelude.Words.{u32, add32}
use piggy_engine.Analysis.Analyzer.{
  is_stop_word, stem, char_filter, tokenize, analyze_loop, analyze, query_loop, analyze_query,
}

-- The numbers from `n` on.
unfoldable pub up_from : ℕ → ℕ → List ℕ
up_from n zero = []
up_from n (suc k) = n ∷ up_from (n + 1) k

terms_loop :
    (d p o : ℕ) (raws : List (List ℕ))
    → map (λ t. t.term) (analyze_loop d p o raws) ≡ query_loop raws
unfolding analyze_loop query_loop
terms_loop d p o [] = refl
terms_loop d p o (raw ∷ raws) =
    let word_end = add32 o (length raw % u32) in
    let after = add32 word_end 1 in
    elim (Bool-cases (length raw == 0)) [
      | inl e ↦ rw e (terms_loop d p o raws)
      | inr e ↦ elim (Bool-cases (is_stop_word raw)) [
        | inl stop ↦ rw (e, stop) (terms_loop d p after raws)
        | inr go ↦ elim (Bool-cases (length (stem raw) == 0)) [
          | inl nil ↦
              let empty : ltb 0 (length (stem raw)) ≡ false = ground arith in
              rw (e, go, nil, empty) (terms_loop d p o raws)
          | inr left ↦
              let filled : ltb 0 (length (stem raw)) ≡ true = ground arith in
              rw (e, go, left, filled)
                (ap (λ (t : List (List ℕ)). stem raw ∷ t) (terms_loop d (add32 p 1) after raws))
        ]
      ]
    ]

-- After a token, the positions go on with the next number.
positions_next :
    (p n : ℕ) (l : List ℕ)
    → p + suc n ≤ u32
    → (add32 p 1 + n ≤ u32 → l ≡ up_from (add32 p 1) n)
    → l ≡ up_from (p + 1) n
unfolding add32
positions_next p zero l h ih = ih (ground arith) ∙ unfold up_from in refl
positions_next p (suc n) l h ih =
    let same : (p + 1) % u32 ≡ p + 1 = ground arith in ih (ground arith) ∙ rw same

positions_loop :
    (d p o : ℕ) (raws : List (List ℕ))
    → p + length (analyze_loop d p o raws) ≤ u32
    → map (λ t. t.position) (analyze_loop d p o raws) ≡ up_from p (length (analyze_loop d p o raws))
unfolding analyze_loop up_from
positions_loop d p o [] h = refl
positions_loop d p o (raw ∷ raws) h =
    let word_end = add32 o (length raw % u32) in
    let after = add32 word_end 1 in
    elim (Bool-cases (length raw == 0)) [
      | inl e ↦ rw e (positions_loop d p o raws (rw e at h))
      | inr e ↦ elim (Bool-cases (is_stop_word raw)) [
        | inl stop ↦ rw (e, stop) (positions_loop d p after raws (rw (e, stop) at h))
        | inr go ↦ elim (Bool-cases (length (stem raw) == 0)) [
          | inl nil ↦ rw (e, go, nil) (positions_loop d p o raws (rw (e, go, nil) at h))
          | inr left ↦
              let rest = analyze_loop d (add32 p 1) after raws in
              let fits : p + suc (length rest) ≤ u32 = rw (e, go, left) at h in
              rw (e, go, left)
                (ap (λ (t : List ℕ). p ∷ t)
                  (positions_next p (length rest) _ fits (positions_loop d (add32 p 1) after raws)))
        ]
      ]
    ]

-- A text is indexed under the terms that the same text gives as a query, in the same order, for
-- every document id.
pub terms-analyze :
    (doc_id : ℕ) (text : List ℕ) → map (λ t. t.term) (analyze doc_id text) ≡ analyze_query text
unfolding analyze analyze_query
terms-analyze doc_id text = terms_loop doc_id 0 0 (tokenize (char_filter text))

-- The positions of the tokens of a text are 0, 1, 2 and so on, where there are at most 2 ^ 32.
pub positions-analyze :
    (doc_id : ℕ) (text : List ℕ)
    → length (analyze doc_id text) ≤ u32
    → map (λ t. t.position) (analyze doc_id text) ≡ up_from 0 (length (analyze doc_id text))
unfolding analyze
positions-analyze doc_id text h =
    positions_loop doc_id 0 0 (tokenize (char_filter text)) (omega arith)
