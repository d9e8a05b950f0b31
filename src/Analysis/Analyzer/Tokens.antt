-- ===== src/Analysis/Analyzer/Tokens.antt =====
-- What `tokenize` finds, against a description in one pass.
use piggy_engine.Prelude.{
  ℕ, zero, suc, ◌+◌, ◌≤◌, List, [], ◌∷◌, ◌++◌, false, ◌≡◌, refl, sym, ap, ◌∙◌, arith, append_assoc,
  append-nil,
}
use piggy_engine.Prelude.{if◌then◌else◌, ltb, ◌==◌, ==_iff, length, Bool-cases, inl, inr}
use piggy_engine.Analysis.Analyzer.{space, skip_spaces, run, tokenize_loop, tokenize}

-- A word that has a character.
unfoldable pub emit : List ℕ → List (List ℕ)
emit [] = []
emit (c ∷ cs) = (c ∷ cs) ∷ []

-- The words of a text, read from left to right: `word` is what the current one has so far.
unfoldable pub words_from : List ℕ → List ℕ → List (List ℕ)
unfolding emit
words_from word [] = emit word
words_from word (c ∷ cs) =
    let longer = words_from (word ++ c ∷ []) cs in
    let fresh = words_from [] cs in if c == space then emit word ++ fresh else longer

words_from-skip_spaces : (p : List ℕ) → words_from [] (skip_spaces p) ≡ words_from [] p
unfolding skip_spaces
words_from-skip_spaces [] = refl
words_from-skip_spaces (c ∷ cs) = elim (Bool-cases (c == space)) [
  | inl e ↦ rw e (words_from-skip_spaces cs ∙ unfold words_from emit in rw e)
  | inr e ↦ rw e
]

-- A word ends where its run does.
words_from-run :
    (word p : List ℕ) → words_from word p ≡ emit (word ++ (run p).0) ++ words_from [] (run p).1
unfolding words_from run
words_from-run word [] = unfold emit in rw (append-nil word, append-nil)
words_from-run word (c ∷ cs) = elim (Bool-cases (c == space)) [
  | inl e ↦ rw (e, e) (unfold emit in rw append-nil)
  | inr e ↦ rw e (words_from-run (word ++ c ∷ []) cs ∙ rw (append_assoc word (c ∷ []) (run cs).0))
]

length-skip_spaces : (p : List ℕ) → length (skip_spaces p) ≤ length p
unfolding skip_spaces
length-skip_spaces [] = omega arith
length-skip_spaces (c ∷ cs) = ground (arith, length-skip_spaces cs)

length-run : (p : List ℕ) → length (run p).0 + length (run p).1 ≡ length p
unfolding run
length-run [] = refl
length-run (c ∷ cs) = elim (Bool-cases (c == space)) [
  | inl e ↦ rw e (omega arith)
  | inr e ↦ rw e (omega (arith, length-run cs))
]

run-skip_spaces : (p : List ℕ) → length (run (skip_spaces p)).0 ≡ 0 → skip_spaces p ≡ []
unfolding run skip_spaces
run-skip_spaces [] h = refl
run-skip_spaces (c ∷ cs) h = elim (Bool-cases (c == space)) [
  | inl e ↦ rw e (run-skip_spaces cs (rw e at h))
  | inr e ↦ let k : suc (length (run cs).0) ≡ 0 = rw (e, e) at h in absurd (omega arith)
]

left_over : (fuel : ℕ) (p : List ℕ) → length p ≤ suc fuel → length (run (skip_spaces p)).1 ≤ fuel
left_over fuel p h =
    let q = skip_spaces p in
    elim (Bool-cases (length (run q).0 == 0)) [
      | inl e ↦
          let gone : q ≡ [] = run-skip_spaces p ((==_iff _ _).0 e) in
          rw gone (unfold run in omega arith)
      | inr e ↦ ground (arith, length-run q, length-skip_spaces p)
    ]

emit-if : (w : List ℕ) (l : List (List ℕ)) → (if ltb 0 (length w) then w ∷ l else l) ≡ emit w ++ l
unfolding emit
emit-if [] l = refl
emit-if (c ∷ cs) l = ground arith

-- With fuel for each character, the loop finds the words.
tokenize_loop-words_from :
    (fuel : ℕ) (p : List ℕ) → length p ≤ fuel → tokenize_loop fuel p ≡ words_from [] p
unfolding tokenize_loop
tokenize_loop-words_from zero [] h = unfold words_from emit in refl
tokenize_loop-words_from zero (c ∷ cs) h = absurd (omega arith)
tokenize_loop-words_from (suc fuel) [] h = unfold words_from emit in refl
tokenize_loop-words_from (suc fuel) (c ∷ cs) h =
    let p : List ℕ = c ∷ cs in
    let q = skip_spaces p in
    let r = run q in
    let some : (length p == 0) ≡ false = ground arith in
    let left : length r.1 ≤ fuel = left_over fuel p h in
    rw some (
      emit-if r.0 (tokenize_loop fuel r.1)
      ∙ ap (λ (t : List (List ℕ)). emit r.0 ++ t) (tokenize_loop-words_from fuel r.1 left)
      ∙ sym (words_from-run [] q)
      ∙ words_from-skip_spaces p)

-- `tokenize` finds the words of a text, those that one pass from left to right finds: the longest
-- runs of characters other than the space, in order.
pub tokenize-words_from : (text : List ℕ) → tokenize text ≡ words_from [] text
unfolding tokenize
tokenize-words_from text = tokenize_loop-words_from (length text) text (omega arith)
