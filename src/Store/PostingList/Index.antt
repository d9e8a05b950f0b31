-- ===== src/Store/PostingList/Index.antt =====
-- `InMemoryIndex`: each term has the posting list of its own tokens.
use piggy_engine.Prelude.{
  ℕ, List, [], ◌∷◌, ◌++◌, true, false, Option, none, some, ◌≡◌, refl, sym, ap, ap₂, ◌∙◌, arith, inl,
  inr, Bool-cases,
}
use piggy_engine.Prelude.{if◌then◌else◌, append_assoc, append-nil, ◌==◌}
use piggy_engine.Analysis.Analyzer.{same_word}
use piggy_engine.Memory.TermHashTable.Probe.{same_word_refl}
use piggy_engine.Store.PostingList.{
  PostingList, empty_list, append, Token, InMemoryIndex, empty_index, find_term, put_term,
  add_found, add_token, get_posting_list,
}
use piggy_engine.Store.PostingList.Laws.{append_all}

not-both : true ≡ false → ⊥
not-both e = cc

same_word-eq : (a b : List ℕ) → same_word a b ≡ true → a ≡ b
unfolding same_word
same_word-eq [] [] h = refl
same_word-eq [] (y ∷ ys) h = cc
same_word-eq (x ∷ xs) [] h = cc
same_word-eq (x ∷ xs) (y ∷ ys) h = elim (Bool-cases (x == y)) [
  | inl same ↦
      let e : x ≡ y = ground arith in
      let rest : same_word xs ys ≡ true = ground arith in
      ap₂ (λ (n : ℕ) (l : List ℕ). n ∷ l) e (same_word-eq xs ys rest)
  | inr other ↦ absurd (ground arith)
]

find_term-put_term :
    (t u : List ℕ) (l : PostingList) (ix : List (List ℕ × PostingList))
    → find_term t (put_term u l ix) ≡ (if same_word u t then some l else find_term t ix)
unfolding find_term put_term
find_term-put_term t u l [] = refl
find_term-put_term t u l ((k, old) ∷ rest) = elim (Bool-cases (same_word k u)) [
  | inl same ↦
      let e = same_word-eq k u same in
      elim (Bool-cases (same_word k t)) [
        | inl here ↦
            let there : same_word u t ≡ true = sym (ap (λ (w : List ℕ). same_word w t) e) ∙ here in
            rw (same, here, there) refl
        | inr other ↦
            let there : same_word u t ≡ false =
              sym (ap (λ (w : List ℕ). same_word w t) e) ∙ other in
            rw (same, other, there) refl
      ]
  | inr apart ↦ elim (Bool-cases (same_word k t)) [
    | inl here ↦ elim (Bool-cases (same_word u t)) [
      | inl both ↦ absurd (
          not-both (
            sym (same_word_refl u)
            ∙ ap (λ (w : List ℕ). same_word w u)
                (same_word-eq u t both ∙ sym (same_word-eq k t here))
            ∙ apart))
      | inr not_u ↦ rw (apart, here, not_u) refl
    ]
    | inr other ↦ rw (apart, other) (find_term-put_term t u l rest)
  ]
]

-- The list of a term that may have none yet.
abbrev or_empty : Option PostingList → PostingList
or_empty none = empty_list
or_empty (some l) = l

abbrev grow : List ℕ → Token → Option PostingList → Option PostingList
grow t tok o =
    if same_word tok.term t then some (append tok.doc_id tok.position (or_empty o)).1 else o

find_term-add_found :
    (t : List ℕ) (tok : Token) (ix : InMemoryIndex) (o : Option PostingList)
    → find_term t (add_found tok ix o).index ≡ (
        if same_word tok.term t
        then some (append tok.doc_id tok.position (or_empty o)).1
        else find_term t ix.index)
unfolding add_found
find_term-add_found t tok ix none =
    find_term-put_term t tok.term (append tok.doc_id tok.position empty_list).1 ix.index
find_term-add_found t tok ix (some l) =
    find_term-put_term t tok.term (append tok.doc_id tok.position l).1 ix.index

find_term-add_token :
    (t : List ℕ) (tok : Token) (ix : InMemoryIndex)
    → find_term t (add_token tok ix).index ≡ grow t tok (find_term t ix.index)
unfolding add_token
find_term-add_token t tok ix =
    find_term-add_found t tok ix (find_term tok.term ix.index)
    ∙ elim (Bool-cases (same_word tok.term t)) [
      | inl same ↦ rw same (
          ap
            (λ (w : List ℕ).
              some (append tok.doc_id tok.position (or_empty (find_term w ix.index))).1)
            (same_word-eq tok.term t same))
      | inr other ↦ rw other refl
    ]

-- Calls of `addToken`, one after the other.
unfoldable pub add_all : List Token → InMemoryIndex → InMemoryIndex
add_all [] ix = ix
add_all (tok ∷ toks) ix = add_all toks (add_token tok ix)

-- The documents and positions of the tokens of a term, in order.
unfoldable pub calls_for : List ℕ → List Token → List (ℕ × ℕ)
calls_for t [] = []
calls_for t (tok ∷ toks) =
    let rest = calls_for t toks in
    if same_word tok.term t then (tok.doc_id, tok.position) ∷ rest else rest

-- The posting list that calls of `append` make of the empty one, none if there are no calls.
unfoldable pub built : List (ℕ × ℕ) → Option PostingList
built [] = none
built (c ∷ cs) = some (append_all (c ∷ cs) empty_list)

append_all-append :
    (xs : List (ℕ × ℕ)) (d p : ℕ) (l : PostingList)
    → append_all (xs ++ (d, p) ∷ []) l ≡ (append d p (append_all xs l)).1
unfolding append_all
append_all-append [] d p l = refl
append_all-append ((e, q) ∷ xs) d p l = append_all-append xs d p (append e q l).1

built_snoc :
    (cs : List (ℕ × ℕ)) (d p : ℕ)
    → some (append d p (or_empty (built cs))).1 ≡ built (cs ++ (d, p) ∷ [])
unfolding built append_all
built_snoc [] d p = refl
built_snoc (c ∷ cs) d p = ap some (sym (append_all-append (c ∷ cs) d p empty_list))

add_all-built :
    (t : List ℕ) (toks : List Token) (ix : InMemoryIndex) (cs : List (ℕ × ℕ))
    → find_term t ix.index ≡ built cs
    → find_term t (add_all toks ix).index ≡ built (cs ++ calls_for t toks)
unfolding add_all calls_for
add_all-built t [] ix cs h = h ∙ ap built (sym (append-nil cs))
add_all-built t (tok ∷ toks) ix cs h = elim (Bool-cases (same_word tok.term t)) [
  | inl same ↦
      let step : find_term t (add_token tok ix).index
          ≡ built (cs ++ (tok.doc_id, tok.position) ∷ []) =
        find_term-add_token t tok ix
        ∙ ap (grow t tok) h
        ∙ rw same (built_snoc cs tok.doc_id tok.position) in
      rw same (
        add_all-built t toks (add_token tok ix) (cs ++ (tok.doc_id, tok.position) ∷ []) step
        ∙ ap built (append_assoc cs ((tok.doc_id, tok.position) ∷ []) (calls_for t toks)))
  | inr other ↦
      let step : find_term t (add_token tok ix).index ≡ built cs =
        find_term-add_token t tok ix ∙ rw other h in
      rw other (add_all-built t toks (add_token tok ix) cs step)
]

-- After `addToken` of any tokens, the index has for each term the posting list that `append` makes of
-- the documents and positions of just this term's tokens, in order, and no list for a term without
-- tokens.
pub get_posting_list-add_all :
    (t : List ℕ) (toks : List Token)
    → get_posting_list t (add_all toks empty_index) ≡ built (calls_for t toks)
unfolding get_posting_list find_term built
get_posting_list-add_all t toks = add_all-built t toks empty_index [] refl
