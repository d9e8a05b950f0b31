-- ===== src/Examples/Search.antt =====
-- A segment in memory with two terms, and searches in it.
use piggy_engine.Prelude.{
  ℕ, ◌+◌, ◌*◌, ◌/◌, ◌-◌, List, [], ◌∷◌, map, Bool, true, false, not, some, ◌≡◌, refl, arith,
}
use piggy_engine.Prelude.{length, ltb, ◌==◌, if◌then◌else◌}
use piggy_engine.Query.Docs.{mem, in_all, keep}
use piggy_engine.Query.Cursor.{Scorer, IsCursor}
use piggy_engine.Query.Floats.{Float32}
use piggy_engine.Query.Term.{Segment, TermScorer}
use piggy_engine.Query.Term as Term
use piggy_engine.Query.Term.Laws.{Optional, optional_pending, term-IsCursor}
use piggy_engine.Query.Conjunction as Conjunction
use piggy_engine.Query.Conjunction.Loop.{common_pending, IsConjunction}
use piggy_engine.Query.Conjunction.Laws.{IsConjunction-IsCursor}
use piggy_engine.Query.Exclusion as Exclusion
use piggy_engine.Query.Exclusion.Step.{remaining_pending, IsExclusion}
use piggy_engine.Query.Exclusion.Laws.{IsExclusion-IsCursor}
use piggy_engine.Query.Search.{drive, max_results}
use piggy_engine.Query.Search.Zigzag.{zigzag, max_rounds}
use piggy_engine.Query.Search.Zigzag.Laws.{zigzag-in_all}
use piggy_engine.Query.Search.Boolean.{search-conjunction, search-exclusion}
use piggy_engine.Memory.PostingIterator.{
  MemoryPostingIterator, iterator, cursor, take_current, lower_bound, new, advance, next,
}
use piggy_engine.Memory.PostingIterator.Laws.{IsValid, pending, Moves, memory-IsCursor, new-Moves}
use piggy_engine.Memory.PostingIterator.Resume.{next-failed_advance}

-- Numbers stand for the floats.
abbrev pub numbers : Float32 ℕ
numbers = record {
  zero_f = 0;
  one_f = 1;
  add_f = λ a b. a + b;
  sub_f = λ a b. a - b;
  mul_f = λ a b. a * b;
  div_f = λ a b. a / b;
  lt_f = ltb;
  eq_f = λ a b. a == b;
  of_u32 = λ n. n;
  k1 = 1;
  b = 1;
}

abbrev pub red : MemoryPostingIterator ℕ
red = new (1 ∷ 4 ∷ 7 ∷ 9 ∷ []) [] 1

abbrev pub blue : MemoryPostingIterator ℕ
blue = new (4 ∷ 9 ∷ 12 ∷ []) [] 1

pub red-IsValid : IsValid red
red-IsValid =
    (new-Moves (1 ∷ 4 ∷ 7 ∷ 9 ∷ []) [] 1 (
      omega arith,
      (omega arith, (omega arith, (omega arith, tt))),
      (
        omega arith,
        (omega arith, (omega arith, tt)),
        (omega arith, (omega arith, tt), (omega arith, tt, tt)),
      ),
    )).0

pub blue-IsValid : IsValid blue
blue-IsValid =
    (new-Moves (4 ∷ 9 ∷ 12 ∷ []) [] 1 (
      omega arith,
      (omega arith, (omega arith, tt)),
      (omega arith, (omega arith, tt), (omega arith, tt, tt)),
    )).0

-- The word "a" has the red documents, all others have the blue ones.
abbrev segment : Segment ℕ (MemoryPostingIterator ℕ)
segment = record {
  term_meta = λ f t. some 1;
  posting_iterator = λ f t. if length t == 1 then some red else some blue;
  field_avg_doc_len = λ f. 1;
  field_doc_len = λ f d. 1;
  term_idfs = λ k. some 1;
}

abbrev term_scorer : Scorer ℕ (TermScorer ℕ (MemoryPostingIterator ℕ))
term_scorer = Term.scorer numbers iterator segment

abbrev term_red : TermScorer ℕ (MemoryPostingIterator ℕ)
term_red = Term.new numbers iterator segment (116 ∷ []) (97 ∷ [])

abbrev term_blue : TermScorer ℕ (MemoryPostingIterator ℕ)
term_blue = Term.new numbers iterator segment (116 ∷ []) (98 ∷ 99 ∷ [])

abbrev HasTerms : TermScorer ℕ (MemoryPostingIterator ℕ) → Type 0
HasTerms s = Optional IsValid s.iter

abbrev term_docs : TermScorer ℕ (MemoryPostingIterator ℕ) → List ℕ
term_docs s = optional_pending pending s.iter

terms : IsCursor term_scorer.cursor HasTerms term_docs
terms = term-IsCursor numbers iterator memory-IsCursor segment

program : Unit {0}
unfolding Term.new Term.found Term.or_zero
program = tt

term_red-HasTerms : HasTerms term_red
unfolding program
term_red-HasTerms = red-IsValid

term_blue-HasTerms : HasTerms term_blue
unfolding program
term_blue-HasTerms = blue-IsValid

memory-IsCursor_example : IsCursor (cursor {F = ℕ}) IsValid pending
memory-IsCursor_example = memory-IsCursor {F = ℕ}

IsConjunction-IsCursor_example :
    IsCursor (Conjunction.cursor term_scorer.cursor) (IsConjunction terms) (common_pending terms)
IsConjunction-IsCursor_example = IsConjunction-IsCursor terms

IsExclusion-IsCursor_example :
    IsCursor
      (Exclusion.cursor term_scorer.cursor term_scorer.cursor)
      (IsExclusion terms terms)
      (remaining_pending terms terms)
IsExclusion-IsCursor_example = IsExclusion-IsCursor terms terms

-- The documents with both terms.
search-conjunction_example :
    map
      (λ r. r.doc_id)
      (drive
        (Conjunction.scorer numbers term_scorer)
        (λ d. true)
        max_results
        (Conjunction.new term_scorer.cursor term_red (term_blue ∷ [])))
    ≡ keep (λ d. true) (keep (λ d. in_all d (term_docs term_blue ∷ [])) (term_docs term_red))
search-conjunction_example =
    search-conjunction numbers term_scorer terms (λ d. true) term_red (term_blue ∷ [])
      term_red-HasTerms (term_blue-HasTerms, tt)

-- The documents with one term and not the other.
search-exclusion_example :
    map
      (λ r. r.doc_id)
      (drive
        (Exclusion.scorer term_scorer term_scorer)
        (λ d. true)
        max_results
        (Exclusion.new term_scorer.cursor term_scorer.cursor term_red term_blue))
    ≡ keep (λ d. true) (keep (λ d. not (mem d (term_docs term_blue))) (term_docs term_red))
search-exclusion_example =
    search-exclusion term_scorer terms term_scorer terms (λ d. true) term_red term_blue
      term_red-HasTerms term_blue-HasTerms

abbrev failed : Bool × MemoryPostingIterator ℕ
failed = advance 100 red

red_fails : failed.0 ≡ false
unfolding new take_current lower_bound advance
red_fails = refl

next-failed_advance_example : Moves (next failed.1) (4 ∷ 7 ∷ 9 ∷ [])
unfolding new
next-failed_advance_example = next-failed_advance red 100 red-IsValid red_fails

-- The documents that both iterators have.
zigzag-in_all_example :
    zigzag (cursor {F = ℕ}) (λ d. true) max_rounds red (blue ∷ [])
    ≡ keep (λ d. true) (keep (λ d. in_all d (pending blue ∷ [])) (pending red))
zigzag-in_all_example =
    zigzag-in_all (memory-IsCursor {F = ℕ}) (λ d. true) red (blue ∷ []) red-IsValid
      (blue-IsValid, tt)
