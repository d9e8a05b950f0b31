-- ===== src/Examples/Terms.antt =====
-- Words in fields and in the merged dictionary of a segment, and `searchAND` for two of them.
use piggy_engine.Prelude.{ℕ, [], ◌∷◌, true, false, ◌&&◌, inl, inr, ◌≡◌, refl}
use piggy_engine.Prelude.{length, ◌==◌, if◌then◌else◌, Bool-cases}
use piggy_engine.Query.Docs.{mem, is_nonempty}
use piggy_engine.Query.Search.Terms.{FieldTerm, Reader, intersection, open_one}
use piggy_engine.Query.Search.Terms.Expand.{every, answers, is_known}
use piggy_engine.Query.Search.Terms.Laws.{has, intersection-answers}
use piggy_engine.Memory.PostingIterator.{MemoryPostingIterator, cursor, new}
use piggy_engine.Memory.PostingIterator.Laws.{IsValid, pending, memory-IsCursor, new-Moves}
use piggy_engine.Examples.Search.{red, blue, red-IsValid, blue-IsValid}

abbrev no_documents : MemoryPostingIterator ℕ
no_documents = new [] [] 1

no_documents-IsValid : IsValid no_documents
no_documents-IsValid = (new-Moves [] [] 1 tt).0

nothing_pending : pending no_documents ≡ []
unfolding new pending
nothing_pending = refl

-- The word "a" is in the title, "bc" in the merged dictionary, and no other word anywhere.
abbrev reader : Reader (MemoryPostingIterator ℕ)
reader = record {
  has_term = λ f w. length w == 1;
  has_merged_term = λ w. length w == 2;
  posting_iterator = λ f w. if length w == 1 then red else no_documents;
  merged_posting_iterator = λ w. if length w == 2 then blue else no_documents;
}

reader-IsValid : (ft : FieldTerm) → IsValid (open_one reader ft)
unfolding open_one is_nonempty
reader-IsValid ft = elim (Bool-cases (is_nonempty ft.field)) [
  | inl own ↦ elim (Bool-cases (length ft.term == 1)) [
    | inl one ↦ rw (own, one) red-IsValid
    | inr other ↦ rw (own, other) no_documents-IsValid
  ]
  | inr bare ↦ elim (Bool-cases (length ft.term == 2)) [
    | inl two ↦ rw (bare, two) blue-IsValid
    | inr other ↦ rw (bare, other) no_documents-IsValid
  ]
]

reader-missing : (ft : FieldTerm) → is_known reader ft ≡ false → pending (open_one reader ft) ≡ []
unfolding open_one is_known
reader-missing ft lost = elim (Bool-cases (is_nonempty ft.field)) [
  | inl own ↦
      let other : (length ft.term == 1) ≡ false = rw own at lost in rw (own, other) nothing_pending
  | inr bare ↦
      let other : (length ft.term == 2) ≡ false = rw bare at lost in
      rw (bare, other) nothing_pending
]

-- The documents with "a" in the title and "bc" in any text.
intersection-answers_example :
    mem 9 (
      intersection reader
        (cursor {F = ℕ})
        (λ d. true)
        (λ fts. fts)
        []
        (record { field = 116 ∷ []; term = 97 ∷ [] }
          ∷ record { field = []; term = 98 ∷ 99 ∷ [] }
          ∷ []))
    ≡ (every (answers [] (has (memory-IsCursor {F = ℕ}) reader 9)) (
          record { field = 116 ∷ []; term = 97 ∷ [] }
          ∷ record { field = []; term = 98 ∷ 99 ∷ [] }
          ∷ [])
        && true)
intersection-answers_example =
    intersection-answers (memory-IsCursor {F = ℕ}) reader reader-IsValid (λ d. true) (λ fts. fts)
      (λ q fts. refl) [] (record { field = 116 ∷ []; term = 97 ∷ [] })
      (record { field = []; term = 98 ∷ 99 ∷ [] } ∷ []) 9 tt reader-missing
