-- ===== src/Query/Cursor.antt =====
-- modules/query/include/query/scorer.h and modules/store/include/store/i_posting_iterator.h: the
-- abstract classes of the iterators over documents, as records of operations on a state type, and
-- what an implementation promises. `F` is the type of the floats.
use piggy_engine.Prelude.{ℕ, List, ◌∷◌, Bool, not, ◌≡◌}
use piggy_engine.Query.Docs.{IsAscending, drop_below, head_or_invalid, is_nonempty}

-- The methods that both classes have. One that moves returns its result and the new state.
pub record Cursor (S : Type 0) : Type 0 where
  pub doc_id : S → ℕ
  pub is_end : S → Bool
  pub next : S → Bool × S
  pub advance : ℕ → S → Bool × S

-- `IPostingIterator`
pub record PostingIterator (F S : Type 0) : Type 0 where
  pub cursor : Cursor S
  pub tf : S → ℕ
  pub block_max_score : S → F
  pub block_max_doc_id : S → ℕ

-- `Scorer`
pub record Scorer (F S : Type 0) : Type 0 where
  pub cursor : Cursor S
  pub score : S → F
  pub max_score : S → F
  pub block_max_score : S → F
  pub block_max_doc_id : S → ℕ

-- The contract. `pending s` are the documents from the current one on; at the end there are none.
-- `next` is only called before the end.
pub record IsCursor {S : Type 0} (c : Cursor S) (IsValid : S → Type 0) (pending : S → List ℕ)
    : Type 0 where
  pub ascending : (s : S) → IsValid s → IsAscending (pending s)
  pub doc_id_is : (s : S) → IsValid s → c.doc_id s ≡ head_or_invalid (pending s)
  pub is_end_is : (s : S) → IsValid s → c.is_end s ≡ not (is_nonempty (pending s))
  pub next_valid :
      (s : S) (d : ℕ) (ds : List ℕ) → IsValid s → pending s ≡ d ∷ ds → IsValid (c.next s).1
  pub next_moves :
      (s : S) (d : ℕ) (ds : List ℕ) → IsValid s → pending s ≡ d ∷ ds → pending (c.next s).1 ≡ ds
  pub next_returns :
      (s : S) (d : ℕ) (ds : List ℕ) → IsValid s → pending s ≡ d ∷ ds → (c.next s).0 ≡ is_nonempty ds
  pub advance_valid : (s : S) (t : ℕ) → IsValid s → IsValid (c.advance t s).1
  pub advance_moves :
      (s : S) (t : ℕ) → IsValid s → pending (c.advance t s).1 ≡ drop_below t (pending s)
  pub advance_returns :
      (s : S) (t : ℕ) → IsValid s → (c.advance t s).0 ≡ is_nonempty (drop_below t (pending s))
