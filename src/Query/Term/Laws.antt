-- ===== src/Query/Term/Laws.antt =====
-- A term scorer is a cursor over the documents of its posting list.
use piggy_engine.Prelude.{ℕ, List, [], ◌∷◌, Bool, not, ◌≡◌, refl, Option, none, some}
use piggy_engine.Query.Docs.{IsAscending, drop_below, head_or_invalid, is_nonempty}
use piggy_engine.Query.Cursor.{PostingIterator, IsCursor}
use piggy_engine.Query.Floats.{Float32}
use piggy_engine.Query.Term.{Segment, doc_id, is_end, next, advance, scorer}

-- What holds of the iterator that there is.
abbrev pub Optional : {S : Type 0} → (S → Type 0) → Option S → Type 0
Optional P none = Unit {0}
Optional P (some s) = P s

-- The empty iterator has no documents.
unfoldable pub optional_pending : {S : Type 0} → (S → List ℕ) → Option S → List ℕ
optional_pending pending none = []
optional_pending pending (some s) = pending s

module _ {F S : Type 0} (fl : Float32 F) (it : PostingIterator F S) {IsValid : S → Type 0}
    {pending : S → List ℕ} (ic : IsCursor it.cursor IsValid pending) where
  abbrev Valid : Option S → Type 0
  Valid = Optional IsValid

  abbrev docs : Option S → List ℕ
  docs = optional_pending pending

  docs-IsAscending : (o : Option S) → Valid o → IsAscending (docs o)
  unfolding optional_pending
  docs-IsAscending none v = tt
  docs-IsAscending (some s) v = ic.ascending s v

  doc_id-head : (o : Option S) → Valid o → doc_id fl it o ≡ head_or_invalid (docs o)
  unfolding optional_pending doc_id head_or_invalid
  doc_id-head none v = refl
  doc_id-head (some s) v = ic.doc_id_is s v

  is_end-docs : (o : Option S) → Valid o → is_end fl it o ≡ not (is_nonempty (docs o))
  unfolding optional_pending is_end is_nonempty
  is_end-docs none v = refl
  is_end-docs (some s) v = ic.is_end_is s v

  abbrev Moves : Bool × Option S → List ℕ → Type 0
  Moves r l = Valid r.1 × (docs r.1 ≡ l) × (r.0 ≡ is_nonempty l)

  next-Moves :
      (o : Option S) (d : ℕ) (ds : List ℕ) → Valid o → docs o ≡ d ∷ ds → Moves (next fl it o) ds
  unfolding optional_pending next
  next-Moves none d ds v e = cc
  next-Moves (some s) d ds v e =
      (ic.next_valid s d ds v e, ic.next_moves s d ds v e, ic.next_returns s d ds v e)

  advance-Moves :
      (o : Option S) (t : ℕ) → Valid o → Moves (advance fl it t o) (drop_below t (docs o))
  unfolding optional_pending advance drop_below is_nonempty
  advance-Moves none t v = (tt, refl, refl)
  advance-Moves (some s) t v =
      (ic.advance_valid s t v, ic.advance_moves s t v, ic.advance_returns s t v)

  -- `TermScorer` keeps the contract over the documents of its iterator, for every kind of iterator
  -- that keeps it; over none where the iterator is the empty one.
  pub term-IsCursor :
      (seg : Segment F S)
      → IsCursor
          (scorer fl it seg).cursor
          (λ s. Optional IsValid s.iter)
          (λ s. optional_pending pending s.iter)
  term-IsCursor seg = record {
    ascending = λ s v. docs-IsAscending s.iter v;
    doc_id_is = λ s v. doc_id-head s.iter v;
    is_end_is = λ s v. is_end-docs s.iter v;
    next_valid = λ s d ds v e. (next-Moves s.iter d ds v e).0;
    next_moves = λ s d ds v e. (next-Moves s.iter d ds v e).1;
    next_returns = λ s d ds v e. (next-Moves s.iter d ds v e).2;
    advance_valid = λ s t v. (advance-Moves s.iter t v).0;
    advance_moves = λ s t v. (advance-Moves s.iter t v).1;
    advance_returns = λ s t v. (advance-Moves s.iter t v).2;
  }
