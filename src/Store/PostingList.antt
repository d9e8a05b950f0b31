-- ===== src/Store/PostingList.antt =====
-- modules/store/src/posting_list.cpp: the posting lists of an index in memory, before they are
-- flushed. A hash map is the list of its pairs, newest last; nothing is ever erased from it.
pub mod Laws
pub mod Index
use piggy_engine.Prelude.{ℕ, zero, suc, ◌+◌, List, [], ◌∷◌, ◌++◌, map, Option, none, some}
use piggy_engine.Prelude.{length, if◌then◌else◌, leb, ◌==◌}
use piggy_engine.Prelude.Words.{add32}
use piggy_engine.Core.{PostingEntry}
use piggy_engine.Analysis.Analyzer.{same_word}

pub record PostingList : Type 0 where
  pub entries : List PostingEntry
  pub doc_index : List (ℕ × ℕ)

abbrev pub empty_list : PostingList
empty_list = record { entries = []; doc_index = [] }

-- `doc_index_.find(doc_id)`
unfoldable pub find_doc : ℕ → List (ℕ × ℕ) → Option ℕ
find_doc doc_id [] = none
find_doc doc_id ((d, i) ∷ rest) =
    let later = find_doc doc_id rest in if d == doc_id then some i else later

-- `e.tf++; e.positions.push_back(position)`
unfoldable pub bump : ℕ → PostingEntry → PostingEntry
bump position e = record e { tf = add32 e.tf 1; positions = e.positions ++ position ∷ [] }

-- The same at `entries_[i]`.
unfoldable pub bump_at : ℕ → ℕ → List PostingEntry → List PostingEntry
unfolding bump
bump_at i position [] = []
bump_at zero position (e ∷ es) = bump position e ∷ es
bump_at (suc i) position (e ∷ es) = e ∷ bump_at i position es

-- `sizeof(PostingEntry) + sizeof(doc_id)`, and `sizeof(Pos)`
abbrev pub new_doc_bytes : ℕ
new_doc_bytes = 36

abbrev pub position_bytes : ℕ
position_bytes = 4

unfoldable pub append_found : ℕ → ℕ → PostingList → Option ℕ → ℕ × PostingList
append_found doc_id position l none = (
  new_doc_bytes,
  record {
    entries = l.entries ++ record { doc_id = doc_id; tf = 1; positions = position ∷ [] } ∷ [];
    doc_index = l.doc_index ++ (doc_id, length l.entries) ∷ [];
  },
)
append_found doc_id position l (some i) =
    (position_bytes, record l { entries = bump_at i position l.entries })

-- `append`: the bytes that it says it uses, and the new list.
unfoldable pub append : ℕ → ℕ → PostingList → ℕ × PostingList
unfolding append_found find_doc
append doc_id position l = append_found doc_id position l (find_doc doc_id l.doc_index)

-- `std::sort`: insertion into a sorted list.
unfoldable pub insert_sorted : ℕ → List ℕ → List ℕ
insert_sorted d [] = d ∷ []
insert_sorted d (e ∷ es) = let rest = insert_sorted d es in if leb d e then d ∷ e ∷ es else e ∷ rest

unfoldable pub sort : List ℕ → List ℕ
unfolding insert_sorted
sort [] = []
sort (d ∷ ds) = insert_sorted d (sort ds)

unfoldable pub doc_ids : PostingList → List ℕ
unfolding sort
doc_ids l = sort (map (λ e. e.doc_id) l.entries)

unfoldable pub total_from : ℕ → List PostingEntry → ℕ
total_from total [] = total
total_from total (e ∷ es) = total_from (add32 total e.tf) es

unfoldable pub total_term_freq : PostingList → ℕ
unfolding total_from
total_term_freq l = total_from 0 l.entries

-- What `addToken` reads of a `Token`.
pub record Token : Type 0 where
  pub term : List ℕ
  pub doc_id : ℕ
  pub position : ℕ

pub record InMemoryIndex : Type 0 where
  pub index : List (List ℕ × PostingList)
  pub doc_count : ℕ
  pub ram_bytes : ℕ

abbrev pub empty_index : InMemoryIndex
empty_index = record { index = []; doc_count = 0; ram_bytes = 0 }

-- `index_.find(term)`
unfoldable pub find_term : List ℕ → List (List ℕ × PostingList) → Option PostingList
find_term term [] = none
find_term term ((t, l) ∷ rest) =
    let later = find_term term rest in if same_word t term then some l else later

-- The pair of the term with its new list.
unfoldable pub put_term :
    List ℕ → PostingList → List (List ℕ × PostingList) → List (List ℕ × PostingList)
put_term term l [] = (term, l) ∷ []
put_term term l ((t, old) ∷ rest) =
    let later = put_term term l rest in if same_word t term then (t, l) ∷ rest else (t, old) ∷ later

unfoldable pub add_found : Token → InMemoryIndex → Option PostingList → InMemoryIndex
add_found tok ix none =
    let r = append tok.doc_id tok.position empty_list in
    record ix {
      index = put_term tok.term r.1 ix.index;
      ram_bytes = ix.ram_bytes + length tok.term + r.0;
    }
add_found tok ix (some l) =
    let r = append tok.doc_id tok.position l in
    record ix { index = put_term tok.term r.1 ix.index; ram_bytes = ix.ram_bytes + r.0 }

unfoldable pub add_token : Token → InMemoryIndex → InMemoryIndex
unfolding add_found find_term
add_token tok ix = add_found tok ix (find_term tok.term ix.index)

unfoldable pub get_posting_list : List ℕ → InMemoryIndex → Option PostingList
get_posting_list term ix = find_term term ix.index
