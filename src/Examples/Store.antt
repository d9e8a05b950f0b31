-- ===== src/Examples/Store.antt =====
-- Posting lists in memory, and positions in a file.
use piggy_engine.Prelude.{ℕ, List, [], ◌∷◌, some, ◌≡◌, refl, arith}
use piggy_engine.Prelude.{length}
use piggy_engine.Core.{PostingEntry}
use piggy_engine.Store.PostingList.{
  empty_list, append, append_found, find_doc, bump, bump_at, doc_ids, sort, insert_sorted,
}
use piggy_engine.Store.PostingList.Laws.{append_all, IsBuilt, append_all-IsBuilt_empty}
use piggy_engine.Store.PostingList.{Token, empty_index, get_posting_list}
use piggy_engine.Store.PostingList.Index.{add_all, built, calls_for, get_posting_list-add_all}
use piggy_engine.Store.PosIterator.{PosIterator, new, entries_bytes, positions_bytes}
use piggy_engine.Store.PosIterator.Laws.{Yields, new-Yields}

abbrev calls : List (ℕ × ℕ)
calls = (7, 0) ∷ (3, 5) ∷ (7, 4) ∷ []

append_all-IsBuilt_empty_example : IsBuilt calls empty_list (append_all calls empty_list)
append_all-IsBuilt_empty_example = append_all-IsBuilt_empty calls

doc_ids_run : doc_ids (append_all calls empty_list) ≡ 3 ∷ 7 ∷ []
unfolding doc_ids sort insert_sorted append_all append append_found find_doc bump_at bump
doc_ids_run = refl

abbrev entry_list : List PostingEntry
entry_list =
    record { doc_id = 3; tf = 1; positions = 5 ∷ [] }
    ∷ record { doc_id = 7; tf = 2; positions = 0 ∷ 4 ∷ [] }
    ∷ []

abbrev pos_file : List ℕ
pos_file = 255 ∷ entries_bytes entry_list

new-Yields_example :
    (s : PosIterator) × (new (some pos_file) 1 (length entry_list) ≡ some s) × Yields s entry_list
unfolding entries_bytes positions_bytes
new-Yields_example =
    new-Yields entry_list pos_file [] 1
      (
        record { doc = omega arith; tf = omega arith; count = refl; small = (omega arith, tt) },
        (
          record {
            doc = omega arith;
            tf = omega arith;
            count = refl;
            small = (omega arith, (omega arith, tt));
          },
          tt,
        ),
      )
      refl

abbrev tokens : List Token
tokens =
    record { term = 97 ∷ []; doc_id = 1; position = 0 }
    ∷ record { term = 98 ∷ []; doc_id = 1; position = 1 }
    ∷ record { term = 97 ∷ []; doc_id = 2; position = 0 }
    ∷ []

get_posting_list-add_all_example :
    get_posting_list (97 ∷ []) (add_all tokens empty_index) ≡ built (calls_for (97 ∷ []) tokens)
get_posting_list-add_all_example = get_posting_list-add_all (97 ∷ []) tokens
