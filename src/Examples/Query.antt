-- ===== src/Examples/Query.antt =====
-- Query strings and query trees.
use piggy_engine.Prelude.{ℕ, List, [], ◌∷◌, map, not, some, ◌≡◌, refl, arith}
use piggy_engine.Prelude.{if◌then◌else◌, ◌==◌, take}
use piggy_engine.Query.Docs.{mem, in_all, keep, is_nonempty}
use piggy_engine.Query.Docs.Laws.{mem-keep}
use piggy_engine.Query.Boolean.{
  must, should, must_not, term_query, boolean_query, Clauses, no_clauses, clause, Scorers,
  create_scorer, place, sort_in, skip, and_then, finish, root_of, exclude, exclude_all,
  debug_string, sign,
}
use piggy_engine.Query.Boolean.Collect.{HasDocs}
use piggy_engine.Query.Parser.{parse_token}
use piggy_engine.Query.Search.Merge.{merge_top_k, put_together}
use piggy_engine.Query.Search.Merge.Laws.{firsts, merge_top_k-firsts}
use piggy_engine.Query.Parser.Laws.{written, or_default, parse_token-written}

-- A scorer is the list of its documents: "a" and "b" have three and two.
abbrev term_docs : List ℕ → List ℕ → List ℕ
term_docs field [] = []
term_docs field (c ∷ cs) = if c == 97 then 1 ∷ 4 ∷ 9 ∷ [] else if c == 98 then 4 ∷ 7 ∷ [] else []

abbrev common_docs : List (List ℕ) → List ℕ
common_docs [] = []
common_docs (l ∷ ls) = keep (λ d. in_all d ls) l

abbrev lists : Scorers (List ℕ)
lists = record {
  term = term_docs;
  is_end = λ l. not (is_nonempty l);
  conjunction = common_docs;
  wand = λ ls. [];
  exclusion = λ l e. keep (λ d. not (mem d e)) l;
}

map_same : (ls : List (List ℕ)) → map (λ (l : List ℕ). l) ls ≡ ls
map_same [] = refl
map_same (l ∷ ls) = rw (map_same ls) refl

lists-HasDocs : HasDocs lists (λ l. l)
unfolding in_all
lists-HasDocs = record {
  is_end_is = λ r. refl;
  conjunction_has = λ d r rs. rw (map_same rs) (mem-keep d (λ e. in_all e rs) r);
  exclusion_has = λ d r e. mem-keep d (λ x. not (mem x e)) r;
}

-- +a -b
abbrev a_not_b : Clauses
a_not_b =
    clause (term_query [] (97 ∷ [])) must (clause (term_query [] (98 ∷ [])) must_not no_clauses)

a_not_b_finds : create_scorer lists (boolean_query a_not_b) ≡ some (1 ∷ 9 ∷ [])
unfolding create_scorer place sort_in skip and_then finish root_of exclude exclude_all keep mem
    is_nonempty
a_not_b_finds = refl

-- "+t:a:b"
parse_token-written_example :
    parse_token
      (written (record { occur = must; field = 116 ∷ []; raw_term = 97 ∷ 58 ∷ 98 ∷ [] }))
      should
    ≡ record { occur = or_default must should; field = 116 ∷ []; raw_term = 97 ∷ 58 ∷ 98 ∷ [] }
parse_token-written_example =
    parse_token-written must should 116 [] 97 (58 ∷ 98 ∷ []) (omega arith, tt) (omega arith)
      (omega arith)

-- "(+a -b)"
debug_string_runs : debug_string (boolean_query a_not_b) ≡ 40 ∷ 43 ∷ 97 ∷ 32 ∷ 45 ∷ 98 ∷ 41 ∷ []
unfolding debug_string sign
debug_string_runs = refl

-- A result is its document with its `ext_id`, in the order of the scores.
abbrev first_segment : List (ℕ × ℕ)
first_segment = (1, 70) ∷ (2, 80) ∷ (3, 0) ∷ []

abbrev second_segment : List (ℕ × ℕ)
second_segment = (5, 80) ∷ (6, 0) ∷ (7, 90) ∷ []

merge_top_k-firsts_example :
    merge_top_k (λ r. r.1) (λ (l : List (ℕ × ℕ)). l) 4 (first_segment ∷ second_segment ∷ [])
    ≡ take 4 (
        firsts
          (λ r. r.1)
          []
          (put_together {R = ℕ × ℕ} (λ r. r.1) (first_segment ∷ second_segment ∷ [])))
merge_top_k-firsts_example =
    merge_top_k-firsts (λ r. r.1) (λ (l : List (ℕ × ℕ)). l) 4 (first_segment ∷ second_segment ∷ [])
      (omega arith)
