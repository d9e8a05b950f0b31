-- ===== src/Query/Parser.antt =====
-- modules/query/src/query_parser.cpp: a query string as a tree of term queries.
pub mod Laws
use piggy_engine.Prelude.{
  ℕ, zero, suc, ◌+◌, List, [], ◌∷◌, ◌++◌, Bool, true, false, not, ◌&&◌, ◌||◌, Option, none, some,
}
use piggy_engine.Prelude.{if◌then◌else◌, length, take, drop, ltb, leb, ◌==◌}
use piggy_engine.Analysis.Analyzer.{analyze_query}
use piggy_engine.Query.Boolean.{
  Occur, must, should, must_not, Query, term_query, boolean_query, Clauses, no_clauses, add,
}

pub record ParsedToken : Type 0 where
  pub occur : Occur
  pub field : List ℕ
  pub raw_term : List ℕ

abbrev pub plus : ℕ
plus = 43

abbrev pub minus : ℕ
minus = 45

abbrev pub colon : ℕ
colon = 58

unfoldable pub one_further : Option ℕ → Option ℕ
one_further none = none
one_further (some i) = some (i + 1)

-- `body.find(c)`
unfoldable pub find_byte : ℕ → List ℕ → Option ℕ
unfolding one_further
find_byte c [] = none
find_byte c (x ∷ xs) = if x == c then some 0 else one_further (find_byte c xs)

-- the occurrence and the rest of the token
unfoldable pub split_sign : List ℕ → Occur → Occur × List ℕ
split_sign [] default_occur = (default_occur, [])
split_sign (c ∷ body) default_occur =
    if c == plus
    then (must, body)
    else if c == minus
    then (must_not, body)
    else (default_occur, c ∷ body)

unfoldable pub split_field : Occur → List ℕ → Option ℕ → ParsedToken
split_field occur body none = record { occur = occur; field = []; raw_term = body }
split_field occur body (some colon_at) =
    if ltb 0 colon_at && ltb (colon_at + 1) (length body)
    then record { occur = occur; field = take colon_at body; raw_term = drop (colon_at + 1) body }
    else record { occur = occur; field = []; raw_term = body }

unfoldable pub parse_token : List ℕ → Occur → ParsedToken
unfolding split_sign split_field find_byte
parse_token tok default_occur =
    let parts = split_sign tok default_occur in
    split_field parts.0 parts.1 (find_byte colon parts.1)

-- what `>>` skips in the "C" locale
unfoldable pub is_space : ℕ → Bool
is_space c = c == 32 || leb 9 c && leb c 13

-- The tokens that `iss >> tok` reads one after the other; `word` is what is read of the current one.
unfoldable pub words_from : List ℕ → List ℕ → List (List ℕ)
unfolding is_space
words_from [] word = if length word == 0 then [] else word ∷ []
words_from (c ∷ cs) word =
    let after = words_from cs [] in
    let later = words_from cs (word ++ c ∷ []) in
    if not (is_space c) then later else if length word == 0 then after else word ∷ after

-- the loop over `default_fields_`, with the occurrence SHOULD
unfoldable pub add_fields : List (List ℕ) → List ℕ → Clauses → Clauses
add_fields [] term bq = bq
add_fields (f ∷ fs) term bq = add_fields fs term (add bq (term_query f term) should)

module _ (default_fields : List (List ℕ)) where
  -- a bare term with default fields
  unfoldable pub add_bare : Occur → List ℕ → Clauses → Clauses
  unfolding add_fields
  add_bare should term bq = add_fields default_fields term bq
  add_bare must term bq = add bq (boolean_query (add_fields default_fields term no_clauses)) must
  add_bare must_not term bq =
      add bq (boolean_query (add_fields default_fields term no_clauses)) must_not

  -- One round of the loop over the terms of a token.
  unfoldable pub add_term : ParsedToken → List ℕ → Clauses → Clauses
  unfolding add_bare
  add_term pt term bq =
      if not (length pt.field == 0)
      then add bq (term_query pt.field term) pt.occur
      else if length default_fields == 0
      then add bq (term_query [] term) pt.occur
      else add_bare pt.occur term bq

  unfoldable pub add_terms : ParsedToken → List (List ℕ) → Clauses → Clauses
  unfolding add_term
  add_terms pt [] bq = bq
  add_terms pt (t ∷ ts) bq = add_terms pt ts (add_term pt t bq)

  -- One round of the loop over the tokens; with no terms nothing is added.
  unfoldable pub add_token : Occur → List ℕ → Clauses → Clauses
  unfolding add_terms
  add_token default_occur tok bq =
      let pt = parse_token tok default_occur in
      if length pt.raw_term == 0 then bq else add_terms pt (analyze_query pt.raw_term) bq

  unfoldable pub add_tokens : Occur → List (List ℕ) → Clauses → Clauses
  unfolding add_token
  add_tokens default_occur [] bq = bq
  add_tokens default_occur (tok ∷ toks) bq =
      add_tokens default_occur toks (add_token default_occur tok bq)

  unfoldable pub parse : List ℕ → Occur → Query
  unfolding add_tokens words_from
  parse raw default_occur = boolean_query (add_tokens default_occur (words_from raw []) no_clauses)
