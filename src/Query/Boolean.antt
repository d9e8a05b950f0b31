-- ===== src/Query/Boolean.antt =====
-- modules/query/src/boolean_query.cpp: the query tree, and the scorer tree that it creates. Strings
-- are lists of bytes.
pub mod Collect
pub mod Laws
use piggy_engine.Prelude.{ℕ, List, [], ◌∷◌, ◌++◌, Bool, true, false, Option, none, some}
use piggy_engine.Prelude.{if◌then◌else◌, length, ◌==◌}

pub data Occur : Type 0 where
  must : Occur
  should : Occur
  must_not : Occur

-- A `Query`, and the clauses of a `BooleanQuery` in the order of `add`.
mutual
  pub data Query : Type 0 where
    term_query : List ℕ → List ℕ → Query
    boolean_query : Clauses → Query

  pub data Clauses : Type 0 where
    no_clauses : Clauses
    clause : Query → Occur → Clauses → Clauses

-- `BooleanQuery::add`
unfoldable pub add : Clauses → Query → Occur → Clauses
add no_clauses q occur = clause q occur no_clauses
add (clause p o cs) q occur = clause p o (add cs q occur)

-- The scorers that `createScorer` makes, `R`, in the context `ctx`; `is_end` is asked of a new one.
pub record Scorers (R : Type 0) : Type 0 where
  pub term : List ℕ → List ℕ → R
  pub is_end : R → Bool
  pub conjunction : List R → R
  pub wand : List R → R
  pub exclusion : R → R → R

-- `must_scorers`, `should_scorers` and `must_not_scorers`
pub record Sorted (R : Type 0) : Type 0 where
  pub must_scorers : List R
  pub should_scorers : List R
  pub must_not_scorers : List R

module _ {R : Type 0} where
  abbrev pub nothing_sorted : Sorted R
  nothing_sorted = record { must_scorers = []; should_scorers = []; must_not_scorers = [] }

  -- the `switch`
  unfoldable pub sort_in : Occur → R → Sorted R → Sorted R
  sort_in must r sl = record sl { must_scorers = sl.must_scorers ++ r ∷ [] }
  sort_in should r sl = record sl { should_scorers = sl.should_scorers ++ r ∷ [] }
  sort_in must_not r sl = record sl { must_not_scorers = sl.must_not_scorers ++ r ∷ [] }

  -- what a clause without a living scorer does: `return nullptr` or `continue`
  unfoldable pub skip : Occur → Sorted R → Option (Sorted R)
  skip must sl = none
  skip should sl = some sl
  skip must_not sl = some sl

  module _ (make : Scorers R) where
    -- One round of the loop; `none` is the early return.
    unfoldable pub place : Occur → Option R → Sorted R → Option (Sorted R)
    unfolding skip sort_in
    place occur none sl = skip occur sl
    place occur (some r) sl = if make.is_end r then skip occur sl else some (sort_in occur r sl)

    unfoldable pub and_then : Option (Sorted R) → (Sorted R → Option (Sorted R)) → Option (Sorted R)
    and_then none more = none
    and_then (some sl) more = more sl

    -- the root before the exclusions
    unfoldable pub root_of : List R → List R → Option R
    root_of [] [] = none
    root_of [] (s ∷ ss) = some (make.wand (s ∷ ss))
    root_of (m ∷ []) shoulds = some m
    root_of (m ∷ n ∷ ms) shoulds = some (make.conjunction (m ∷ n ∷ ms))

    -- the loop over `must_not_scorers`
    unfoldable pub exclude : R → List R → R
    exclude root [] = root
    exclude root (excl ∷ more) = exclude (make.exclusion root excl) more

    unfoldable pub exclude_all : Option R → List R → Option R
    unfolding exclude
    exclude_all none excls = none
    exclude_all (some root) excls = some (exclude root excls)

    unfoldable pub finish : Option (Sorted R) → Option R
    unfolding root_of exclude_all
    finish none = none
    finish (some sl) = exclude_all (root_of sl.must_scorers sl.should_scorers) sl.must_not_scorers

    -- `createScorer` of both classes; `none` is `nullptr`.
    unfoldable mutual
      unfolding place and_then finish

      pub create_scorer : Query → Option R
      create_scorer (term_query field term) = some (make.term field term)
      create_scorer (boolean_query cs) = finish (collect cs nothing_sorted)

      -- the loop over the clauses
      pub collect : Clauses → Sorted R → Option (Sorted R)
      collect no_clauses sl = some sl
      collect (clause q occur cs) sl =
          and_then (place occur (create_scorer q) sl) (λ next. collect cs next)

-- `collectTerms`; the pairs are appended to `out`.
unfoldable mutual
  pub collect_terms : Query → List (List ℕ × List ℕ) → List (List ℕ × List ℕ)
  collect_terms (term_query field term) out = out ++ (field, term) ∷ []
  collect_terms (boolean_query cs) out = clauses_terms cs out

  pub clauses_terms : Clauses → List (List ℕ × List ℕ) → List (List ℕ × List ℕ)
  clauses_terms no_clauses out = out
  clauses_terms (clause q occur cs) out = clauses_terms cs (collect_terms q out)

unfoldable pub sign : Occur → List ℕ
sign must = 43 ∷ []
sign should = []
sign must_not = 45 ∷ []

-- `debugString`
unfoldable mutual
  unfolding sign

  pub debug_string : Query → List ℕ
  debug_string (term_query field term) = if length field == 0 then term else field ++ (58 ∷ term)
  debug_string (boolean_query cs) = clauses_string cs true (40 ∷ []) ++ 41 ∷ []

  -- the loop, with `first` and the string so far
  pub clauses_string : Clauses → Bool → List ℕ → List ℕ
  clauses_string no_clauses first s = s
  clauses_string (clause q occur cs) first s =
      clauses_string cs false
        ((if first then s else s ++ 32 ∷ []) ++ (sign occur ++ debug_string q))
