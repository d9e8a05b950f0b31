-- ===== src/Query/Search/Terms.antt =====
-- modules/query/src/index_searcher.cpp: the terms of `searchAND`, from the query to the
-- intersection of their posting lists.
pub mod Expand
pub mod Laws
use piggy_engine.Prelude.{ℕ, List, [], ◌∷◌, ◌++◌, Bool, true, false, not, Option, none, some}
use piggy_engine.Prelude.{if◌then◌else◌}
use piggy_engine.Query.Docs.{is_nonempty}
use piggy_engine.Query.Cursor.{Cursor}
use piggy_engine.Query.Search.Zigzag.{zigzag, max_rounds}

pub record FieldTerm : Type 0 where
  pub field : List ℕ
  pub term : List ℕ

-- What `searchAND` asks a `SegmentReader`: whether `getTermMeta` finds a term, in a field or in the
-- merged dictionary, and the iterators over their posting lists.
pub record Reader (S : Type 0) : Type 0 where
  pub has_term : List ℕ → List ℕ → Bool
  pub has_merged_term : List ℕ → Bool
  pub posting_iterator : List ℕ → List ℕ → S
  pub merged_posting_iterator : List ℕ → S

-- A missing term is a `return {}` of the function.
unfoldable pub join : Option (List FieldTerm) → Option (List FieldTerm) → Option (List FieldTerm)
join none more = none
join (some xs) none = none
join (some xs) (some ys) = some (xs ++ ys)

-- `!default_search_fields_.empty()`
unfoldable pub has_any : List (List ℕ) → Bool
has_any [] = false
has_any (f ∷ fs) = true

module _ {S : Type 0} (seg : Reader S) where
  -- The loop over `default_search_fields_` for a term without a field.
  unfoldable pub in_fields : List ℕ → List (List ℕ) → Option (List FieldTerm)
  unfolding join
  in_fields word [] = some []
  in_fields word (f ∷ fs) =
      let more = in_fields word fs in
      if not (seg.has_term f word)
      then none
      else join (some (record { field = f; term = word } ∷ [])) more

  unfoldable pub expand_one : List (List ℕ) → FieldTerm → Option (List FieldTerm)
  unfolding in_fields is_nonempty has_any
  expand_one default_search_fields ft =
      if is_nonempty ft.field
      then if not (seg.has_term ft.field ft.term) then none else some (ft ∷ [])
      else if has_any default_search_fields
      then in_fields ft.term default_search_fields
      else if not (seg.has_merged_term ft.term)
      then none
      else some (ft ∷ [])

  -- `expanded`
  unfoldable pub expand : List (List ℕ) → List FieldTerm → Option (List FieldTerm)
  unfolding expand_one join
  expand default_search_fields [] = some []
  expand default_search_fields (ft ∷ fts) =
      join (expand_one default_search_fields ft) (expand default_search_fields fts)

  unfoldable pub open_one : FieldTerm → S
  unfolding is_nonempty
  open_one ft =
      if is_nonempty ft.field
      then seg.posting_iterator ft.field ft.term
      else seg.merged_posting_iterator ft.term

  -- `iters`; a list without documents is a `return {}`.
  unfoldable pub open_all : Cursor S → List FieldTerm → Option (List S)
  unfolding open_one
  open_all c [] = some []
  open_all c (ft ∷ fts) =
      let it = open_one ft in let more = open_all c fts in if c.is_end it then none else put it more
    where
      put : S → Option (List S) → Option (List S)
      put it none = none
      put it (some its) = some (it ∷ its)

module _ {S : Type 0} (seg : Reader S) (c : Cursor S) (accepts : ℕ → Bool) where
  -- from the iterators on; there is one for each term, so at least one
  unfoldable pub intersect : Option (List S) → List ℕ
  unfolding zigzag
  intersect none = []
  intersect (some []) = []
  intersect (some (driver ∷ rest)) = zigzag c accepts max_rounds driver rest

  -- from the expanded terms on; `order` puts those with fewer documents first
  unfoldable pub find_all : (List FieldTerm → List FieldTerm) → Option (List FieldTerm) → List ℕ
  unfolding intersect open_all
  find_all order none = []
  find_all order (some []) = []
  find_all order (some (ft ∷ fts)) = intersect (open_all seg c (order (ft ∷ fts)))

  -- `searchAND` up to the scores
  unfoldable pub intersection :
      (List FieldTerm → List FieldTerm) → List (List ℕ) → List FieldTerm → List ℕ
  unfolding find_all expand
  intersection order default_search_fields fterms =
      find_all order (expand seg default_search_fields fterms)
