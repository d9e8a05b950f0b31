-- ===== src/Query/Term.antt =====
-- modules/query/src/term_scorer.cpp: the leaves of the scorer tree, and
-- modules/store/src/posting_iterator.cpp: the empty iterator. A `unique_ptr<IPostingIterator>` is
-- `some` iterator of the segment or, made by `makeEmpty`, `none`.
pub mod Laws
use piggy_engine.Prelude.{ℕ, List, [], ◌∷◌, ◌++◌, Bool, true, false, Option, none, some}
use piggy_engine.Prelude.{if◌then◌else◌, length, ◌==◌}
use piggy_engine.Core.{invalid_doc}
use piggy_engine.Query.Cursor.{Cursor, PostingIterator, Scorer}
use piggy_engine.Query.Floats.{Float32}

-- What the scorer asks of `ISegmentReader` and of `ScorerContext.term_idfs`; strings are lists of
-- bytes. `term_meta` gives the `upper_bound`.
pub record Segment (F S : Type 0) : Type 0 where
  pub term_meta : List ℕ → List ℕ → Option F
  pub posting_iterator : List ℕ → List ℕ → Option S
  pub field_avg_doc_len : List ℕ → F
  pub field_doc_len : List ℕ → ℕ → ℕ
  pub term_idfs : List ℕ → Option F

pub record TermScorer (F S : Type 0) : Type 0 where
  pub iter : Option S
  pub field : List ℕ
  pub term : List ℕ
  pub idf : F
  pub list_ub : F

abbrev pub colon : ℕ
colon = 58

module _ {F S : Type 0} (fl : Float32 F) (it : PostingIterator F S) where
  -- `EmptyPostingIterator`, or the calls of the iterator that there is.
  unfoldable pub doc_id : Option S → ℕ
  doc_id none = invalid_doc
  doc_id (some s) = it.cursor.doc_id s

  unfoldable pub is_end : Option S → Bool
  is_end none = true
  is_end (some s) = it.cursor.is_end s

  unfoldable pub next : Option S → Bool × Option S
  next none = (false, none)
  next (some s) = let r = it.cursor.next s in (r.0, some r.1)

  unfoldable pub advance : ℕ → Option S → Bool × Option S
  advance target none = (false, none)
  advance target (some s) = let r = it.cursor.advance target s in (r.0, some r.1)

  unfoldable pub tf : Option S → ℕ
  tf none = 1
  tf (some s) = it.tf s

  unfoldable pub block_max_score : Option S → F
  block_max_score none = fl.zero_f
  block_max_score (some s) = it.block_max_score s

  unfoldable pub block_max_doc_id : Option S → ℕ
  block_max_doc_id none = invalid_doc
  block_max_doc_id (some s) = it.block_max_doc_id s

  abbrev pub iterator : PostingIterator F (Option S)
  iterator = record {
    cursor = record { doc_id = doc_id; is_end = is_end; next = next; advance = advance };
    tf = tf;
    block_max_score = block_max_score;
    block_max_doc_id = block_max_doc_id;
  }

  module _ (seg : Segment F S) where
    -- `list_ub_` is 0 until the term's meta is found
    abbrev pub absent : List ℕ → List ℕ → TermScorer F S
    absent f t = record { iter = none; field = f; term = t; idf = fl.zero_f; list_ub = fl.zero_f }

    unfoldable pub or_zero : Option F → F
    or_zero none = fl.zero_f
    or_zero (some x) = x

    unfoldable pub found : List ℕ → List ℕ → Option F → TermScorer F S
    unfolding or_zero
    found f t none = absent f t
    found f t (some upper_bound) =
        let idf = or_zero (seg.term_idfs (f ++ colon ∷ t)) in
        record {
          iter = seg.posting_iterator f t;
          field = f;
          term = t;
          idf = idf;
          list_ub = fl.mul_f upper_bound idf;
        }

    unfoldable pub new : List ℕ → List ℕ → TermScorer F S
    unfolding found
    new f t = if length f == 0 then absent f t else found f t (seg.term_meta f t)

    unfoldable pub len_factor : F → F → F
    len_factor avgdl dl =
        if fl.lt_f fl.zero_f avgdl
        then fl.add_f (fl.sub_f fl.one_f fl.b) (fl.div_f (fl.mul_f fl.b dl) avgdl)
        else fl.one_f

    -- BM25
    unfoldable pub score : TermScorer F S → F
    unfolding len_factor tf doc_id
    score s =
        let tf_f = fl.of_u32 (tf s.iter) in
        let avgdl = seg.field_avg_doc_len s.field in
        let dl = fl.of_u32 (seg.field_doc_len s.field (doc_id s.iter)) in
        let norm = fl.add_f tf_f (fl.mul_f fl.k1 (len_factor avgdl dl)) in
        if fl.eq_f s.idf fl.zero_f
        then fl.zero_f
        else fl.mul_f (fl.div_f (fl.mul_f tf_f (fl.add_f fl.k1 fl.one_f)) norm) s.idf

    abbrev pub scorer : Scorer F (TermScorer F S)
    scorer = record {
      cursor = record {
        doc_id = λ s. iterator.cursor.doc_id s.iter;
        is_end = λ s. iterator.cursor.is_end s.iter;
        next = λ s. let r = iterator.cursor.next s.iter in (r.0, record s { iter = r.1 });
        advance = λ t s. let r = iterator.cursor.advance t s.iter in (r.0, record s { iter = r.1 });
      };
      score = score;
      max_score = λ s. s.list_ub;
      block_max_score = λ s. fl.mul_f (iterator.block_max_score s.iter) s.idf;
      block_max_doc_id = λ s. iterator.block_max_doc_id s.iter;
    }
