-- ===== src/Memory/PostingIterator.antt =====
-- modules/memory/src/memory_posting_iterator.cpp: an iterator over sorted vectors.
pub mod Laws
pub mod Resume
use piggy_engine.Prelude.{ℕ, suc, ◌+◌, List, [], ◌∷◌, Bool, true, false}
use piggy_engine.Prelude.{length, get_or, drop, if◌then◌else◌, ltb, leb, ◌==◌}
use piggy_engine.Core.{invalid_doc}
use piggy_engine.Query.Cursor.{Cursor, PostingIterator}

pub record MemoryPostingIterator (F : Type 0) : Type 0 where
  pub docs : List ℕ
  pub tfs : List ℕ
  pub pos : ℕ
  pub cur_doc : ℕ
  pub cur_tf : ℕ
  pub upper_bound : F

-- `std::lower_bound` on a sorted range: the number of elements before the first that is not below
-- the target.
unfoldable pub lower_bound : List ℕ → ℕ → ℕ
lower_bound [] target = 0
lower_bound (d ∷ ds) target =
    let rest = lower_bound ds target in if ltb d target then suc rest else 0

unfoldable pub last_or_invalid : List ℕ → ℕ
last_or_invalid [] = invalid_doc
last_or_invalid (d ∷ []) = d
last_or_invalid (d ∷ e ∷ es) = last_or_invalid (e ∷ es)

module _ {F : Type 0} where
  -- `cur_doc_ = docs_[pos_]`, `cur_tf_` likewise or 1 where there is none, `++pos_`
  unfoldable pub take_current : MemoryPostingIterator F → MemoryPostingIterator F
  take_current s = record s {
    cur_doc = get_or s.docs s.pos invalid_doc;
    cur_tf = get_or s.tfs s.pos 1;
    pos = s.pos + 1;
  }

  unfoldable pub new : List ℕ → List ℕ → F → MemoryPostingIterator F
  unfolding take_current
  new [] tfs ub = record {
    docs = [];
    tfs = tfs;
    pos = 0;
    cur_doc = invalid_doc;
    cur_tf = 1;
    upper_bound = ub;
  }
  new (d ∷ ds) tfs ub = take_current (record {
    docs = d ∷ ds;
    tfs = tfs;
    pos = 0;
    cur_doc = invalid_doc;
    cur_tf = 1;
    upper_bound = ub;
  })

  unfoldable pub next : MemoryPostingIterator F → Bool × MemoryPostingIterator F
  unfolding take_current
  next s =
      if leb (length s.docs) s.pos
      then (false, record s { cur_doc = invalid_doc })
      else (true, take_current s)

  unfoldable pub advance : ℕ → MemoryPostingIterator F → Bool × MemoryPostingIterator F
  unfolding take_current
  advance target s =
      let it = s.pos + lower_bound (drop s.pos s.docs) target in
      if s.cur_doc == invalid_doc
      then (false, s)
      else if leb target s.cur_doc
      then (true, s)
      else if it == length s.docs
      then (false, record s { cur_doc = invalid_doc })
      else (true, take_current (record s { pos = it }))

  unfoldable pub is_end : MemoryPostingIterator F → Bool
  is_end s = s.cur_doc == invalid_doc

  abbrev pub cursor : Cursor (MemoryPostingIterator F)
  cursor = record { doc_id = λ s. s.cur_doc; is_end = is_end; next = next; advance = advance }

  abbrev pub iterator : PostingIterator F (MemoryPostingIterator F)
  iterator = record {
    cursor = cursor;
    tf = λ s. s.cur_tf;
    block_max_score = λ s. s.upper_bound;
    block_max_doc_id = λ s. last_or_invalid s.docs;
  }
