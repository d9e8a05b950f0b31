-- ===== src/Core.antt =====
-- modules/core/include/core/types.h: the plain structures that all the modules share. A `float` that
-- is only stored or copied is the number of its bit pattern.
use piggy_engine.Prelude.{ℕ, List}

-- `DocId`, `TermFreq` and `Pos` are `uint32_t`.
abbrev pub invalid_doc : ℕ
invalid_doc = 0xFFFF_FFFF

pub record SkipNode : Type 0 where
  pub max_doc_id : ℕ
  pub byte_offset : ℕ
  pub max_score : ℕ
  pub doc_count : ℕ

-- `TermMeta`: what the dictionary says about a term.
pub record TermMeta : Type 0 where
  pub doc_freq : ℕ
  pub total_term_freq : ℕ
  pub posting_offset : ℕ
  pub skip_offset : ℕ
  pub pos_offset : ℕ
  pub upper_bound : ℕ
  pub tf_data_offset : ℕ

-- `PostingEntry`: a document of a posting list and where the term stands in it.
pub record PostingEntry : Type 0 where
  pub doc_id : ℕ
  pub tf : ℕ
  pub positions : List ℕ
