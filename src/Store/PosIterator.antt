-- ===== src/Store/PosIterator.antt =====
-- modules/store/src/pos_iterator.cpp: reading the positions of a term one document after the other;
-- and how modules/memory/src/memory_segment.cpp writes them.
pub mod Laws
use piggy_engine.Prelude.{
  ℕ, zero, suc, ◌+◌, ◌-◌, List, [], ◌∷◌, ◌++◌, Bool, true, false, not, ◌&&◌, Option, none, some,
}
use piggy_engine.Prelude.{get_or, if◌then◌else◌, ◌==◌}
use piggy_engine.Prelude.Words.{u32_bytes}
use piggy_engine.Core.{PostingEntry}
use piggy_engine.Store.InputFile.{InputFile, opened, seek, read_u32_over}

pub record PosIterator : Type 0 where
  pub file : InputFile
  pub remaining : ℕ
  pub preloaded : Bool
  pub cur_doc_id : ℕ
  pub cur_tf : ℕ
  pub cur_positions : List ℕ

-- The loop over the positions from index `i` on, with the vector as it was before `resize`.
unfoldable pub read_positions : ℕ → ℕ → List ℕ → InputFile → List ℕ × InputFile
read_positions zero i old f = ([], f)
read_positions (suc count) i old f =
    let first = read_u32_over (get_or old i 0) f in
    let rest = read_positions count (i + 1) old first.1 in (first.0 ∷ rest.0, rest.1)

unfoldable pub load_next : PosIterator → PosIterator
unfolding read_positions
load_next s =
    let doc = read_u32_over s.cur_doc_id s.file in
    let tf = read_u32_over s.cur_tf doc.1 in
    let positions = read_positions tf.0 0 s.cur_positions tf.1 in
    if s.remaining == 0 then record s { preloaded = false } else record {
      file = positions.1;
      remaining = s.remaining - 1;
      preloaded = positions.1.good;
      cur_doc_id = doc.0;
      cur_tf = tf.0;
      cur_positions = positions.0;
    }

abbrev pub next : PosIterator → PosIterator
next s = load_next s

unfoldable pub is_end : PosIterator → Bool
is_end s = s.remaining == 0 && not s.preloaded

-- the fields of a new iterator
abbrev pub blank : InputFile → ℕ → PosIterator
blank f doc_freq = record {
  file = f;
  remaining = doc_freq;
  preloaded = false;
  cur_doc_id = 0;
  cur_tf = 0;
  cur_positions = [];
}

unfoldable pub open_at : Option (List ℕ) → ℕ → ℕ → Option PosIterator
unfolding load_next
open_at none pos_offset doc_freq = none
open_at (some bytes) pos_offset doc_freq =
    some (load_next (blank (seek pos_offset (opened bytes)) doc_freq))

-- The constructor; the first argument is what the file at `pos_path` holds, if it can be opened, and
-- `none` is an exception. With no documents it is not opened.
unfoldable pub new : Option (List ℕ) → ℕ → ℕ → Option PosIterator
unfolding open_at
new content pos_offset doc_freq =
    if doc_freq == 0 then some (blank (opened []) 0) else open_at content pos_offset doc_freq

-- The loops that write `.pos_<field>` for one term.
unfoldable pub positions_bytes : List ℕ → List ℕ
positions_bytes [] = []
positions_bytes (p ∷ ps) = u32_bytes p ++ positions_bytes ps

unfoldable pub entries_bytes : List PostingEntry → List ℕ
unfolding positions_bytes
entries_bytes [] = []
entries_bytes (e ∷ es) =
    u32_bytes e.doc_id ++ (u32_bytes e.tf ++ (positions_bytes e.positions ++ entries_bytes es))
