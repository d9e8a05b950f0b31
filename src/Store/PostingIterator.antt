-- ===== src/Store/PostingIterator.antt =====
-- modules/store/src/posting_iterator.cpp: the iterator over the blocks of a posting list on disk.
pub mod Blocks
pub mod Docs
pub mod Valid
pub mod Scan
pub mod Seek
pub mod Laws
pub mod Skips
pub mod Open
pub mod Ends
use piggy_engine.Prelude.{
  ℕ, zero, suc, ◌+◌, ◌-◌, ◌*◌, ◌%◌, min, List, [], ◌∷◌, ◌++◌, Bool, true, false, not, Option, none,
  some, map, ◌&&◌,
}
use piggy_engine.Prelude.{length, get_or, take, drop, if◌then◌else◌, ltb, leb, ◌==◌}
use piggy_engine.Prelude.Words.{u32, u64, add32, read_u32}
use piggy_engine.Core.{invalid_doc, SkipNode, TermMeta}
use piggy_engine.Codec.PForDelta.Pack.{bytes_for}
use piggy_engine.Codec.PForDelta.Block.{header_size, patch_size, decompress_block, last_or}
use piggy_engine.Codec.PForDelta.Stream.{block_size}
use piggy_engine.Codec.SkipList.{SkipList, node_size, find, deserialize}
use piggy_engine.Query.Cursor.{Cursor, PostingIterator}
use piggy_engine.Query.Docs.{is_nonempty}
use piggy_engine.Memory.PostingIterator.{lower_bound}
use piggy_engine.Store.InputFile.{InputFile, opened, seek, clear, read}

pub record DiskPostingIterator : Type 0 where
  pub meta : TermMeta
  pub file : InputFile
  pub skip_list : SkipList
  pub remaining : ℕ
  pub cur_block_idx : ℕ
  pub cur_block : List ℕ
  pub cur_pos : ℕ
  pub cur_doc : ℕ
  pub block_max_score : ℕ
  pub all_tfs : List ℕ
  pub cur_tf_block : List ℕ
  pub cur_tf : ℕ

-- `cur_doc_ = cur_block_[cur_pos_]`, `cur_tf_` likewise or 1 where there is none, `++cur_pos_`
unfoldable pub take_current : DiskPostingIterator → DiskPostingIterator
take_current s = record s {
  cur_doc = get_or s.cur_block s.cur_pos invalid_doc;
  cur_tf = get_or s.cur_tf_block s.cur_pos 1;
  cur_pos = s.cur_pos + 1;
}

unfoldable pub scan_block : ℕ → DiskPostingIterator → Bool × DiskPostingIterator
scan_block target s =
    let it = s.cur_pos + lower_bound (drop s.cur_pos s.cur_block) target in
    if it == length s.cur_block
    then (false, record s { cur_pos = length s.cur_block })
    else (true, take_current (record s { cur_pos = it }))

-- `max_score` of the node, 0 behind the last one
unfoldable pub block_score : List SkipNode → ℕ → ℕ
block_score [] i = 0
block_score (n ∷ ns) zero = n.max_score
block_score (n ∷ ns) (suc i) = block_score ns i

-- the frequencies of the block `idx`, of `size` documents
unfoldable pub tf_block : List ℕ → ℕ → ℕ → List ℕ
tf_block all_tfs idx size =
    let block_start = idx * block_size in
    let avail = min size (length all_tfs - block_start) in
    if is_nonempty all_tfs && ltb block_start (length all_tfs)
    then take avail (drop block_start all_tfs)
    else []

-- `loadNextBlock` once the bytes of the block are there: `rest` is the second read.
unfoldable pub load_block :
    List ℕ → List ℕ × InputFile → DiskPostingIterator → Bool × DiskPostingIterator
load_block header rest s =
    let block = (decompress_block (header ++ rest.0) [] 0).1 in
    (
      is_nonempty block,
      record s {
        file = rest.1;
        cur_block = block;
        remaining = s.remaining - min s.remaining (get_or header 1 0);
        block_max_score = block_score s.skip_list.level0 s.cur_block_idx;
        cur_tf_block = tf_block s.all_tfs s.cur_block_idx (length block);
        cur_block_idx = s.cur_block_idx + 1;
        cur_pos = 0;
      },
    )

-- `main_bytes + patch_bytes`, from a header
abbrev pub body_size : List ℕ → ℕ
body_size header =
    bytes_for (get_or header 1 0) (get_or header 0 0) + get_or header 2 0 * patch_size

unfoldable pub load_next_block : DiskPostingIterator → Bool × DiskPostingIterator
unfolding load_block
load_next_block s =
    let header = read header_size s.file in
    if s.remaining == 0
    then (false, record s { cur_doc = invalid_doc })
    else if not header.1.good
    then (false, record s { file = header.1; cur_doc = invalid_doc })
    else load_block header.0 (read (body_size header.0) header.1) s

unfoldable pub next : DiskPostingIterator → Bool × DiskPostingIterator
next s =
    let loaded = load_next_block s in
    if ltb s.cur_pos (length s.cur_block)
    then (true, take_current s)
    else if loaded.0
    then (true, take_current loaded.1)
    else loaded

-- The loop `while (loadNextBlock())` with what follows it. A block that is loaded takes from
-- `remaining_`, so one round more than that is enough.
unfoldable pub scan_blocks : ℕ → ℕ → DiskPostingIterator → Bool × DiskPostingIterator
scan_blocks zero target s = (false, record s { cur_doc = invalid_doc })
scan_blocks (suc fuel) target s =
    let loaded = load_next_block s in
    let scanned = scan_block target loaded.1 in
    let rest = scan_blocks fuel target scanned.1 in
    if not loaded.0
    then (false, record loaded.1 { cur_doc = invalid_doc })
    else if scanned.0
    then scanned
    else rest

abbrev pub scan_on : ℕ → DiskPostingIterator → Bool × DiskPostingIterator
scan_on target s = scan_blocks (s.remaining + 1) target s

-- The loop over the nodes before `block_index`.
unfoldable pub docs_before : ℕ → List SkipNode → ℕ → ℕ
docs_before zero nodes before = before
docs_before (suc i) [] before = docs_before i [] (add32 before 128)
docs_before (suc i) (n ∷ ns) before = docs_before i ns (add32 before n.doc_count)

-- The state in which the blocks from `block_index` on are scanned.
unfoldable pub jump : ℕ → ℕ → DiskPostingIterator → DiskPostingIterator
jump byte_offset block_index s =
    let before = docs_before block_index s.skip_list.level0 0 in
    record s {
      remaining = if ltb before s.meta.doc_freq then s.meta.doc_freq - before else 0;
      cur_block_idx = block_index;
      cur_block = [];
      cur_pos = 0;
      file = seek ((s.meta.posting_offset + byte_offset) % u64) (clear s.file);
    }

unfoldable pub seek_to_block : ℕ → DiskPostingIterator → Bool × DiskPostingIterator
unfolding jump
seek_to_block target s =
    let result = find s.skip_list target in
    if length s.skip_list.level0 == 0
    then scan_on target s
    else if result.byte_offset == u64 - 1
    then scan_on target s
    else if ltb result.block_index s.cur_block_idx
    then scan_on target s
    else scan_on target (jump result.byte_offset result.block_index s)

unfoldable pub advance : ℕ → DiskPostingIterator → Bool × DiskPostingIterator
advance target s =
    let scanned = scan_block target s in
    if s.cur_doc == invalid_doc
    then (false, s)
    else if leb target s.cur_doc
    then (true, s)
    else if scanned.0
    then scanned
    else seek_to_block target scanned.1

unfoldable pub is_end : DiskPostingIterator → Bool
is_end s = s.cur_doc == invalid_doc

-- The bytes of the skip list: its two counts, then it is read from the start again.
unfoldable pub read_skip_list : ℕ → InputFile → List ℕ × InputFile
read_skip_list skip_offset f =
    let counts0 = read 4 (seek skip_offset f) in
    let counts1 = read 4 counts0.1 in
    let nodes = add32 (read_u32 counts0.0) (read_u32 counts1.0) in
    read (8 + nodes * node_size) (seek skip_offset counts1.1)

unfoldable pub read_tfs : TermMeta → InputFile → List ℕ × InputFile
read_tfs meta f =
    if ltb 0 meta.tf_data_offset && ltb 0 meta.doc_freq
    then read meta.doc_freq (seek meta.tf_data_offset f)
    else ([], f)

unfoldable pub start : TermMeta → List ℕ × InputFile → SkipList → DiskPostingIterator
unfolding next
start meta tfs skip_list =
    (next (record {
      meta = meta;
      file = seek meta.posting_offset (clear tfs.1);
      skip_list = skip_list;
      remaining = meta.doc_freq;
      cur_block_idx = 0;
      cur_block = [];
      cur_pos = 0;
      cur_doc = invalid_doc;
      block_max_score = 0;
      all_tfs = tfs.0;
      cur_tf_block = [];
      cur_tf = 1;
    })).1

-- What follows the skip list; an exception of `deserialize` goes through.
unfoldable pub start_with : TermMeta → InputFile → Option SkipList → Option DiskPostingIterator
unfolding start
start_with meta f none = none
start_with meta f (some skip_list) = some (start meta (read_tfs meta f) skip_list)

-- The constructor; the first argument is what the file at `doc_path` holds, if it can be opened, and
-- `none` is an exception.
unfoldable pub new : Option (List ℕ) → TermMeta → Option DiskPostingIterator
unfolding start_with
new none meta = none
new (some bytes) meta =
    let skips = read_skip_list meta.skip_offset (opened bytes) in
    start_with meta skips.1 (deserialize skips.0 (length skips.0))

unfoldable pub block_max_doc_id : DiskPostingIterator → ℕ
block_max_doc_id s = last_or s.cur_block invalid_doc

abbrev pub cursor : Cursor DiskPostingIterator
cursor = record { doc_id = λ s. s.cur_doc; is_end = is_end; next = next; advance = advance }

abbrev pub iterator : PostingIterator ℕ DiskPostingIterator
iterator = record {
  cursor = cursor;
  tf = λ s. s.cur_tf;
  block_max_score = λ s. s.block_max_score;
  block_max_doc_id = block_max_doc_id;
}
