-- ===== src/Examples/Disk.antt =====
-- A posting list in a file, and the iterator over it.
use piggy_engine.Prelude.{
  ℕ, ◌+◌, List, [], ◌∷◌, ◌++◌, map, true, some, ◌≡◌, refl, sym, ◌∙◌, arith, append-nil, max,
}
use piggy_engine.Prelude.{length, drop-append_length, length-append, ap}
use piggy_engine.Prelude.Words.{sub32}
use piggy_engine.Core.{TermMeta}
use piggy_engine.Codec.PForDelta.Pack as Pack
use piggy_engine.Codec.PForDelta.Width as Width
use piggy_engine.Codec.PForDelta.Block as Block
use piggy_engine.Codec.PForDelta.Stream.{compress, compress_loop}
use piggy_engine.Codec.SkipList as SkipLists
use piggy_engine.Codec.SkipList.{serialize}
use piggy_engine.Codec.SkipList.Serial.{length-serialize}
use piggy_engine.Query.Cursor.{IsCursor}
use piggy_engine.Query.Docs.{keep}
use piggy_engine.Query.Search.{drive, max_results}
use piggy_engine.Query.Search.Disk.{search-disk}
use piggy_engine.Query.Term as Term
use piggy_engine.Query.Term.{Segment}
use piggy_engine.Examples.Search.{numbers}
use piggy_engine.Store.InputFile.{opened}
use piggy_engine.Store.PostingIterator.{
  DiskPostingIterator, new, cursor, iterator, scan_on, scan_blocks,
}
use piggy_engine.Store.PostingIterator.Ends.{scan_on_ends}
use piggy_engine.Store.PostingIterator.Laws.{disk-IsCursor}
use piggy_engine.Store.PostingIterator.Open.{IsStored, new-IsValid}
use piggy_engine.Store.PostingIterator.Valid.{IsValid, pending}

abbrev docs : List ℕ
docs = 1 ∷ 4 ∷ 9 ∷ []

abbrev blocks : List ℕ
blocks = (compress docs []).0

abbrev skips : List ℕ
skips = serialize (0 ∷ 0 ∷ 0 ∷ 0 ∷ []) (SkipLists.new max (compress docs []).1)

abbrev content : List ℕ
content = blocks ++ skips

abbrev meta : TermMeta
meta = record {
  doc_freq = 3;
  total_term_freq = 3;
  posting_offset = 0;
  skip_offset = length blocks;
  pos_offset = 0;
  upper_bound = 1;
  tf_data_offset = 0;
}

blocks_size : length blocks ≡ 18
unfolding compress compress_loop Block.compress_block Block.block_header Block.delta_encode
    Block.diffs Block.patches_from Block.truncate Block.write_patches Block.last_or
    Width.choose_bit_width Width.width_loop Width.count_covered Width.max_value Pack.pack_bits
    Pack.pack_loop Pack.pack_value Pack.put_bit Pack.or_bit Pack.bytes_for sub32
blocks_size = refl

skips_size : length skips ≡ 32
unfolding compress compress_loop SkipLists.new SkipLists.build_level1 SkipLists.serialized_size
    Block.compress_block Block.block_header
skips_size = length-serialize 0 0 0 0 (SkipLists.new max (compress docs []).1) ∙ refl

stored : IsStored max (0 ∷ 0 ∷ 0 ∷ 0 ∷ []) docs [] content meta
unfolding compress compress_loop Block.compress_block Block.block_header Block.last_or SkipLists.new
    SkipLists.build_level1
stored = record {
  sorted = omega arith;
  freq = refl;
  size = omega (arith, length-append blocks skips, blocks_size, skips_size);
  behind_blocks = skips;
  blocks = refl;
  behind_skips = [];
  skips = drop-append_length blocks skips ∙ ap (λ (l : List ℕ). l) (sym (append-nil skips));
  few = omega arith;
  nodes0 = (
    record { doc = omega arith; offset = omega arith; score = omega arith; count = omega arith },
    tt,
  );
  nodes1 = tt;
}

new-IsValid_example :
    (s : DiskPostingIterator) × (new (some content) meta ≡ some s)
    × IsValid docs s
    × (pending docs s ≡ docs)
new-IsValid_example = new-IsValid max docs [] content meta 0 0 0 0 stored

disk-IsCursor_example : IsCursor cursor (IsValid docs) (pending docs)
disk-IsCursor_example = disk-IsCursor docs

-- a file that ends in the middle of a block
abbrev damaged : DiskPostingIterator
damaged = record {
  meta = meta;
  file = opened (2 ∷ 9 ∷ 0 ∷ []);
  skip_list = SkipLists.new max [];
  remaining = 300;
  cur_block_idx = 0;
  cur_block = [];
  cur_pos = 0;
  cur_doc = 0;
  block_max_score = 0;
  all_tfs = [];
  cur_tf_block = [];
  cur_tf = 1;
}

scan_on_ends_example : scan_blocks (300 + 1 + 5) 7 damaged ≡ scan_on 7 damaged
scan_on_ends_example = scan_on_ends 5 7 damaged

-- The word "a" of the field "t" has the posting list.
abbrev segment : Segment ℕ DiskPostingIterator
segment = record {
  term_meta = λ f t. some 1;
  posting_iterator = λ f t. new (some content) meta;
  field_avg_doc_len = λ f. 1;
  field_doc_len = λ f d. 1;
  term_idfs = λ k. some 1;
}

search-disk_example :
    map
      (λ r. r.doc_id)
      (drive
        (Term.scorer numbers iterator segment)
        (λ d. true)
        max_results
        (Term.new numbers iterator segment (116 ∷ []) (97 ∷ [])))
    ≡ keep (λ d. true) docs
search-disk_example =
    search-disk numbers segment max docs [] content meta 0 0 0 0 (λ d. true) 116 [] (97 ∷ []) 1
      stored refl refl
