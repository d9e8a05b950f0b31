-- ===== src/Store/PostingIterator/Open.antt =====
-- The constructor on a file that holds what `compress` and `SkipList::serialize` wrote.
use piggy_engine.Prelude.{
  ℕ, ◌+◌, ◌*◌, ◌<◌, List, [], ◌∷◌, ◌++◌, true, ◌≡◌, refl, arith, ap, sym, ◌∙◌, subst, some,
}
use piggy_engine.Prelude.{length, drop, All, if◌then◌else◌, append-nil}
use piggy_engine.Prelude.Words.{u32, u64, IsU32}
use piggy_engine.Core.{invalid_doc, TermMeta}
use piggy_engine.Codec.PForDelta.Stream.{compress}
use piggy_engine.Codec.PForDelta.Stream.Blocks.{Chain}
use piggy_engine.Codec.PForDelta.Stream.RoundTrip.{compress-Chain}
use piggy_engine.Codec.SkipList as SkipLists
use piggy_engine.Codec.SkipList.{
  SkipList, node_size, nodes_bytes, serialize, deserialize, serialized_size,
}
use piggy_engine.Codec.SkipList.Find.{find-IsFirstAtOrAfter}
use piggy_engine.Codec.SkipList.Serial.{IsNode, deserialize-serialize}
use piggy_engine.Query.Docs.{IsAscending}
use piggy_engine.Store.InputFile.{InputFile, opened, seek, clear, read}
use piggy_engine.Store.PostingIterator.{
  DiskPostingIterator, read_skip_list, read_tfs, start, start_with, new,
}
use piggy_engine.Store.PostingIterator.Laws.{next-to_pos}
use piggy_engine.Store.PostingIterator.Skips.{Chain-IsSorted, read_skip_list-serialize}
use piggy_engine.Store.PostingIterator.Valid.{IsPosting, IsReady, IsValid, pending}

-- The file keeps its bytes under `read`.
bytes-read : (count : ℕ) (f : InputFile) → (read count f).1.bytes ≡ f.bytes
unfolding read
bytes-read count f = ground arith

bytes-read_tfs : (meta : TermMeta) (f : InputFile) → (read_tfs meta f).1.bytes ≡ f.bytes
unfolding read_tfs seek
bytes-read_tfs meta f = ground (
  arith,
  bytes-read meta.doc_freq (record f { pos = if f.good then meta.tf_data_offset else f.pos }),
)

new-start :
    (content bytes : List ℕ) (meta : TermMeta) (f : InputFile) (sl : SkipList)
    → read_skip_list meta.skip_offset (opened content) ≡ (bytes, f)
    → deserialize bytes (length bytes) ≡ some sl
    → new (some content) meta ≡ some (start meta (read_tfs meta f) sl)
unfolding new start_with
new-start content bytes meta f sl there back = rw (there, back) refl

-- The file holds what the writer puts out for `docs`: the blocks of `compress` where the entry says,
-- and the skip list over their nodes, whose fields fit their types. `pads` are the bytes of padding.
pub record IsStored (fmax : ℕ → ℕ → ℕ) (pads docs norms content : List ℕ) (meta : TermMeta)
    : Type 0 where
  pub sorted : IsAscending docs
  pub freq : meta.doc_freq ≡ length docs
  pub size : length content < u64
  pub behind_blocks : List ℕ
  pub blocks : drop meta.posting_offset content ≡ (compress docs norms).0 ++ behind_blocks
  pub behind_skips : List ℕ
  pub skips :
      drop meta.skip_offset content
      ≡ serialize pads (SkipLists.new fmax (compress docs norms).1) ++ behind_skips
  pub few :
      length (SkipLists.new fmax (compress docs norms).1).level0
        + length (SkipLists.new fmax (compress docs norms).1).level1
      < u32
  pub nodes0 : All IsNode (SkipLists.new fmax (compress docs norms).1).level0
  pub nodes1 : All IsNode (SkipLists.new fmax (compress docs norms).1).level1

IsAscending-IsU32 : (docs : List ℕ) → IsAscending docs → All IsU32 docs
IsAscending-IsU32 [] h = tt
IsAscending-IsU32 (d ∷ ds) h = (omega (arith, h.0), IsAscending-IsU32 ds h.2)

module _ (fmax : ℕ → ℕ → ℕ) (docs norms content : List ℕ) (meta : TermMeta) where
  abbrev skip_list : SkipList
  skip_list = SkipLists.new fmax (compress docs norms).1

  IsStored-IsPosting :
      {pads : List ℕ}
      → IsStored fmax pads docs norms content meta
      → IsPosting docs meta content skip_list
  unfolding SkipLists.new
  IsStored-IsPosting h =
      let chain : Chain (drop meta.posting_offset content) 0 (compress docs norms).1 docs =
        subst (λ (l : List ℕ). Chain l 0 (compress docs norms).1 docs) (sym h.blocks)
          (compress-Chain docs norms h.behind_blocks (IsAscending-IsU32 docs h.sorted)) in
      record {
        sorted = h.sorted;
        chain = chain;
        found = λ t. find-IsFirstAtOrAfter fmax (compress docs norms).1 t (
            Chain-IsSorted (compress docs norms).1 (drop meta.posting_offset content) docs 0 chain
              h.sorted);
        freq = h.freq;
        size = h.size;
      }

  -- The constructor goes to the first document.
  start-IsValid :
      (tfs : List ℕ) (f : InputFile)
      → IsPosting docs meta f.bytes skip_list
      → IsValid docs (start meta (tfs, f) skip_list)
        × (pending docs (start meta (tfs, f) skip_list) ≡ docs)
  unfolding start seek clear
  start-IsValid tfs f p =
      let s0 : DiskPostingIterator = record {
        meta = meta;
        file = record { bytes = f.bytes; pos = meta.posting_offset; good = true };
        skip_list = skip_list;
        remaining = meta.doc_freq;
        cur_block_idx = 0;
        cur_block = [];
        cur_pos = 0;
        cur_doc = invalid_doc;
        block_max_score = 0;
        all_tfs = tfs;
        cur_tf_block = [];
        cur_tf = 1;
      } in
      let ready : IsReady docs s0 = record {
        posting = p;
        good = refl;
        count = p.freq;
        nodes = skip_list.level0;
        off = 0;
        ahead = p.chain;
      } in
      let moves = next-to_pos docs s0 0 ready refl in (moves.0, moves.1)

  -- Opened on a file in which the blocks of `compress` and the skip list over them stand where the
  -- term's entry says, whatever else the file holds, the iterator over a posting list on disk stands
  -- on the first document, and has all the documents before it, in order.
  pub new-IsValid :
      (p0 p1 p2 p3 : ℕ)
      → IsStored fmax (p0 ∷ p1 ∷ p2 ∷ p3 ∷ []) docs norms content meta
      → (s : DiskPostingIterator) × (new (some content) meta ≡ some s)
        × IsValid docs s
        × (pending docs s ≡ docs)
  new-IsValid p0 p1 p2 p3 h =
      let pads = p0 ∷ p1 ∷ p2 ∷ p3 ∷ [] in
      let bytes = serialize pads skip_list in
      let n0 = length skip_list.level0 in
      let n1 = length skip_list.level1 in
      let f : InputFile = record {
        bytes = content;
        pos = meta.skip_offset + (8 + (n0 + n1) * node_size);
        good = true;
      } in
      let read_skips : read_skip_list meta.skip_offset (opened content) ≡ (bytes, f) =
        read_skip_list-serialize p0 p1 p2 p3 skip_list content h.behind_skips meta.skip_offset
          h.skips h.few in
      let skips_back : deserialize bytes (length bytes) ≡ some skip_list =
        ap (λ (l : List ℕ). deserialize l (length l)) (sym (append-nil bytes))
        ∙ deserialize-serialize p0 p1 p2 p3 skip_list [] (omega (arith, h.few))
            (omega (arith, h.few)) h.nodes0 h.nodes1 in
      let tfs = read_tfs meta f in
      let opened_at = start-IsValid tfs.0 tfs.1 (
        subst (λ (l : List ℕ). IsPosting docs meta l skip_list) (sym (bytes-read_tfs meta f))
          (IsStored-IsPosting h)) in
      (
        start meta (read_tfs meta f) skip_list,
        new-start content bytes meta f skip_list read_skips skips_back,
        opened_at.0,
        opened_at.1,
      )
