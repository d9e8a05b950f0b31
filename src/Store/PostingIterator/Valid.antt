-- ===== src/Store/PostingIterator/Valid.antt =====
-- The states of the iterator over a posting list in a file.
use piggy_engine.Prelude.{
  ℕ, ◌+◌, ◌*◌, ◌≤◌, ◌<◌, List, [], ◌∷◌, ◌++◌, Bool, true, false, ◌≡◌, refl, arith, ap, sym, ◌∙◌,
  subst, ◌⊎◌, inl, inr,
}
use piggy_engine.Prelude.{
  length, get_or, take, drop, if◌then◌else◌, ◌==◌, drop-drop, drop-get_or, take-append-drop,
  length-drop, length-take, drop-append_length,
}
use piggy_engine.Prelude.Words.{u64}
use piggy_engine.Core.{invalid_doc, SkipNode, TermMeta}
use piggy_engine.Codec.PForDelta.Stream.{block_size}
use piggy_engine.Codec.PForDelta.Stream.Blocks.{Chain}
use piggy_engine.Codec.SkipList.{SkipList, find}
use piggy_engine.Codec.SkipList.Find.{IsFirstAtOrAfter}
use piggy_engine.Memory.PostingIterator.Laws.{IsAscending-drop}
use piggy_engine.Query.Docs.{IsAscending, is_nonempty}
use piggy_engine.Store.InputFile.{InputFile}
use piggy_engine.Store.PostingIterator.{DiskPostingIterator, take_current, load_next_block}
use piggy_engine.Store.PostingIterator.Blocks.{loaded, load_next_block-IsBlock}

-- The file holds the posting list of `docs` where the term's entry says, and the skip list leads to
-- its blocks.
pub record IsPosting (docs : List ℕ) (meta : TermMeta) (bytes : List ℕ) (skip_list : SkipList)
    : Type 0 where
  pub sorted : IsAscending docs
  pub chain : Chain (drop meta.posting_offset bytes) 0 skip_list.level0 docs
  pub found : (t : ℕ) → IsFirstAtOrAfter skip_list.level0 0 t (find skip_list t)
  pub freq : meta.doc_freq ≡ length docs
  pub size : length bytes < u64

-- the documents from the block `idx` on
abbrev pub from_block : List ℕ → ℕ → List ℕ
from_block docs idx = drop (block_size * idx) docs

-- The file stands before the block `idx`.
pub record StandsAt (docs : List ℕ) (meta : TermMeta) (file : InputFile) (skip_list : SkipList)
    (remaining idx : ℕ) : Type 0 where
  pub posting : IsPosting docs meta file.bytes skip_list
  pub good : file.good ≡ true
  pub count : remaining ≡ length (from_block docs idx)
  pub nodes : List SkipNode
  pub off : ℕ
  pub ahead : Chain (drop file.pos file.bytes) off nodes (from_block docs idx)

module _ (docs : List ℕ) where
  abbrev pub IsReady : DiskPostingIterator → Type 0
  IsReady s = StandsAt docs s.meta s.file s.skip_list s.remaining s.cur_block_idx

  -- the documents behind the loaded block
  abbrev pub left : DiskPostingIterator → List ℕ
  left s = from_block docs s.cur_block_idx

  -- the documents behind the current one
  abbrev pub behind : DiskPostingIterator → List ℕ
  behind s = drop s.cur_pos s.cur_block ++ left s

  pub record IsOn (s : DiskPostingIterator) : Type 0 where
    pub ready : IsReady s
    pub inside : s.cur_pos ≤ length s.cur_block
    pub k : ℕ
    pub at : s.cur_doc ∷ behind s ≡ drop k docs

  abbrev pub IsValid : DiskPostingIterator → Type 0
  IsValid s = (s.cur_doc ≡ invalid_doc) ⊎ IsOn s

  unfoldable pub pending : DiskPostingIterator → List ℕ
  pending s = if s.cur_doc == invalid_doc then [] else s.cur_doc ∷ behind s

  pub IsOn-lt : (s : DiskPostingIterator) → IsOn s → s.cur_doc < invalid_doc
  IsOn-lt s on =
      let sorted : IsAscending (s.cur_doc ∷ behind s) =
        subst IsAscending (sym on.at) (IsAscending-drop on.k docs on.ready.posting.sorted) in
      sorted.0

  pub pending-IsOn : (s : DiskPostingIterator) → IsOn s → pending s ≡ s.cur_doc ∷ behind s
  unfolding pending
  pending-IsOn s on =
      let small = IsOn-lt s on in
      let going : (s.cur_doc == invalid_doc) ≡ false = ground arith in rw going

  pub pending_end : (s : DiskPostingIterator) → s.cur_doc ≡ invalid_doc → pending s ≡ []
  unfolding pending
  pending_end s e = rw e

  -- A result with a valid iterator on the documents `l`.
  abbrev pub Moves : Bool × DiskPostingIterator → List ℕ → Type 0
  Moves r l = IsValid r.1 × (pending r.1 ≡ l) × (r.0 ≡ is_nonempty l)

  pub ended-Moves : (s : DiskPostingIterator) → s.cur_doc ≡ invalid_doc → Moves (false, s) []
  unfolding is_nonempty
  ended-Moves s e = (inl e, pending_end s e, refl)

  pub IsOn-Moves :
      (s : DiskPostingIterator) (l : List ℕ) → IsOn s → s.cur_doc ∷ behind s ≡ l → Moves (true, s) l
  unfolding is_nonempty
  IsOn-Moves s l on e = (inr on, pending-IsOn s on ∙ e, rw (← e) refl)

  -- Going to the document at `cur_pos`.
  pub take_current-Moves :
      (s : DiskPostingIterator) (k : ℕ)
      → IsReady s
      → s.cur_pos < length s.cur_block
      → behind s ≡ drop k docs
      → Moves (true, take_current s) (behind s)
  unfolding take_current
  take_current-Moves s k ready inside e =
      let here : behind (take_current s) ≡ drop (s.cur_pos + 1) s.cur_block ++ left s = refl in
      let split : get_or s.cur_block s.cur_pos invalid_doc
            ∷ (drop (s.cur_pos + 1) s.cur_block ++ left s)
          ≡ behind s =
        ap (λ (t : List ℕ). t ++ left s)
          (sym (drop-get_or s.cur_pos s.cur_block invalid_doc inside)) in
      let on : IsOn (take_current s) = record {
        ready = ready;
        inside = omega arith;
        k = k;
        at = split ∙ e;
      } in
      IsOn-Moves (take_current s) (behind s) on split

  -- What `loadNextBlock` gives where there is a block left.
  pub record IsLoaded (s t : DiskPostingIterator) : Type 0 where
    pub ready : IsReady t
    pub start : t.cur_pos ≡ 0
    pub some_docs : 1 ≤ length t.cur_block
    pub split : t.cur_block ++ left t ≡ left s
    pub less : t.remaining < s.remaining

  load_end :
      (s : DiskPostingIterator)
      → s.remaining ≡ 0
      → load_next_block s ≡ (false, record s { cur_doc = invalid_doc })
  unfolding load_next_block
  load_end s e = let over : (s.remaining == 0) ≡ true = ground arith in rw over refl

  next_left : (idx : ℕ) → drop block_size (from_block docs idx) ≡ from_block docs (idx + 1)
  next_left idx =
      drop-drop (block_size * idx) block_size docs ∙ ap (λ (k : ℕ). drop k docs) (omega arith)

  is_nonempty_lem : (l : List ℕ) → 1 ≤ length l → is_nonempty l ≡ true
  unfolding is_nonempty
  is_nonempty_lem [] h = absurd (omega arith)
  is_nonempty_lem (d ∷ ds) h = refl

  load-head :
      (s : DiskPostingIterator) (n : SkipNode) (ns : List SkipNode) (off : ℕ)
      → IsReady s
      → Chain (drop s.file.pos s.file.bytes) off (n ∷ ns) (left s)
      → (t : DiskPostingIterator) × (load_next_block s ≡ (true, t)) × IsLoaded s t
  load-head s n ns off ready (here, tail, h, c) =
      let block = take block_size (left s) in
      let t : DiskPostingIterator = loaded block (length here) s in
      let first = length-take block_size (left s) in
      let later = length-drop block_size (left s) in
      let step = next_left s.cur_block_idx in
      let some : 1 ≤ length block = omega (arith, first, h.some_docs) in
      let more : drop (s.file.pos + length here) s.file.bytes ≡ tail =
        sym (drop-drop s.file.pos (length here) s.file.bytes)
        ∙ ap (drop (length here)) h.split
        ∙ drop-append_length here tail in
      (
        t,
        load_next_block-IsBlock s block here tail ready.good
              (omega (arith, ready.count, h.some_docs)) h.split h.block
            ∙ ap (λ (b : Bool). (b, t)) (is_nonempty_lem block some),
        record {
          ready = record {
            posting = ready.posting;
            good = refl;
            count = omega (arith, ready.count, first, later, ap length step);
            nodes = ns;
            off = off + length here;
            ahead = rw (more, ← step) c;
          };
          start = refl;
          some_docs = some;
          split = ap (λ (l : List ℕ). block ++ l) (sym step) ∙ take-append-drop block_size (left s);
          less = omega (arith, ready.count, h.some_docs, some);
        },
      )

  load_from :
      (s : DiskPostingIterator) (nodes : List SkipNode) (off : ℕ)
      → IsReady s
      → Chain (drop s.file.pos s.file.bytes) off nodes (left s)
      → ((left s ≡ []) × (load_next_block s ≡ (false, record s { cur_doc = invalid_doc })))
        ⊎ ((t : DiskPostingIterator) × (load_next_block s ≡ (true, t)) × IsLoaded s t)
  load_from s [] off ready c = inl (c, load_end s (ready.count ∙ ap length c))
  load_from s (n ∷ ns) off ready c = inr (load-head s n ns off ready c)

  -- `loadNextBlock` before the last document and behind it.
  pub load-cases :
      (s : DiskPostingIterator)
      → IsReady s
      → ((left s ≡ []) × (load_next_block s ≡ (false, record s { cur_doc = invalid_doc })))
        ⊎ ((t : DiskPostingIterator) × (load_next_block s ≡ (true, t)) × IsLoaded s t)
  load-cases s ready = load_from s ready.nodes ready.off ready ready.ahead
