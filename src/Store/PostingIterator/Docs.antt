-- ===== src/Store/PostingIterator/Docs.antt =====
-- Documents, blocks and targets: what may be skipped of a posting list.
use piggy_engine.Prelude.{
  ℕ, zero, suc, ◌+◌, ◌*◌, ◌≤◌, ◌<◌, List, [], ◌∷◌, ◌++◌, ◌≡◌, refl, arith, ap, ◌∙◌,
}
use piggy_engine.Prelude.{
  length, take, drop, All, All-append, All-take, if◌then◌else◌, ltb, ◌==◌, take_add, Bool-cases,
  inl, inr, length-drop, length-take, lt→ltb,
}
use piggy_engine.Prelude.Words.{u32, add32}
use piggy_engine.Core.{SkipNode}
use piggy_engine.Codec.PForDelta.Block.{last_or}
use piggy_engine.Codec.PForDelta.Stream.{block_size}
use piggy_engine.Codec.PForDelta.Stream.Blocks.{Chain, Chain-IsJump}
use piggy_engine.Memory.PostingIterator.{lower_bound}
use piggy_engine.Memory.PostingIterator.Laws.{IsAscending-drop}
use piggy_engine.Query.Docs.{IsAscending, drop_below}
use piggy_engine.Store.PostingIterator.{docs_before}

suc_== : (a b : ℕ) → (suc a == suc b) ≡ (a == b)
suc_== a b = ground arith

pub drop_below-append :
    (t : ℕ) (xs ys : List ℕ)
    → drop_below t (xs ++ ys) ≡ (
        if lower_bound xs t == length xs
        then drop_below t ys
        else (drop (lower_bound xs t) xs ++ ys))
unfolding drop_below lower_bound
drop_below-append t [] ys = refl
drop_below-append t (x ∷ xs) ys = elim (Bool-cases (ltb x t)) [
  | inl low ↦ rw (low, suc_== (lower_bound xs t) (length xs)) (drop_below-append t xs ys)
  | inr at ↦ rw at (ground arith)
]

-- A target leads to a later part of the list.
pub drop_below_suffix : (t : ℕ) (ds : List ℕ) → (k : ℕ) × (drop_below t ds ≡ drop k ds)
unfolding drop_below
drop_below_suffix t [] = (0, refl)
drop_below_suffix t (d ∷ ds) =
    let (k, e) = drop_below_suffix t ds in
    elim (Bool-cases (ltb d t)) [ inl low ↦ (suc k, rw low e) | inr at ↦ (0, rw at) ]

-- Documents below the target do not matter.
pub drop_below-drop :
    (t k n : ℕ) (ds : List ℕ)
    → k ≤ n
    → All (λ d. d < t) (take n ds)
    → drop_below t (drop k ds) ≡ drop_below t (drop n ds)
unfolding drop_below
drop_below-drop t zero zero ds le low = refl
drop_below-drop t (suc k) zero ds le low = absurd (omega arith)
drop_below-drop t zero (suc n) [] le low = refl
drop_below-drop t zero (suc n) (d ∷ ds) le low =
    rw (lt→ltb d t low.0) (drop_below-drop t zero n ds (omega arith) low.1)
drop_below-drop t (suc k) (suc n) [] le low = refl
drop_below-drop t (suc k) (suc n) (d ∷ ds) le low = drop_below-drop t k n ds (omega arith) low.1

IsAscending-take : (n : ℕ) (ds : List ℕ) → IsAscending ds → IsAscending (take n ds)
IsAscending-take zero ds h = tt
IsAscending-take (suc n) [] h = tt
IsAscending-take (suc n) (d ∷ ds) h =
    (h.0, All-take (λ e. d < e) n ds h.1, IsAscending-take n ds h.2)

-- A block that ends below the target is below it.
below_of_last :
    (t : ℕ) (d : ℕ) (ds : List ℕ)
    → IsAscending (d ∷ ds)
    → last_or ds d < t
    → All (λ e. e < t) (d ∷ ds)
unfolding last_or
below_of_last t d [] h low = (low, tt)
below_of_last t d (e ∷ es) h low =
    let rest = below_of_last t e es h.2 low in (omega (arith, h.1.0, rest.0), rest)

block_below : (t : ℕ) (ds : List ℕ) → IsAscending ds → last_or ds 0 < t → All (λ e. e < t) ds
unfolding last_or
block_below t [] h low = tt
block_below t (d ∷ ds) h low = below_of_last t d ds h low

-- Blocks whose nodes are below the target hold documents below it.
pub Chain-below :
    (t : ℕ) (before after : List SkipNode) (bytes docs : List ℕ) (off : ℕ)
    → Chain bytes off (before ++ after) docs
    → IsAscending docs
    → All (λ n. n.max_doc_id < t) before
    → All (λ d. d < t) (take (block_size * length before) docs)
Chain-below t [] after bytes docs off c sorted low = tt
Chain-below t (m ∷ ms) after bytes docs off (here, tail, h, c) sorted low =
    let rest =
      Chain-below t ms after tail (drop block_size docs) (off + length here) c
        (IsAscending-drop block_size docs sorted) low.1 in
    let blocks : block_size + block_size * length ms ≡ block_size * length (m ∷ ms) = omega arith in
    rw (← blocks, take_add block_size (block_size * length ms) docs)
      (All-append (λ d. d < t) (take block_size docs)
        (take (block_size * length ms) (drop block_size docs))
        (block_below t (take block_size docs) (IsAscending-take block_size docs sorted)
          (omega (arith, h.last, low.0)))
        rest)

-- The blocks before another one are full.
pub Chain-docs_before :
    (before : List SkipNode) (n : SkipNode) (after : List SkipNode) (bytes docs : List ℕ)
    (off acc : ℕ)
    → Chain bytes off (before ++ n ∷ after) docs
    → acc + length docs < u32
    → docs_before (length before) (before ++ n ∷ after) acc ≡ acc + block_size * length before
unfolding docs_before add32
Chain-docs_before [] n after bytes docs off acc c small = omega arith
Chain-docs_before (m ∷ ms) n after bytes docs off acc (here, tail, h, c) small =
    let (gap, j) = Chain-IsJump ms n after tail (drop block_size docs) (off + length here) c in
    let left = length-drop block_size docs in
    let full : m.doc_count ≡ block_size =
      omega (arith, h.count, length-take block_size docs, j.more, left) in
    let added : add32 acc m.doc_count ≡ acc + block_size =
      omega (arith, full, j.more, left, small) in
    ap (docs_before (length ms) (ms ++ n ∷ after)) added
    ∙ Chain-docs_before ms n after tail (drop block_size docs) (off + length here)
        (acc + block_size) c (omega (arith, j.more, left, small))
    ∙ omega arith
