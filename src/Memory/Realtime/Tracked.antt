-- ===== src/Memory/Realtime/Tracked.antt =====
-- Each segment in memory that a thread or the worker has to keep is known to the searcher once.
use piggy_engine.Prelude.{
  ℕ, zero, suc, ◌+◌, ◌≤◌, ◌<◌, List, [], ◌∷◌, ◌++◌, Bool, false, ◌≡◌, ◌≢◌, refl, ap, ◌∙◌, inl, inr,
  arith,
}
use piggy_engine.Prelude.{
  length, get_or, if◌then◌else◌, ◌==◌, ==_iff, Bool-cases, length-append, get_or-set_ne, length-set,
}
use piggy_engine.Memory.Realtime.World.{
  StoredDoc, Reader, memory, disk, World, remove, content, add_reader, write_doc, new_segment,
}
use piggy_engine.Memory.Realtime.Visible.{
  tally, visible, visible-append, reads, reads-add_disk, reads-add_memory, reads-remove,
}

-- `own p` counts who keeps the segment at `p`; one that nobody keeps and that is still known is
-- empty.
pub record IsTracked {D : Type 0} (segs : List (List (StoredDoc D))) (rs : List (Reader D))
    (own : ℕ → ℕ) : Type 0 where
  pub registered : (p : ℕ) → own p ≤ reads p rs
  pub single : (p : ℕ) → reads p rs ≤ 1
  pub allocated : (p : ℕ) → length segs ≤ p → reads p rs ≡ 0
  pub settled : (p : ℕ) → own p ≡ 0 → reads p rs ≡ 1 → get_or segs p [] ≡ []

get_or-append_empty :
    {A : Type 0} (segs : List (List A)) (p : ℕ) → get_or (segs ++ [] ∷ []) p [] ≡ get_or segs p []
get_or-append_empty [] zero = refl
get_or-append_empty [] (suc p) = refl
get_or-append_empty (s ∷ segs) zero = refl
get_or-append_empty (s ∷ segs) (suc p) = get_or-append_empty segs p

-- A new empty segment shows nothing.
pub visible-append_empty :
    {D : Type 0} (q : D → Bool) (segs : List (List (StoredDoc D))) (rs : List (Reader D))
    → visible q (segs ++ [] ∷ []) rs ≡ visible q segs rs
unfolding visible
visible-append_empty q segs [] = refl
visible-append_empty q segs (memory p ∷ rs) =
    rw (get_or-append_empty segs p, visible-append_empty q segs rs) refl
visible-append_empty q segs (disk id ∷ rs) = rw (visible-append_empty q segs rs) refl

past_end : {A : Type 0} (segs : List (List A)) (p : ℕ) → length segs ≤ p → get_or segs p [] ≡ []
past_end [] p h = refl
past_end (s ∷ segs) zero h = absurd (omega arith)
past_end (s ∷ segs) (suc p) h = past_end segs p (omega arith)

module _ {D : Type 0} where
  pub IsTracked-own :
      {segs : List (List (StoredDoc D))} {rs : List (Reader D)} (own own' : ℕ → ℕ)
      → ((p : ℕ) → own' p ≡ own p)
      → IsTracked segs rs own
      → IsTracked segs rs own'
  IsTracked-own own own' same v = record {
    registered = λ p. omega (arith, same p, v.registered p);
    single = v.single;
    allocated = v.allocated;
    settled = λ p none one. v.settled p (omega (arith, same p, none)) one;
  }

  -- Where a segment is kept, it stands in memory and has one reader.
  pub IsTracked-kept :
      {segs : List (List (StoredDoc D))} {rs : List (Reader D)} {own : ℕ → ℕ} (p : ℕ)
      → IsTracked segs rs own
      → 0 < own p
      → (p < length segs) × (reads p rs ≡ 1)
  IsTracked-kept {rs = rs} p v some =
      let one : reads p rs ≡ 1 = omega (arith, v.registered p, v.single p, some) in
      (ground (arith, v.allocated p, one), one)

  empty_reader :
      (segs : List (List (StoredDoc D))) (q : D → Bool) (n : ℕ)
      → get_or segs n [] ≡ []
      → visible q segs (memory n ∷ []) ≡ 0
  unfolding visible tally
  empty_reader segs q n e = rw e (omega arith)

  pub visible-new_segment :
      (q : D → Bool) (w : World D)
      → visible q (new_segment w).segments (new_segment w).all_readers
        ≡ visible q w.segments w.all_readers
  unfolding new_segment add_reader
  visible-new_segment q w =
      let n = length w.segments in
      let empty : get_or (w.segments ++ [] ∷ []) n [] ≡ [] =
        get_or-append_empty w.segments n ∙ past_end w.segments n (omega arith) in
      visible-append q (w.segments ++ [] ∷ []) w.all_readers (memory n ∷ [])
      ∙ omega (
        arith,
        visible-append_empty q w.segments w.all_readers,
        empty_reader (w.segments ++ [] ∷ []) q n empty,
      )

  -- A new segment and its reader; it may be kept from now on.
  pub new_segment-IsTracked :
      (w : World D) (own own' : ℕ → ℕ)
      → ((p : ℕ) → own p ≤ own' p)
      → ((p : ℕ) → own' p ≤ own p + (if length w.segments == p then 1 else 0))
      → IsTracked w.segments w.all_readers own
      → IsTracked (new_segment w).segments (new_segment w).all_readers own'
  unfolding new_segment add_reader
  new_segment-IsTracked w own own' low high v =
      let n = length w.segments in
      let more : (p : ℕ)
          → reads p (w.all_readers ++ memory n ∷ [])
            ≡ reads p w.all_readers + (if n == p then 1 else 0) =
        λ p. reads-add_memory p n w.all_readers in
      record {
        registered = λ p. omega (arith, more p, high p, v.registered p);
        single = λ p. elim (Bool-cases (n == p)) [
          | inl same ↦
              omega (arith, rw same at (more p), v.allocated p (omega (arith, (==_iff n p).0 same)))
          | inr other ↦ omega (arith, rw other at (more p), v.single p)
        ];
        allocated = λ p past.
            let longer = length-append w.segments ([] ∷ []) in
            let other : (n == p) ≡ false = ground (arith, past, longer) in
            omega (arith, rw other at (more p), v.allocated p (omega (arith, past, longer)));
        settled = λ p none one. get_or-append_empty w.segments p ∙ elim (Bool-cases (n == p)) [
          | inl same ↦ past_end w.segments p (omega (arith, (==_iff n p).0 same))
          | inr other ↦
              v.settled p (omega (arith, low p, none)) (omega (arith, rw other at (more p), one))
        ];
      }

  -- A document goes to a segment that is kept.
  pub write_doc-IsTracked :
      (w : World D) (own : ℕ → ℕ) (x : ℕ) (d : StoredDoc D)
      → 0 < own x
      → IsTracked w.segments w.all_readers own
      → IsTracked (write_doc x d w).segments (write_doc x d w).all_readers own
  unfolding write_doc
  write_doc-IsTracked w own x d kept v =
      let docs = content w x ++ d ∷ [] in
      record {
        registered = v.registered;
        single = v.single;
        allocated = λ p past. v.allocated p (omega (arith, past, length-set w.segments x docs));
        settled = λ p none one.
            let ne : x ≢ p = λ e. absurd (omega (arith, kept, none, ap own e)) in
            get_or-set_ne w.segments x p docs [] ne ∙ v.settled p none one;
      }

  -- A reader goes with the one who kept its segment.
  pub remove-IsTracked :
      (segs : List (List (StoredDoc D))) (rs : List (Reader D)) (own own' : ℕ → ℕ) (x : ℕ)
      → own' x ≡ 0
      → ((p : ℕ) → x ≢ p → own' p ≡ own p)
      → IsTracked segs rs own
      → IsTracked segs (remove x rs) own'
  remove-IsTracked segs rs own own' x gone same v = record {
    registered = λ p. elim (Bool-cases (x == p)) [
      | inl at ↦ omega (arith, gone, ap own' ((==_iff x p).0 at))
      | inr other ↦
          let ne : x ≢ p = λ e. ground (arith, e, other) in
          omega (arith, rw other at (reads-remove p x rs), same p ne, v.registered p)
    ];
    single = λ p. ground (arith, reads-remove p x rs, v.single p);
    allocated = λ p past. ground (arith, reads-remove p x rs, v.allocated p past);
    settled = λ p none one. elim (Bool-cases (x == p)) [
      | inl at ↦ absurd (omega (arith, rw at at (reads-remove p x rs), one))
      | inr other ↦
          let ne : x ≢ p = λ e. ground (arith, e, other) in
          v.settled p (omega (arith, same p ne, none))
            (omega (arith, rw other at (reads-remove p x rs), one))
    ];
  }

  pub add_disk-IsTracked :
      (segs : List (List (StoredDoc D))) (rs : List (Reader D)) (own : ℕ → ℕ) (id : ℕ)
      → IsTracked segs rs own
      → IsTracked segs (rs ++ disk id ∷ []) own
  add_disk-IsTracked segs rs own id v = record {
    registered = λ p. omega (arith, reads-add_disk p rs id, v.registered p);
    single = λ p. omega (arith, reads-add_disk p rs id, v.single p);
    allocated = λ p past. omega (arith, reads-add_disk p rs id, v.allocated p past);
    settled = λ p none one. v.settled p none (omega (arith, reads-add_disk p rs id, one));
  }
