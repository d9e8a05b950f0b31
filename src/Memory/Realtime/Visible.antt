-- ===== src/Memory/Realtime/Visible.antt =====
-- What a search can see in memory: the documents of the readers there, counted.
use piggy_engine.Prelude.{
  ℕ, ◌+◌, ◌*◌, ◌<◌, List, [], ◌∷◌, ◌++◌, Bool, ◌≡◌, ◌≢◌, refl, ◌∙◌, inl, inr, arith,
}
use piggy_engine.Prelude.{
  length, get_or, set, if◌then◌else◌, ◌==◌, ==_iff, Bool-cases, get_or-set_self, get_or-set_ne,
}
use piggy_engine.Memory.Realtime.World.{StoredDoc, Reader, memory, disk, is_memory, remove}

-- how many documents pass `q`
unfoldable pub tally : {D : Type 0} → (D → Bool) → List (StoredDoc D) → ℕ
tally q [] = 0
tally q (d ∷ ds) = (if q d.doc then 1 else 0) + tally q ds

-- The same over the readers of segments in memory, which are read where they stand.
unfoldable pub visible : {D : Type 0} → (D → Bool) → List (List (StoredDoc D)) → List (Reader D) → ℕ
unfolding tally
visible q segs [] = 0
visible q segs (memory p ∷ rs) = tally q (get_or segs p []) + visible q segs rs
visible q segs (disk id ∷ rs) = visible q segs rs

-- how many of the readers are those of the segment at `p`
unfoldable pub reads : {D : Type 0} → ℕ → List (Reader D) → ℕ
unfolding is_memory
reads p [] = 0
reads p (r ∷ rs) = (if is_memory p r then 1 else 0) + reads p rs

pub tally-append :
    {D : Type 0} (q : D → Bool) (xs ys : List (StoredDoc D))
    → tally q (xs ++ ys) ≡ tally q xs + tally q ys
unfolding tally
tally-append q [] ys = omega arith
tally-append q (x ∷ xs) ys = omega (arith, tally-append q xs ys)

module _ {D : Type 0} where
  pub visible-append :
      (q : D → Bool) (segs : List (List (StoredDoc D))) (rs ss : List (Reader D))
      → visible q segs (rs ++ ss) ≡ visible q segs rs + visible q segs ss
  unfolding visible
  visible-append q segs [] ss = omega arith
  visible-append q segs (memory p ∷ rs) ss = omega (arith, visible-append q segs rs ss)
  visible-append q segs (disk id ∷ rs) ss = omega (arith, visible-append q segs rs ss)

  pub visible-add :
      (q : D → Bool) (segs : List (List (StoredDoc D))) (rs : List (Reader D)) (id : ℕ)
      → visible q segs (rs ++ disk id ∷ []) ≡ visible q segs rs
  visible-add q segs rs id = visible-append q segs rs (disk id ∷ []) ∙ unfold visible in omega arith

  reads-append : (p : ℕ) (rs ss : List (Reader D)) → reads p (rs ++ ss) ≡ reads p rs + reads p ss
  unfolding reads
  reads-append p [] ss = omega arith
  reads-append p (r ∷ rs) ss = omega (arith, reads-append p rs ss)

  pub reads-add_disk :
      (p : ℕ) (rs : List (Reader D)) (id : ℕ) → reads p (rs ++ disk id ∷ []) ≡ reads p rs
  reads-add_disk p rs id = reads-append p rs (disk id ∷ []) ∙ unfold reads in omega arith

  pub reads-add_memory :
      (p k : ℕ) (rs : List (Reader D))
      → reads p (rs ++ memory k ∷ []) ≡ reads p rs + (if k == p then 1 else 0)
  reads-add_memory p k rs =
      reads-append p rs (memory k ∷ []) ∙ unfold reads is_memory in omega arith

  -- A removed reader is gone, the others stay.
  pub reads-remove :
      (p x : ℕ) (rs : List (Reader D)) → reads p (remove x rs) ≡ (if x == p then 0 else reads p rs)
  unfolding reads remove is_memory
  reads-remove p x [] = ground arith
  reads-remove p x (memory k ∷ rs) = ground (arith, reads-remove p x rs)
  reads-remove p x (disk id ∷ rs) = ground (arith, reads-remove p x rs)

  -- Where a segment has no reader, nothing changes.
  visible-remove_absent :
      (q : D → Bool) (segs : List (List (StoredDoc D))) (x : ℕ) (rs : List (Reader D))
      → reads x rs ≡ 0
      → visible q segs (remove x rs) ≡ visible q segs rs
  unfolding visible remove reads is_memory
  visible-remove_absent q segs x [] none = refl
  visible-remove_absent q segs x (memory k ∷ rs) none =
      ground (arith, visible-remove_absent q segs x rs)
  visible-remove_absent q segs x (disk id ∷ rs) none =
      ground (arith, visible-remove_absent q segs x rs)

  -- With its one reader the documents of the segment go.
  pub visible-remove :
      (q : D → Bool) (segs : List (List (StoredDoc D))) (x : ℕ) (rs : List (Reader D))
      → reads x rs ≡ 1
      → visible q segs (remove x rs) + tally q (get_or segs x []) ≡ visible q segs rs
  unfolding visible remove reads is_memory
  visible-remove q segs x [] one = absurd (omega arith)
  visible-remove q segs x (memory k ∷ rs) one = elim (Bool-cases (k == x)) [
    | inl same ↦
        let e : k ≡ x = (==_iff k x).0 same in
        let none : reads x rs ≡ 0 = ground (arith, one) in
        rw (same, e) (omega (arith, visible-remove_absent q segs x rs none))
    | inr other ↦
        let rest : reads x rs ≡ 1 = ground (arith, one) in
        rw other (omega (arith, visible-remove q segs x rs rest))
  ]
  visible-remove q segs x (disk id ∷ rs) one =
      omega (arith, visible-remove q segs x rs (omega (arith, one)))

  -- A segment that no reader is of may change.
  visible-set :
      (q : D → Bool) (segs : List (List (StoredDoc D))) (x : ℕ) (docs : List (StoredDoc D))
      (rs : List (Reader D))
      → x < length segs
      → visible q (set segs x docs) rs + reads x rs * tally q (get_or segs x [])
        ≡ visible q segs rs + reads x rs * tally q docs
  unfolding visible reads is_memory
  visible-set q segs x docs [] inside = omega arith
  visible-set q segs x docs (memory k ∷ rs) inside = elim (Bool-cases (k == x)) [
    | inl same ↦
        let e : k ≡ x = (==_iff k x).0 same in
        rw (same, e, get_or-set_self segs x docs [] inside)
          (grind (arith, visible-set q segs x docs rs inside))
    | inr other ↦
        let ne : x ≢ k = λ e. ground (arith, e, other) in
        rw (other, get_or-set_ne segs x k docs [] ne)
          (omega (arith, visible-set q segs x docs rs inside))
  ]
  visible-set q segs x docs (disk id ∷ rs) inside =
      omega (arith, visible-set q segs x docs rs inside)

  pub visible-set_one :
      (q : D → Bool) (segs : List (List (StoredDoc D))) (x : ℕ) (d : StoredDoc D)
      (rs : List (Reader D))
      → x < length segs
      → reads x rs ≡ 1
      → visible q (set segs x (get_or segs x [] ++ d ∷ [])) rs
        ≡ visible q segs rs + (if q d.doc then 1 else 0)
  visible-set_one q segs x d rs inside one =
      let docs = get_or segs x [] ++ d ∷ [] in
      let more : tally q docs ≡ tally q (get_or segs x []) + (if q d.doc then 1 else 0) =
        tally-append q (get_or segs x []) (d ∷ []) ∙ unfold tally in omega arith in
      let both = rw one at (visible-set q segs x docs rs inside) in omega (arith, more, both)
