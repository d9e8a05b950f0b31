-- ===== src/Memory/Realtime/Threads.antt =====
-- A document that a thread takes can be seen at once, and goes on to be seen when its segment is
-- frozen.
use piggy_engine.Prelude.{
  ℕ, ◌+◌, ◌≤◌, ◌<◌, List, [], ◌∷◌, ◌++◌, Bool, true, false, ◌≡◌, refl, ap, ◌∙◌, inl, inr, arith,
  some,
}
use piggy_engine.Prelude.{if◌then◌else◌, ltb, ◌==◌, ==_iff, Bool-cases, length}
use piggy_engine.Prelude.Words.{add32}
use piggy_engine.Memory.FlushQueue.{push}
use piggy_engine.Memory.Realtime.World.{
  StoredDoc, FrozenEntry, World, content, count_id, write_doc, new_segment, remove_reader,
  add_reader,
}
use piggy_engine.Memory.Realtime.Thread.{RtIndexThread, enqueue, freeze, add_document, shutdown}
use piggy_engine.Memory.Realtime.Visible.{tally, visible, visible-set_one, visible-remove}
use piggy_engine.Memory.Realtime.Tracked.{
  IsTracked, IsTracked-kept, IsTracked-own, remove-IsTracked, new_segment-IsTracked,
  visible-new_segment, write_doc-IsTracked,
}
use piggy_engine.Memory.Realtime.Commit.{held, handed}

pub held-append : (p : ℕ) (xs ys : List FrozenEntry) → held p (xs ++ ys) ≡ held p xs + held p ys
unfolding held
held-append p [] ys = omega arith
held-append p (x ∷ xs) ys = omega (arith, held-append p xs ys)

-- whether a thread that is not shut down writes to the segment at `p`
abbrev pub writes : ℕ → RtIndexThread → ℕ
writes p t = if t.is_shut_down then 0 else if t.active_seg == p then 1 else 0

no_length : {A : Type 0} (l : List A) → ltb 0 (length l) ≡ false → l ≡ []
no_length [] h = refl
no_length (a ∷ l) h = ground (arith, h)

module _ {D : Type 0} where
  tally-nil : (q : D → Bool) → tally q [] ≡ 0
  unfolding tally
  tally-nil q = refl

  -- who keeps the segment at `p`: the threads `mine`, the queue, and others
  abbrev pub keepers : (ℕ → ℕ) → (ℕ → ℕ) → World D → ℕ → ℕ
  keepers mine rest w p = mine p + held p w.flush_queue.queue + rest p

  abbrev pub Tracked : World D → (ℕ → ℕ) → Type 0
  Tracked w own = IsTracked w.segments w.all_readers own

  -- the documents that are seen in memory, and those of the batches that were committed
  abbrev pub shown : (D → Bool) → World D → ℕ
  shown q w = visible q w.segments w.all_readers + handed q w.commits

  -- The segment that is frozen goes to the queue, the new one may be written to.
  freeze-Tracked :
      (t : RtIndexThread) (w : World D) (mine rest : ℕ → ℕ)
      → ((p : ℕ) → mine p ≤ (if length w.segments == p then 1 else 0))
      → Tracked w (keepers (λ p. if t.active_seg == p then 1 else 0) rest w)
      → Tracked (freeze t w).1 (keepers mine rest (freeze t w).1)
        × ((q : D → Bool) → shown q (freeze t w).1 ≡ shown q w)
  unfolding freeze enqueue push count_id held
  freeze-Tracked t w mine rest small v =
      let queue = w.flush_queue.queue in
      let entry : FrozenEntry = record {
        segment = t.active_seg;
        seg_id = t.active_seg_id;
        doc_count = length (content w t.active_seg);
      } in
      let frozen : (p : ℕ)
          → held p (queue ++ entry ∷ []) ≡ held p queue + (if t.active_seg == p then 1 else 0) =
        λ p. omega (arith, held-append p queue (entry ∷ [])) in
      (
        new_segment-IsTracked (count_id w)
            (keepers (λ p. if t.active_seg == p then 1 else 0) rest w)
            (λ p. mine p + held p (queue ++ entry ∷ []) + rest p) (λ p. omega (arith, frozen p))
            (λ p. omega (arith, frozen p, small p)) v,
        λ q. omega (arith, visible-new_segment q (count_id w)),
      )

  write-shown :
      (q : D → Bool) (w : World D) (own : ℕ → ℕ) (x : ℕ) (d : StoredDoc D)
      → 0 < own x
      → Tracked w own
      → shown q (write_doc x d w) ≡ shown q w + (if q d.doc then 1 else 0)
  unfolding write_doc
  write-shown q w own x d kept v =
      let (inside, one) = IsTracked-kept x v kept in
      omega (arith, visible-set_one q w.segments x d w.all_readers inside one)

  -- A thread has taken the document.
  pub record IsAdded (d : D) (w : World D) (rest : ℕ → ℕ) (t' : RtIndexThread) (w' : World D)
      : Type 0 where
    pub still_open : t'.is_shut_down ≡ false
    pub tracked : Tracked w' (keepers (λ p. writes p t') rest w')
    pub one_more : (q : D → Bool) → shown q w' ≡ shown q w + (if q d then 1 else 0)

  pub add_document-IsAdded :
      (should_freeze : List (StoredDoc D) → Bool) (d : D) (t : RtIndexThread) (w : World D)
      (rest : ℕ → ℕ)
      → t.is_shut_down ≡ false
      → Tracked w (keepers (λ p. writes p t) rest w)
      → (r : RtIndexThread × World D) × (add_document should_freeze d t w ≡ some r)
        × IsAdded d w rest r.0 r.1
  unfolding add_document freeze write_doc enqueue count_id new_segment add_reader
  add_document-IsAdded should_freeze d t w rest live v =
      let x = t.active_seg in
      let sd : StoredDoc D = record { doc_id = t.next_local_id; doc = d } in
      let w1 = write_doc x sd w in
      let t1 = record t { next_local_id = add32 t.next_local_id 1 } in
      let own = keepers (λ p. writes p t) rest w in
      let kept : 0 < own x = ground (arith, live) in
      let own1 = keepers (λ p. if x == p then 1 else 0) rest w1 in
      let v1 : Tracked w1 own1 =
        IsTracked-own own own1 (λ p. rw live (omega arith))
          (write_doc-IsTracked w own x sd kept v) in
      let more : (q : D → Bool) → shown q w1 ≡ shown q w + (if q d then 1 else 0) =
        λ q. write-shown q w own x sd kept v in
      elim (Bool-cases (should_freeze (content w1 x))) [
        | inl frozen ↦
            let mine : ℕ → ℕ = λ p. writes p (freeze t1 w1).0 in
            let f = freeze-Tracked t1 w1 mine rest (λ p. rw live (omega arith)) v1 in
            (
              freeze t1 w1,
              rw (live, frozen) refl,
              record { still_open = live; tracked = f.0; one_more = λ q. f.1 q ∙ more q },
            )
        | inr goes_on ↦ (
          (t1, w1),
          rw (live, goes_on) refl,
          record {
            still_open = live;
            tracked =
                IsTracked-own own1 (keepers (λ p. writes p t1) rest w1) (λ p. rw live (omega arith))
                  v1;
            one_more = more;
          },
        )
      ]

  pub record IsShutDown (w : World D) (rest : ℕ → ℕ) (r : RtIndexThread × World D) : Type 0 where
    pub tracked : Tracked r.1 (keepers (λ p. 0) rest r.1)
    pub same_shown : (q : D → Bool) → shown q r.1 ≡ shown q w
    pub shut : r.0.is_shut_down ≡ true

  pub shutdown-IsShutDown :
      (t : RtIndexThread) (w : World D) (rest : ℕ → ℕ)
      → Tracked w (keepers (λ p. writes p t) rest w)
      → IsShutDown w rest (shutdown t w)
  unfolding shutdown freeze remove_reader enqueue count_id new_segment add_reader
  shutdown-IsShutDown t w rest v =
      let x = t.active_seg in
      let t1 = record t { is_shut_down = true } in
      let own = keepers (λ p. writes p t) rest w in
      elim (Bool-cases t.is_shut_down) [
        | inl already ↦ rw already (record {
          tracked = IsTracked-own own (keepers (λ p. 0) rest w) (λ p. rw already (omega arith)) v;
          same_shown = λ q. refl;
          shut = refl;
        })
        | inr live ↦
            let own1 = keepers (λ p. if x == p then 1 else 0) rest w in
            let v1 : Tracked w own1 = IsTracked-own own own1 (λ p. rw live (omega arith)) v in
            elim (Bool-cases (ltb 0 (length (content w x)))) [
              | inl some_docs ↦
                  let f = freeze-Tracked t1 w (λ p. 0) rest (λ p. omega arith) v1 in
                  rw (live, some_docs) (record { tracked = f.0; same_shown = f.1; shut = refl })
              | inr no_docs ↦
                  let gone = keepers (λ p. 0) rest w in
                  let self : (x == x) ≡ true = (==_iff x x).1 refl in
                  let one = IsTracked-kept x v1 (ground (arith, self)) in
                  let alone : gone x ≡ 0 = ground (arith, self, v1.registered x, v1.single x) in
                  let empty : content w x ≡ [] = no_length (content w x) no_docs in
                  rw (live, no_docs)
                    (record {
                      tracked =
                          remove-IsTracked w.segments w.all_readers own1 gone x alone
                            (λ p ne. ground (arith, ne)) v1;
                      same_shown = λ q.
                          let less = visible-remove q w.segments x w.all_readers one.1 in
                          omega (arith, less, ap (tally q) empty, tally-nil q);
                      shut = refl;
                    })
            ]
      ]
