-- ===== src/Memory/Realtime/Disks.antt =====
-- The searcher goes on to read each segment on disk that it was given.
use piggy_engine.Prelude.{
  ℕ, zero, suc, ◌+◌, ◌%◌, List, [], ◌∷◌, ◌++◌, map, Bool, true, not, ◌||◌, ◌≡◌, refl, ◌∙◌, inl, inr,
  arith, Option, none, some,
}
use piggy_engine.Prelude.{if◌then◌else◌, ltb, ◌==◌, Bool-cases, length}
use piggy_engine.Prelude.Words.{add32}
use piggy_engine.Memory.FlushQueue.{push, take_batch}
use piggy_engine.Memory.FlushQueue as FlushQueue
use piggy_engine.Memory.Realtime.World.{
  StoredDoc, FrozenEntry, Reader, memory, disk, Commit, World, content, is_memory, remove,
  remove_all, count_id, add_reader, remove_reader, write_doc, new_segment, commit_disk_segment,
}
use piggy_engine.Memory.Realtime.Thread.{RtIndexThread, enqueue, freeze}
use piggy_engine.Memory.Realtime.Thread as Thread
use piggy_engine.Memory.Realtime.Worker.{
  count_tmp, final_id, process_batch, process_unless_empty, take_next, unless_empty, drain,
}
use piggy_engine.Memory.Realtime.Manager.{
  Work, take, commit, RealtimeIndexManager, start, make_threads, before, behind, add_to,
  with_threads, add_document, take_if_idle, take_step, commit_step, work_step, work_all,
  shutdown_all, stop_worker, stop, Event, add, work, or_same, step, run,
}
use piggy_engine.Memory.Realtime.Commit.{count_tmp-IsSameBut, final_id-IsSameBut}

module _ {D : Type 0} where
  -- how many readers are those of the segment on disk with the id `p`
  unfoldable pub opens : ℕ → List (Reader D) → ℕ
  opens p [] = 0
  opens p (memory k ∷ rs) = opens p rs
  opens p (disk id ∷ rs) = (if id == p then 1 else 0) + opens p rs

  -- how many commits gave their segment the id `p`
  unfoldable pub closes : ℕ → List (Commit D) → ℕ
  closes p [] = 0
  closes p (c ∷ cs) = (if c.final_id == p then 1 else 0) + closes p cs

  -- From `w` to `w'` the readers on disk get more by those of the commits.
  abbrev pub Kept : World D → World D → Type 0
  Kept w w' =
      (p : ℕ)
      → opens p w'.all_readers + closes p w.commits ≡ opens p w.all_readers + closes p w'.commits

  Kept-trans : (w w' w'' : World D) → Kept w w' → Kept w' w'' → Kept w w''
  Kept-trans w w' w'' h k p = omega (arith, h p, k p)

  opens-append : (p : ℕ) (rs ss : List (Reader D)) → opens p (rs ++ ss) ≡ opens p rs + opens p ss
  unfolding opens
  opens-append p [] ss = omega arith
  opens-append p (memory k ∷ rs) ss = opens-append p rs ss
  opens-append p (disk id ∷ rs) ss = omega (arith, opens-append p rs ss)

  opens-remove : (p x : ℕ) (rs : List (Reader D)) → opens p (remove x rs) ≡ opens p rs
  unfolding opens remove is_memory
  opens-remove p x [] = refl
  opens-remove p x (memory k ∷ rs) = ground (arith, opens-remove p x rs)
  opens-remove p x (disk id ∷ rs) = omega (arith, opens-remove p x rs)

  opens-remove_all :
      (p : ℕ) (xs : List ℕ) (rs : List (Reader D)) → opens p (remove_all xs rs) ≡ opens p rs
  unfolding remove_all
  opens-remove_all p [] rs = refl
  opens-remove_all p (x ∷ xs) rs = opens-remove_all p xs (remove x rs) ∙ opens-remove p x rs

  new_segment-Kept : (w : World D) → Kept w (new_segment w)
  unfolding new_segment add_reader
  new_segment-Kept w p =
      let one = opens-append p w.all_readers (memory (length w.segments) ∷ []) in
      let none : opens p (memory (length w.segments) ∷ []) ≡ 0 = unfold opens in refl in
      omega (arith, one, none)

  freeze-Kept : (t : RtIndexThread) (w : World D) → Kept w (freeze t w).1
  unfolding freeze enqueue push count_id new_segment add_reader
  freeze-Kept t w p = unfold new_segment add_reader in new_segment-Kept (count_id w) p

  shutdown-Kept : (t : RtIndexThread) (w : World D) → Kept w (Thread.shutdown t w).1
  unfolding Thread.shutdown remove_reader
  shutdown-Kept t w = elim (Bool-cases t.is_shut_down) [
    | inl already ↦ rw already (λ p. refl)
    | inr live ↦ elim (Bool-cases (ltb 0 (length (content w t.active_seg)))) [
      | inl some_docs ↦ rw (live, some_docs) (freeze-Kept (record t { is_shut_down = true }) w)
      | inr no_docs ↦
          rw (live, no_docs) (λ p. omega (arith, opens-remove p t.active_seg w.all_readers))
    ]
  ]

  make_threads-Kept : (n : ℕ) (w : World D) → Kept w (make_threads n w).1
  unfolding make_threads Thread.new
  make_threads-Kept zero w p = refl
  make_threads-Kept (suc n) w p =
      let w1 = new_segment (count_id w) in
      let one : Kept w w1 = unfold count_id in new_segment-Kept (count_id w) in
      omega (arith, one p, make_threads-Kept n w1 p)

  process_batch-Kept : (batch : List FrozenEntry) (w : World D) → Kept w (process_batch batch w)
  unfolding process_batch commit_disk_segment closes opens
  process_batch-Kept batch w p =
      let tmp = count_tmp-IsSameBut batch w in
      let first = w.global_seg_id in
      let f = final_id-IsSameBut first batch (count_tmp batch w) in
      let id = (final_id first batch (count_tmp batch w)).0 in
      let readers = f.readers_same ∙ tmp.readers_same in
      let log = f.commits_same ∙ tmp.commits_same in
      let xs = map (λ (e : FrozenEntry). e.segment) batch in
      let all = opens-remove_all p xs (w.all_readers ++ disk id ∷ []) in
      let new = opens-append p w.all_readers (disk id ∷ []) in
      rw (readers, log) (omega (arith, all, new))

  process_unless_empty-Kept :
      (batch : List FrozenEntry) (w : World D) → Kept w (process_unless_empty batch w)
  unfolding process_unless_empty
  process_unless_empty-Kept [] w = λ p. refl
  process_unless_empty-Kept (e ∷ es) w = process_batch-Kept (e ∷ es) w

  work_step-Kept : (x : Work) (m : RealtimeIndexManager D) → Kept m.world (work_step x m).world
  unfolding work_step take_step commit_step take_if_idle take_next take_batch
  work_step-Kept commit m = process_unless_empty-Kept m.in_flight m.world
  work_step-Kept take m = taken m.in_flight m
    where
      taken :
          (es : List FrozenEntry) (m : RealtimeIndexManager D)
          → Kept m.world (take_if_idle es m).world
      taken [] m p = refl
      taken (e ∷ es) m p = refl

  work_all-Kept : (xs : List Work) (m : RealtimeIndexManager D) → Kept m.world (work_all xs m).world
  unfolding work_all
  work_all-Kept [] m p = refl
  work_all-Kept (x ∷ xs) m p =
      omega (arith, work_step-Kept x m p, work_all-Kept xs (work_step x m) p)

  module _ (should_freeze : List (StoredDoc D) → Bool) where
    abbrev KeptBy : {A : Type 0} → World D → Option (A × World D) → Type 0
    KeptBy w none = Unit {0}
    KeptBy w (some r) = Kept w r.1

    add_document-Kept :
        (d : D) (t : RtIndexThread) (w : World D)
        → KeptBy w (Thread.add_document should_freeze d t w)
    unfolding Thread.add_document
    add_document-Kept d t w = elim (Bool-cases t.is_shut_down) [
      | inl shut ↦ rw shut tt
      | inr live ↦
          let sd : StoredDoc D = record { doc_id = t.next_local_id; doc = d } in
          let w1 = write_doc t.active_seg sd w in
          let t1 = record t { next_local_id = add32 t.next_local_id 1 } in
          let wrote : Kept w w1 = unfold write_doc in (λ p. refl) in
          elim (Bool-cases (should_freeze (content w1 t.active_seg))) [
            | inl frozen ↦
                rw (live, frozen) (Kept-trans w w1 (freeze t1 w1).1 wrote (freeze-Kept t1 w1))
            | inr goes_on ↦ rw (live, goes_on) wrote
          ]
    ]

    add_to-Kept :
        (idx : ℕ) (d : D) (ts : List RtIndexThread) (w : World D)
        → KeptBy w (add_to should_freeze idx d ts w)
    unfolding add_to
    add_to-Kept idx d [] w = tt
    add_to-Kept zero d (t ∷ ts) w =
        here (Thread.add_document should_freeze d t w) (add_document-Kept d t w)
      where
        here :
            (o : Option (RtIndexThread × World D))
            → KeptBy w o
            → KeptBy w (before should_freeze ts o)
        here none h = tt
        here (some r) h = h
    add_to-Kept (suc idx) d (t ∷ ts) w =
        there (add_to should_freeze idx d ts w) (add_to-Kept idx d ts w)
      where
        there :
            (o : Option (List RtIndexThread × World D))
            → KeptBy w o
            → KeptBy w (behind should_freeze t o)
        there none h = tt
        there (some r) h = h

    step-Kept :
        (e : Event D) (m : RealtimeIndexManager D) → Kept m.world (step should_freeze e m).world
    unfolding step add_document
    step-Kept (work x) m = work_step-Kept x m
    step-Kept (add d) m =
        let r = add_to should_freeze (m.round_robin % length m.rt_threads) d m.rt_threads m.world in
        elim (Bool-cases (not m.started || m.stopped)) [
          | inl off ↦ rw off (λ p. refl)
          | inr on ↦
              rw on
                (taken r (add_to-Kept (m.round_robin % length m.rt_threads) d m.rt_threads m.world))
        ]
      where
        taken :
            (o : Option (List RtIndexThread × World D))
            → KeptBy m.world o
            → Kept m.world (or_same should_freeze m (with_threads should_freeze m o)).world
        taken none h = λ p. refl
        taken (some r) h = h

    pub run-Kept :
        (es : List (Event D)) (m : RealtimeIndexManager D)
        → Kept m.world (run should_freeze es m).world
    unfolding run
    run-Kept [] m p = refl
    run-Kept (e ∷ es) m p = omega (arith, step-Kept e m p, run-Kept es (step should_freeze e m) p)

  shutdown_all-Kept :
      (between : ℕ → List Work) (ts : List RtIndexThread) (i : ℕ) (m : RealtimeIndexManager D)
      → Kept m.world (shutdown_all between ts i m).1.world
  unfolding shutdown_all
  shutdown_all-Kept between [] i m p = work_all-Kept (between i) m p
  shutdown_all-Kept between (t ∷ ts) i m p =
      let m1 = work_all (between i) m in
      let w1 = (Thread.shutdown t m1.world).1 in
      omega (
        arith,
        work_all-Kept (between i) m p,
        shutdown-Kept t m1.world p,
        shutdown_all-Kept between ts (i + 1) (record m1 { world = w1 }) p,
      )

  drain-Kept : (rounds : ℕ) (w : World D) → Kept w (drain rounds w)
  unfolding drain take_next take_batch
  drain-Kept zero w = λ p. refl
  drain-Kept (suc rounds) w =
      let r = take_next w in
      either r.0 r.1 (drain rounds (process_batch r.0 r.1)) (λ p. refl)
        (Kept-trans w (process_batch r.0 r.1) (drain rounds (process_batch r.0 r.1))
          (process_batch-Kept r.0 r.1) (drain-Kept rounds (process_batch r.0 r.1)))
    where
      either :
          (batch : List FrozenEntry) (ended on : World D)
          → Kept w ended
          → Kept w on
          → Kept w (unless_empty batch ended on)
      either [] ended on h k = h
      either (e ∷ es) ended on h k = k

  pub stop-Kept :
      (between : ℕ → List Work) (m : RealtimeIndexManager D) → Kept m.world (stop between m).world
  unfolding stop stop_worker commit_step FlushQueue.shutdown
  stop-Kept between m = elim (Bool-cases (not m.started || m.stopped)) [
    | inl off ↦ rw off (λ p. refl)
    | inr on ↦
        let m0 = record m { stopped = true } in
        let r = shutdown_all between m.rt_threads 0 m0 in
        let w1 = process_unless_empty r.1.in_flight r.1.world in
        let q = FlushQueue.shutdown w1.flush_queue in
        rw on (λ p. omega (
          arith,
          shutdown_all-Kept between m.rt_threads 0 m0 p,
          process_unless_empty-Kept r.1.in_flight r.1.world p,
          drain-Kept (length q.queue + 1) (record w1 { flush_queue = q }) p,
        ))
  ]

  pub start-Kept : (n : ℕ) (w : World D) → Kept w (start n w).world
  unfolding start
  start-Kept n w = make_threads-Kept n w
