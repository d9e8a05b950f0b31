-- ===== src/Memory/Realtime/Commit.antt =====
-- A batch that is committed: just its documents go from what can be seen in memory.
use piggy_engine.Prelude.{ℕ, ◌+◌, List, [], ◌∷◌, ◌++◌, map, Bool, true, ◌≡◌, refl, ◌∙◌, arith}
use piggy_engine.Prelude.{if◌then◌else◌, ◌==◌, ==_iff}
use piggy_engine.Memory.Realtime.World.{
  FrozenEntry, Reader, disk, Commit, World, remove, remove_all, content, count_id,
  commit_disk_segment,
}
use piggy_engine.Memory.Realtime.Worker.{
  count_tmp, final_id, batch_docs, process_batch, process_unless_empty,
}
use piggy_engine.Memory.Realtime.Visible.{tally, tally-append, visible, visible-add, visible-remove}
use piggy_engine.Memory.Realtime.Tracked.{
  IsTracked, IsTracked-kept, IsTracked-own, remove-IsTracked, add_disk-IsTracked,
}

-- how many of the entries are those of the segment at `p`
unfoldable pub held : ℕ → List FrozenEntry → ℕ
held p [] = 0
held p (e ∷ es) = (if e.segment == p then 1 else 0) + held p es

module _ {D : Type 0} where
  -- how many documents that pass `q` were in the committed batches
  unfoldable pub handed : (D → Bool) → List (Commit D) → ℕ
  unfolding tally
  handed q [] = 0
  handed q (c ∷ cs) = tally q c.replaced + handed q cs

  -- `w'` is `w` up to the ids that were counted.
  pub record IsSameBut (w w' : World D) : Type 0 where
    pub segments_same : w'.segments ≡ w.segments
    pub readers_same : w'.all_readers ≡ w.all_readers
    pub queue_same : w'.flush_queue ≡ w.flush_queue
    pub commits_same : w'.commits ≡ w.commits

  abbrev unchanged : (w : World D) → IsSameBut w w
  unchanged w = record {
    segments_same = refl;
    readers_same = refl;
    queue_same = refl;
    commits_same = refl;
  }

  pub count_tmp-IsSameBut : (es : List FrozenEntry) (w : World D) → IsSameBut w (count_tmp es w)
  unfolding count_tmp count_id
  count_tmp-IsSameBut [] w = unchanged w
  count_tmp-IsSameBut (e ∷ es) w =
      let h = count_tmp-IsSameBut es (count_id w) in
      record {
        segments_same = h.segments_same;
        readers_same = h.readers_same;
        queue_same = h.queue_same;
        commits_same = h.commits_same;
      }

  pub final_id-IsSameBut :
      (first : ℕ) (es : List FrozenEntry) (w : World D) → IsSameBut w (final_id first es w).1
  unfolding final_id count_id
  final_id-IsSameBut first [] w = record {
    segments_same = refl;
    readers_same = refl;
    queue_same = refl;
    commits_same = refl;
  }
  final_id-IsSameBut first (e ∷ []) w = unchanged w
  final_id-IsSameBut first (e ∷ f ∷ es) w = record {
    segments_same = refl;
    readers_same = refl;
    queue_same = refl;
    commits_same = refl;
  }

  -- The readers of a batch go, one after another, each with its documents.
  record Left (w : World D) (es : List FrozenEntry) (rs : List (Reader D)) (rest : ℕ → ℕ)
      : Type 0 where
    tracked : IsTracked w.segments (remove_all (map (λ (e : FrozenEntry). e.segment) es) rs) rest
    less :
        (q : D → Bool)
        → visible q w.segments (remove_all (map (λ (e : FrozenEntry). e.segment) es) rs)
            + tally q (batch_docs w es)
          ≡ visible q w.segments rs

  remove_all-Left :
      (w : World D) (es : List FrozenEntry) (rs : List (Reader D)) (rest : ℕ → ℕ)
      → IsTracked w.segments rs (λ p. held p es + rest p)
      → Left w es rs rest
  unfolding held remove_all batch_docs tally
  remove_all-Left w [] rs rest v = record {
    tracked = IsTracked-own (λ p. 0 + rest p) rest (λ p. omega arith) v;
    less = λ q. omega arith;
  }
  remove_all-Left w (e ∷ es) rs rest v =
      let x = e.segment in
      let self : (x == x) ≡ true = (==_iff x x).1 refl in
      let kept = IsTracked-kept x v (ground (arith, self)) in
      let others : ℕ → ℕ = λ p. held p es + rest p in
      let gone : others x ≡ 0 = ground (arith, self, v.registered x, v.single x) in
      let now =
        remove-IsTracked w.segments rs (λ p. held p (e ∷ es) + rest p) others x gone
          (λ p ne. ground (arith, ne)) v in
      let later = remove_all-Left w es (remove x rs) rest now in
      record {
        tracked = later.tracked;
        less = λ q. omega (
          arith,
          later.less q,
          visible-remove q w.segments x rs kept.1,
          tally-append q (content w x) (batch_docs w es),
        );
      }

  -- What a commit of the batch leaves.
  pub record IsCommitted (w w' : World D) (rest : ℕ → ℕ) : Type 0 where
    pub tracked : IsTracked w'.segments w'.all_readers rest
    pub still_counted :
        (q : D → Bool)
        → visible q w'.segments w'.all_readers + handed q w'.commits
          ≡ visible q w.segments w.all_readers + handed q w.commits
    pub queue_kept : w'.flush_queue ≡ w.flush_queue

  pub process_batch-IsCommitted :
      (batch : List FrozenEntry) (w : World D) (rest : ℕ → ℕ)
      → IsTracked w.segments w.all_readers (λ p. held p batch + rest p)
      → IsCommitted w (process_batch batch w) rest
  unfolding process_batch commit_disk_segment handed
  process_batch-IsCommitted batch w rest v =
      let tmp = count_tmp-IsSameBut batch w in
      let first = w.global_seg_id in
      let f = final_id-IsSameBut first batch (count_tmp batch w) in
      let id = (final_id first batch (count_tmp batch w)).0 in
      let segs = f.segments_same ∙ tmp.segments_same in
      let readers = f.readers_same ∙ tmp.readers_same in
      let log = f.commits_same ∙ tmp.commits_same in
      let with_disk =
        add_disk-IsTracked w.segments w.all_readers (λ p. held p batch + rest p) id v in
      let left = remove_all-Left w batch (w.all_readers ++ disk id ∷ []) rest with_disk in
      record {
        tracked = rw (segs, readers) left.tracked;
        still_counted = λ q.
            rw (segs, readers, log)
              (omega (arith, left.less q, visible-add q w.segments w.all_readers id));
        queue_kept = f.queue_same ∙ tmp.queue_same;
      }

  pub process_unless_empty-IsCommitted :
      (batch : List FrozenEntry) (w : World D) (rest : ℕ → ℕ)
      → IsTracked w.segments w.all_readers (λ p. held p batch + rest p)
      → IsCommitted w (process_unless_empty batch w) rest
  unfolding process_unless_empty held
  process_unless_empty-IsCommitted [] w rest v = record {
    tracked = IsTracked-own (λ p. 0 + rest p) rest (λ p. omega arith) v;
    still_counted = λ q. refl;
    queue_kept = refl;
  }
  process_unless_empty-IsCommitted (e ∷ es) w rest v = process_batch-IsCommitted (e ∷ es) w rest v
