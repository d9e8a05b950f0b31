-- ===== src/Query/Conjunction.antt =====
-- modules/query/src/conjunction_scorer.cpp: the zigzag intersection of several scorers. The vector
-- `children_` is not empty (`children_[0]` is read unchecked): its first element is `lead`.
pub mod Match
pub mod Loop
pub mod Start
pub mod Laws
use piggy_engine.Prelude.{ℕ, zero, suc, ◌+◌, ◌^◌, List, [], ◌∷◌, ◌++◌, Bool, true, false, ◌||◌}
use piggy_engine.Prelude.{if◌then◌else◌, ltb, ◌==◌}
use piggy_engine.Core.{invalid_doc}
use piggy_engine.Query.Cursor.{Cursor, Scorer}
use piggy_engine.Query.Floats.{Float32}

pub record ConjunctionScorer (S : Type 0) : Type 0 where
  pub lead : S
  pub rest : List S
  pub cur_doc : ℕ

-- How the inner `for` ends: all children are at the target, the lead has moved past it, or a child
-- (`children_[i]` or the lead) has no document left. Each carries the lead and the other children.
pub data Round (S : Type 0) : Type 0 where
  matched : S → List S → Round S
  moved : S → List S → Round S
  exhausted : S → List S → Round S

-- The fuel of the methods: there are fewer documents than ids.
unfoldable pub rounds : ℕ
rounds = 2 ^ 32

module _ {S : Type 0} (c : Cursor S) where
  -- `children_[0]->advance(children_[i]->docId())`; `at` are all the other children.
  unfoldable pub chase : ℕ → S → List S → Round S
  chase doc lead at = let r = c.advance doc lead in if r.0 then moved r.1 at else exhausted r.1 at

  -- The inner loop over `children_[i]`, `i ≥ 1`; `done` are those that it has left behind.
  unfoldable pub match_loop : ℕ → S → List S → List S → Round S
  unfolding chase
  match_loop target lead done [] = matched lead done
  match_loop target lead done (s ∷ ss) =
      let r = c.advance target s in
      let later = match_loop target lead (done ++ r.1 ∷ []) ss in
      if r.0
      then if c.doc_id r.1 == target then later else chase (c.doc_id r.1) lead (done ++ r.1 ∷ ss)
      else exhausted lead (done ++ r.1 ∷ ss)

  abbrev pub ended : S → List S → Bool × ConjunctionScorer S
  ended lead rest = (false, record { lead = lead; rest = rest; cur_doc = invalid_doc })

  -- `doNext`. Each round moves the lead on, so `fuel` above its number of documents is enough.
  unfoldable pub do_next : ℕ → S → List S → Bool × ConjunctionScorer S
  do_next zero lead rest = ended lead rest
  do_next (suc fuel) lead rest =
      let target = c.doc_id lead in
      if c.is_end lead then ended lead rest else elim (match_loop target lead [] rest) [
        | matched l ss ↦ (true, record { lead = l; rest = ss; cur_doc = target })
        | moved l ss ↦ do_next fuel l ss
        | exhausted l ss ↦ ended l ss
      ]

  unfoldable pub advance : ℕ → ConjunctionScorer S → Bool × ConjunctionScorer S
  advance target s =
      let r = c.advance target s.lead in
      let found = do_next rounds r.1 s.rest in if r.0 then found else ended r.1 s.rest

  unfoldable pub next : ConjunctionScorer S → Bool × ConjunctionScorer S
  unfolding advance
  next s =
      let moved_on = advance (s.cur_doc + 1) s in
      if s.cur_doc == invalid_doc then (false, s) else moved_on

  unfoldable pub any_end : List S → Bool
  any_end [] = false
  any_end (s ∷ ss) = c.is_end s || any_end ss

  -- The constructor, on the sorted children.
  unfoldable pub new : S → List S → ConjunctionScorer S
  unfolding any_end
  new lead rest =
      let found = do_next rounds lead rest in
      if any_end (lead ∷ rest)
      then record { lead = lead; rest = rest; cur_doc = invalid_doc }
      else found.1

  unfoldable pub is_end : ConjunctionScorer S → Bool
  is_end s = s.cur_doc == invalid_doc

  abbrev pub cursor : Cursor (ConjunctionScorer S)
  cursor = record { doc_id = λ s. s.cur_doc; is_end = is_end; next = next; advance = advance }

-- The scores add up over the children, the block ends at the first end of a child's block.
module _ {F S : Type 0} (fl : Float32 F) (sc : Scorer F S) where
  unfoldable pub sum_over : (S → F) → F → List S → F
  sum_over f acc [] = acc
  sum_over f acc (s ∷ ss) = sum_over f (fl.add_f acc (f s)) ss

  unfoldable pub block_end : ℕ → List S → ℕ
  block_end d [] = d
  block_end d (s ∷ ss) = let bd = sc.block_max_doc_id s in block_end (if ltb bd d then bd else d) ss

  abbrev pub children : ConjunctionScorer S → List S
  children s = s.lead ∷ s.rest

  abbrev pub scorer : Scorer F (ConjunctionScorer S)
  scorer = record {
    cursor = cursor sc.cursor;
    score = λ s. sum_over sc.score fl.zero_f (children s);
    max_score = λ s. sum_over sc.max_score fl.zero_f (children s);
    block_max_score = λ s. sum_over sc.block_max_score fl.zero_f (children s);
    block_max_doc_id = λ s. block_end invalid_doc (children s);
  }
