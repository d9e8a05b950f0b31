-- ===== src/Query/Exclusion.antt =====
-- modules/query/src/exclusion_scorer.cpp: the documents of a main scorer that another one lacks.
pub mod Step
pub mod Loop
pub mod Start
pub mod Laws
use piggy_engine.Prelude.{ℕ, zero, suc, ◌^◌, Bool, true, false, not}
use piggy_engine.Prelude.{if◌then◌else◌, ltb, ◌==◌}
use piggy_engine.Core.{invalid_doc}
use piggy_engine.Query.Cursor.{Cursor, Scorer}

pub record ExclusionScorer (M E : Type 0) : Type 0 where
  pub main : M
  pub excluded : E
  pub cur_doc : ℕ

-- The fuel of the methods: there are fewer documents than ids.
unfoldable pub max_steps : ℕ
max_steps = 2 ^ 32

module _ {M E : Type 0} (main_cursor : Cursor M) (excluded_cursor : Cursor E) where
  abbrev pub stop : M → E → ℕ → Bool × ExclusionScorer M E
  stop m e cur = (true, record { main = m; excluded = e; cur_doc = cur })

  abbrev pub ended : M → E → Bool × ExclusionScorer M E
  ended m e = (false, record { main = m; excluded = e; cur_doc = invalid_doc })

  -- `if (excluded_->docId() < cur) excluded_->advance(cur)`, true where nothing had to be done
  unfoldable pub catch_up : ℕ → E → Bool × E
  catch_up cur e =
      if ltb (excluded_cursor.doc_id e) cur then excluded_cursor.advance cur e else (true, e)

  -- `skipExcluded`. Each round moves `main_` on.
  unfoldable pub skip_excluded : ℕ → M → E → ℕ → Bool × ExclusionScorer M E
  unfolding catch_up
  skip_excluded zero m e cur = ended m e
  skip_excluded (suc fuel) m e cur =
      let at = catch_up cur e in
      let r = main_cursor.next m in
      let later = skip_excluded fuel r.1 at.1 (main_cursor.doc_id r.1) in
      if excluded_cursor.is_end e
      then stop m e cur
      else if not at.0
      then stop m at.1 cur
      else if not (excluded_cursor.doc_id at.1 == cur)
      then stop m at.1 cur
      else if r.0
      then later
      else ended r.1 at.1

  -- The constructor.
  unfoldable pub new : M → E → ExclusionScorer M E
  unfolding skip_excluded
  new m e =
      let found = skip_excluded max_steps m e (main_cursor.doc_id m) in
      if main_cursor.is_end m
      then record { main = m; excluded = e; cur_doc = invalid_doc }
      else found.1

  unfoldable pub next : ExclusionScorer M E → Bool × ExclusionScorer M E
  unfolding skip_excluded
  next s =
      let r = main_cursor.next s.main in
      let found = skip_excluded max_steps r.1 s.excluded (main_cursor.doc_id r.1) in
      if s.cur_doc == invalid_doc then (false, s) else if r.0 then found else ended r.1 s.excluded

  unfoldable pub advance : ℕ → ExclusionScorer M E → Bool × ExclusionScorer M E
  unfolding skip_excluded
  advance target s =
      let r = main_cursor.advance target s.main in
      let found = skip_excluded max_steps r.1 s.excluded (main_cursor.doc_id r.1) in
      if s.cur_doc == invalid_doc then (false, s) else if r.0 then found else ended r.1 s.excluded

  unfoldable pub is_end : ExclusionScorer M E → Bool
  is_end s = s.cur_doc == invalid_doc

  abbrev pub cursor : Cursor (ExclusionScorer M E)
  cursor = record { doc_id = λ s. s.cur_doc; is_end = is_end; next = next; advance = advance }

-- The scores are those of `main_`; the block methods are the ones of `Scorer`.
module _ {F M E : Type 0} (main_scorer : Scorer F M) (excluded_scorer : Scorer F E) where
  abbrev pub scorer : Scorer F (ExclusionScorer M E)
  scorer = record {
    cursor = cursor main_scorer.cursor excluded_scorer.cursor;
    score = λ s. main_scorer.score s.main;
    max_score = λ s. main_scorer.max_score s.main;
    block_max_score = λ s. main_scorer.max_score s.main;
    block_max_doc_id = λ s. invalid_doc;
  }
