-- ===== src/Query/Search/Zigzag/Round.antt =====
-- A round of the loop of `searchAND`: what the iterators after it have still to give.
use piggy_engine.Prelude.{
  ℕ, ◌≤◌, ◌<◌, List, [], ◌∷◌, ◌++◌, map, Bool, true, false, ◌&&◌, ◌≡◌, refl, sym, ap, ◌∙◌, subst,
  arith, inl, inr,
}
use piggy_engine.Prelude.{
  length, if◌then◌else◌, ◌==◌, ==_iff, All, All-append, append_assoc, append-nil, Bool-cases,
}
use piggy_engine.Query.Docs.{IsAscending, mem, keep, drop_below, head_or_invalid, in_all}
use piggy_engine.Query.Docs.Laws.{
  length-drop_below, drop_below_behind, drop_below-ge, All-head, All-lt, mem_below, mem-drop_below,
  keep_congr, keep_none, keep-drop_below,
}
use piggy_engine.Query.Docs.Cases.{nonempty-cons, empty-nil}
use piggy_engine.Query.Cursor.{Cursor, IsCursor}
use piggy_engine.Query.Search.Zigzag.{Pass, done, moved, matched, catch_up_all}

mem-here : (d first : ℕ) (ds : List ℕ) → first ≡ d → mem d (first ∷ ds) ≡ true
unfolding mem
mem-here d first ds e = let it : (d == first) ≡ true = ground (arith, e) in rw it refl

module _ {S : Type 0} {c : Cursor S} {IsValid : S → Type 0} {pending : S → List ℕ}
    (ic : IsCursor c IsValid pending) where
  -- the documents that all these iterators have
  abbrev pub commons : List S → ℕ → Bool
  commons rest d = in_all d (map pending rest)

  commons-append : (d : ℕ) (xs ys : List S) → commons (xs ++ ys) d ≡ (commons xs d && commons ys d)
  unfolding in_all
  commons-append d [] ys = refl
  commons-append d (x ∷ xs) ys = ground (arith, commons-append d xs ys)

  commons-middle :
      (d : ℕ) (xs ys : List S) (s : S)
      → commons (xs ++ s ∷ ys) d ≡ (commons xs d && (mem d (pending s) && commons ys d))
  unfolding in_all
  commons-middle d xs ys s = commons-append d xs (s ∷ ys)

  module _ (driver : S) (target : ℕ) (ts : List ℕ) where
    -- What a round owes: the documents of the driver that `whole` have are those that the iterators
    -- after the round have still to give.
    abbrev pub Passes : List S → Pass S → Type 0
    Passes whole done = keep (commons whole) (pending driver) ≡ []
    Passes whole (moved jumped rest) =
        IsValid jumped
        × All IsValid rest
        × (length (pending jumped) < length (pending driver))
        × (keep (commons whole) (pending driver) ≡ keep (commons rest) (pending jumped))
    Passes whole (matched rest) =
        All IsValid rest
        × (keep (commons whole) (pending driver) ≡ keep (commons rest) (pending driver))
        × (commons rest target ≡ true)

    Passes-swap :
        (whole other : List S) (p : Pass S)
        → keep (commons whole) (pending driver) ≡ keep (commons other) (pending driver)
        → Passes other p
        → Passes whole p
    Passes-swap whole other done e h = e ∙ h
    Passes-swap whole other (moved jumped rest) e h = (h.0, h.1, h.2, e ∙ h.3)
    Passes-swap whole other (matched rest) e h = (h.0, e ∙ h.1, h.2)

    module _ (v : IsValid driver) (at : pending driver ≡ target ∷ ts) where
      driver-ge : All (λ d. target ≤ d) (pending driver)
      driver-ge =
          subst (All (λ d. target ≤ d)) (sym at)
            (All-head target ts (subst IsAscending at (ic.ascending driver v)))

      -- An iterator that catches up with the target loses no document that counts.
      swap_caught_up :
          (before ss : List S) (s : S)
          → IsValid s
          → keep (commons (before ++ s ∷ ss)) (pending driver)
            ≡ keep (commons (before ++ (c.advance target s).1 ∷ ss)) (pending driver)
      swap_caught_up before ss s vs =
          keep_congr (commons (before ++ s ∷ ss)) (commons (before ++ (c.advance target s).1 ∷ ss))
            target (pending driver) driver-ge
            (λ d le.
              commons-middle d before ss s
              ∙ ap (λ (b : Bool). commons before d && (b && commons ss d))
                  (sym (
                    ap (mem d) (ic.advance_moves s target vs)
                    ∙ mem-drop_below d target (pending s) le))
              ∙ sym (commons-middle d before ss (c.advance target s).1))

      -- No document below the first one of an iterator is common.
      none_below :
          (before ss : List S) (s : S) (d first : ℕ) (ds : List ℕ)
          → IsValid s
          → pending s ≡ first ∷ ds
          → d < first
          → commons (before ++ s ∷ ss) d ≡ false
      none_below before ss s d first ds vs e low =
          let sorted : IsAscending (first ∷ ds) = subst IsAscending e (ic.ascending s vs) in
          let absent : mem d (pending s) ≡ false =
            ap (mem d) e
            ∙ mem_below d (first ∷ ds) (low, All-lt d first ds (omega arith) sorted.1) in
          commons-middle d before ss s ∙ rw absent (ground arith)

      -- Where an iterator has gone past the target, the driver goes to its document, or is done.
      jump-Passes :
          (before ss : List S) (s : S) (first : ℕ) (ds : List ℕ)
          → All IsValid before
          → IsValid s
          → All IsValid ss
          → pending s ≡ first ∷ ds
          → target < first
          → let jumped = c.advance first driver in
            Passes (before ++ s ∷ ss) (if jumped.0 then moved jumped.1 (before ++ s ∷ ss) else done)
      jump-Passes before ss s first ds vb vs vss e past =
          let jumped = c.advance first driver in
          let whole = before ++ s ∷ ss in
          let left = ic.advance_moves driver first v in
          let same : keep (commons whole) (pending driver)
              ≡ keep (commons whole) (drop_below first (pending driver)) =
            sym (
              keep-drop_below (commons whole) first (pending driver)
                (λ d low. none_below before ss s d first ds vs e low)) in
          let behind : drop_below first (pending driver) ≡ drop_below first ts =
            ap (drop_below first) at ∙ drop_below_behind first target ts past in
          elim (Bool-cases jumped.0) [
            | inl on ↦ rw on (
              ic.advance_valid driver first v,
              All-append IsValid before (s ∷ ss) vb (vs, vss),
              omega (arith, ap length at, ap length (left ∙ behind), length-drop_below first ts),
              same ∙ ap (keep (commons whole)) (sym left),
            )
            | inr over ↦
                let gone : drop_below first (pending driver) ≡ [] =
                  empty-nil (drop_below first (pending driver))
                    (sym (ic.advance_returns driver first v) ∙ over) in
                rw over (same ∙ ap (keep (commons whole)) gone ∙ unfold keep in refl)
          ]

      pub catch_up_all-Passes :
          (before ss : List S)
          → All IsValid before
          → All IsValid ss
          → commons before target ≡ true
          → Passes (before ++ ss) (catch_up_all c target driver before ss)
      unfolding catch_up_all
      catch_up_all-Passes before [] vb vs all = rw (append-nil before) (vb, refl, all)
      catch_up_all-Passes before (s ∷ ss) vb vs all =
          let r = c.advance target s in
          let rest = drop_below target (pending s) in
          let swapped = swap_caught_up before ss s vs.0 in
          let valid = ic.advance_valid s target vs.0 in
          let left = ic.advance_moves s target vs.0 in
          let returns = ic.advance_returns s target vs.0 in
          elim (Bool-cases r.0) [
            | inl on ↦
                let (first, ds, e) = nonempty-cons rest (sym returns ∙ on) in
                let here : pending r.1 ≡ first ∷ ds = left ∙ e in
                let doc : c.doc_id r.1 ≡ first =
                  ic.doc_id_is r.1 valid
                  ∙ ap head_or_invalid here
                  ∙ unfold head_or_invalid in refl in
                elim (Bool-cases (c.doc_id r.1 == target)) [
                  | inl same ↦
                      let found : mem target (pending r.1) ≡ true =
                        ap (mem target) here
                        ∙ mem-here target first ds
                            (sym doc ∙ (==_iff (c.doc_id r.1) target).0 same) in
                      let all_now : commons (before ++ r.1 ∷ []) target ≡ true =
                        commons-middle target before [] r.1
                        ∙ rw (all, found) (unfold in_all in refl) in
                      let later =
                        catch_up_all-Passes (before ++ r.1 ∷ []) ss
                          (All-append IsValid before (r.1 ∷ []) vb (valid, tt)) vs.1 all_now in
                      rw (on, same)
                        (Passes-swap (before ++ s ∷ ss) (before ++ r.1 ∷ ss)
                          (catch_up_all c target driver (before ++ r.1 ∷ []) ss) swapped
                          (subst
                            (λ (l : List S).
                              Passes l (catch_up_all c target driver (before ++ r.1 ∷ []) ss))
                            (append_assoc before (r.1 ∷ []) ss) later))
                  | inr other ↦
                      let ge : All (λ d. target ≤ d) (first ∷ ds) =
                        subst (All (λ d. target ≤ d)) e
                          (drop_below-ge target (pending s) (ic.ascending s vs.0)) in
                      let past : target < first = ground (arith, ge.0, doc, other) in
                      let jumps : Pass S =
                        let jumped = c.advance (c.doc_id r.1) driver in
                        if jumped.0 then moved jumped.1 (before ++ r.1 ∷ ss) else done in
                      let owed : Passes (before ++ r.1 ∷ ss) jumps =
                        subst
                          (λ (k : ℕ).
                            let jumped = c.advance k driver in
                            Passes (before ++ r.1 ∷ ss)
                              (if jumped.0 then moved jumped.1 (before ++ r.1 ∷ ss) else done))
                          (sym doc) (jump-Passes before ss r.1 first ds vb valid vs.1 here past) in
                      rw (on, other)
                        (Passes-swap (before ++ s ∷ ss) (before ++ r.1 ∷ ss) jumps swapped owed)
                ]
            | inr over ↦
                let gone : pending r.1 ≡ [] = left ∙ empty-nil rest (sym returns ∙ over) in
                rw over (
                  swapped
                  ∙ keep_none (commons (before ++ r.1 ∷ ss)) target (pending driver) driver-ge
                      (λ d le.
                        commons-middle d before ss r.1 ∙ rw gone (unfold mem in ground arith)))
          ]
