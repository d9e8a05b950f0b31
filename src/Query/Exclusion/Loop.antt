-- ===== src/Query/Exclusion/Loop.antt =====
-- `skipExcluded`: the loop of rounds, with enough fuel.
use piggy_engine.Prelude.{
  ℕ, zero, suc, ◌≤◌, ◌<◌, List, [], ◌∷◌, Bool, true, false, ◌≡◌, refl, ap, sym, ◌∙◌, arith, subst,
}
use piggy_engine.Prelude.{if◌then◌else◌, ◌==◌, Bool-cases, inl, inr, length}
use piggy_engine.Core.{invalid_doc}
use piggy_engine.Query.Docs.{IsAscending, mem, keep, head_or_invalid, is_nonempty}
use piggy_engine.Query.Docs.Laws.{keep-IsAscending, length-IsAscending}
use piggy_engine.Query.Docs.Cases.{nonempty-cons, empty-nil, not-true, mem-head_or_invalid}
use piggy_engine.Query.Cursor.{Cursor, IsCursor}
use piggy_engine.Query.Exclusion.{ExclusionScorer, catch_up, skip_excluded, max_steps, stop, ended}
use piggy_engine.Query.Exclusion.Step.{remaining, Finds, ended-Finds, stop-Finds, catch_up-CaughtUp}

module _ {M : Type 0} {cm : Cursor M} {Valid_main : M → Type 0} {docs_main : M → List ℕ}
    (im : IsCursor cm Valid_main docs_main) where
  module _ {E : Type 0} {ce : Cursor E} {Valid_excluded : E → Type 0} {docs_excluded : E → List ℕ}
      (ie : IsCursor ce Valid_excluded docs_excluded) where
    remaining-IsAscending : (m : M) (e : E) → Valid_main m → IsAscending (remaining im ie m e)
    unfolding remaining
    remaining-IsAscending m e vm = keep-IsAscending _ (docs_main m) (im.ascending m vm)

    -- Where the current document is excluded, the exclusion goes on behind it.
    remaining_excluded :
        (m m' : M) (e : E) (d : ℕ) (ds : List ℕ)
        → docs_main m ≡ d ∷ ds
        → docs_main m' ≡ ds
        → mem d (docs_excluded e) ≡ true
        → remaining im ie m e ≡ remaining im ie m' e
    unfolding remaining keep
    remaining_excluded m m' e d ds at at' hit = rw (at, at', hit)

    none_left :
        (e : E) (d : ℕ) → Valid_excluded e → ce.is_end e ≡ true → mem d (docs_excluded e) ≡ false
    unfolding mem
    none_left e d ve over =
        let none : docs_excluded e ≡ [] =
          empty-nil _ (not-true _ (sym (ie.is_end_is e ve) ∙ over)) in
        rw none

    -- What is found behind an excluded document.
    behind-Finds :
        (m : M) (e : E) (d : ℕ) (ds : List ℕ) (later : Bool × ExclusionScorer M E)
        → Valid_main m
        → Valid_excluded e
        → docs_main m ≡ d ∷ ds
        → mem d (docs_excluded e) ≡ true
        → (is_nonempty ds ≡ true → Finds im ie later (remaining im ie (cm.next m).1 e))
        → Finds im ie
            (if (cm.next m).0 then later else ended cm ce (cm.next m).1 e)
            (remaining im ie m e)
    behind-Finds m e d ds later vm ve at hit ih =
        let r = cm.next m in
        let at' : docs_main r.1 ≡ ds = im.next_moves m d ds vm at in
        let same : remaining im ie r.1 e ≡ remaining im ie m e =
          sym (remaining_excluded m r.1 e d ds at at' hit) in
        elim (Bool-cases (is_nonempty ds)) [
          | inl more ↦
              rw (im.next_returns m d ds vm at ∙ more) (subst (Finds im ie later) same (ih more))
          | inr over ↦
              let gone : docs_main r.1 ≡ [] = at' ∙ empty-nil ds over in
              let none : remaining im ie r.1 e ≡ [] = unfold remaining keep in rw gone in
              rw (im.next_returns m d ds vm at ∙ over, ← same, none)
                (ended-Finds im ie r.1 e (im.next_valid m d ds vm at) ve gone)
        ]

    -- `skipExcluded` stops at the first document that is not excluded.
    skip_excluded-Finds :
        (fuel : ℕ) (m : M) (e : E) (d : ℕ) (ds : List ℕ)
        → Valid_main m
        → Valid_excluded e
        → docs_main m ≡ d ∷ ds
        → length ds < fuel
        → Finds im ie (skip_excluded cm ce fuel m e d) (remaining im ie m e)
    unfolding skip_excluded
    skip_excluded-Finds zero m e d ds vm ve at enough = absurd (omega arith)
    skip_excluded-Finds (suc fuel) m e d ds vm ve at enough =
        let up = catch_up-CaughtUp im ie m e d ds vm ve at in
        let a = catch_up cm ce d e in
        let at_d : IsAscending (d ∷ ds) = rw at at (im.ascending m vm) in
        let front : mem d (docs_excluded a.1) ≡ (ce.doc_id a.1 == d) =
          mem-head_or_invalid d (docs_excluded a.1) at_d.0 (ie.ascending a.1 up.valid) up.low
          ∙ ap (λ (t : ℕ). t == d) (sym (ie.doc_id_is a.1 up.valid)) in
        let free : mem d (docs_excluded a.1) ≡ false
            → Finds im ie (stop cm ce m a.1 d) (remaining im ie m e) =
          λ no.
            subst (Finds im ie (stop cm ce m a.1 d)) up.same
              (stop-Finds im ie m a.1 d ds vm up.valid at no) in
        let r = cm.next m in
        let at' : docs_main r.1 ≡ ds = im.next_moves m d ds vm at in
        let later = skip_excluded cm ce fuel r.1 a.1 (cm.doc_id r.1) in
        let ih : is_nonempty ds ≡ true → Finds im ie later (remaining im ie r.1 a.1) = λ more.
          let (d', ds', e') = nonempty-cons ds more in
          let v' = im.next_valid m d ds vm at in
          let here : cm.doc_id r.1 ≡ d' =
            im.doc_id_is r.1 v' ∙ ap head_or_invalid (at' ∙ e') ∙ unfold head_or_invalid in refl in
          let shorter : length ds ≡ suc (length ds') = ap length e' in
          subst (λ t. Finds im ie (skip_excluded cm ce fuel r.1 a.1 t) (remaining im ie r.1 a.1))
            (sym here)
            (skip_excluded-Finds fuel r.1 a.1 d' ds' v' up.valid (at' ∙ e') (omega arith)) in
        let on : mem d (docs_excluded a.1) ≡ true
            → Finds im ie (if r.0 then later else ended cm ce r.1 a.1) (remaining im ie m e) =
          λ hit.
            subst (Finds im ie (if r.0 then later else ended cm ce r.1 a.1)) up.same
              (behind-Finds m a.1 d ds later vm up.valid at hit ih) in
        elim (Bool-cases (ce.is_end e)) [
          | inl over ↦ rw over (stop-Finds im ie m e d ds vm ve at (none_left e d ve over))
          | inr going ↦ elim (Bool-cases a.0) [
            | inr over ↦ rw (going, over) (free (ap (mem d) (up.at_end over) ∙ unfold mem in refl))
            | inl some ↦ elim (Bool-cases (ce.doc_id a.1 == d)) [
              | inr other ↦ rw (going, some, other) (free (front ∙ other))
              | inl same ↦ rw (going, some, same) (on (front ∙ same))
            ]
          ]
        ]

    -- The methods, when they have moved the main scorer.
    pub after_move :
        (more : Bool) (m : M) (e : E)
        → Valid_main m
        → Valid_excluded e
        → more ≡ is_nonempty (docs_main m)
        → Finds im ie
            (if more then skip_excluded cm ce max_steps m e (cm.doc_id m) else ended cm ce m e)
            (remaining im ie m e)
    after_move more m e vm ve says = elim (Bool-cases (is_nonempty (docs_main m))) [
      | inl some ↦
          let (d, ds, at) = nonempty-cons (docs_main m) some in
          let here : cm.doc_id m ≡ d =
            im.doc_id_is m vm ∙ ap head_or_invalid at ∙ unfold head_or_invalid in refl in
          let fits : length (docs_main m) ≤ invalid_doc =
            length-IsAscending (docs_main m) (im.ascending m vm) in
          let size : length (docs_main m) ≡ suc (length ds) = ap length at in
          rw (says ∙ some, here)
            (skip_excluded-Finds max_steps m e d ds vm ve at
              (unfold max_steps in omega (arith, fits, size)))
      | inr over ↦
          let gone = empty-nil (docs_main m) over in
          let none : remaining im ie m e ≡ [] = unfold remaining keep in rw gone in
          rw (says ∙ over, none) (ended-Finds im ie m e vm ve gone)
    ]
