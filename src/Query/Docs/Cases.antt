-- ===== src/Query/Docs/Cases.antt =====
-- Lists of documents, empty or at a current document.
use piggy_engine.Prelude.{ℕ, ◌≤◌, ◌<◌, List, [], ◌∷◌, Bool, true, false, not, ◌≡◌, refl, ap, arith}
use piggy_engine.Prelude.{◌==◌, All, inl, inr, Bool-cases}
use piggy_engine.Core.{invalid_doc}
use piggy_engine.Query.Docs.{IsAscending, mem, head_or_invalid, is_nonempty}
use piggy_engine.Query.Docs.Laws.{mem_below, All-lt, All-weaken}

pub nonempty-cons : (l : List ℕ) → is_nonempty l ≡ true → (d : ℕ) × (ds : List ℕ) × (l ≡ d ∷ ds)
unfolding is_nonempty
nonempty-cons [] h = cc
nonempty-cons (d ∷ ds) h = (d, ds, refl)

pub empty-nil : (l : List ℕ) → is_nonempty l ≡ false → l ≡ []
unfolding is_nonempty
empty-nil [] h = refl
empty-nil (d ∷ ds) h = cc

pub ended_at :
    (l : List ℕ) → IsAscending l → (head_or_invalid l == invalid_doc) ≡ not (is_nonempty l)
unfolding head_or_invalid is_nonempty
ended_at [] h = ground arith
ended_at (d ∷ ds) h = ground (arith, h.0)

pub at_end : (l : List ℕ) → IsAscending l → head_or_invalid l ≡ invalid_doc → l ≡ []
unfolding head_or_invalid
at_end [] h e = refl
at_end (d ∷ ds) h e = absurd (omega (arith, h.0, e))

mem_front : (d e : ℕ) (es : List ℕ) → d ≤ e → IsAscending (e ∷ es) → mem d (e ∷ es) ≡ (e == d)
unfolding mem
mem_front d e es le h = elim (Bool-cases (d == e)) [
  | inl same ↦ ground arith
  | inr other ↦ ground (arith, mem_below d es (All-lt d e es le h.1))
]

-- Where nothing is before a document, it is there only in front.
pub mem-head_or_invalid :
    (d : ℕ) (l : List ℕ)
    → d < invalid_doc
    → IsAscending l
    → All (λ e. d ≤ e) l
    → mem d l ≡ (head_or_invalid l == d)
unfolding head_or_invalid
mem-head_or_invalid d [] lt h low = unfold mem in ground arith
mem-head_or_invalid d (e ∷ es) lt h low = mem_front d e es low.0 h

-- Where the current document is not before `d`, none is.
pub none_before : (d : ℕ) (l : List ℕ) → IsAscending l → d ≤ head_or_invalid l → All (λ e. d ≤ e) l
unfolding head_or_invalid
none_before d [] h le = tt
none_before d (e ∷ es) h le = (le, All-weaken d e es le h.1)

pub front-cons :
    (d : ℕ) (l : List ℕ) → d < invalid_doc → head_or_invalid l ≡ d → (ds : List ℕ) × (l ≡ d ∷ ds)
unfolding head_or_invalid
front-cons d [] lt h = absurd (omega arith)
front-cons d (e ∷ es) lt h = (es, ap (λ (t : ℕ). t ∷ es) h)

pub not-true : (b : Bool) → not b ≡ true → b ≡ false
not-true true h = cc
not-true false h = refl

pub not-false : (b : Bool) → not b ≡ false → b ≡ true
not-false true h = refl
not-false false h = cc
