-- ===== src/Query/Docs.antt =====
-- Ascending lists of document ids, the abstract view of a posting iterator.
pub mod Laws
pub mod Cases
use piggy_engine.Prelude.{ℕ, ◌≤◌, ◌<◌, List, [], ◌∷◌, Bool, true, false, not, ◌&&◌, ◌||◌}
use piggy_engine.Prelude.{if◌then◌else◌, ltb, ◌==◌, All}
use piggy_engine.Core.{invalid_doc}

-- Strictly ascending, and no document is `INVALID_DOC`.
abbrev pub IsAscending : List ℕ → Type 0
IsAscending [] = Unit {0}
IsAscending (d ∷ ds) = (d < invalid_doc) × All (λ e. d < e) ds × IsAscending ds

unfoldable pub mem : ℕ → List ℕ → Bool
mem d [] = false
mem d (e ∷ es) = d == e || mem d es

unfoldable pub keep : (ℕ → Bool) → List ℕ → List ℕ
keep p [] = []
keep p (d ∷ ds) = let rest = keep p ds in if p d then d ∷ rest else rest

-- the documents from the first one at or after `target` on
unfoldable pub drop_below : ℕ → List ℕ → List ℕ
drop_below target [] = []
drop_below target (d ∷ ds) =
    let rest = drop_below target ds in if ltb d target then rest else d ∷ ds

-- the current document
unfoldable pub head_or_invalid : List ℕ → ℕ
head_or_invalid [] = invalid_doc
head_or_invalid (d ∷ ds) = d

unfoldable pub is_nonempty : List ℕ → Bool
is_nonempty [] = false
is_nonempty (d ∷ ds) = true

-- in each of the lists
unfoldable pub in_all : ℕ → List (List ℕ) → Bool
in_all d [] = true
in_all d (l ∷ ls) = mem d l && in_all d ls

-- in one of the lists
unfoldable pub in_any : ℕ → List (List ℕ) → Bool
unfolding mem
in_any d [] = false
in_any d (l ∷ ls) = mem d l || in_any d ls
