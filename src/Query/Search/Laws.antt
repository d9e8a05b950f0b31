-- ===== src/Query/Search/Laws.antt =====
-- What the loop of a search finds.
use piggy_engine.Prelude.{
  ℕ, zero, suc, ◌<◌, List, ◌∷◌, map, Bool, true, false, not, ◌≡◌, refl, ap, ◌∙◌, arith,
}
use piggy_engine.Prelude.{length, Bool-cases, inl, inr}
use piggy_engine.Query.Docs.{keep, head_or_invalid, is_nonempty}
use piggy_engine.Query.Docs.Laws.{length-IsAscending}
use piggy_engine.Query.Docs.Cases.{nonempty-cons, empty-nil}
use piggy_engine.Query.Cursor.{Scorer, IsCursor}
use piggy_engine.Query.Search.{drive, max_results}

module _ {F S : Type 0} (sc : Scorer F S) {IsValid : S → Type 0} {pending : S → List ℕ}
    (ic : IsCursor sc.cursor IsValid pending) where
  drive-keep :
      (accepts : ℕ → Bool) (fuel : ℕ) (root : S)
      → IsValid root
      → length (pending root) < fuel
      → map (λ r. r.doc_id) (drive sc accepts fuel root) ≡ keep accepts (pending root)
  unfolding drive keep
  drive-keep accepts zero root v enough = absurd (omega arith)
  drive-keep accepts (suc fuel) root v enough = elim (Bool-cases (is_nonempty (pending root))) [
    | inl some ↦
        let (d, ds, at) = nonempty-cons (pending root) some in
        let going : sc.cursor.is_end root ≡ false = ic.is_end_is root v ∙ ap not some in
        let here : sc.cursor.doc_id root ≡ d =
          ic.doc_id_is root v ∙ ap head_or_invalid at ∙ unfold head_or_invalid in refl in
        let after = ic.next_moves root d ds v at in
        let shorter : length (pending root) ≡ suc (length ds) = ap length at in
        let same_size : length (pending (sc.cursor.next root).1) ≡ length ds = ap length after in
        let rest =
          drive-keep accepts fuel (sc.cursor.next root).1 (ic.next_valid root d ds v at)
            (omega arith)
          ∙ ap (keep accepts) after in
        elim (Bool-cases (accepts d)) [
          | inl taken ↦ rw (going, here, at, taken) (ap (λ (t : List ℕ). d ∷ t) rest)
          | inr refused ↦ rw (going, here, at, refused) rest
        ]
    | inr gone ↦
        let over : sc.cursor.is_end root ≡ true = ic.is_end_is root v ∙ ap not gone in
        rw (over, empty-nil (pending root) gone)
  ]

  -- Over any scorer that keeps the contract, the loop ends and finds exactly the accepted documents
  -- that the scorer has still to come, in ascending order and each once.
  pub drive-pending :
      (accepts : ℕ → Bool) (root : S)
      → IsValid root
      → map (λ r. r.doc_id) (drive sc accepts max_results root) ≡ keep accepts (pending root)
  drive-pending accepts root v =
      let fits = length-IsAscending (pending root) (ic.ascending root v) in
      drive-keep accepts max_results root v (unfold max_results in omega (arith, fits))
