-- ===== src/Query/Search/Terms/Expand.antt =====
-- The expanded terms of `searchAND`: which terms of the query they stand for.
use piggy_engine.Prelude.{
  ℕ, List, [], ◌∷◌, ◌++◌, Bool, true, false, ◌&&◌, ◌≡◌, refl, ap₂, ◌∙◌, arith, inl, inr, Option,
  none, some,
}
use piggy_engine.Prelude.{if◌then◌else◌, All, Bool-cases}
use piggy_engine.Query.Docs.{is_nonempty}
use piggy_engine.Query.Search.Terms.{
  FieldTerm, Reader, has_any, join, in_fields, expand_one, expand,
}

-- all elements pass
unfoldable pub every : {A : Type 0} → (A → Bool) → List A → Bool
every q [] = true
every q (x ∷ xs) = q x && every q xs

every-append :
    {A : Type 0} (q : A → Bool) (xs ys : List A) → every q (xs ++ ys) ≡ (every q xs && every q ys)
unfolding every
every-append q [] ys = refl
every-append q (x ∷ xs) ys = ground (arith, every-append q xs ys)

-- all expanded terms pass, and there is none that is missing
unfoldable pub owed : (FieldTerm → Bool) → Option (List FieldTerm) → Bool
unfolding every
owed q none = false
owed q (some xs) = every q xs

owed-join :
    (q : FieldTerm → Bool) (a b : Option (List FieldTerm))
    → owed q (join a b) ≡ (owed q a && owed q b)
unfolding owed join
owed-join q none b = refl
owed-join q (some xs) none = ground arith
owed-join q (some xs) (some ys) = every-append q xs ys

-- A term with a field counts in this field, one without in all the default fields, and where there
-- are no default fields in the merged dictionary.
unfoldable pub answers : List (List ℕ) → (FieldTerm → Bool) → FieldTerm → Bool
unfolding every
answers default_search_fields q ft =
    if is_nonempty ft.field
    then q ft
    else if has_any default_search_fields
    then every (λ f. q (record { field = f; term = ft.term })) default_search_fields
    else q ft

-- The dictionary that a term is looked up in has it.
unfoldable pub is_known : {S : Type 0} → Reader S → FieldTerm → Bool
is_known seg ft =
    if is_nonempty ft.field then seg.has_term ft.field ft.term else seg.has_merged_term ft.term

module _ {S : Type 0} (seg : Reader S) (q : FieldTerm → Bool)
    (unknown : (ft : FieldTerm) → is_known seg ft ≡ false → q ft ≡ false) where
  owed-in_fields :
      (word : List ℕ) (fs : List (List ℕ))
      → All (λ f. is_nonempty f ≡ true) fs
      → owed q (in_fields seg word fs) ≡ every (λ f. q (record { field = f; term = word })) fs
  unfolding owed in_fields every
  owed-in_fields word [] named = refl
  owed-in_fields word (f ∷ fs) named =
      let ft : FieldTerm = record { field = f; term = word } in
      elim (Bool-cases (seg.has_term f word)) [
        | inl known ↦ rw known (
            owed-join q (some (ft ∷ [])) (in_fields seg word fs)
            ∙ rw (owed-in_fields word fs named.1) (ground arith))
        | inr lost ↦
            let out : q ft ≡ false = unknown ft (unfold is_known in rw (named.0) lost) in
            rw (lost, out) refl
      ]

  owed-expand_one :
      (fs : List (List ℕ)) (ft : FieldTerm)
      → All (λ f. is_nonempty f ≡ true) fs
      → owed q (expand_one seg fs ft) ≡ answers fs q ft
  unfolding owed expand_one answers every
  owed-expand_one fs ft named = elim (Bool-cases (is_nonempty ft.field)) [
    | inl own ↦ elim (Bool-cases (seg.has_term ft.field ft.term)) [
      | inl known ↦ rw (own, known) (ground arith)
      | inr lost ↦
          let out : q ft ≡ false = unknown ft (unfold is_known in rw own lost) in
          rw (own, lost, out) refl
    ]
    | inr bare ↦ elim (Bool-cases (has_any fs)) [
      | inl some_fields ↦ rw (bare, some_fields) (owed-in_fields ft.term fs named)
      | inr no_fields ↦ elim (Bool-cases (seg.has_merged_term ft.term)) [
        | inl known ↦ rw (bare, no_fields, known) (ground arith)
        | inr lost ↦
            let out : q ft ≡ false = unknown ft (unfold is_known in rw bare lost) in
            rw (bare, no_fields, lost, out) refl
      ]
    ]
  ]

  pub owed-expand :
      (fs : List (List ℕ)) (fts : List FieldTerm)
      → All (λ f. is_nonempty f ≡ true) fs
      → owed q (expand seg fs fts) ≡ every (answers fs q) fts
  unfolding expand every
  owed-expand fs [] named = unfold owed in refl
  owed-expand fs (ft ∷ fts) named =
      owed-join q (expand_one seg fs ft) (expand seg fs fts)
      ∙ ap₂ (λ (a b : Bool). a && b) (owed-expand_one fs ft named) (owed-expand fs fts named)
