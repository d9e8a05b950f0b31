-- ===== src/Query/Docs/Laws.antt =====
-- Laws of the lists of documents.
use piggy_engine.Prelude.{
  ℕ, ◌+◌, ◌≤◌, ◌<◌, List, [], ◌∷◌, ◌++◌, Bool, true, false, ◌&&◌, ◌≡◌, refl, ◌∙◌, arith,
}
use piggy_engine.Prelude.{ltb, All, Bool-cases, inl, inr, ltb→le, length}
use piggy_engine.Core.{invalid_doc}
use piggy_engine.Query.Docs.{IsAscending, mem, keep, drop_below, in_all}

-- Nothing is dropped where all is at or after the target.
pub drop_below-All :
    (target : ℕ) (ds : List ℕ) → All (λ d. target ≤ d) ds → drop_below target ds ≡ ds
unfolding drop_below
drop_below-All target [] h = refl
drop_below-All target (d ∷ ds) h = ground arith

pub drop_below_behind : (t d : ℕ) (ds : List ℕ) → d < t → drop_below t (d ∷ ds) ≡ drop_below t ds
unfolding drop_below
drop_below_behind t d ds h = ground arith

pub drop_below_reached : (t d : ℕ) (ds : List ℕ) → t ≤ d → drop_below t (d ∷ ds) ≡ d ∷ ds
unfolding drop_below
drop_below_reached t d ds h = ground arith

pub All-weaken : (a b : ℕ) (ds : List ℕ) → a ≤ b → All (λ d. b < d) ds → All (λ d. a ≤ d) ds
All-weaken a b [] le h = tt
All-weaken a b (d ∷ ds) le h = (omega arith, All-weaken a b ds le h.1)

pub All-lt : (a b : ℕ) (ds : List ℕ) → a ≤ b → All (λ d. b < d) ds → All (λ d. a < d) ds
All-lt a b [] le h = tt
All-lt a b (d ∷ ds) le h = (omega arith, All-lt a b ds le h.1)

above_suc : (d : ℕ) (es : List ℕ) → All (λ e. d < e) es → All (λ e. d + 1 ≤ e) es
above_suc d [] h = tt
above_suc d (e ∷ es) h = (omega arith, above_suc d es h.1)

pub All-head : (d : ℕ) (ds : List ℕ) → IsAscending (d ∷ ds) → All (λ e. d ≤ e) (d ∷ ds)
All-head d ds h = (omega arith, All-weaken d d ds (omega arith) h.1)

pub drop_below-IsAscending :
    (target : ℕ) (ds : List ℕ) → IsAscending ds → IsAscending (drop_below target ds)
unfolding drop_below
drop_below-IsAscending target [] h = tt
drop_below-IsAscending target (d ∷ ds) h = elim (Bool-cases (ltb d target)) [
  | inl low ↦ rw low (drop_below-IsAscending target ds h.2)
  | inr at ↦ rw at h
]

-- What is left is at or after the target.
pub drop_below-ge :
    (target : ℕ) (ds : List ℕ) → IsAscending ds → All (λ d. target ≤ d) (drop_below target ds)
unfolding drop_below
drop_below-ge target [] h = tt
drop_below-ge target (d ∷ ds) h = elim (Bool-cases (ltb d target)) [
  | inl low ↦ rw low (drop_below-ge target ds h.2)
  | inr at ↦ rw at (ltb→le d target at, All-weaken target d ds (ltb→le d target at) h.1)
]

-- The tail, as `advance` reaches it.
pub drop_below_suc : (d : ℕ) (ds : List ℕ) → All (λ e. d < e) ds → drop_below (d + 1) (d ∷ ds) ≡ ds
unfolding drop_below
drop_below_suc d ds h =
    let low : ltb d (d + 1) ≡ true = ground arith in
    rw low (drop_below-All (d + 1) ds (above_suc d ds h))

length_from :
    (b : ℕ) (ds : List ℕ)
    → b ≤ invalid_doc
    → IsAscending ds
    → All (λ d. b ≤ d) ds
    → length ds + b ≤ invalid_doc
length_from b [] le h low = omega arith
length_from b (d ∷ ds) le h low =
    omega (arith, length_from (d + 1) ds (omega arith) h.2 (above_suc d ds h.1), low.0, h.0)

-- There are fewer documents than ids.
pub length-IsAscending : (ds : List ℕ) → IsAscending ds → length ds ≤ invalid_doc
length-IsAscending [] h = omega arith
length-IsAscending (d ∷ ds) h =
    omega (arith, length_from d (d ∷ ds) (omega arith) h (All-head d ds h))

pub mem_below : (d : ℕ) (ds : List ℕ) → All (λ e. d < e) ds → mem d ds ≡ false
unfolding mem
mem_below d [] h = refl
mem_below d (e ∷ es) h = ground (arith, mem_below d es h.1)

-- Dropping what is below the target loses no document at or after it.
pub mem-drop_below :
    (d target : ℕ) (ds : List ℕ) → target ≤ d → mem d (drop_below target ds) ≡ mem d ds
unfolding mem drop_below
mem-drop_below d target [] h = refl
mem-drop_below d target (e ∷ es) h = ground (arith, mem-drop_below d target es h)

-- `keep` reads its test only on the list.
pub keep_congr :
    (p q : ℕ → Bool) (bound : ℕ) (ds : List ℕ)
    → All (λ d. bound ≤ d) ds
    → ((d : ℕ) → bound ≤ d → p d ≡ q d)
    → keep p ds ≡ keep q ds
unfolding keep
keep_congr p q bound [] h e = refl
keep_congr p q bound (d ∷ ds) h e = ground (arith, e d h.0, keep_congr p q bound ds h.1 e)

pub keep_none :
    (p : ℕ → Bool) (bound : ℕ) (ds : List ℕ)
    → All (λ d. bound ≤ d) ds
    → ((d : ℕ) → bound ≤ d → p d ≡ false)
    → keep p ds ≡ []
unfolding keep
keep_none p bound [] h e = refl
keep_none p bound (d ∷ ds) h e = rw (e d h.0) (keep_none p bound ds h.1 e)

All-keep : (p : ℕ → Bool) (a : ℕ) (ds : List ℕ) → All (λ e. a < e) ds → All (λ e. a < e) (keep p ds)
unfolding keep
All-keep p a [] h = tt
All-keep p a (d ∷ ds) h = elim (Bool-cases (p d)) [
  | inl e ↦ rw e (h.0, All-keep p a ds h.1)
  | inr e ↦ rw e (All-keep p a ds h.1)
]

pub keep-IsAscending : (p : ℕ → Bool) (ds : List ℕ) → IsAscending ds → IsAscending (keep p ds)
unfolding keep
keep-IsAscending p [] h = tt
keep-IsAscending p (d ∷ ds) h = elim (Bool-cases (p d)) [
  | inl e ↦ rw e (h.0, All-keep p d ds h.1, keep-IsAscending p ds h.2)
  | inr e ↦ rw e (keep-IsAscending p ds h.2)
]

keep-All_ge :
    (p : ℕ → Bool) (a : ℕ) (ds : List ℕ) → All (λ e. a ≤ e) ds → All (λ e. a ≤ e) (keep p ds)
unfolding keep
keep-All_ge p a [] h = tt
keep-All_ge p a (d ∷ ds) h = elim (Bool-cases (p d)) [
  | inl e ↦ rw e (h.0, keep-All_ge p a ds h.1)
  | inr e ↦ rw e (keep-All_ge p a ds h.1)
]

-- Filtering and dropping commute on an ascending list.
pub drop_below-keep :
    (p : ℕ → Bool) (target : ℕ) (ds : List ℕ)
    → IsAscending ds
    → drop_below target (keep p ds) ≡ keep p (drop_below target ds)
unfolding keep drop_below
drop_below-keep p target [] h = refl
drop_below-keep p target (d ∷ ds) h = elim (Bool-cases (ltb d target)) [
  | inl low ↦ ground (arith, low, drop_below-keep p target ds h.2)
  | inr at ↦
      let le = ltb→le d target at in
      let all : All (λ e. target ≤ e) (d ∷ ds) = (le, All-weaken target d ds le h.1) in
      drop_below-All target (keep p (d ∷ ds)) (keep-All_ge p target (d ∷ ds) all) ∙ rw at
]

-- Documents that the test refuses may be dropped first.
pub keep-drop_below :
    (p : ℕ → Bool) (target : ℕ) (ds : List ℕ)
    → ((d : ℕ) → d < target → p d ≡ false)
    → keep p (drop_below target ds) ≡ keep p ds
unfolding keep drop_below
keep-drop_below p target [] h = refl
keep-drop_below p target (d ∷ ds) h = ground (arith, h d, keep-drop_below p target ds h)

pub mem-keep : (d : ℕ) (p : ℕ → Bool) (ds : List ℕ) → mem d (keep p ds) ≡ (mem d ds && p d)
unfolding mem keep
mem-keep d p [] = refl
mem-keep d p (e ∷ es) = ground (arith, mem-keep d p es)

pub in_all-append :
    (d : ℕ) (xs ys : List (List ℕ)) → in_all d (xs ++ ys) ≡ (in_all d xs && in_all d ys)
unfolding in_all
in_all-append d [] ys = refl
in_all-append d (x ∷ xs) ys = ground (arith, in_all-append d xs ys)

pub length-drop_below : (t : ℕ) (ds : List ℕ) → length (drop_below t ds) ≤ length ds
unfolding drop_below
length-drop_below t [] = omega arith
length-drop_below t (d ∷ ds) = ground (arith, length-drop_below t ds)

pub mem_of-drop_below : (d t : ℕ) (ds : List ℕ) → mem d (drop_below t ds) ≡ true → mem d ds ≡ true
unfolding mem drop_below
mem_of-drop_below d t [] h = h
mem_of-drop_below d t (e ∷ es) h = ground (arith, h, mem_of-drop_below d t es)

pub All-of-drop_below :
    (low t : ℕ) (ds : List ℕ) → All (λ d. low ≤ d) ds → All (λ d. low ≤ d) (drop_below t ds)
unfolding drop_below
All-of-drop_below low t [] h = tt
All-of-drop_below low t (e ∷ es) h = elim (Bool-cases (ltb e t)) [
  | inl behind ↦ rw behind (All-of-drop_below low t es h.1)
  | inr at ↦ rw at h
]
