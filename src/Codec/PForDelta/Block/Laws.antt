-- ===== src/Codec/PForDelta/Block/Laws.antt =====
-- The parts of a block: deltas, patches, and where the bytes stand.
use native.Mathlib.Nat.{mod-eq_of_lt}
use native.Mathlib.Numerals.{add-one}
use piggy_engine.Prelude.{
  ℕ, suc, ◌+◌, ◌*◌, ◌%◌, ◌≤◌, ◌<◌, List, [], ◌∷◌, ◌++◌, ◌≡◌, refl, arith, ap, ap₂, sym, ◌∙◌,
}
use piggy_engine.Prelude.{
  length, set, if◌then◌else◌, leb, All, map, append_assoc, append-nil, length-append, Bool-cases,
  inl, inr,
}
use piggy_engine.Prelude.Words.{
  u16, IsU32, add32, sub32, u16_bytes, u32_bytes, read_u16, read_u32, read_u16_bytes,
  read_u32_bytes,
}
use piggy_engine.Codec.PForDelta.Block.{
  PatchEntry, patch_bytes, patch_size, diffs, delta_encode, truncate, patches_from, write_patches,
  patch_loop, restore_loop,
}

restore_step :
    (k prev d : ℕ) (ds out : List ℕ)
    → restore_loop (suc k) prev (d ∷ ds) out
      ≡ restore_loop (suc k + 1) (add32 prev d) ds (out ++ add32 prev d ∷ [])
unfolding restore_loop
restore_step k prev d ds out = ground arith

-- Adding the deltas up gives the documents back, also where the subtraction wrapped.
restore_loop-diffs :
    (k prev : ℕ) (ds out : List ℕ)
    → IsU32 prev
    → All IsU32 ds
    → restore_loop (suc k) prev (diffs prev ds) out ≡ out ++ ds
unfolding restore_loop diffs add32 sub32
restore_loop-diffs k prev [] out h hs = sym (append-nil out)
restore_loop-diffs k prev (d ∷ ds) out h hs =
    let back : add32 prev (sub32 d prev) ≡ d = omega (arith, hs.0) in
    restore_step k prev (sub32 d prev) (diffs d ds) out
    ∙ rw (back, add-one)
        (restore_loop-diffs (suc k) d ds (out ++ d ∷ []) hs.0 hs.1 ∙ append_assoc out (d ∷ []) ds)

pub restore_loop-delta_encode :
    (base : ℕ) (docs out : List ℕ)
    → All IsU32 docs
    → restore_loop 0 base (delta_encode docs) out ≡ out ++ docs
unfolding restore_loop delta_encode
restore_loop-delta_encode base [] out h = sym (append-nil out)
restore_loop-delta_encode base (d ∷ ds) out h =
    restore_loop-diffs 0 d ds (out ++ d ∷ []) h.0 h.1 ∙ append_assoc out (d ∷ []) ds

diffs-IsU32 : (prev : ℕ) (ds : List ℕ) → All IsU32 (diffs prev ds)
unfolding diffs sub32
diffs-IsU32 prev [] = tt
diffs-IsU32 prev (d ∷ ds) = (omega arith, diffs-IsU32 d ds)

pub delta_encode-IsU32 : (docs : List ℕ) → All IsU32 docs → All IsU32 (delta_encode docs)
unfolding delta_encode
delta_encode-IsU32 [] h = tt
delta_encode-IsU32 (d ∷ ds) h = (h.0, diffs-IsU32 d ds)

length-diffs : (prev : ℕ) (ds : List ℕ) → length (diffs prev ds) ≡ length ds
unfolding diffs
length-diffs prev [] = refl
length-diffs prev (d ∷ ds) = ap suc (length-diffs d ds)

pub length-delta_encode : (docs : List ℕ) → length (delta_encode docs) ≡ length docs
unfolding delta_encode
length-delta_encode [] = refl
length-delta_encode (d ∷ ds) = ap suc (length-diffs d ds)

module _ (max_val : ℕ) where
  pub length-truncate : (ds : List ℕ) → length (truncate max_val ds) ≡ length ds
  unfolding truncate
  length-truncate [] = refl
  length-truncate (d ∷ ds) = ap suc (length-truncate ds)

  pub truncate-mod :
      (w : ℕ) (ds : List ℕ)
      → max_val < w
      → map (λ v. v % w) (truncate max_val ds) ≡ truncate max_val ds
  unfolding truncate
  truncate-mod w [] h = refl
  truncate-mod w (d ∷ ds) h =
      let kept : (if leb d max_val then d else 0) < w = ground arith in
      ap₂ (λ (x : ℕ) (xs : List ℕ). x ∷ xs) (mod-eq_of_lt kept) (truncate-mod w ds h)

  pub length-patches_from : (k : ℕ) (ds : List ℕ) → length (patches_from max_val k ds) ≤ length ds
  unfolding patches_from
  length-patches_from k [] = omega arith
  length-patches_from k (d ∷ ds) = ground (arith, length-patches_from (k + 1) ds)

-- the bytes of the patches
abbrev pub all_patch_bytes : List PatchEntry → List ℕ
all_patch_bytes [] = []
all_patch_bytes (p ∷ ps) = patch_bytes p ++ all_patch_bytes ps

pub write_patches-append :
    (ps : List PatchEntry) (out : List ℕ) → write_patches ps out ≡ out ++ all_patch_bytes ps
unfolding write_patches
write_patches-append [] out = sym (append-nil out)
write_patches-append (p ∷ ps) out =
    write_patches-append ps (out ++ patch_bytes p)
    ∙ append_assoc out (patch_bytes p) (all_patch_bytes ps)

pub length-all_patch_bytes :
    (ps : List PatchEntry) → length (all_patch_bytes ps) ≡ length ps * patch_size
length-all_patch_bytes [] = refl
length-all_patch_bytes (p ∷ ps) = omega (arith, length-all_patch_bytes ps)

set-append {ℓ} :
    {A : Type ℓ} (pre : List A) (x : A) (xs : List A) (v : A)
    → set (pre ++ x ∷ xs) (length pre) v ≡ pre ++ v ∷ xs
set-append [] x xs v = refl
set-append (y ∷ pre) x xs v = ap (λ (t : List _). y ∷ t) (set-append pre x xs v)

-- The patches put back what `truncate` took out.
pub patch_loop-truncate :
    (max_val k : ℕ) (ds pre rest : List ℕ)
    → All IsU32 ds
    → length pre ≡ k
    → k + length ds ≤ 256
    → patch_loop
        (length (patches_from max_val k ds))
        (all_patch_bytes (patches_from max_val k ds) ++ rest)
        (pre ++ truncate max_val ds)
      ≡ pre ++ ds
unfolding patch_loop patches_from truncate
patch_loop-truncate max_val k [] pre rest h at fits = refl
patch_loop-truncate max_val k (d ∷ ds) pre rest h at fits =
    let place = k % u16 in
    let more = all_patch_bytes (patches_from max_val (k + 1) ds) in
    let next =
      patch_loop-truncate max_val (k + 1) ds (pre ++ d ∷ []) rest h.1
        (omega (arith, length-append pre (d ∷ []))) (omega arith) in
    let moved : (pre ++ d ∷ []) ++ truncate max_val ds ≡ pre ++ d ∷ truncate max_val ds =
      append_assoc pre (d ∷ []) (truncate max_val ds) in
    let back : (pre ++ d ∷ []) ++ ds ≡ pre ++ d ∷ ds = append_assoc pre (d ∷ []) ds in
    elim (Bool-cases (leb d max_val)) [
      | inl e ↦ rw (e, ← moved, ← back) next
      | inr e ↦
          let position : read_u16 (u16_bytes place ++ (u32_bytes d ++ (more ++ rest)))
              ≡ length pre =
            read_u16_bytes place (u32_bytes d ++ (more ++ rest)) (omega arith) ∙ omega arith in
          let value : read_u32 (u32_bytes d ++ (more ++ rest)) ≡ d =
            read_u32_bytes d (more ++ rest) h.0 in
          let kept = truncate max_val ds in
          let written =
            ap₂ (λ (i v : ℕ). set (pre ++ 0 ∷ kept) i v) position value ∙ set-append pre 0 kept d in
          rw e (
            ap (patch_loop (length (patches_from max_val (k + 1) ds)) (more ++ rest)) written
            ∙ rw (← moved, ← back) next)
    ]
