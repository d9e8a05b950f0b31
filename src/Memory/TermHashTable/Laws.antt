-- ===== src/Memory/TermHashTable/Laws.antt =====
-- What `upsert` puts in, `lookup` finds.
use native.Mathlib.Nat.{mod-eq_of_lt}
use piggy_engine.Prelude.{
  ℕ, ◌+◌, ◌%◌, ◌≤◌, ◌<◌, List, true, false, none, some, ◌≡◌, refl, sym, ap, ◌∙◌, arith, subst,
}
use piggy_engine.Prelude.{ltb, ltb→le, ◌==◌, ==_iff, length, get_or-set_self, Bool-cases, inl, inr}
use piggy_engine.Prelude.Words.{u32, add32}
use piggy_engine.Analysis.Analyzer.{same_word}
use piggy_engine.Memory.StringArena.{StringArena, appended, store}
use piggy_engine.Memory.StringArena as StringArena
use piggy_engine.Memory.StringArena.Laws.{get-store, get-appended_earlier}
use piggy_engine.Memory.TermHashTable.{
  Bucket, empty_bucket, TermHashTable, compute_hash, start_slot, bucket_at, is_term, find_slot,
  insert_new, update, upsert_at, upsert, lookup,
}
use piggy_engine.Memory.TermHashTable.Probe.{
  compute_hash-pos, same_word_refl, lookup-Replaces, some_injective,
}
use piggy_engine.Memory.TermHashTable.Table.{
  IsTable, All-get_or, find_loop-is_term, find_slot-lt, with_bucket, set-Replaces,
}

-- The bucket of the term is found again, with the new head.
abbrev pub IsUpserted : List ℕ → ℕ → ℕ × TermHashTable → Type 0
IsUpserted term new_head r =
    (lookup term r.1 ≡ some (some (bucket_at r.0 r.1)))
    × ((bucket_at r.0 r.1).term_page_head ≡ new_head)

same_term :
    (term : List ℕ) (h : ℕ) (b : Bucket) (t : TermHashTable)
    → b.term_hash ≡ h
    → b.str_len ≡ length term
    → length term < u32
    → StringArena.get b.str_offset b.str_len t.str_arena ≡ term
    → is_term term h b t ≡ true
unfolding is_term
same_term term h b t eh el small eg =
    let hashes : (b.term_hash == h) ≡ true = (==_iff _ _).1 eh in
    let lens : (b.str_len == length term % u32) ≡ true =
      (==_iff _ _).1 (el ∙ sym (mod-eq_of_lt small)) in
    let words : same_word (StringArena.get b.str_offset b.str_len t.str_arena) term ≡ true =
      ap (λ (w : List ℕ). same_word w term) eg ∙ same_word_refl term in
    rw (hashes, lens, words)

module _ (term : List ℕ) (new_head tf idx : ℕ) (t : TermHashTable) (v : IsTable t)
    (at : find_slot term (compute_hash term) t ≡ some idx) where
  abbrev h : ℕ
  h = compute_hash term

  fits : idx < length t.buckets
  fits = omega (arith, find_slot-lt term h idx t v.pos at, v.whole)

  abbrev new_bucket : Bucket
  new_bucket = record {
    term_hash = h;
    str_offset = t.str_arena.offset;
    str_len = length term;
    term_page_head = new_head;
    doc_freq = 1;
    total_tf = tf;
  }

  inserted :
      t.str_arena.offset + length term ≤ t.str_arena.capacity
      → IsUpserted term new_head
          (idx, with_bucket idx new_bucket (t.size + 1) (appended term t.str_arena) t)
  inserted room =
      let got = get-store term t.str_arena v.arena room v.small in
      let t' = with_bucket idx new_bucket (t.size + 1) (appended term t.str_arena) t in
      let short : length term < u32 = omega (arith, room, v.small) in
      let self = get_or-set_self t.buckets idx new_bucket empty_bucket fits in
      (
        lookup-Replaces term idx t t'
            (set-Replaces term h idx (t.size + 1) t new_bucket (appended term t.str_arena) fits
              (compute_hash-pos term) (same_term term h new_bucket t' refl refl short got.1)
              (λ j.
                get-appended_earlier term t.str_arena v.arena room _ _
                  (All-get_or t.str_arena.offset j t.buckets v.stored)))
            at,
        ap (λ (x : Bucket). x.term_page_head) self,
      )

  abbrev old_bucket : Bucket
  old_bucket = bucket_at idx t

  updated :
      (old_bucket.term_hash == 0) ≡ false
      → is_term term h old_bucket t ≡ true
      → IsUpserted term new_head (update new_head tf idx t)
  unfolding update
  updated taken hit =
      let b' : Bucket = record old_bucket {
        term_page_head = new_head;
        doc_freq = add32 old_bucket.doc_freq 1;
        total_tf = add32 old_bucket.total_tf tf;
      } in
      let t' = with_bucket idx b' t.size t.str_arena t in
      (
        lookup-Replaces term idx t t'
            (set-Replaces term h idx t.size t b' t.str_arena fits taken (unfold is_term in hit)
              (λ j. refl))
            at,
        ap (λ (x : Bucket). x.term_page_head) (get_or-set_self t.buckets idx b' empty_bucket fits),
      )

  found-is_term : (old_bucket.term_hash == 0) ≡ false → is_term term h old_bucket t ≡ true
  unfolding find_slot
  found-is_term taken = find_loop-is_term term h idx t t.capacity (start_slot h t) taken at

  upsert_at-found :
      (r : ℕ × TermHashTable)
      → upsert_at term h new_head tf t (some idx) ≡ some r
      → IsUpserted term new_head r
  unfolding upsert_at
  upsert_at-found r e = elim (Bool-cases (old_bucket.term_hash == 0)) [
    | inr taken ↦
        let done : some (update new_head tf idx t) ≡ some r = rw taken at e in
        subst (IsUpserted term new_head) (some_injective done) (updated taken (found-is_term taken))
    | inl free ↦ elim (Bool-cases (ltb t.str_arena.capacity (t.str_arena.offset + length term))) [
      | inl full ↦
          let over : store term t.str_arena ≡ none = unfold store in rw full in
          let nothing : none ≡ some r = rw (free, over) at e in cc
      | inr enough ↦
          let room : t.str_arena.offset + length term ≤ t.str_arena.capacity = ltb→le _ _ enough in
          let got = get-store term t.str_arena v.arena room v.small in
          let short : length term % u32 ≡ length term =
            mod-eq_of_lt (omega (arith, room, v.small)) in
          let done : insert_new term h new_head tf idx t (store term t.str_arena) ≡ some r =
            rw free at e in
          let there : some
                (idx, with_bucket idx new_bucket (t.size + 1) (appended term t.str_arena) t)
              ≡ some r =
            sym (ap (insert_new term h new_head tf idx t) got.0 ∙ unfold insert_new in rw short)
            ∙ done in
          subst (IsUpserted term new_head) (some_injective there) (inserted room)
    ]
  ]

  upsert_at-returns :
      t.str_arena.offset + length term ≤ t.str_arena.capacity
      → (r : ℕ × TermHashTable) × (upsert_at term h new_head tf t (some idx) ≡ some r)
  unfolding upsert_at
  upsert_at-returns room = elim (Bool-cases (old_bucket.term_hash == 0)) [
    | inr taken ↦ (update new_head tf idx t, rw taken)
    | inl free ↦
        let got = get-store term t.str_arena v.arena room v.small in
        (
          (
            idx,
            with_bucket idx (record new_bucket { str_len = length term % u32 }) (t.size + 1)
                (appended term t.str_arena) t,
          ),
          rw (free, got.0) (unfold insert_new in refl),
        )
  ]

-- On a table whose strings are in its arena, where the probes for a term end and the arena has room
-- for it, `upsert` returns, `lookup` of the term then finds the bucket that it returned, and the
-- bucket has the new head of pages.
pub lookup-upsert :
    (term : List ℕ) (new_head tf idx : ℕ) (t : TermHashTable)
    → IsTable t
    → find_slot term (compute_hash term) t ≡ some idx
    → t.str_arena.offset + length term ≤ t.str_arena.capacity
    → (r : ℕ × TermHashTable) × (upsert term new_head tf t ≡ some r) × IsUpserted term new_head r
unfolding upsert
lookup-upsert term new_head tf idx t v at room =
    let (r, e) = upsert_at-returns term new_head tf idx t v at room in
    (
      r,
      ap (upsert_at term (compute_hash term) new_head tf t) at ∙ e,
      upsert_at-found term new_head tf idx t v at r e,
    )
