-- ===== src/Memory/TermHashTable/Table.antt =====
-- A well-formed table: where its slots are, and what setting a bucket does.
use piggy_engine.Prelude.{
  ℕ, zero, suc, ◌+◌, ◌-◌, ◌≤◌, ◌<◌, bit_and, List, [], ◌∷◌, true, false, some, ◌≡◌, refl, sym, ap,
  ◌∙◌, arith, subst,
}
use piggy_engine.Prelude.{
  ◌==◌, length, get_or, set, get_or-set_self, get_or-set_ne, All, Bool-cases, inl, inr,
}
use piggy_engine.Prelude.Words.{u32}
use piggy_engine.Prelude.Bits.{bit_and-le}
use piggy_engine.Memory.StringArena.{StringArena, appended, store}
use piggy_engine.Memory.StringArena as StringArena
use piggy_engine.Memory.StringArena.Laws.{get-store, get-appended_earlier}
use piggy_engine.Memory.StringArena.Laws as Arena
use piggy_engine.Memory.TermHashTable.{
  Bucket, empty_bucket, TermHashTable, start_slot, bucket_at, is_term, find_loop, find_slot,
  term_string,
}
use piggy_engine.Memory.TermHashTable.Probe.{Replaces, some_injective}

pub record IsTable (t : TermHashTable) : Type 0 where
  pub pos : 1 ≤ t.capacity
  pub whole : length t.buckets ≡ t.capacity
  pub arena : Arena.IsValid t.str_arena
  pub small : t.str_arena.capacity < u32
  pub stored : All (λ b. b.str_offset + b.str_len ≤ t.str_arena.offset) t.buckets

pub All-get_or :
    (n i : ℕ) (bs : List Bucket)
    → All (λ b. b.str_offset + b.str_len ≤ n) bs
    → (get_or bs i empty_bucket).str_offset + (get_or bs i empty_bucket).str_len ≤ n
All-get_or n i [] h = omega arith
All-get_or n zero (b ∷ bs) h = h.0
All-get_or n (suc i) (b ∷ bs) h = All-get_or n i bs h.1

find_loop-lt :
    (term : List ℕ) (h idx : ℕ) (t : TermHashTable) (probes j : ℕ)
    → j < t.capacity
    → find_loop term h t probes j ≡ some idx
    → idx < t.capacity
unfolding find_loop
find_loop-lt term h idx t zero j lt e = cc
find_loop-lt term h idx t (suc probes) j lt e = elim (Bool-cases ((bucket_at j t).term_hash == 0)) [
  | inl free ↦
      let stop : some j ≡ some idx = rw free at e in
      subst (λ n. n < t.capacity) (some_injective stop) lt
  | inr taken ↦ elim (Bool-cases (is_term term h (bucket_at j t) t)) [
    | inl hit ↦
        let stop : some j ≡ some idx = rw (taken, hit) at e in
        subst (λ n. n < t.capacity) (some_injective stop) lt
    | inr miss ↦
        let next = bit_and (j + 1) (t.capacity - 1) in
        let e' : find_loop term h t probes next ≡ some idx = rw (taken, miss) at e in
        find_loop-lt term h idx t probes next
          (omega (arith, bit_and-le (j + 1) (t.capacity - 1), lt)) e'
  ]
]

pub find_loop-is_term :
    (term : List ℕ) (h idx : ℕ) (t : TermHashTable) (probes j : ℕ)
    → ((bucket_at idx t).term_hash == 0) ≡ false
    → find_loop term h t probes j ≡ some idx
    → is_term term h (bucket_at idx t) t ≡ true
unfolding find_loop
find_loop-is_term term h idx t zero j used e = cc
find_loop-is_term term h idx t (suc probes) j used e =
    elim (Bool-cases ((bucket_at j t).term_hash == 0)) [
      | inl free ↦
          let stop : some j ≡ some idx = rw free at e in
          let also : ((bucket_at idx t).term_hash == 0) ≡ true =
            ap (λ (n : ℕ). (bucket_at n t).term_hash == 0) (sym (some_injective stop)) ∙ free in
          cc
      | inr taken ↦ elim (Bool-cases (is_term term h (bucket_at j t) t)) [
        | inl hit ↦
            let stop : some j ≡ some idx = rw (taken, hit) at e in
            ap (λ (n : ℕ). is_term term h (bucket_at n t) t) (sym (some_injective stop)) ∙ hit
        | inr miss ↦
            let next = bit_and (j + 1) (t.capacity - 1) in
            let e' : find_loop term h t probes next ≡ some idx = rw (taken, miss) at e in
            find_loop-is_term term h idx t probes next used e'
      ]
    ]

pub find_slot-lt :
    (term : List ℕ) (h idx : ℕ) (t : TermHashTable)
    → 1 ≤ t.capacity
    → find_slot term h t ≡ some idx
    → idx < t.capacity
unfolding find_slot start_slot
find_slot-lt term h idx t pos e =
    find_loop-lt term h idx t t.capacity (bit_and h (t.capacity - 1))
      (omega (arith, bit_and-le h (t.capacity - 1), pos)) e

-- The table with a bucket set.
abbrev pub with_bucket : ℕ → Bucket → ℕ → StringArena → TermHashTable → TermHashTable
with_bucket idx b n arena t = record {
  buckets = set t.buckets idx b;
  capacity = t.capacity;
  size = n;
  str_arena = arena;
}

pub set-Replaces :
    (term : List ℕ) (h idx n : ℕ) (t : TermHashTable) (b : Bucket) (arena : StringArena)
    → idx < length t.buckets
    → (b.term_hash == 0) ≡ false
    → is_term term h b (with_bucket idx b n arena t) ≡ true
    → ((j : ℕ)
        → StringArena.get (bucket_at j t).str_offset (bucket_at j t).str_len arena
          ≡ StringArena.get (bucket_at j t).str_offset (bucket_at j t).str_len t.str_arena)
    → Replaces term h idx t (with_bucket idx b n arena t)
unfolding term_string
set-Replaces term h idx n t b arena lt filled matches strings =
    let self : get_or (set t.buckets idx b) idx empty_bucket ≡ b =
      get_or-set_self t.buckets idx b empty_bucket lt in
    record {
      capacity = refl;
      others = λ j ne. get_or-set_ne t.buckets idx j b empty_bucket (λ e. ne (sym e));
      strings = λ j used. unfold term_string in strings j;
      filled = ap (λ (x : Bucket). x.term_hash == 0) self ∙ filled;
      matches = ap (λ (x : Bucket). is_term term h x (with_bucket idx b n arena t)) self ∙ matches;
    }
