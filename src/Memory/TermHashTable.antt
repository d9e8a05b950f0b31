-- ===== src/Memory/TermHashTable.antt =====
-- modules/memory/src/term_hash_table.cpp: open addressing with linear probing over term strings.
pub mod Probe
pub mod Table
pub mod Laws
use piggy_engine.Prelude.{
  ℕ, zero, suc, ◌+◌, ◌-◌, ◌*◌, ◌%◌, bit_and, bit_xor, List, [], ◌∷◌, Bool, ◌&&◌, Option, none, some,
}
use piggy_engine.Prelude.{if◌then◌else◌, ◌==◌, length, get_or, set, replicate}
use piggy_engine.Prelude.Words.{u32, add32}
use piggy_engine.Analysis.Analyzer.{same_word}
use piggy_engine.Memory.StringArena.{StringArena}
use piggy_engine.Memory.StringArena as StringArena

pub record Bucket : Type 0 where
  pub term_hash : ℕ
  pub str_offset : ℕ
  pub str_len : ℕ
  pub term_page_head : ℕ
  pub doc_freq : ℕ
  pub total_tf : ℕ

-- as `calloc` and `memset` leave it
abbrev pub empty_bucket : Bucket
empty_bucket = record {
  term_hash = 0;
  str_offset = 0;
  str_len = 0;
  term_page_head = 0;
  doc_freq = 0;
  total_tf = 0;
}

pub record TermHashTable : Type 0 where
  pub buckets : List Bucket
  pub capacity : ℕ
  pub size : ℕ
  pub str_arena : StringArena

-- FNV-1a
unfoldable pub hash_loop : ℕ → List ℕ → ℕ
hash_loop h [] = h
hash_loop h (c ∷ cs) = hash_loop (bit_xor h c * 16777619 % u32) cs

unfoldable pub compute_hash : List ℕ → ℕ
unfolding hash_loop
compute_hash s = let h = hash_loop 2166136261 s in if h == 0 then 1 else h

-- The constructor; `none` is the exception `invalid_argument`.
unfoldable pub new : ℕ → List ℕ → Option TermHashTable
new capacity base =
    let table : TermHashTable = record {
      buckets = replicate capacity empty_bucket;
      capacity = capacity;
      size = 0;
      str_arena = StringArena.new base;
    } in
    if capacity == 0
    then none
    else if bit_and capacity (capacity - 1) == 0
    then some table
    else none

unfoldable pub start_slot : ℕ → TermHashTable → ℕ
start_slot h t = bit_and h (t.capacity - 1)

abbrev pub bucket_at : ℕ → TermHashTable → Bucket
bucket_at idx t = get_or t.buckets idx empty_bucket

-- The test for an existing term.
unfoldable pub is_term : List ℕ → ℕ → Bucket → TermHashTable → Bool
is_term term h b t =
    b.term_hash == h
    && (b.str_len == length term % u32
        && same_word (StringArena.get b.str_offset b.str_len t.str_arena) term)

-- The loop over `probe`; `none` is the exception `overflow_error`.
unfoldable pub find_loop : List ℕ → ℕ → TermHashTable → ℕ → ℕ → Option ℕ
unfolding is_term
find_loop term h t zero idx = none
find_loop term h t (suc probes) idx =
    let b = bucket_at idx t in
    let later = find_loop term h t probes (bit_and (idx + 1) (t.capacity - 1)) in
    if b.term_hash == 0 then some idx else if is_term term h b t then some idx else later

unfoldable pub find_slot : List ℕ → ℕ → TermHashTable → Option ℕ
unfolding find_loop start_slot
find_slot term h t = find_loop term h t t.capacity (start_slot h t)

unfoldable pub insert_new :
    List ℕ → ℕ → ℕ → ℕ → ℕ → TermHashTable → Option (ℕ × StringArena) → Option (ℕ × TermHashTable)
insert_new term h new_head tf idx t none = none
insert_new term h new_head tf idx t (some (offset, arena)) =
    let b : Bucket = record {
      term_hash = h;
      str_offset = offset;
      str_len = length term % u32;
      term_page_head = new_head;
      doc_freq = 1;
      total_tf = tf;
    } in
    some (
      idx,
      record {
        buckets = set t.buckets idx b;
        capacity = t.capacity;
        size = t.size + 1;
        str_arena = arena;
      },
    )

unfoldable pub update : ℕ → ℕ → ℕ → TermHashTable → ℕ × TermHashTable
update new_head tf idx t =
    let b = bucket_at idx t in
    let b' : Bucket = record b {
      term_page_head = new_head;
      doc_freq = add32 b.doc_freq 1;
      total_tf = add32 b.total_tf tf;
    } in
    (idx, record t { buckets = set t.buckets idx b' })

unfoldable pub upsert_at :
    List ℕ → ℕ → ℕ → ℕ → TermHashTable → Option ℕ → Option (ℕ × TermHashTable)
unfolding insert_new update
upsert_at term h new_head tf t none = none
upsert_at term h new_head tf t (some idx) =
    if (bucket_at idx t).term_hash == 0
    then insert_new term h new_head tf idx t (StringArena.store term t.str_arena)
    else some (update new_head tf idx t)

-- The index of the bucket that is returned, or `none` for an exception.
unfoldable pub upsert : List ℕ → ℕ → ℕ → TermHashTable → Option (ℕ × TermHashTable)
unfolding compute_hash find_slot upsert_at
upsert term new_head tf t =
    let h = compute_hash term in upsert_at term h new_head tf t (find_slot term h t)

unfoldable pub lookup_at : TermHashTable → Option ℕ → Option (Option Bucket)
lookup_at t none = none
lookup_at t (some idx) =
    let b = bucket_at idx t in if b.term_hash == 0 then some none else some (some b)

-- `none` is the exception, `some none` is `nullptr`.
unfoldable pub lookup : List ℕ → TermHashTable → Option (Option Bucket)
unfolding compute_hash find_slot lookup_at
lookup term t = lookup_at t (find_slot term (compute_hash term) t)

unfoldable pub term_string : Bucket → TermHashTable → List ℕ
term_string b t = StringArena.get b.str_offset b.str_len t.str_arena

unfoldable pub reset : TermHashTable → TermHashTable
reset t = record t {
  buckets = replicate t.capacity empty_bucket;
  size = 0;
  str_arena = StringArena.reset t.str_arena;
}
