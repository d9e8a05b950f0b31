-- ===== src/Memory/StringArena/Laws.antt =====
-- Strings stay where they were stored.
use native.Mathlib.Nat.{mod-eq_of_lt}
use piggy_engine.Prelude.{
  ℕ, zero, suc, ◌+◌, ◌%◌, ◌≤◌, ◌<◌, List, [], ◌∷◌, ◌++◌, ◌≡◌, refl, sym, ap, ◌∙◌, arith, some,
  false,
}
use piggy_engine.Prelude.{
  ltb, length, take, drop, length-append, length-take, length-drop, take-append_length,
  drop-append_length,
}
use piggy_engine.Prelude.Words.{u32}
use piggy_engine.Memory.StringArena.{StringArena, write_at, appended, store, get}

pub record IsValid (a : StringArena) : Type 0 where
  pub whole : length a.base ≡ a.capacity
  pub inside : a.offset ≤ a.capacity

take_front : (l n : ℕ) (xs r : List ℕ) → l ≤ n → n ≤ length xs → take l (take n xs ++ r) ≡ take l xs
take_front zero n xs r h k = refl
take_front (suc l) zero xs r h k = absurd (omega arith)
take_front (suc l) (suc n) [] r h k = absurd (omega arith)
take_front (suc l) (suc n) (x ∷ xs) r h k =
    ap (λ (t : List ℕ). x ∷ t) (take_front l n xs r (omega arith) (omega arith))

-- What stands in front of a place does not depend on what is behind it.
take-drop_front :
    (o l n : ℕ) (xs r : List ℕ)
    → o + l ≤ n
    → n ≤ length xs
    → take l (drop o (take n xs ++ r)) ≡ take l (drop o xs)
take-drop_front zero l n xs r h k = take_front l n xs r (omega arith) k
take-drop_front (suc o) l zero xs r h k = absurd (omega arith)
take-drop_front (suc o) l (suc n) [] r h k = absurd (omega arith)
take-drop_front (suc o) l (suc n) (x ∷ xs) r h k =
    take-drop_front o l n xs r (omega arith) (omega arith)

module _ (s : List ℕ) (a : StringArena) (v : IsValid a)
    (room : a.offset + length s ≤ a.capacity) where
  front_size : length (take a.offset a.base) ≡ a.offset
  front_size = omega (arith, length-take a.offset a.base, v.whole, v.inside)

  appended-IsValid : IsValid (appended s a)
  unfolding appended write_at
  appended-IsValid =
      let behind = drop (a.offset + length s) a.base in
      record {
        whole = omega (
          arith,
          front_size,
          length-append (take a.offset a.base) (s ++ behind),
          length-append s behind,
          length-drop (a.offset + length s) a.base,
          v.whole,
        );
        inside = room;
      }

  get-appended : get a.offset (length s) (appended s a) ≡ s
  unfolding get appended write_at
  get-appended =
      let behind = drop (a.offset + length s) a.base in
      let reach : drop a.offset (take a.offset a.base ++ (s ++ behind)) ≡ s ++ behind =
        ap (λ (n : ℕ). drop n (take a.offset a.base ++ (s ++ behind))) (sym front_size)
        ∙ drop-append_length (take a.offset a.base) (s ++ behind) in
      ap (take (length s)) reach ∙ take-append_length s behind

  store-room : a.capacity < u32 → store s a ≡ some (a.offset, appended s a)
  unfolding store
  store-room small =
      let fits : ltb a.capacity (a.offset + length s) ≡ false = ground arith in
      let same : a.offset % u32 ≡ a.offset = mod-eq_of_lt (omega arith) in rw (fits, same)

  -- A string that has room in a valid arena of fewer than 2 ^ 32 bytes is stored at the end of the
  -- strings before it, and `get` finds it there; the arena stays valid.
  pub get-store :
      a.capacity < u32
      → (store s a ≡ some (a.offset, appended s a))
        × (get a.offset (length s) (appended s a) ≡ s)
        × IsValid (appended s a)
  get-store small = (store-room small, get-appended, appended-IsValid)

  -- Storing a string that has room in a valid arena changes no string that was stored before.
  pub get-appended_earlier : (o l : ℕ) → o + l ≤ a.offset → get o l (appended s a) ≡ get o l a
  unfolding get appended write_at
  get-appended_earlier o l before =
      take-drop_front o l a.offset a.base (s ++ drop (a.offset + length s) a.base) before
        (omega (arith, v.whole, v.inside))
