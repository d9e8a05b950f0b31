-- ===== src/Examples/Wand.antt =====
-- The best documents of three lists.
use piggy_engine.Prelude.{
  ℕ, ◌+◌, ◌≤◌, ◌<◌, List, [], ◌∷◌, map, Bool, true, false, not, ◌≡◌, refl, ap, subst, ◌⊎◌, inl, inr,
  arith,
}
use piggy_engine.Prelude.{length, All, if◌then◌else◌, ltb, leb, leb→le, ◌==◌, Bool-cases}
use piggy_engine.Prelude.Counts.{count}
use piggy_engine.Core.{invalid_doc}
use piggy_engine.Query.Docs.{IsAscending, mem, in_any, drop_below, head_or_invalid, is_nonempty}
use piggy_engine.Query.Docs.Laws.{drop_below-IsAscending}
use piggy_engine.Query.Cursor.{Cursor, Scorer, IsCursor}
use piggy_engine.Query.Wand.Iteration.{Hit, cursor}
use piggy_engine.Query.Wand.{Library, at_least, block_sum, new, max_rounds, wand_loop}
use piggy_engine.Query.Wand.Moves.{total}
use piggy_engine.Query.Wand.Heap.{IsLibrary}
use piggy_engine.Query.Wand.Hits.{pending, IsValid, wand-IsCursor}
use piggy_engine.Query.Wand.Laws.{before_run, wand_loop-stays}
use piggy_engine.Query.Wand.Union.{new-complete_or_full}
use piggy_engine.Examples.Search.{numbers}

-- A list of documents is a scorer of its own: each document scores 1 and is a block.
unfoldable tail : List ℕ → List ℕ
tail [] = []
tail (d ∷ ds) = ds

abbrev list_cursor : Cursor (List ℕ)
list_cursor = record {
  doc_id = head_or_invalid;
  is_end = λ l. not (is_nonempty l);
  next = λ l. (is_nonempty (tail l), tail l);
  advance = λ t l. (is_nonempty (drop_below t l), drop_below t l);
}

abbrev list_scorer : Scorer ℕ (List ℕ)
list_scorer = record {
  cursor = list_cursor;
  score = λ l. 1;
  max_score = λ l. 1;
  block_max_score = λ l. 1;
  block_max_doc_id = head_or_invalid;
}

tail-IsAscending : (s : List ℕ) → IsAscending s → IsAscending (tail s)
unfolding tail
tail-IsAscending [] v = tt
tail-IsAscending (d ∷ ds) v = v.2

list-IsCursor : IsCursor list_cursor IsAscending (λ l. l)
unfolding tail
list-IsCursor = record {
  ascending = λ s v. v;
  doc_id_is = λ s v. refl;
  is_end_is = λ s v. refl;
  next_valid = λ s d ds v e. tail-IsAscending s v;
  next_moves = λ s d ds v e. ap tail e;
  next_returns = λ s d ds v e. ap (λ (l : List ℕ). is_nonempty (tail l)) e;
  advance_valid = λ s t v. drop_below-IsAscending t s v;
  advance_moves = λ s t v. refl;
  advance_returns = λ s t v. refl;
}

-- The list with the least document in front.
unfoldable put : List ℕ → List (List ℕ) → List (List ℕ)
put s [] = s ∷ []
put s (t ∷ ts) = if leb (head_or_invalid s) (head_or_invalid t) then s ∷ t ∷ ts else t ∷ s ∷ ts

unfoldable least_first : List (List ℕ) → List (List ℕ)
unfolding put
least_first [] = []
least_first (s ∷ ss) = put s (least_first ss)

unfoldable least_top : Hit ℕ → List (Hit ℕ) → Hit ℕ × List (Hit ℕ)
least_top e [] = (e, [])
least_top e (f ∷ fs) =
    let r = least_top f fs in if ltb r.0.score e.score then (r.0, e ∷ r.1) else (e, r.0 ∷ r.1)

abbrev lib : Library ℕ (List ℕ)
lib = record { sort = least_first; take_top = least_top }

abbrev IsFirst : List (List ℕ) → Type 0
IsFirst [] = Unit {0}
IsFirst (s ∷ ss) = All (λ t. head_or_invalid s ≤ head_or_invalid t) ss

All-le :
    (a b : ℕ) (ts : List (List ℕ))
    → a ≤ b
    → All (λ t. b ≤ head_or_invalid t) ts
    → All (λ t. a ≤ head_or_invalid t) ts
All-le a b [] le h = tt
All-le a b (t ∷ ts) le h = (omega (arith, le, h.0), All-le a b ts le h.1)

put-IsFirst : (s : List ℕ) (ts : List (List ℕ)) → IsFirst ts → IsFirst (put s ts)
unfolding put
put-IsFirst s [] h = tt
put-IsFirst s (t ∷ ts) h = elim (Bool-cases (leb (head_or_invalid s) (head_or_invalid t))) [
  | inl low ↦
      let le = leb→le (head_or_invalid s) (head_or_invalid t) low in
      rw low (le, All-le (head_or_invalid s) (head_or_invalid t) ts le h)
  | inr above ↦ rw above (ground (arith, above), h)
]

least_first-IsFirst : (cs : List (List ℕ)) → IsFirst (least_first cs)
unfolding least_first
least_first-IsFirst [] = tt
least_first-IsFirst (s ∷ ss) = put-IsFirst s (least_first ss) (least_first-IsFirst ss)

put-All :
    (P : List ℕ → Type 0) (s : List ℕ) (ts : List (List ℕ)) → P s → All P ts → All P (put s ts)
unfolding put
put-All P s [] a h = (a, tt)
put-All P s (t ∷ ts) a h = elim (Bool-cases (leb (head_or_invalid s) (head_or_invalid t))) [
  | inl low ↦ rw low (a, h)
  | inr above ↦ rw above (h.0, (a, h.1))
]

least_first-All : (P : List ℕ → Type 0) (cs : List (List ℕ)) → All P cs → All P (least_first cs)
unfolding least_first
least_first-All P [] h = tt
least_first-All P (s ∷ ss) h = put-All P s (least_first ss) h.0 (least_first-All P ss h.1)

total-put :
    (f : List ℕ → ℕ) (s : List ℕ) (ts : List (List ℕ)) → total f (put s ts) ≡ f s + total f ts
unfolding put total
total-put f s [] = refl
total-put f s (t ∷ ts) = ground arith

total-least_first : (f : List ℕ → ℕ) (cs : List (List ℕ)) → total f (least_first cs) ≡ total f cs
unfolding least_first total
total-least_first f [] = refl
total-least_first f (s ∷ ss) = omega (arith, total-put f s (least_first ss), total-least_first f ss)

count-least_top :
    (q : Hit ℕ → Bool) (e : Hit ℕ) (es : List (Hit ℕ))
    → count q ((least_top e es).0 ∷ (least_top e es).1) ≡ count q (e ∷ es)
unfolding least_top count
count-least_top q e [] = refl
count-least_top q e (f ∷ fs) = elim (Bool-cases (ltb (least_top f fs).0.score e.score)) [
  | inl low ↦ rw low (omega (arith, count-least_top q f fs))
  | inr above ↦ rw above (omega (arith, count-least_top q f fs))
]

is_lib : IsLibrary list_scorer lib
is_lib = record {
  first_least = λ cs ss s e. subst IsFirst e (least_first-IsFirst cs);
  sort_all = least_first-All;
  sort_total = total-least_first;
  top_count = count-least_top;
}

abbrev lists : List (List ℕ)
lists = (1 ∷ 4 ∷ 7 ∷ []) ∷ (4 ∷ 9 ∷ []) ∷ []

lists-IsAscending : All IsAscending lists
lists-IsAscending = (
  (
    ground arith,
    (ground arith, (ground arith, tt)),
    (ground arith, (ground arith, tt), (ground arith, tt, tt)),
  ),
  ((ground arith, (ground arith, tt), (ground arith, tt, tt)), tt),
)

is_alive : ℕ → Bool
is_alive d = not (d == 4)

list_blocks :
    true ≡ true
    → (s : List ℕ) → IsAscending s
    → not (is_nonempty s) ≡ false
    → (head_or_invalid s ≤ head_or_invalid s) × (head_or_invalid s < invalid_doc)
unfolding head_or_invalid is_nonempty
list_blocks t [] v on = absurd (ground (arith, on))
list_blocks t (d ∷ ds) v on = (omega arith, v.0)

bound_at_least : (s : List ℕ) → IsAscending s → at_least numbers list_scorer lib (0 + 1) 0 ≡ true
bound_at_least s v = ground arith

block_at_least :
    (cs : List (List ℕ))
    → All IsAscending cs
    → ltb (block_sum numbers list_scorer lib 0 cs) 0 ≡ false
block_at_least cs v = ground arith

wand-IsCursor_example : IsCursor (cursor {F = ℕ}) IsValid pending
wand-IsCursor_example = wand-IsCursor {F = ℕ}

wand_loop-stays_example :
    let rounds = max_rounds numbers list_scorer lib is_alive 2 true (length lists) in
    let start = before_run numbers list_scorer lib list-IsCursor is_lib is_alive 2 true lists in
    wand_loop numbers list_scorer lib is_alive 2 true (rounds + 5) start
    ≡ wand_loop numbers list_scorer lib is_alive 2 true rounds start
wand_loop-stays_example =
    wand_loop-stays numbers list_scorer lib list-IsCursor is_lib is_alive 2 true lists 5
      lists-IsAscending list_blocks

new-complete_or_full_example :
    let w = new numbers list_scorer lib is_alive 2 true lists in
    (length w.doc_order_hits ≡ 2)
    ⊎ ((d : ℕ)
        → is_alive d ≡ true
        → in_any d (map (λ l. l) lists) ≡ true
        → mem d (pending w) ≡ true)
new-complete_or_full_example =
    new-complete_or_full numbers list_scorer lib list-IsCursor is_lib is_alive 2 true bound_at_least
      block_at_least lists lists-IsAscending
