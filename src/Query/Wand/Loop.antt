-- ===== src/Query/Wand/Loop.antt =====
-- The loop of `runWAND` ends.
use piggy_engine.Prelude.{
  ℕ, zero, suc, ◌+◌, ◌≤◌, ◌<◌, List, [], ◌∷◌, Bool, true, false, not, ◌≡◌, refl, sym, ap, subst,
  ◌∙◌, ◌⊎◌, inl, inr, arith,
}
use piggy_engine.Prelude.{All, Bool-cases}
use piggy_engine.Core.{invalid_doc}
use piggy_engine.Query.Docs.{IsAscending, head_or_invalid, is_nonempty}
use piggy_engine.Query.Docs.Cases.{at_end, empty-nil, not-true}
use piggy_engine.Query.Cursor.{Scorer, IsCursor}
use piggy_engine.Query.Floats.{Float32}
use piggy_engine.Query.Wand.{
  Run, Library, Outcome, ended, going, drop_ended, unless_last_ended, sorted_round, find_pivot,
  round, go_on, wand_loop,
}
use piggy_engine.Query.Wand.Moves.{total, IsGood, left}
use piggy_engine.Query.Wand.Heap.{IsLibrary}
use piggy_engine.Query.Wand.Rounds.{
  Heaped, Good, measure, IsRun, Leads, Passes, Progress, pivot_round-Progress,
}

module _ {F S : Type 0} (sc : Scorer F S) where
  drop_ended-All : (P : S → Type 0) (cs : List S) → All P cs → All P (drop_ended sc cs)
  unfolding drop_ended
  drop_ended-All P [] h = tt
  drop_ended-All P (s ∷ ss) h = keep P s (drop_ended sc ss) h.0 (drop_ended-All P ss h.1)
    where
      keep :
          (P : S → Type 0) (s : S) (rest : List S)
          → P s
          → All P rest
          → All P (unless_last_ended sc s rest)
      keep P s (t ∷ ts) p h = (p, h)
      keep P s [] p h = elim (Bool-cases (sc.cursor.is_end s)) [
        | inl over ↦ rw over tt
        | inr on ↦ rw on (p, tt)
      ]

  pub drop_ended-total : (f : S → ℕ) (cs : List S) → total f (drop_ended sc cs) ≤ total f cs
  unfolding drop_ended total
  drop_ended-total f [] = omega arith
  drop_ended-total f (s ∷ ss) = omega (arith, fewer f s (drop_ended sc ss), drop_ended-total f ss)
    where
      fewer :
          (f : S → ℕ) (s : S) (rest : List S)
          → total f (unless_last_ended sc s rest) ≤ f s + total f rest
      fewer f s (t ∷ ts) = omega arith
      fewer f s [] = ground arith

  All-ended-nil : (cs : List S) → All (λ s. sc.cursor.is_end s ≡ true) cs → drop_ended sc cs ≡ []
  unfolding drop_ended
  All-ended-nil [] h = refl
  All-ended-nil (s ∷ ss) h = rw (All-ended-nil ss h.1, h.0) refl

  drop_ended-cons :
      (s : S) (ss : List S)
      → sc.cursor.is_end s ≡ false
      → drop_ended sc (s ∷ ss) ≡ s ∷ drop_ended sc ss
  unfolding drop_ended
  drop_ended-cons s ss on = keeps (drop_ended sc ss)
    where
      keeps : (rest : List S) → unless_last_ended sc s rest ≡ s ∷ rest
      keeps [] = rw on refl
      keeps (t ∷ ts) = refl

head-le : (l : List ℕ) → IsAscending l → head_or_invalid l ≤ invalid_doc
unfolding head_or_invalid
head-le [] h = omega arith
head-le (d ∷ ds) h = omega (arith, h.0)

list_cases : {A : Type 0} (l : List A) → (l ≡ []) ⊎ ((x : A) × (xs : List A) × (l ≡ x ∷ xs))
list_cases [] = inl refl
list_cases (x ∷ xs) = inr (x, xs, refl)

module _ {F S : Type 0} (fl : Float32 F) (sc : Scorer F S) (lib : Library F S)
    {IsValid : S → Type 0} {pending : S → List ℕ} (ic : IsCursor sc.cursor IsValid pending)
    (is_lib : IsLibrary sc lib) (known accepts : ℕ → Bool) (top_k : ℕ) where
  -- Behind an ended child all are ended.
  ended_behind :
      (floor : ℕ) (ss : List S)
      → Good fl sc lib ic is_lib known accepts top_k floor ss
      → All (λ t. invalid_doc ≤ sc.cursor.doc_id t) ss
      → All (λ t. sc.cursor.is_end t ≡ true) ss
  ended_behind floor [] g low = tt
  ended_behind floor (t ∷ ts) g low =
      let v = g.0.valid in
      let asc = ic.ascending t v in
      let none : pending t ≡ [] =
        at_end (pending t) asc (omega (arith, head-le (pending t) asc, ic.doc_id_is t v, low.0)) in
      (
        ic.is_end_is t v
            ∙ ap (λ (l : List ℕ). not (is_nonempty l)) none
            ∙ unfold is_nonempty in refl,
        ended_behind floor ts g.1 low.1,
      )

  pub ready :
      (floor : ℕ) (children : List S)
      → Good fl sc lib ic is_lib known accepts top_k floor children
      → let cs = drop_ended sc (lib.sort children) in
        (cs ≡ [])
        ⊎ ((s : S) × (ss : List S) × (cs ≡ s ∷ ss)
            × Leads fl sc lib ic is_lib known accepts top_k floor s ss)
  ready floor children g =
      let good = is_lib.sort_all (IsGood sc ic known floor) children g in
      elim (list_cases (lib.sort children)) [
        | inl none ↦ inl (ap (drop_ended sc) none ∙ unfold drop_ended in refl)
        | inr (s, ss, e) ↦
            let gs = subst (All (IsGood sc ic known floor)) e good in
            let least = is_lib.first_least children ss s e in
            elim (Bool-cases (sc.cursor.is_end s)) [
              | inl over ↦
                  let v = gs.0.valid in
                  let none : pending s ≡ [] =
                    empty-nil (pending s)
                      (not-true (is_nonempty (pending s)) (sym (ic.is_end_is s v) ∙ over)) in
                  let last : sc.cursor.doc_id s ≡ invalid_doc =
                    ic.doc_id_is s v ∙ ap head_or_invalid none ∙ unfold head_or_invalid in refl in
                  let behind =
                    ended_behind floor ss gs.1
                      (subst (λ (k : ℕ). All (λ t. k ≤ sc.cursor.doc_id t) ss) last least) in
                  inl (ap (drop_ended sc) e ∙ All-ended-nil sc (s ∷ ss) (over, behind))
              | inr on ↦ inr (
                s,
                drop_ended sc ss,
                ap (drop_ended sc) e ∙ drop_ended-cons sc s ss on,
                (
                  (gs.0, drop_ended-All sc (IsGood sc ic known floor) ss gs.1),
                  on,
                  drop_ended-All sc (λ t. sc.cursor.doc_id s ≤ sc.cursor.doc_id t) ss least,
                ),
              )
            ]
      ]

  module _ (use_block_max : Bool) where
    abbrev pub Runs : Run F S → Type 0
    Runs = IsRun fl sc lib ic is_lib known accepts top_k

    abbrev pub Moving : F → Type 0
    Moving = Passes fl sc lib ic is_lib known accepts top_k use_block_max

    abbrev pub Goes : F → ℕ → Outcome F S → Type 0
    Goes = Progress fl sc lib ic is_lib known accepts top_k use_block_max

    abbrev pub size_of : List S → ℕ
    size_of = measure fl sc lib ic is_lib known accepts top_k

    abbrev pub next_round : Run F S → Outcome F S
    next_round = round fl sc lib accepts top_k use_block_max

    abbrev pub loop : ℕ → Run F S → Run F S
    loop = wand_loop fl sc lib accepts top_k use_block_max

    Goes-weaken : (theta : F) (m n : ℕ) (o : Outcome F S) → m ≤ n → Goes theta m o → Goes theta n o
    Goes-weaken theta m n (ended r) le h = h
    Goes-weaken theta m n (going r) le h = (h.0, λ passes. omega (arith, h.1 passes, le))

    sorted_round-Goes :
        (floor : ℕ) (cs : List S) (st : Run F S)
        → Heaped fl sc lib ic is_lib known accepts top_k floor st.heap
        → (cs ≡ [])
          ⊎ ((s : S) × (ss : List S) × (cs ≡ s ∷ ss)
              × Leads fl sc lib ic is_lib known accepts top_k floor s ss)
        → Goes st.theta (size_of cs) (sorted_round fl sc lib accepts top_k use_block_max cs st)
    unfolding sorted_round
    sorted_round-Goes floor cs st heaped (inl none) =
        rw none (record { floor = floor; good = tt; heaped = heaped })
    sorted_round-Goes floor cs st heaped (inr (s, ss, e, h)) = rw e (
        pivot_round-Progress fl sc lib ic is_lib known accepts top_k use_block_max floor s ss
          (find_pivot fl sc lib st.theta fl.zero_f (s ∷ ss)) st h heaped)

    pub round-Goes : (st : Run F S) → Runs st → Goes st.theta (size_of st.children) (next_round st)
    unfolding round
    round-Goes st v =
        let cs = drop_ended sc (lib.sort st.children) in
        let count_left = left sc ic known in
        Goes-weaken st.theta (size_of cs) (size_of st.children) (next_round st)
          (omega (
            arith,
            drop_ended-total sc count_left (lib.sort st.children),
            is_lib.sort_total count_left st.children,
          ))
          (sorted_round-Goes v.floor cs st v.heaped (ready v.floor st.children v.good))

    pub loop-IsRun : (fuel : ℕ) (st : Run F S) → Runs st → Runs (loop fuel st)
    unfolding wand_loop
    loop-IsRun zero st v = v
    loop-IsRun (suc fuel) st v =
        after st.theta (size_of st.children) (next_round st) (round-Goes st v)
          (λ r w. loop-IsRun fuel r w)
      where
        after :
            (theta : F) (n : ℕ) (o : Outcome F S)
            → Goes theta n o
            → ((r : Run F S) → Runs r → Runs (loop fuel r))
            → Runs (go_on fl sc lib accepts top_k use_block_max (λ r. loop fuel r) o)
        after theta n (ended r) h again = h
        after theta n (going r) h again = again r h.0

    -- With more rounds than the children have documents, further rounds change nothing.
    pub loop-stays :
        (fuel extra : ℕ) (st : Run F S)
        → ((theta : F) → Moving theta)
        → Runs st
        → size_of st.children < fuel
        → loop (fuel + extra) st ≡ loop fuel st
    unfolding wand_loop
    loop-stays zero extra st passes v enough = absurd (omega arith)
    loop-stays (suc fuel) extra st passes v enough =
        let more : suc fuel + extra ≡ suc (fuel + extra) = omega arith in
        rw more (
          after st.theta (passes st.theta) (size_of st.children) (next_round st) (omega arith)
            (round-Goes st v) (λ r w less. loop-stays fuel extra r passes w less))
      where
        after :
            (theta : F) (moves : Moving theta) (n : ℕ) (o : Outcome F S)
            → n < suc fuel
            → Goes theta n o
            → ((r : Run F S)
                → Runs r
                → size_of r.children < fuel
                → loop (fuel + extra) r ≡ loop fuel r)
            → go_on fl sc lib accepts top_k use_block_max (λ r. loop (fuel + extra) r) o
              ≡ go_on fl sc lib accepts top_k use_block_max (λ r. loop fuel r) o
        after theta moves n (ended r) lt h again = refl
        after theta moves n (going r) lt h again = again r h.0 (omega (arith, lt, h.1 moves))
