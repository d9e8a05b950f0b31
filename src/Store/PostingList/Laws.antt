-- ===== src/Store/PostingList/Laws.antt =====
-- What a posting list in memory holds after any calls of `append`.
use piggy_engine.Prelude.{
  ℕ, zero, suc, ◌%◌, List, [], ◌∷◌, ◌++◌, Bool, true, false, Option, none, some, ◌≡◌, refl, sym, ap,
  ◌∙◌, arith, inl, inr,
}
use piggy_engine.Prelude.{
  length, if◌then◌else◌, ◌==◌, Bool-cases, Option-cases, length-append, All, All-append, append-nil,
  append_assoc,
}
use piggy_engine.Prelude.Words.{add32, u32}
use piggy_engine.Core.{PostingEntry}
use piggy_engine.Store.PostingList.{
  PostingList, empty_list, find_doc, bump, bump_at, append_found, append,
}

unfoldable pub further : Option ℕ → Option ℕ
further none = none
further (some i) = some (suc i)

-- The index of the entry of a document.
unfoldable pub entry_at : ℕ → List PostingEntry → Option ℕ
unfolding further
entry_at d [] = none
entry_at d (e ∷ es) = if e.doc_id == d then some 0 else further (entry_at d es)

-- `doc_index_` says where the entries are.
pub record IsIndexed (l : PostingList) : Type 0 where
  pub found : (d : ℕ) → find_doc d l.doc_index ≡ entry_at d l.entries

-- The positions that the list holds for a document.
unfoldable pub positions_of : ℕ → List PostingEntry → List ℕ
positions_of d [] = []
positions_of d (e ∷ es) = if e.doc_id == d then e.positions else positions_of d es

-- Each entry counts its positions.
abbrev pub IsCounted : PostingEntry → Type 0
IsCounted e = e.tf ≡ length e.positions % u32

abbrev fresh : ℕ → ℕ → PostingEntry
fresh doc_id position = record { doc_id = doc_id; tf = 1; positions = position ∷ [] }

abbrev or_else : Option ℕ → Option ℕ → Option ℕ
or_else none other = other
or_else (some i) other = some i

find_doc-append :
    (d e i : ℕ) (ps : List (ℕ × ℕ))
    → find_doc d (ps ++ (e, i) ∷ []) ≡ or_else (find_doc d ps) (if e == d then some i else none)
unfolding find_doc
find_doc-append d e i [] = refl
find_doc-append d e i ((x, j) ∷ ps) = elim (Bool-cases (x == d)) [
  | inl here ↦ rw here refl
  | inr there ↦ rw there (find_doc-append d e i ps)
]

further-or_else : (a b : Option ℕ) → further (or_else a b) ≡ or_else (further a) (further b)
unfolding further
further-or_else none b = refl
further-or_else (some i) b = refl

entry_at-append :
    (d e p : ℕ) (es : List PostingEntry)
    → entry_at d (es ++ fresh e p ∷ [])
      ≡ or_else (entry_at d es) (if e == d then some (length es) else none)
unfolding entry_at further
entry_at-append d e p [] = refl
entry_at-append d e p (x ∷ es) = elim (Bool-cases (x.doc_id == d)) [
  | inl here ↦ rw here refl
  | inr there ↦ rw there (
      ap further (entry_at-append d e p es)
      ∙ further-or_else (entry_at d es) (if e == d then some (length es) else none)
      ∙ ap (or_else (further (entry_at d es))) (ground arith))
]

entry_at-bump_at :
    (d i p : ℕ) (es : List PostingEntry) → entry_at d (bump_at i p es) ≡ entry_at d es
unfolding entry_at bump_at bump
entry_at-bump_at d i p [] = refl
entry_at-bump_at d zero p (x ∷ es) = refl
entry_at-bump_at d (suc i) p (x ∷ es) =
    ap (λ (o : Option ℕ). if x.doc_id == d then some 0 else further o) (entry_at-bump_at d i p es)

abbrev choice : Bool → Option ℕ → Option ℕ
choice b o = if b then some 0 else further o

choice-none : (b : Bool) (o : Option ℕ) → choice b o ≡ none → (b ≡ false) × (o ≡ none)
unfolding further
choice-none true o h = cc
choice-none false none h = (refl, refl)
choice-none false (some i) h = cc

choice-zero : (b : Bool) (o : Option ℕ) → choice b o ≡ some 0 → b ≡ true
unfolding further
choice-zero true o h = refl
choice-zero false none h = cc
choice-zero false (some i) h = cc

choice-suc :
    (b : Bool) (o : Option ℕ) (i : ℕ) → choice b o ≡ some (suc i) → (b ≡ false) × (o ≡ some i)
unfolding further
choice-suc true o i h = cc
choice-suc false none i h = cc
choice-suc false (some j) i h = (refl, cc)

-- What an `append` adds to the positions of `d`.
abbrev added : ℕ → ℕ → ℕ → List ℕ
added d e p = if e == d then p ∷ [] else []

positions_of-append :
    (d e p : ℕ) (es : List PostingEntry)
    → entry_at e es ≡ none
    → positions_of d (es ++ fresh e p ∷ []) ≡ positions_of d es ++ added d e p
unfolding positions_of entry_at further
positions_of-append d e p [] h = refl
positions_of-append d e p (x ∷ es) h =
    let (other, later) = choice-none (x.doc_id == e) (entry_at e es) h in
    elim (Bool-cases (x.doc_id == d)) [
      | inl here ↦
          let apart : (e == d) ≡ false = ground arith in
          rw (here, apart) (sym (append-nil x.positions))
      | inr there ↦ rw there (positions_of-append d e p es later)
    ]

positions_of-bump_at :
    (d e i p : ℕ) (es : List PostingEntry)
    → entry_at e es ≡ some i
    → positions_of d (bump_at i p es) ≡ positions_of d es ++ added d e p
unfolding positions_of entry_at further bump_at bump
positions_of-bump_at d e i p [] h = cc
positions_of-bump_at d e zero p (x ∷ es) h =
    let same = choice-zero (x.doc_id == e) (entry_at e es) h in
    elim (Bool-cases (x.doc_id == d)) [
      | inl here ↦ let it : (e == d) ≡ true = ground arith in rw (here, it) refl
      | inr there ↦
          let apart : (e == d) ≡ false = ground arith in
          rw (there, apart) (sym (append-nil (positions_of d es)))
    ]
positions_of-bump_at d e (suc i) p (x ∷ es) h =
    let (other, later) = choice-suc (x.doc_id == e) (entry_at e es) i h in
    elim (Bool-cases (x.doc_id == d)) [
      | inl here ↦
          let apart : (e == d) ≡ false = ground arith in
          rw (here, apart) (sym (append-nil x.positions))
      | inr there ↦ rw there (positions_of-bump_at d e i p es later)
    ]

IsCounted-bump : (p : ℕ) (e : PostingEntry) → IsCounted e → IsCounted (bump p e)
unfolding bump add32
IsCounted-bump p e h = omega (arith, h, length-append e.positions (p ∷ []))

IsCounted-bump_at :
    (i p : ℕ) (es : List PostingEntry) → All IsCounted es → All IsCounted (bump_at i p es)
unfolding bump_at
IsCounted-bump_at i p [] h = tt
IsCounted-bump_at zero p (e ∷ es) h = (IsCounted-bump p e h.0, h.1)
IsCounted-bump_at (suc i) p (e ∷ es) h = (h.0, IsCounted-bump_at i p es h.1)

-- What one `append` makes of a list: its index fits, each entry counts its positions, and the
-- document has the position behind those that it had.
record IsAppended (e p : ℕ) (l m : PostingList) : Type 0 where
  indexed : IsIndexed m
  counted : All IsCounted m.entries
  positions : (d : ℕ) → positions_of d m.entries ≡ positions_of d l.entries ++ added d e p

append-IsAppended :
    (e p : ℕ) (l : PostingList)
    → IsIndexed l
    → All IsCounted l.entries
    → IsAppended e p l (append e p l).1
unfolding append append_found
append-IsAppended e p l ix counted = elim (Option-cases (find_doc e l.doc_index)) [
  | inl absent ↦ rw absent (record {
    indexed = record {
      found = λ d.
          find_doc-append d e (length l.entries) l.doc_index
          ∙ ap (λ (o : Option ℕ). or_else o (if e == d then some (length l.entries) else none))
              (ix.found d)
          ∙ sym (entry_at-append d e p l.entries);
    };
    counted = All-append IsCounted l.entries (fresh e p ∷ []) counted (omega arith, tt);
    positions = λ d. positions_of-append d e p l.entries (sym (ix.found e) ∙ absent);
  })
  | inr (i, there) ↦ rw there (record {
    indexed = record { found = λ d. ix.found d ∙ sym (entry_at-bump_at d i p l.entries) };
    counted = IsCounted-bump_at i p l.entries counted;
    positions = λ d. positions_of-bump_at d e i p l.entries (sym (ix.found e) ∙ there);
  })
]

-- Calls of `append`, each with a document and a position, one after the other.
unfoldable pub append_all : List (ℕ × ℕ) → PostingList → PostingList
append_all [] l = l
append_all ((e, p) ∷ ops) l = append_all ops (append e p l).1

-- The positions that calls of `append` name for the document `d`, in their order.
unfoldable pub given : ℕ → List (ℕ × ℕ) → List ℕ
given d [] = []
given d ((e, p) ∷ ops) = let rest = given d ops in if e == d then p ∷ rest else rest

added-given : (d e p : ℕ) (ops : List (ℕ × ℕ)) → added d e p ++ given d ops ≡ given d ((e, p) ∷ ops)
unfolding given
added-given d e p ops = elim (Bool-cases (e == d)) [
  | inl same ↦ rw same refl
  | inr other ↦ rw other refl
]

-- What a posting list holds after calls of `append`.
pub record IsBuilt (ops : List (ℕ × ℕ)) (l m : PostingList) : Type 0 where
  pub indexed : IsIndexed m
  pub counted : All IsCounted m.entries
  pub positions : (d : ℕ) → positions_of d m.entries ≡ positions_of d l.entries ++ given d ops

append_all-IsBuilt :
    (ops : List (ℕ × ℕ)) (l : PostingList)
    → IsIndexed l
    → All IsCounted l.entries
    → IsBuilt ops l (append_all ops l)
unfolding append_all given
append_all-IsBuilt [] l ix counted = record {
  indexed = ix;
  counted = counted;
  positions = λ d. sym (append-nil (positions_of d l.entries));
}
append_all-IsBuilt ((e, p) ∷ ops) l ix counted =
    let one = append-IsAppended e p l ix counted in
    let rest = append_all-IsBuilt ops (append e p l).1 one.indexed one.counted in
    record {
      indexed = rest.indexed;
      counted = rest.counted;
      positions = λ d.
          rest.positions d
          ∙ ap (λ (ps : List ℕ). ps ++ given d ops) (one.positions d)
          ∙ append_assoc (positions_of d l.entries) (added d e p) (given d ops)
          ∙ ap (λ (ps : List ℕ). positions_of d l.entries ++ ps) (added-given d e p ops);
    }

-- However `append` is called, in any order of documents, the posting list holds for each document
-- exactly the positions that were given for it, in their order, its index leads to the document's
-- entry, and each entry's `tf` is the number of its positions modulo 2 ^ 32.
pub append_all-IsBuilt_empty :
    (ops : List (ℕ × ℕ)) → IsBuilt ops empty_list (append_all ops empty_list)
unfolding find_doc entry_at
append_all-IsBuilt_empty ops = append_all-IsBuilt ops empty_list (record { found = λ d. refl }) tt
