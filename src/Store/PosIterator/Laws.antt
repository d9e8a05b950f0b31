-- ===== src/Store/PosIterator/Laws.antt =====
-- What was written of a term's positions is read back.
use piggy_engine.Prelude.{
  ℕ, ◌+◌, ◌-◌, ◌<◌, List, [], ◌∷◌, ◌++◌, Bool, true, false, some, ◌≡◌, refl, sym, ap, ◌∙◌, subst,
  arith,
}
use piggy_engine.Prelude.{length, get_or, drop, ◌==◌, All, append_assoc, drop-drop}
use piggy_engine.Prelude.Words.{IsU32, u32_bytes}
use piggy_engine.Core.{PostingEntry}
use piggy_engine.Store.InputFile.{InputFile, opened, seek, read_u32_over-u32_bytes}
use piggy_engine.Store.PosIterator.{
  PosIterator, read_positions, load_next, next, is_end, blank, open_at, new, positions_bytes,
  entries_bytes,
}

-- The fields hold what their C++ types hold, and `tf` is the number of positions.
pub record IsEntry (e : PostingEntry) : Type 0 where
  pub doc : IsU32 e.doc_id
  pub tf : IsU32 e.tf
  pub count : e.tf ≡ length e.positions
  pub small : All IsU32 e.positions

-- the current document of an iterator
abbrev pub current : PosIterator → PostingEntry
current s = record { doc_id = s.cur_doc_id; tf = s.cur_tf; positions = s.cur_positions }

-- From `s` on, calls of `next` give these entries, and then the end.
abbrev pub Yields : PosIterator → List PostingEntry → Type 0
Yields s [] = is_end s ≡ true
Yields s (e ∷ es) = (is_end s ≡ false) × (current s ≡ e) × Yields (next s) es

-- a stream that has read on to `pos`
abbrev at_pos : InputFile → ℕ → InputFile
at_pos f pos = record { bytes = f.bytes; pos = pos; good = true }

four_on :
    (f : InputFile) (x : ℕ) (rest : List ℕ)
    → drop f.pos f.bytes ≡ u32_bytes x ++ rest
    → drop (f.pos + 4) f.bytes ≡ rest
four_on f x rest at = sym (drop-drop f.pos 4 f.bytes) ∙ ap (drop 4) at

read_positions-positions_bytes :
    (ps old rest : List ℕ) (i : ℕ) (f : InputFile)
    → All IsU32 ps
    → f.good ≡ true
    → drop f.pos f.bytes ≡ positions_bytes ps ++ rest
    → (k : ℕ) × (read_positions (length ps) i old f ≡ (ps, at_pos f k)) × (drop k f.bytes ≡ rest)
unfolding read_positions positions_bytes
read_positions-positions_bytes [] old rest i f small ok at = (
  f.pos,
  ap
      (λ (g : Bool).
        let r : List ℕ × InputFile = ([], record { bytes = f.bytes; pos = f.pos; good = g }) in r)
      ok,
  at,
)
read_positions-positions_bytes (p ∷ ps) old rest i f small ok at =
    let here =
      read_u32_over-u32_bytes (get_or old i 0) p (positions_bytes ps ++ rest) f small.0 ok at in
    let (k, more, there) =
      read_positions-positions_bytes ps old rest (i + 1) (at_pos f (f.pos + 4)) small.1 refl
        (four_on f p (positions_bytes ps ++ rest) at) in
    (k, rw (here, more) refl, there)

-- The state once an entry is read.
abbrev after_entry : PosIterator → PostingEntry → ℕ → PosIterator
after_entry s e k = record {
  file = at_pos s.file k;
  remaining = s.remaining - 1;
  preloaded = true;
  cur_doc_id = e.doc_id;
  cur_tf = e.tf;
  cur_positions = e.positions;
}

load_next-entry :
    (s : PosIterator) (e : PostingEntry) (rest : List ℕ)
    → IsEntry e
    → s.file.good ≡ true
    → 0 < s.remaining
    → drop s.file.pos s.file.bytes
      ≡ u32_bytes e.doc_id ++ (u32_bytes e.tf ++ (positions_bytes e.positions ++ rest))
    → (k : ℕ) × (load_next s ≡ after_entry s e k) × (drop k s.file.bytes ≡ rest)
unfolding load_next
load_next-entry s e rest h ok more at =
    let f1 = at_pos s.file (s.file.pos + 4) in
    let f2 = at_pos s.file (s.file.pos + 4 + 4) in
    let behind_doc = four_on s.file e.doc_id _ at in
    let behind_tf = four_on f1 e.tf (positions_bytes e.positions ++ rest) behind_doc in
    let doc = read_u32_over-u32_bytes s.cur_doc_id e.doc_id _ s.file h.doc ok at in
    let tf = read_u32_over-u32_bytes s.cur_tf e.tf _ f1 h.tf refl behind_doc in
    let (k, read_all, there) =
      read_positions-positions_bytes e.positions s.cur_positions rest 0 f2 h.small refl behind_tf in
    let counted : read_positions e.tf 0 s.cur_positions f2 ≡ (e.positions, at_pos f2 k) =
      ap (λ (n : ℕ). read_positions n 0 s.cur_positions f2) h.count ∙ read_all in
    let going : (s.remaining == 0) ≡ false = ground arith in
    (k, rw (doc, tf, counted, going) refl, there)

-- Before the entries `es`, with as many left to read.
load_next-Yields :
    (es : List PostingEntry) (s : PosIterator) (after : List ℕ)
    → All IsEntry es
    → s.file.good ≡ true
    → s.remaining ≡ length es
    → drop s.file.pos s.file.bytes ≡ entries_bytes es ++ after
    → Yields (load_next s) es
unfolding entries_bytes is_end load_next
load_next-Yields [] s after h ok left at =
    let over : (s.remaining == 0) ≡ true = ground arith in rw over (ground (arith, over))
load_next-Yields (e ∷ es) s after h ok left at =
    let shape : entries_bytes (e ∷ es) ++ after
        ≡ u32_bytes e.doc_id
          ++ (u32_bytes e.tf ++ (positions_bytes e.positions ++ (entries_bytes es ++ after))) =
      ap (λ (l : List ℕ). u32_bytes e.doc_id ++ (u32_bytes e.tf ++ l))
        (append_assoc (positions_bytes e.positions) (entries_bytes es) after) in
    let (k, there, behind) =
      load_next-entry s e (entries_bytes es ++ after) h.0 ok (omega (arith, left)) (at ∙ shape) in
    let ih = load_next-Yields es (after_entry s e k) after h.1 refl (omega (arith, left)) behind in
    subst (λ (t : PosIterator). Yields t (e ∷ es)) (sym there) (ground arith, refl, ih)

-- Opened where the loops over the entries wrote them, `PosIterator` gives all the entries, in order,
-- with their positions, and then is at its end, whatever stands before and behind them in the file.
pub new-Yields :
    (es : List PostingEntry) (content after : List ℕ) (pos_offset : ℕ)
    → All IsEntry es
    → drop pos_offset content ≡ entries_bytes es ++ after
    → (s : PosIterator) × (new (some content) pos_offset (length es) ≡ some s) × Yields s es
unfolding new open_at seek is_end
new-Yields [] content after pos_offset h at = (blank (opened []) 0, refl, refl)
new-Yields (e ∷ es) content after pos_offset h at =
    let f : InputFile = record { bytes = content; pos = pos_offset; good = true } in
    let named : (length (e ∷ es) == 0) ≡ false = ground arith in
    (
      load_next (blank f (length (e ∷ es))),
      rw named refl,
      load_next-Yields (e ∷ es) (blank f (length (e ∷ es))) after h refl refl at,
    )
