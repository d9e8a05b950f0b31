-- ===== src/Query/Parser/Laws.antt =====
-- Tokens of a query string, read back, and what the parser makes of a list of them.
use piggy_engine.Prelude.{
  ℕ, ◌+◌, ◌≤◌, List, [], ◌∷◌, ◌++◌, true, false, some, ◌≡◌, ◌≢◌, refl, sym, ap, ◌∙◌, arith,
}
use piggy_engine.Prelude.{
  length, take, drop, ltb, ◌==◌, All, length-append, take-append_length, lt→ltb, drop-drop,
  drop-append_length, append-nil, append_assoc,
}
use piggy_engine.Query.Boolean.{Occur, must, should, must_not, sign}
use piggy_engine.Query.Parser.{
  ParsedToken, plus, minus, colon, find_byte, one_further, split_sign, split_field, parse_token,
  is_space, words_from,
}

-- A token as one writes it: the sign of the occurrence, the field and a colon, and the term.
abbrev pub written : ParsedToken → List ℕ
written pt = sign pt.occur ++ (pt.field ++ colon ∷ pt.raw_term)

-- the occurrence that a token with the sign of `occur` gets
unfoldable pub or_default : Occur → Occur → Occur
or_default must default_occur = must
or_default should default_occur = default_occur
or_default must_not default_occur = must_not

find_byte-append :
    (c : ℕ) (xs ys : List ℕ) → All (λ x. x ≢ c) xs → find_byte c (xs ++ c ∷ ys) ≡ some (length xs)
unfolding find_byte one_further
find_byte-append c [] ys h = ground arith
find_byte-append c (x ∷ xs) ys h =
    let other : (x == c) ≡ false = ground (arith, h.0) in
    let ih = find_byte-append c xs ys h.1 in rw (other, ih) (ap some (omega arith))

split_field-at :
    (occur : Occur) (xs : List ℕ) (t : ℕ) (ts : List ℕ)
    → 1 ≤ length xs
    → split_field occur (xs ++ colon ∷ t ∷ ts) (some (length xs))
      ≡ record { occur = occur; field = xs; raw_term = t ∷ ts }
unfolding split_field
split_field-at occur xs t ts some_bytes =
    let body = xs ++ colon ∷ t ∷ ts in
    let first : ltb 0 (length xs) ≡ true = lt→ltb 0 (length xs) (omega arith) in
    let inside : ltb (length xs + 1) (length body) ≡ true =
      lt→ltb (length xs + 1) (length body) (omega (arith, length-append xs (colon ∷ t ∷ ts))) in
    let before : take (length xs) body ≡ xs = take-append_length xs (colon ∷ t ∷ ts) in
    let after : drop (length xs + 1) body ≡ t ∷ ts =
      sym (drop-drop (length xs) 1 body) ∙ ap (drop 1) (drop-append_length xs (colon ∷ t ∷ ts)) in
    rw (first, inside, before, after) refl

split_field_lem :
    (occur : Occur) (xs : List ℕ) (t : ℕ) (ts : List ℕ)
    → 1 ≤ length xs
    → All (λ x. x ≢ colon) xs
    → split_field occur (xs ++ colon ∷ t ∷ ts) (find_byte colon (xs ++ colon ∷ t ∷ ts))
      ≡ record { occur = occur; field = xs; raw_term = t ∷ ts }
split_field_lem occur xs t ts some_bytes h =
    ap (split_field occur (xs ++ colon ∷ t ∷ ts)) (find_byte-append colon xs (t ∷ ts) h)
    ∙ split_field-at occur xs t ts some_bytes

-- `parseToken` reads back the occurrence, the field and the term of a token `+field:term`,
-- `-field:term` or `field:term` whose field is not empty, has no colon and begins with no sign, and
-- whose term is not empty, whatever bytes the term has; with no sign it takes the default.
pub parse_token-written :
    (occur default_occur : Occur) (f : ℕ) (fs : List ℕ) (t : ℕ) (ts : List ℕ)
    → All (λ x. x ≢ colon) (f ∷ fs)
    → f ≢ plus
    → f ≢ minus
    → parse_token
        (written (record { occur = occur; field = f ∷ fs; raw_term = t ∷ ts }))
        default_occur
      ≡ record { occur = or_default occur default_occur; field = f ∷ fs; raw_term = t ∷ ts }
unfolding parse_token split_sign sign or_default
parse_token-written must default_occur f fs t ts h p m =
    split_field_lem must (f ∷ fs) t ts (omega arith) h
parse_token-written should default_occur f fs t ts h p m =
    let not_plus : (f == plus) ≡ false = ground (arith, p) in
    let not_minus : (f == minus) ≡ false = ground (arith, m) in
    rw (not_plus, not_minus) (split_field_lem default_occur (f ∷ fs) t ts (omega arith) h)
parse_token-written must_not default_occur f fs t ts h p m =
    split_field_lem must_not (f ∷ fs) t ts (omega arith) h

-- words with a space behind each
unfoldable pub unwords : List (List ℕ) → List ℕ
unwords [] = []
unwords (w ∷ ws) = w ++ 32 ∷ unwords ws

abbrev pub IsWord : List ℕ → Type 0
IsWord w = (1 ≤ length w) × All (λ c. is_space c ≡ false) w

words_from-word :
    (w word rest : List ℕ)
    → 1 ≤ length (word ++ w)
    → All (λ c. is_space c ≡ false) w
    → words_from (w ++ 32 ∷ rest) word ≡ (word ++ w) ∷ words_from rest []
unfolding words_from
words_from-word [] word rest some_bytes h =
    let none_lost : word ++ [] ≡ word = append-nil word in
    let read_some : (length word == 0) ≡ false = ground (arith, some_bytes, ap length none_lost) in
    rw (read_some, none_lost) refl
words_from-word (c ∷ cs) word rest some_bytes h =
    let one_more : (word ++ c ∷ []) ++ cs ≡ word ++ c ∷ cs = append_assoc word (c ∷ []) cs in
    rw h.0 (
      words_from-word cs (word ++ c ∷ []) rest
        (omega (arith, length-append (word ++ c ∷ []) cs, length-append word (c ∷ []))) h.1
      ∙ ap (λ (l : List ℕ). l ∷ words_from rest []) one_more)

-- The tokens that the parser reads from words without white space, written with a space behind each,
-- are these words, in order.
pub words_from-unwords : (ws : List (List ℕ)) → All IsWord ws → words_from (unwords ws) [] ≡ ws
unfolding unwords
words_from-unwords [] h = unfold words_from in refl
words_from-unwords (w ∷ ws) h =
    words_from-word w [] (unwords ws) h.0.0 h.0.1
    ∙ ap (λ (l : List (List ℕ)). w ∷ l) (words_from-unwords ws h.1)
