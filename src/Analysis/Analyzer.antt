-- ===== src/Analysis/Analyzer.antt =====
-- modules/analysis/src/analyzer.cpp: the pipeline of filters. A string is the list of its bytes;
-- `isalpha` and `tolower` are those of the "C" locale.
pub mod Stem
pub mod Tokens
pub mod Laws
use piggy_engine.Prelude.{
  ℕ, zero, suc, ◌+◌, ◌-◌, ◌%◌, List, [], ◌∷◌, map, Bool, true, false, not, ◌&&◌, ◌||◌,
}
use piggy_engine.Prelude.{if◌then◌else◌, ltb, leb, ◌==◌, length, take, drop}
use piggy_engine.Prelude.Words.{u32, add32}
use piggy_engine.Analysis.StopWords.{stop_words}

-- `Token`
pub record Token : Type 0 where
  pub term : List ℕ
  pub doc_id : ℕ
  pub position : ℕ
  pub start_off : ℕ
  pub end_off : ℕ
  pub field : List ℕ

abbrev pub space : ℕ
space = 32

unfoldable pub is_upper : ℕ → Bool
is_upper c = leb 65 c && leb c 90

unfoldable pub is_alpha : ℕ → Bool
unfolding is_upper
is_alpha c = is_upper c || (leb 97 c && leb c 122)

unfoldable pub to_lower : ℕ → ℕ
unfolding is_upper
to_lower c = if is_upper c then c + 32 else c

unfoldable pub filter_char : ℕ → ℕ
unfolding is_alpha to_lower
filter_char c = if is_alpha c then to_lower c else space

unfoldable pub char_filter : List ℕ → List ℕ
unfolding filter_char
char_filter text = map filter_char text

-- `while (p < end && *p == ' ') ++p`
unfoldable pub skip_spaces : List ℕ → List ℕ
skip_spaces [] = []
skip_spaces (c ∷ cs) = let rest = skip_spaces cs in if c == space then rest else c ∷ cs

-- `while (p < end && *p != ' ') ++p`: what it runs over, and what is left.
unfoldable pub run : List ℕ → List ℕ × List ℕ
run [] = ([], [])
run (c ∷ cs) = let r = run cs in if c == space then ([], c ∷ cs) else (c ∷ r.0, r.1)

-- The outer loop; a round that is not the last one moves on, so the length of the text is enough.
unfoldable pub tokenize_loop : ℕ → List ℕ → List (List ℕ)
tokenize_loop zero p = []
tokenize_loop (suc fuel) p =
    let r = run (skip_spaces p) in
    let later = tokenize_loop fuel r.1 in
    if length p == 0 then [] else if ltb 0 (length r.0) then r.0 ∷ later else later

unfoldable pub tokenize : List ℕ → List (List ℕ)
unfolding tokenize_loop
tokenize text = tokenize_loop (length text) text

unfoldable pub same_word : List ℕ → List ℕ → Bool
same_word [] [] = true
same_word [] (d ∷ ds) = false
same_word (c ∷ cs) [] = false
same_word (c ∷ cs) (d ∷ ds) = c == d && same_word cs ds

unfoldable pub is_among : List ℕ → List (List ℕ) → Bool
is_among term [] = false
is_among term (w ∷ ws) = same_word term w || is_among term ws

unfoldable pub is_stop_word : List ℕ → Bool
unfolding is_among
is_stop_word term = is_among term stop_words

-- `s.substr(s.size() - n)` and `s.substr(0, s.size() - n)`
unfoldable pub last_chars : ℕ → List ℕ → List ℕ
last_chars n s = drop (length s - n) s

unfoldable pub cut : ℕ → List ℕ → List ℕ
cut n s = take (length s - n) s

-- `s.size() > least && s.substr(…) == suffix`
unfoldable pub ends_in : ℕ → List ℕ → List ℕ → Bool
unfolding last_chars
ends_in least suffix s = ltb least (length s) && same_word (last_chars (length suffix) s) suffix

-- `s.empty() ? term : s`, with `s` shortened by `n`
unfoldable pub cut_or : ℕ → List ℕ → List ℕ
unfolding cut
cut_or n s = if length (cut n s) == 0 then s else cut n s

-- The suffixes "ing", "tion", "ness", "ment", "ers", "es", "ed", "ly", "er" and "s".
unfoldable pub stem : List ℕ → List ℕ
stem s =
    if leb (length s) 3
    then s
    else if ends_in 4 (105 ∷ 110 ∷ 103 ∷ []) s
    then cut_or 3 s
    else if ends_in 5 (116 ∷ 105 ∷ 111 ∷ 110 ∷ []) s
    then cut_or 4 s
    else if ends_in 5 (110 ∷ 101 ∷ 115 ∷ 115 ∷ []) s
    then cut_or 4 s
    else if ends_in 5 (109 ∷ 101 ∷ 110 ∷ 116 ∷ []) s
    then cut_or 4 s
    else if ends_in 4 (101 ∷ 114 ∷ 115 ∷ []) s
    then cut 3 s
    else if ends_in 3 (101 ∷ 115 ∷ []) s
    then cut 2 s
    else if ends_in 3 (101 ∷ 100 ∷ []) s
    then cut 2 s
    else if ends_in 3 (108 ∷ 121 ∷ []) s
    then cut 2 s
    else if ends_in 3 (101 ∷ 114 ∷ []) s
    then cut 2 s
    else if ends_in 3 (115 ∷ []) s
    then cut 1 s
    else s

-- The loop of `analyze`, with its `position` and `char_off`.
unfoldable pub analyze_loop : ℕ → ℕ → ℕ → List (List ℕ) → List Token
unfolding is_stop_word stem
analyze_loop doc_id position char_off [] = []
analyze_loop doc_id position char_off (raw ∷ raws) =
    let word_end = add32 char_off (length raw % u32) in
    let after = add32 word_end 1 in
    let skipped = analyze_loop doc_id position char_off raws in
    let stopped = analyze_loop doc_id position after raws in
    let later = analyze_loop doc_id (add32 position 1) after raws in
    let tok : Token = record {
      term = stem raw;
      doc_id = doc_id;
      position = position;
      start_off = char_off;
      end_off = word_end;
      field = [];
    } in
    if length raw == 0
    then skipped
    else if is_stop_word raw
    then stopped
    else if length (stem raw) == 0
    then skipped
    else tok ∷ later

unfoldable pub analyze : ℕ → List ℕ → List Token
unfolding char_filter tokenize analyze_loop
analyze doc_id text = analyze_loop doc_id 0 0 (tokenize (char_filter text))

unfoldable pub query_loop : List (List ℕ) → List (List ℕ)
unfolding is_stop_word stem
query_loop [] = []
query_loop (raw ∷ raws) =
    let later = query_loop raws in
    if length raw == 0 || is_stop_word raw
    then later
    else if ltb 0 (length (stem raw))
    then stem raw ∷ later
    else later

unfoldable pub analyze_query : List ℕ → List (List ℕ)
unfolding char_filter tokenize query_loop
analyze_query query = query_loop (tokenize (char_filter query))
