-- ===== src/Examples/Text.antt =====
-- Texts and their terms.
use piggy_engine.Prelude.{ℕ, List, [], ◌∷◌, map, ◌≡◌, ◌≤◌, refl, arith, length}
use piggy_engine.Prelude.Words.{u32, add32}
use piggy_engine.Analysis.Analyzer.{
  is_upper, is_alpha, to_lower, filter_char, char_filter, skip_spaces, run, tokenize_loop, tokenize,
  same_word, is_among, is_stop_word, last_chars, cut, ends_in, cut_or, stem, analyze_loop, analyze,
  query_loop, analyze_query,
}
use piggy_engine.Analysis.StopWords.{stop_words}
use piggy_engine.Analysis.Analyzer.Stem.{IsStem, stem-IsStem}
use piggy_engine.Analysis.Analyzer.Tokens.{words_from, tokenize-words_from}
use piggy_engine.Analysis.Analyzer.Laws.{terms-analyze, positions-analyze, up_from}

-- "The cats, the  Running dog"
abbrev text : List ℕ
text =
    84 ∷ 104 ∷ 101 ∷ 32 ∷ 99 ∷ 97 ∷ 116 ∷ 115 ∷ 44 ∷ 32 ∷ 116 ∷ 104 ∷ 101 ∷ 32 ∷ 32 ∷ 82 ∷ 117 ∷ 110
    ∷ 110 ∷ 105 ∷ 110 ∷ 103 ∷ 32 ∷ 100 ∷ 111 ∷ 103 ∷ []

program : Unit {0}
unfolding is_upper is_alpha to_lower filter_char char_filter skip_spaces run tokenize_loop tokenize
    same_word is_among stop_words is_stop_word last_chars cut ends_in cut_or stem analyze_loop
    analyze query_loop analyze_query add32
program = tt

-- "cat", "runn" and "dog"
text_terms :
    analyze_query text
    ≡ (99 ∷ 97 ∷ 116 ∷ []) ∷ (114 ∷ 117 ∷ 110 ∷ 110 ∷ []) ∷ (100 ∷ 111 ∷ 103 ∷ []) ∷ []
unfolding program
text_terms = refl

terms-analyze_example : map (λ t. t.term) (analyze 5 text) ≡ analyze_query text
terms-analyze_example = terms-analyze 5 text

text_fits : length (analyze 5 text) ≤ u32
unfolding program
text_fits = omega arith

positions-analyze_example :
    map (λ t. t.position) (analyze 5 text) ≡ up_from 0 (length (analyze 5 text))
positions-analyze_example = positions-analyze 5 text text_fits

tokenize-words_from_example : tokenize text ≡ words_from [] text
tokenize-words_from_example = tokenize-words_from text

-- "running"
stem-IsStem_example :
    IsStem
      (114 ∷ 117 ∷ 110 ∷ 110 ∷ 105 ∷ 110 ∷ 103 ∷ [])
      (stem (114 ∷ 117 ∷ 110 ∷ 110 ∷ 105 ∷ 110 ∷ 103 ∷ []))
stem-IsStem_example = stem-IsStem (114 ∷ 117 ∷ 110 ∷ 110 ∷ 105 ∷ 110 ∷ 103 ∷ [])
