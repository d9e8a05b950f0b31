-- ===== src/Analysis/StopWords.antt =====
-- The words of the table `stop_words_` (modules/analysis/src/analyzer.cpp), as ASCII codes.
use piggy_engine.Prelude.{ℕ, List, [], ◌∷◌}

unfoldable pub stop_words : List (List ℕ)
stop_words =
    (97 ∷ [])
    ∷ (97 ∷ 110 ∷ [])
    ∷ (116 ∷ 104 ∷ 101 ∷ [])
    ∷ (97 ∷ 110 ∷ 100 ∷ [])
    ∷ (111 ∷ 114 ∷ [])
    ∷ (98 ∷ 117 ∷ 116 ∷ [])
    ∷ (105 ∷ 110 ∷ [])
    ∷ (111 ∷ 110 ∷ [])
    ∷ (97 ∷ 116 ∷ [])
    ∷ (116 ∷ 111 ∷ [])
    ∷ (102 ∷ 111 ∷ 114 ∷ [])
    ∷ (111 ∷ 102 ∷ [])
    ∷ (119 ∷ 105 ∷ 116 ∷ 104 ∷ [])
    ∷ (98 ∷ 121 ∷ [])
    ∷ (102 ∷ 114 ∷ 111 ∷ 109 ∷ [])
    ∷ (105 ∷ 115 ∷ [])
    ∷ (97 ∷ 114 ∷ 101 ∷ [])
    ∷ (119 ∷ 97 ∷ 115 ∷ [])
    ∷ (119 ∷ 101 ∷ 114 ∷ 101 ∷ [])
    ∷ (98 ∷ 101 ∷ [])
    ∷ (98 ∷ 101 ∷ 101 ∷ 110 ∷ [])
    ∷ (98 ∷ 101 ∷ 105 ∷ 110 ∷ 103 ∷ [])
    ∷ (104 ∷ 97 ∷ 118 ∷ 101 ∷ [])
    ∷ (104 ∷ 97 ∷ 115 ∷ [])
    ∷ (104 ∷ 97 ∷ 100 ∷ [])
    ∷ (100 ∷ 111 ∷ [])
    ∷ (100 ∷ 111 ∷ 101 ∷ 115 ∷ [])
    ∷ (100 ∷ 105 ∷ 100 ∷ [])
    ∷ (119 ∷ 105 ∷ 108 ∷ 108 ∷ [])
    ∷ (119 ∷ 111 ∷ 117 ∷ 108 ∷ 100 ∷ [])
    ∷ (99 ∷ 111 ∷ 117 ∷ 108 ∷ 100 ∷ [])
    ∷ (115 ∷ 104 ∷ 111 ∷ 117 ∷ 108 ∷ 100 ∷ [])
    ∷ (109 ∷ 97 ∷ 121 ∷ [])
    ∷ (109 ∷ 105 ∷ 103 ∷ 104 ∷ 116 ∷ [])
    ∷ (115 ∷ 104 ∷ 97 ∷ 108 ∷ 108 ∷ [])
    ∷ (99 ∷ 97 ∷ 110 ∷ [])
    ∷ (116 ∷ 104 ∷ 105 ∷ 115 ∷ [])
    ∷ (116 ∷ 104 ∷ 97 ∷ 116 ∷ [])
    ∷ (116 ∷ 104 ∷ 101 ∷ 115 ∷ 101 ∷ [])
    ∷ (116 ∷ 104 ∷ 111 ∷ 115 ∷ 101 ∷ [])
    ∷ (105 ∷ 116 ∷ [])
    ∷ (105 ∷ 116 ∷ 115 ∷ [])
    ∷ (105 ∷ [])
    ∷ (109 ∷ 121 ∷ [])
    ∷ (119 ∷ 101 ∷ [])
    ∷ (111 ∷ 117 ∷ 114 ∷ [])
    ∷ (121 ∷ 111 ∷ 117 ∷ [])
    ∷ (121 ∷ 111 ∷ 117 ∷ 114 ∷ [])
    ∷ (104 ∷ 101 ∷ [])
    ∷ (104 ∷ 105 ∷ 115 ∷ [])
    ∷ (115 ∷ 104 ∷ 101 ∷ [])
    ∷ (104 ∷ 101 ∷ 114 ∷ [])
    ∷ (116 ∷ 104 ∷ 101 ∷ 121 ∷ [])
    ∷ (116 ∷ 104 ∷ 101 ∷ 105 ∷ 114 ∷ [])
    ∷ (110 ∷ 111 ∷ 116 ∷ [])
    ∷ (110 ∷ 111 ∷ [])
    ∷ (115 ∷ 111 ∷ [])
    ∷ (105 ∷ 102 ∷ [])
    ∷ (97 ∷ 115 ∷ [])
    ∷ (117 ∷ 112 ∷ [])
    ∷ (111 ∷ 117 ∷ 116 ∷ [])
    ∷ (97 ∷ 98 ∷ 111 ∷ 117 ∷ 116 ∷ [])
    ∷ (105 ∷ 110 ∷ 116 ∷ 111 ∷ [])
    ∷ (116 ∷ 104 ∷ 97 ∷ 110 ∷ [])
    ∷ (116 ∷ 104 ∷ 101 ∷ 110 ∷ [])
    ∷ (116 ∷ 104 ∷ 101 ∷ 114 ∷ 101 ∷ [])
    ∷ (119 ∷ 104 ∷ 101 ∷ 110 ∷ [])
    ∷ (119 ∷ 104 ∷ 101 ∷ 114 ∷ 101 ∷ [])
    ∷ (119 ∷ 104 ∷ 105 ∷ 99 ∷ 104 ∷ [])
    ∷ (119 ∷ 104 ∷ 111 ∷ [])
    ∷ (104 ∷ 111 ∷ 119 ∷ [])
    ∷ (97 ∷ 108 ∷ 108 ∷ [])
    ∷ (97 ∷ 110 ∷ 121 ∷ [])
    ∷ (101 ∷ 97 ∷ 99 ∷ 104 ∷ [])
    ∷ (98 ∷ 111 ∷ 116 ∷ 104 ∷ [])
    ∷ (109 ∷ 111 ∷ 114 ∷ 101 ∷ [])
    ∷ []
